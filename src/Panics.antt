-- ===== src/Panics.antt =====
-- Which messages can make the server panic: in a well-formed server only a `generate_key` whose sender's
-- queue is closed already (server/commands.go and `CloseGracefully` of server/client.go).
use nvda_remote_server.Common.{
  ℕ, ◌≡◌, ◌≢◌, refl, sym, ap, ◌∙◌, Option, some, List, [], ◌∷◌, Bytes, bytes_beq, codes, nat_eq,
  bytes_eq, arith, update, true, false, inl, inr, Bool-cases, Option-cases, ◌==◌, Outcome, ok,
  panic, ◌>>=◌,
}
use nvda_remote_server.Common.Int.{int_eq}
use nvda_remote_server.GoMap.{put, get}
use nvda_remote_server.Protocol.{Data}
use nvda_remote_server.World.{World, Settings, find_client}
use nvda_remote_server.Commands.{
  command, key_data, Command, join, protocol_version, generate_key, exec_generate_key, exec,
  cmd_exec,
}
use nvda_remote_server.Server.{message_received}
use nvda_remote_server.Invariant.{IsWellFormed}
use nvda_remote_server.Invariant.Joining.{Joins}
use nvda_remote_server.Invariant.History.{found_here}
use nvda_remote_server.Invariant.Steps.{
  exec_join-Joins, Outcome-cases, GenKey-cases, exec_generate_key_lem, told,
}
use nvda_remote_server.Client.{Outbox, close_gracefully, send}
use nvda_remote_server.Client.Send.{close_gracefully_open}
use nvda_remote_server.Relay.{send_to_client}
use nvda_remote_server.Relay.Delivery.{send_to_client-closed}
use nvda_remote_server.Keys.{gen_key, generated}

exec_generate_key-ne-panic :
    (conf : Settings) (r : ℕ) (reads : List (Option Bytes)) (w : World)
    → (w.outbox r).closed ≡ false
    → exec_generate_key conf r reads w ≢ panic
unfolding exec_generate_key
exec_generate_key-ne-panic conf r reads w opened = elim (GenKey-cases (gen_key w.registry reads)) [
  | inl (inl e) ↦ rw (e, exec_generate_key) (λ p. cc)
  | inl (inr e) ↦ rw (e, exec_generate_key) (λ p. cc)
  | inr (key, e) ↦
      rw (exec_generate_key_lem conf r reads w key e)
        (elim (Outcome-cases (close_gracefully (told conf r key w r))) [
          | inl f ↦ absurd (close_gracefully_open (told conf r key w r) (told_open key) f)
          | inr (o, f) ↦ rw f (λ p. cc)
        ])
]
  where
    told_open : (key : Bytes) → (told conf r key w r).closed ≡ false
    told_open key = send_to_client-closed conf.codec r (key_data key) w.outbox ∙ opened

Joins-ne-panic : (o : Outcome World) → Joins o → o ≢ panic
Joins-ne-panic o (w, e, v) p = clash (sym e ∙ p)
  where
    clash : {w : World} → ok w ≡ panic → ⊥
    clash e = cc

exec-ne-panic :
    (conf : Settings) (r : ℕ) (cmd : Command) (db : Data) (reads : List (Option Bytes)) (w : World)
    → IsWellFormed w.registry
    → get r w.clients ≡ some tt
    → (w.outbox r).closed ≡ false
    → exec conf r cmd db reads w ≢ panic
unfolding exec
exec-ne-panic conf r join db reads w v here opened =
    Joins-ne-panic _ (exec_join-Joins conf r db w v here)
exec-ne-panic conf r protocol_version db reads w v here opened = λ p. cc
exec-ne-panic conf r generate_key db reads w v here opened =
    exec_generate_key-ne-panic conf r reads w opened

cmd_exec-ne-panic :
    (conf : Settings) (r : ℕ) (db : Data) (reads : List (Option Bytes)) (w : World)
    → IsWellFormed w.registry
    → get r w.clients ≡ some tt
    → (w.outbox r).closed ≡ false
    → cmd_exec conf r db reads w ≢ panic
unfolding cmd_exec
cmd_exec-ne-panic conf r db reads w v here opened = elim (Bool-cases (db.type == [])) [
  | inl e ↦ rw (e, cmd_exec) (λ p. cc)
  | inr e ↦
      rw (e, cmd_exec)
        (elim (Option-cases (get db.type command)) [
          | inl f ↦ rw f (λ p. cc)
          | inr (cmd, f) ↦ rw f (exec-ne-panic conf r cmd db reads w v here opened)
        ])
]

-- In a well-formed server no message of a client whose queue is open makes the process panic,
-- whatever the message and whatever the random generator returns.
pub message_received-ne-panic :
    (conf : Settings) (r : ℕ) (pmsg : Bytes) (reads : List (Option Bytes)) (w : World)
    → IsWellFormed w.registry
    → (w.outbox r).closed ≡ false
    → message_received conf r pmsg reads w ≢ panic
unfolding message_received
message_received-ne-panic conf r pmsg reads w v opened = elim (Bool-cases (find_client r w)) [
  | inr e ↦ rw (e, message_received) (λ p. cc)
  | inl e ↦
      rw (e, message_received)
        (elim (Option-cases (w.client_at r).channel) [
          | inr (h, f) ↦ rw f (λ p. cc)
          | inl f ↦ rw f (elim (Option-cases (conf.decode pmsg)) [
            | inl d ↦ rw d (λ p. cc)
            | inr (db, d) ↦ rw d (cmd_exec-ne-panic conf r db reads w v (found_here r w e) opened)
          ])
        ])
]

send_closed_twice :
    (b : Bytes) (o : Outbox)
    → b ≢ []
    → o.cancelled ≡ true
    → o.closed ≡ true
    → o.picks 1 ≡ true
    → close_gracefully (send b o) ≡ panic
unfolding send close_gracefully
send_closed_twice [] o ne done closed pick = absurd (ne refl)
send_closed_twice (x ∷ b) o ne done closed pick = ground arith

told_at :
    (conf : Settings) (r : ℕ) (w : World) (key enc : Bytes)
    → conf.encode (key_data key) ≡ some enc
    → told conf r key w r ≡ send enc (w.outbox r)
unfolding send_to_client
told_at conf r w key enc e = rw (e, send_to_client) (ground arith)

-- If a `generate_key` is handled after the client's context is done and its queue closed, a key is
-- generated and encoded, and the `select` of `CloseGracefully` picks the send, then it panics.
pub generate_key_panics :
    (conf : Settings) (r : ℕ) (db : Data) (reads : List (Option Bytes)) (w : World)
    (key enc : Bytes)
    → db.type ≡ codes "generate_key"
    → gen_key w.registry reads ≡ generated key
    → conf.encode (key_data key) ≡ some enc
    → (w.outbox r).cancelled ≡ true
    → (w.outbox r).closed ≡ true
    → (w.outbox r).picks 1 ≡ true
    → cmd_exec conf r db reads w ≡ panic
unfolding cmd_exec command put get exec bytes_beq
generate_key_panics conf r db reads w key enc type generates encoded done closed pick =
    rw (type, cmd_exec)
      (exec_generate_key_lem conf r reads w key generates
        ∙ ap
            (λ (o : Outcome Outbox).
              o >>= λ o'. ok (record w { outbox = update (told conf r key w) r o' }))
            (ap close_gracefully (told_at conf r w key enc encoded)
              ∙ send_closed_twice enc (w.outbox r) (conf.encode-ne-nil (key_data key) enc encoded)
                  done closed pick))
