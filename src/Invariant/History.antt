-- ===== src/Invariant/History.antt =====
-- Histories of the server: every event keeps the maps and pointers well formed, and the cases in which
-- an event can panic.
use nvda_remote_server.Common.{
  ℕ, ◌≡◌, refl, Option, some, List, [], ◌∷◌, Bytes, nat_eq, bytes_eq, true, false, inl, inr,
  Bool-cases, Option-cases, ◌==◌, ok,
}
use nvda_remote_server.Common.Int.{int_eq}
use nvda_remote_server.GoMap.{get}
use nvda_remote_server.Protocol.{Data}
use nvda_remote_server.Channel.{members}
use nvda_remote_server.World.{start, World, Settings, find_client}
use nvda_remote_server.Commands.{command, cmd_exec}
use nvda_remote_server.Server.{
  disconnect, relay, message_received, Event, connects, sends, disconnects, takes, pings, ends,
  closes, step, run,
}
use nvda_remote_server.Invariant.{IsWellFormed}
use nvda_remote_server.Invariant.Steps.{Keeps, ok-Keeps, exec-Keeps, Outcome-cases}
use nvda_remote_server.Invariant.Clients.{add_client-IsWellFormed, remove_client-IsWellFormed}

pub found_here : (r : ℕ) (w : World) → find_client r w ≡ true → get r w.clients ≡ some tt
unfolding find_client
found_here r w h = elim (Option-cases (get r w.clients)) [
  | inl e ↦ clash (rw (e, find_client) at h)
  | inr (u, e) ↦ e
]
  where
    clash : {P : Type 0} → false ≡ true → P
    clash e = cc

cmd_exec-Keeps :
    (conf : Settings) (r : ℕ) (db : Data) (reads : List (Option Bytes)) (w : World)
    → IsWellFormed w.registry
    → get r w.clients ≡ some tt
    → Keeps (cmd_exec conf r db reads w)
unfolding cmd_exec
cmd_exec-Keeps conf r db reads w v here = elim (Bool-cases (db.type == [])) [
  | inl e ↦ rw (e, cmd_exec) (ok-Keeps w v)
  | inr e ↦
      rw (e, cmd_exec)
        (elim (Option-cases (get db.type command)) [
          | inl f ↦ rw f (ok-Keeps w v)
          | inr (cmd, f) ↦ rw f (exec-Keeps conf r cmd db reads w v here)
        ])
]

pub relay_registry : (r h : ℕ) (pmsg : Bytes) (w : World) → (relay r h pmsg w).registry ≡ w.registry
unfolding relay
relay_registry r h pmsg w = refl

message_received-Keeps :
    (conf : Settings) (r : ℕ) (pmsg : Bytes) (reads : List (Option Bytes)) (w : World)
    → IsWellFormed w.registry
    → Keeps (message_received conf r pmsg reads w)
unfolding message_received disconnect
message_received-Keeps conf r pmsg reads w v = elim (Bool-cases (find_client r w)) [
  | inr e ↦ rw (e, message_received) (ok-Keeps _ (remove_client-IsWellFormed conf r _ v))
  | inl e ↦
      rw (e, message_received)
        (elim (Option-cases (w.client_at r).channel) [
          | inr (h, f) ↦ rw f (ok-Keeps _ (rw (relay_registry r h pmsg w) v))
          | inl f ↦ rw f (elim (Option-cases (conf.decode pmsg)) [
            | inl d ↦ rw d (ok-Keeps w v)
            | inr (db, d) ↦ rw d (cmd_exec-Keeps conf r db reads w v (found_here r w e))
          ])
        ])
]

-- Every event that does not panic keeps the maps and pointers well formed.
pub step-IsWellFormed :
    (conf : Settings) (e : Event) (w : World) → IsWellFormed w.registry → Keeps (step conf e w)
unfolding step disconnect
step-IsWellFormed conf (connects ip picks) w v = ok-Keeps _ (add_client-IsWellFormed ip picks w v)
step-IsWellFormed conf (sends r pmsg reads) w v = message_received-Keeps conf r pmsg reads w v
step-IsWellFormed conf (disconnects r) w v = ok-Keeps _ (remove_client-IsWellFormed conf r _ v)
step-IsWellFormed conf (takes r) w v = ok-Keeps _ v
step-IsWellFormed conf (pings r) w v = ok-Keeps _ v
step-IsWellFormed conf (ends r) w v = ok-Keeps _ v
step-IsWellFormed conf (closes r) w v = ok-Keeps _ v

pub start-IsWellFormed : IsWellFormed start.registry
unfolding members get
start-IsWellFormed = record {
  linked = record {
    mapped = λ h. tt;
    named = λ n h e. cc;
    entered = λ n h e. cc;
    joined = λ r h e. cc;
    registered = λ r h e. cc;
    back = λ h i r e. cc;
    back_id = λ h i r e. cc;
    known = λ r h e. cc;
    allocated = λ r e. cc;
    fresh_client = λ r e. refl;
    fresh_channel = λ h e. refl;
  };
  populated = λ n h e. cc;
}

run-Keeps :
    (conf : Settings) (es : List Event) (w : World)
    → IsWellFormed w.registry
    → Keeps (run conf es w)
unfolding run
run-Keeps conf [] w v = ok-Keeps w v
run-Keeps conf (e ∷ es) w v = elim (Outcome-cases (step conf e w)) [
  | inl f ↦ rw (f, run) (λ w' g. cc)
  | inr (w', f) ↦ rw (f, run) (run-Keeps conf es w' (step-IsWellFormed conf e w v w' f))
]

-- After any history of the server from its start that does not panic, the maps and pointers are well
-- formed: clients and channels point at each other, under the right ids and names, and no channel
-- that a name finds is empty.
pub run-IsWellFormed :
    (conf : Settings) (es : List Event) (w : World)
    → run conf es start ≡ ok w
    → IsWellFormed w.registry
run-IsWellFormed conf es w e = run-Keeps conf es start start-IsWellFormed w e
