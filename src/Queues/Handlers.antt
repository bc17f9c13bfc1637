-- ===== src/Queues/Handlers.antt =====
-- The queues under `RemoveClient` and the handlers of server/commands.go.
use nvda_remote_server.Common.{
  ℕ, ◌≡◌, refl, codes, Option, none, some, List, [], Bytes, update, either_branch, ◌==◌, bytes_eq,
  nat_eq, Outcome, ok, panic, ◌>>=◌, Option-cases, Bool-cases, inl, inr,
}
use nvda_remote_server.Common.Int.{int_eq, int_leb, pos}
use nvda_remote_server.GoMap.{get, delete}
use nvda_remote_server.Protocol.{Data}
use nvda_remote_server.Client.{Outbox, close, close_gracefully}
use nvda_remote_server.Channel.{get_channel_params, ChannelParams}
use nvda_remote_server.World.{set_connection_type, find_channel, World, Outboxes}
use nvda_remote_server.Membership.{remove, remove_client}
use nvda_remote_server.Commands.{
  Command, join, protocol_version, generate_key, close_client, send_error, enter_channel, exec_join,
  exec_join_free, exec_protocol_version, exec_generate_key, exec, cmd_exec, command, error_data,
  key_data,
}
use nvda_remote_server.Keys.{gen_key}
use nvda_remote_server.Server.{disconnect}
use nvda_remote_server.Invariant.Steps.{GenKey-cases, exec_generate_key_lem, told}
use nvda_remote_server.Queues.{QueueLaws, AllKept, update-AllKept, send_to_client-AllKept}
use nvda_remote_server.Queues.Channels.{
  Served, ok-Served, add-Served, add_channel-Served, remove-AllKept,
}

abbrev pub forget : ℕ → World → World
forget r u = elim (get r u.clients) [
  | none ↦ u
  | some _ ↦ record u { registry = record u.registry { clients = delete r u.clients } }
]

module _ (k : QueueLaws) where
  pub remove_client-AllKept :
      (r : ℕ) (w : World) → AllKept k w.outbox → AllKept k (remove_client k.conf r w).outbox
  unfolding remove_client
  remove_client-AllKept r w v =
      forgotten (departed (w.client_at r).channel) (departed-AllKept (w.client_at r).channel)
    where
      departed : Option ℕ → World
      departed c = elim c [ none ↦ w | some h ↦ remove k.conf h r w ]

      departed-AllKept : (c : Option ℕ) → AllKept k (departed c).outbox
      departed-AllKept none = v
      departed-AllKept (some h) = remove-AllKept k h r w v

      forgotten : (u : World) → AllKept k u.outbox → AllKept k (forget r u).outbox
      forgotten u h = elim (Option-cases (get r u.clients)) [
        | inl e ↦ rw (e, forget) h
        | inr (s, e) ↦ rw (e, forget) h
      ]

  pub close_client-AllKept :
      (r : ℕ) (w : World) → AllKept k w.outbox → AllKept k (close_client r w).outbox
  unfolding close_client
  close_client-AllKept r w v =
      update-AllKept k w.outbox r (close (w.outbox r)) v (k.closing (w.outbox r) (v r))

  pub disconnect-AllKept :
      (r : ℕ) (w : World) → AllKept k w.outbox → AllKept k (disconnect k.conf r w).outbox
  unfolding disconnect
  disconnect-AllKept r w v = remove_client-AllKept r (close_client r w) (close_client-AllKept r w v)

  pub send_error-AllKept :
      (r : ℕ) (kind : Bytes) (w : World)
      → AllKept k w.outbox
      → AllKept k (send_error k.conf r kind w).outbox
  unfolding send_error
  send_error-AllKept r kind w v = send_to_client-AllKept k r (error_data kind) w.outbox v

  pub enter_channel-Served :
      (r : ℕ) (params : ChannelParams) (w : World)
      → AllKept k w.outbox
      → Served k (enter_channel k.conf r params w)
  unfolding enter_channel
  enter_channel-Served r params w v = elim (Option-cases (find_channel params.name w)) [
    | inl e ↦
        rw (e, enter_channel) (add_channel-Served k params.name params.password params.locked r w v)
    | inr (h, e) ↦ rw (e, enter_channel) (add-Served k h r params.password w v)
  ]

  pub exec_join_free-Served :
      (r : ℕ) (db : Data) (w : World) → AllKept k w.outbox → Served k (exec_join_free k.conf r db w)
  unfolding exec_join_free
  exec_join_free-Served r db w v =
      let params = get_channel_params db.channel in
      let typed : World = record w {
        registry = set_connection_type r db.connection_type w.registry;
      } in
      let refused = send_error k.conf r (codes "invalid_parameters") w in
      either_branch {x = ok (close_client r refused)} {y = enter_channel k.conf r params typed}
        (Served k) (params.name == [])
        (λ _.
          ok-Served k (close_client r refused) (
            close_client-AllKept r refused (send_error-AllKept r (codes "invalid_parameters") w v)))
        (λ _. enter_channel-Served r params typed v)

  pub exec_join-Served :
      (r : ℕ) (db : Data) (w : World) → AllKept k w.outbox → Served k (exec_join k.conf r db w)
  unfolding exec_join
  exec_join-Served r db w v = elim (Option-cases (w.client_at r).channel) [
    | inl e ↦ rw (e, exec_join) (exec_join_free-Served r db w v)
    | inr (h, e) ↦
        rw (e, exec_join) (ok-Served k _ (send_error-AllKept r (codes "already_joined") w v))
  ]

  pub exec_protocol_version-AllKept :
      (r : ℕ) (db : Data) (w : World)
      → AllKept k w.outbox
      → AllKept k (exec_protocol_version r db w).outbox
  unfolding exec_protocol_version
  exec_protocol_version-AllKept r db w v =
      either_branch (λ (u : World). AllKept k u.outbox) (int_leb db.version (pos 0)) (λ _. v)
        (λ _. v)

  pub put_back-Served :
      (r : ℕ) (w : World) (o : Outboxes) (b : Outcome Outbox)
      → AllKept k o
      → close_gracefully (o r) ≡ b
      → Served k (b >>= λ u. ok (record w { outbox = update o r u }))
  put_back-Served r w o (ok u) v e =
      ok-Served k _ (update-AllKept k o r u v (k.ending (o r) u (v r) e))
  put_back-Served r w o panic v e = λ w' f. cc

  pub exec_generate_key-Served :
      (r : ℕ) (reads : List (Option Bytes)) (w : World)
      → AllKept k w.outbox
      → Served k (exec_generate_key k.conf r reads w)
  unfolding exec_generate_key
  exec_generate_key-Served r reads w v = elim (GenKey-cases (gen_key w.registry reads)) [
    | inl (inl e) ↦
        rw (e, exec_generate_key) (ok-Served k (close_client r w) (close_client-AllKept r w v))
    | inl (inr e) ↦ rw (e, exec_generate_key) (ok-Served k w v)
    | inr (key, e) ↦ rw (exec_generate_key_lem k.conf r reads w key e) (
        put_back-Served r w (told k.conf r key w) (close_gracefully (told k.conf r key w r))
          (send_to_client-AllKept k r (key_data key) w.outbox v) refl)
  ]

  pub exec-Served :
      (r : ℕ) (cmd : Command) (db : Data) (reads : List (Option Bytes)) (w : World)
      → AllKept k w.outbox
      → Served k (exec k.conf r cmd db reads w)
  unfolding exec
  exec-Served r join db reads w v = exec_join-Served r db w v
  exec-Served r protocol_version db reads w v =
      ok-Served k (exec_protocol_version r db w) (exec_protocol_version-AllKept r db w v)
  exec-Served r generate_key db reads w v = exec_generate_key-Served r reads w v

  pub cmd_exec-Served :
      (r : ℕ) (db : Data) (reads : List (Option Bytes)) (w : World)
      → AllKept k w.outbox
      → Served k (cmd_exec k.conf r db reads w)
  unfolding cmd_exec
  cmd_exec-Served r db reads w v = elim (Bool-cases (db.type == [])) [
    | inl e ↦ rw (e, cmd_exec) (ok-Served k w v)
    | inr e ↦
        rw (e, cmd_exec)
          (elim (Option-cases (get db.type command)) [
            | inl f ↦ rw f (ok-Served k w v)
            | inr (cmd, f) ↦ rw f (exec-Served r cmd db reads w v)
          ])
  ]
