-- ===== src/Queues/History.antt =====
-- The queues in every history of the server (server/server.go).
use nvda_remote_server.Common.{
  ℕ, Bool, false, Option, List, [], ◌∷◌, Bytes, bytes_eq, nat_eq, Option-cases, Bool-cases, inl,
  inr, All,
}
use nvda_remote_server.Common.Int.{int_eq}
use nvda_remote_server.Client.{Outbox, close, teardown, ping, ping_msg}
use nvda_remote_server.Channel.{members}
use nvda_remote_server.World.{find_client, World, new_outbox, start, add_client}
use nvda_remote_server.Server.{
  disconnect, relay, message_received, take_message, at_outbox, Event, connects, sends, disconnects,
  takes, pings, ends, closes, step, run,
}
use nvda_remote_server.Queues.{QueueLaws, AllKept, update-AllKept, relayed_by-AllKept}
use nvda_remote_server.Queues.Channels.{Served, ok-Served, then-Served}
use nvda_remote_server.Queues.Handlers.{disconnect-AllKept, cmd_exec-Served}

-- If the event is a message of a client, then the message is allowed.
abbrev pub Sends : (Bytes → Type 0) → Event → Type 0
Sends allows (sends r pmsg reads) = allows pmsg
Sends allows _ = Unit

module _ (k : QueueLaws) where
  relay-AllKept :
      (r h : ℕ) (pmsg : Bytes) (w : World)
      → k.allows pmsg
      → AllKept k w.outbox
      → AllKept k (relay r h pmsg w).outbox
  unfolding relay
  relay-AllKept r h pmsg w a v =
      relayed_by-AllKept k (members (w.channel_at h)) r pmsg w.outbox (w.client_at r).id a v

  message_received-Served :
      (r : ℕ) (pmsg : Bytes) (reads : List (Option Bytes)) (w : World)
      → k.allows pmsg
      → AllKept k w.outbox
      → Served k (message_received k.conf r pmsg reads w)
  unfolding message_received
  message_received-Served r pmsg reads w a v = elim (Bool-cases (find_client r w)) [
    | inr e ↦
        rw (e, message_received) (ok-Served k (disconnect k.conf r w) (disconnect-AllKept k r w v))
    | inl e ↦
        rw (e, message_received)
          (elim (Option-cases (w.client_at r).channel) [
            | inr (h, f) ↦ rw f (ok-Served k (relay r h pmsg w) (relay-AllKept r h pmsg w a v))
            | inl f ↦ rw f (elim (Option-cases (k.conf.decode pmsg)) [
              | inl d ↦ rw d (ok-Served k w v)
              | inr (db, d) ↦ rw d (cmd_exec-Served k r db reads w v)
            ])
          ])
  ]

  add_client-AllKept :
      (ip : Bytes) (picks : ℕ → Bool) (w : World)
      → AllKept k w.outbox
      → AllKept k (add_client ip picks w).outbox
  unfolding add_client
  add_client-AllKept ip picks w v =
      update-AllKept k w.outbox w.next_client (new_outbox picks) v (k.fresh picks)

  at_outbox-AllKept :
      (r : ℕ) (f : Outbox → Outbox) (w : World)
      → AllKept k w.outbox
      → k.holds (f (w.outbox r))
      → AllKept k (at_outbox r f w).outbox
  at_outbox-AllKept r f w v h = update-AllKept k w.outbox r (f (w.outbox r)) v h

  step-Served :
      (e : Event) (w : World) → Sends k.allows e → AllKept k w.outbox → Served k (step k.conf e w)
  unfolding step ping
  step-Served (connects ip picks) w a v =
      ok-Served k (add_client ip picks w) (add_client-AllKept ip picks w v)
  step-Served (sends r pmsg reads) w a v = message_received-Served r pmsg reads w a v
  step-Served (disconnects r) w a v =
      ok-Served k (disconnect k.conf r w) (disconnect-AllKept k r w v)
  step-Served (takes r) w a v =
      ok-Served k (at_outbox r take_message w)
        (at_outbox-AllKept r take_message w v (k.taking (w.outbox r) (v r)))
  step-Served (pings r) w a v =
      ok-Served k (at_outbox r ping w)
        (at_outbox-AllKept r ping w v (k.sending ping_msg (w.outbox r) k.pinging (v r)))
  step-Served (ends r) w a v =
      ok-Served k (at_outbox r close w)
        (at_outbox-AllKept r close w v (k.closing (w.outbox r) (v r)))
  step-Served (closes r) w a v =
      ok-Served k (at_outbox r teardown w)
        (at_outbox-AllKept r teardown w v (k.tearing (w.outbox r) (v r)))

  pub run-Served :
      (es : List Event) (w : World)
      → All (Sends k.allows) es
      → AllKept k w.outbox
      → Served k (run k.conf es w)
  unfolding run
  run-Served [] w a v = ok-Served k w v
  run-Served (e ∷ es) w (a, as_) v =
      then-Served k (step k.conf e w) (run k.conf es) (step-Served e w a v)
        (λ w' v'. run-Served es w' as_ v')

  pub start-AllKept : AllKept k start.outbox
  start-AllKept r = k.fresh (λ _. false)
