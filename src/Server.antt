-- ===== src/Server.antt =====
-- `MessageReceived` of server/server.go, and the events of a running server: connections, messages,
-- disconnections, and what the goroutines of a client do to its queue.
pub mod Session
use nvda_remote_server.Common.{
  ℕ, Bool, Option, none, some, List, [], ◌∷◌, Bytes, update, not, if◌then◌else◌, Outcome, ok, ◌>>=◌,
}
use nvda_remote_server.Common.Int.{ℤ}
use nvda_remote_server.GoMap.{Map}
use nvda_remote_server.Client.{Outbox, close, teardown, ping}
use nvda_remote_server.Channel.{members}
use nvda_remote_server.World.{Outboxes, World, Settings, add_client, find_client}
use nvda_remote_server.Json.{json_add_origin}
use nvda_remote_server.Relay.{send_all, send_others}
use nvda_remote_server.Membership.{remove_client}
use nvda_remote_server.Commands.{cmd_exec, close_client}

-- The deferred calls of a client's `listen`, which also run when the goroutine is made to exit.
unfoldable pub disconnect : Settings → ℕ → World → World
unfolding remove_client close_client
disconnect conf r w = remove_client conf r (close_client r w)

-- `JsonAddOrigin` and the send that follows it in `MessageReceived`, to the members `m`.
unfoldable pub relayed_by : Map ℤ ℕ → ℕ → Bytes → Outboxes → ℤ → Outboxes
relayed_by m r pmsg o id = elim (json_add_origin pmsg id) [
  | none ↦ send_all m pmsg (some r) o
  | some out ↦ send_others m out r o
]

-- The part of `MessageReceived` for a client in the channel `cc`.
unfoldable pub relay : ℕ → ℕ → Bytes → World → World
unfolding relayed_by
relay r cc pmsg w = record w {
  outbox = relayed_by (members (w.channel_at cc)) r pmsg w.outbox (w.client_at r).id;
}

unfoldable pub message_received : Settings → ℕ → Bytes → List (Option Bytes) → World → Outcome World
message_received conf r pmsg reads w =
    if not (find_client r w) then ok (disconnect conf r w) else elim (w.client_at r).channel [
      | some cc ↦ ok (relay r cc pmsg w)
      | none ↦ (elim (conf.codec.decode pmsg) [
        | none ↦ ok w
        | some db ↦ cmd_exec conf r db reads w
      ])
    ]

-- The writer goroutine takes the oldest message off the queue.
unfoldable pub take_message : Outbox → Outbox
take_message o = elim o.sd [ [] ↦ o | b ∷ rest ↦ record o { sd = rest } ]

-- `pings` is the ticker of a client, `ends` the end of its context from outside (a failed write, or
-- the shutdown of the server), `closes` the teardown goroutine.
pub data Event : Type 0 where
  connects : Bytes → (ℕ → Bool) → Event
  sends : ℕ → Bytes → List (Option Bytes) → Event
  disconnects takes pings ends closes : ℕ → Event

abbrev pub at_outbox : ℕ → (Outbox → Outbox) → World → World
at_outbox r f w = record w { outbox = update w.outbox r (f (w.outbox r)) }

unfoldable pub step : Settings → Event → World → Outcome World
unfolding add_client message_received disconnect take_message
step conf (connects ip picks) w = ok (add_client ip picks w)
step conf (sends r pmsg reads) w = message_received conf r pmsg reads w
step conf (disconnects r) w = ok (disconnect conf r w)
step conf (takes r) w = ok (at_outbox r take_message w)
step conf (pings r) w = ok (at_outbox r ping w)
step conf (ends r) w = ok (at_outbox r close w)
step conf (closes r) w = ok (at_outbox r teardown w)

-- A history of the server, one event after the other.
unfoldable pub run : Settings → List Event → World → Outcome World
unfolding step
run conf [] w = ok w
run conf (e ∷ es) w = do w' ← step conf e w; run conf es w'
