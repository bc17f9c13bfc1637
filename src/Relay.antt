-- ===== src/Relay.antt =====
-- The sends of server/clientChannel.go: to one client, to all of a channel, to all but the sender.
-- They change queues only.
pub mod Delivery
use nvda_remote_server.Common.{
  ℕ, Bool, true, false, Option, none, some, List, [], ◌∷◌, Bytes, update, leb, nat_beq, length,
  if◌then◌else◌,
}
use nvda_remote_server.Common.Int.{ℤ}
use nvda_remote_server.GoMap.{Map}
use nvda_remote_server.Protocol.{Data, Codec}
use nvda_remote_server.Client.{send, not_connected_msg}
use nvda_remote_server.World.{Outboxes}

-- sc.Send(msg)
unfoldable pub send_to : ℕ → Bytes → Outboxes → Outboxes
send_to r msg o = update o r (send msg (o r))

unfoldable pub is_excluded : Option ℕ → ℕ → Bool
is_excluded none r = false
is_excluded (some x) r = nat_beq x r

-- `sendAllLocked` over `c.ClientsAll`; the client that is left out may be nil.
unfoldable pub send_all_locked : Map ℤ ℕ → Bytes → Option ℕ → Outboxes → Outboxes
unfolding send_to is_excluded
send_all_locked [] msg client o = o
send_all_locked ((id, r) ∷ m) msg client o =
    send_all_locked m msg client (if is_excluded client r then o else send_to r msg o)

-- `SendAll` takes the read lock first.
unfoldable pub send_all : Map ℤ ℕ → Bytes → Option ℕ → Outboxes → Outboxes
send_all = send_all_locked

-- `SendOthers`; a nil client is never passed.
unfoldable pub send_others : Map ℤ ℕ → Bytes → ℕ → Outboxes → Outboxes
unfolding send_all_locked send_to
send_others m msg client o =
    if leb (length m) 1
    then send_to client not_connected_msg o
    else send_all_locked m msg (some client) o

-- `mustEncode`: a nil slice on an error.
unfoldable pub must_encode : Codec → Data → Bytes
must_encode codec d = elim (codec.encode d) [ none ↦ [] | some enc ↦ enc ]

-- The method `sendJSON` of a channel.
unfoldable pub send_json : Codec → Map ℤ ℕ → Option ℕ → Data → Outboxes → Outboxes
unfolding send_all_locked must_encode
send_json codec m exclude d o = send_all_locked m (must_encode codec d) exclude o

-- `sendToClient`, and the function `sendJSON` of commands.go: nothing is sent on an error.
unfoldable pub send_to_client : Codec → ℕ → Data → Outboxes → Outboxes
unfolding send_to
send_to_client codec client d o = elim (codec.encode d) [
  | none ↦ o
  | some enc ↦ send_to client enc o
]
