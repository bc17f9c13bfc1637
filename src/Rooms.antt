-- ===== src/Rooms.antt =====
-- What the server promises of its channels, without channels, maps and pointers: a client is in at most
-- one room, which is known by its name. `rooms` reads this off the state of server/server.go and
-- server/clientChannel.go.
pub mod Moves
pub mod Joining
pub mod Entering
pub mod Refinement
use nvda_remote_server.Common.{
  ℕ, Bool, ◌≡◌, ◌≢◌, Option, none, some, List, [], ◌∷◌, Bytes, codes, nat_beq, if◌then◌else◌,
}
use nvda_remote_server.Protocol.{Data}
use nvda_remote_server.Channel.{get_channel_params}
use nvda_remote_server.World.{Registry, Settings}
use nvda_remote_server.Server.{Event, connects, sends, disconnects, takes, pings, ends, closes}

abbrev pub Rooms : Type 0
Rooms = ℕ → Option Bytes

abbrev pub rooms : Registry → Rooms
rooms g x = elim (g.client_at x).channel [ none ↦ none | some h ↦ some (g.channel_at h).name ]

-- One client's room is changed.
abbrev pub placed : ℕ → Option Bytes → Rooms → Rooms
placed r room v x = if nat_beq r x then room else v x

abbrev pub SameRooms : Rooms → Rooms → Type 0
SameRooms v v' = (x : ℕ) → v' x ≡ v x

-- The text is a `join` with a key that names the room.
pub record AsksFor (conf : Settings) (name : Bytes) (pmsg : Bytes) : Type 0 where
  pub db : Data
  pub decodes : conf.decode pmsg ≡ some db
  pub joins : db.type ≡ codes "join"
  pub names : (get_channel_params db.channel).name ≡ name
  pub named : name ≢ []

-- What an event may do to the rooms. Only a `join` of a client that is in no room puts it into one,
-- only its disconnection takes it out, and no event moves another client.
pub data RoomStep (conf : Settings) : Event → Rooms → Rooms → Type 0 where
  connected :
      {ip : Bytes} {picks : ℕ → Bool} {v v' : Rooms}
      → SameRooms v v'
      → RoomStep conf (connects ip picks) v v'
  stayed :
      {r : ℕ} {pmsg : Bytes} {reads : List (Option Bytes)} {v v' : Rooms}
      → SameRooms v v'
      → RoomStep conf (sends r pmsg reads) v v'
  entered :
      {r : ℕ} {pmsg : Bytes} {reads : List (Option Bytes)} {v v' : Rooms} (name : Bytes)
      → AsksFor conf name pmsg
      → v r ≡ none
      → SameRooms (placed r (some name) v) v'
      → RoomStep conf (sends r pmsg reads) v v'
  left :
      {r : ℕ} {v v' : Rooms} → SameRooms (placed r none v) v' → RoomStep conf (disconnects r) v v'
  taken : {r : ℕ} {v v' : Rooms} → SameRooms v v' → RoomStep conf (takes r) v v'
  pinged : {r : ℕ} {v v' : Rooms} → SameRooms v v' → RoomStep conf (pings r) v v'
  ended : {r : ℕ} {v v' : Rooms} → SameRooms v v' → RoomStep conf (ends r) v v'
  closed : {r : ℕ} {v v' : Rooms} → SameRooms v v' → RoomStep conf (closes r) v v'

-- A history of the rooms.
pub data RoomRun (conf : Settings) : List Event → Rooms → Rooms → Type 0 where
  done : {v : Rooms} → RoomRun conf [] v v
  next :
      {e : Event} {es : List Event} {u v w : Rooms}
      → RoomStep conf e u v
      → RoomRun conf es v w
      → RoomRun conf (e ∷ es) u w
