-- ===== src/Invariant.antt =====
-- The invariant of the server's maps and pointers (server/server.go and server/clientChannel.go): a
-- client's channel pointer, the channel's map of clients and the map of channels agree.
pub mod Writes
pub mod Leaving
pub mod Joining
pub mod Making
pub mod Removing
pub mod Clients
pub mod Steps
pub mod History
use nvda_remote_server.Common.{
  ℕ, suc, ◌≤◌, ◌<◌, ◌≡◌, ◌≢◌, Option, none, some, List, [], ◌∷◌, Bytes, nat_eq, bytes_eq,
}
use nvda_remote_server.Common.Int.{ℤ, int_eq}
use nvda_remote_server.GoMap.{Map, get, IsMap}
use nvda_remote_server.Channel.{members}
use nvda_remote_server.World.{Registry}

pub record IsLinked (g : Registry) : Type 0 where
  -- a channel has one entry for each id
  pub mapped : (h : ℕ) → IsMap (members (g.channel_at h))
  -- a channel is entered under its own name
  pub named : (n : Bytes) (h : ℕ) → get n g.channels ≡ some h → (g.channel_at h).name ≡ n
  pub entered : (n : Bytes) (h : ℕ) → get n g.channels ≡ some h → h < g.next_channel
  -- a client with a channel is in that channel's map under its id
  pub joined :
      (r h : ℕ)
      → (g.client_at r).channel ≡ some h
      → get (g.client_at r).id (members (g.channel_at h)) ≡ some r
  -- and that channel is the one that its name finds
  pub registered :
      (r h : ℕ) → (g.client_at r).channel ≡ some h → get (g.channel_at h).name g.channels ≡ some h
  -- a client in a channel's map has that channel, and stands under its own id
  pub back :
      (h : ℕ) (i : ℤ) (r : ℕ)
      → get i (members (g.channel_at h)) ≡ some r
      → (g.client_at r).channel ≡ some h
  pub back_id :
      (h : ℕ) (i : ℤ) (r : ℕ) → get i (members (g.channel_at h)) ≡ some r → (g.client_at r).id ≡ i
  -- a client with a channel is connected
  pub known : (r h : ℕ) → (g.client_at r).channel ≡ some h → get r g.clients ≡ some tt
  pub allocated : (r : ℕ) → get r g.clients ≡ some tt → r < g.next_client
  pub fresh_client : (r : ℕ) → g.next_client ≤ r → (g.client_at r).channel ≡ none
  pub fresh_channel : (h : ℕ) → g.next_channel ≤ h → (g.channel_at h).clients_all ≡ none

-- No channel that a name finds is empty.
abbrev pub IsPopulated : Registry → Type 0
IsPopulated g = (n : Bytes) (h : ℕ) → get n g.channels ≡ some h → members (g.channel_at h) ≢ []

pub record IsWellFormed (g : Registry) : Type 0 where
  pub linked : IsLinked g
  pub populated : IsPopulated g
