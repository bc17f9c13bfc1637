-- ===== src/Rooms/Moves.antt =====
-- What the operations of server/server.go and server/clientChannel.go do to the rooms.
use nvda_remote_server.Common.{
  ℕ, ◌≡◌, ◌≢◌, refl, ap, ◌∙◌, Bool, none, some, Bytes, nat_beq, arith, Option-cases, Bool-cases,
  inl, inr, if◌then◌else◌, bytes_eq, nat_eq,
}
use nvda_remote_server.Common.Int.{ℤ, int_eq}
use nvda_remote_server.GoMap.{Map, get}
use nvda_remote_server.Channel.{members}
use nvda_remote_server.World.{
  World, Settings, Registry, add_client, set_authorized, set_connection_type, set_version,
}
use nvda_remote_server.Membership.{enter, remove, remove_client}
use nvda_remote_server.Invariant.{IsWellFormed}
use nvda_remote_server.Invariant.Clients.{added-channel, left_channel}
use nvda_remote_server.Invariant.Removing.{remove-channel, remove-name}
use nvda_remote_server.Invariant.Making.{with_channel}
use nvda_remote_server.Rooms.{rooms, placed, SameRooms}

pub enter-rooms :
    (h r : ℕ) (m : Map ℤ ℕ) (g : Registry)
    → SameRooms (placed r (some (g.channel_at h).name) (rooms g)) (rooms (enter h r m g))
unfolding enter
enter-rooms h r m g x = elim (Option-cases (g.client_at x).channel) [
  | inl e ↦ ground arith
  | inr (k, e) ↦ ground arith
]

-- A write to a client that leaves its channel alone.
pub set_authorized-rooms :
    (r : ℕ) (auth : Bool) (g : Registry) → SameRooms (rooms g) (rooms (set_authorized r auth g))
unfolding set_authorized
set_authorized-rooms r auth g x = ground arith

pub set_connection_type-rooms :
    (r : ℕ) (ctype : Bytes) (g : Registry)
    → SameRooms (rooms g) (rooms (set_connection_type r ctype g))
unfolding set_connection_type
set_connection_type-rooms r ctype g x = ground arith

pub set_version-rooms :
    (r : ℕ) (version : ℤ) (g : Registry) → SameRooms (rooms g) (rooms (set_version r version g))
unfolding set_version
set_version-rooms r version g x = ground arith

rooms-same :
    (g g' : Registry) (x : ℕ)
    → (g'.client_at x).channel ≡ (g.client_at x).channel
    → ((h : ℕ) → (g.client_at x).channel ≡ some h → (g'.channel_at h).name ≡ (g.channel_at h).name)
    → rooms g' x ≡ rooms g x
rooms-same g g' x e names = elim (Option-cases (g.client_at x).channel) [
  | inl f ↦ ground (arith, e)
  | inr (h, f) ↦ ground (arith, e, names h f)
]

pub add_client-rooms :
    (ip : Bytes) (picks : ℕ → Bool) (w : World)
    → IsWellFormed w.registry
    → SameRooms (rooms w.registry) (rooms (add_client ip picks w).registry)
unfolding add_client
add_client-rooms ip picks w v x =
    rooms-same w.registry (add_client ip picks w).registry x (added-channel ip picks w v x)
      (λ h e. refl)

remove-rooms :
    (conf : Settings) (h r : ℕ) (w : World)
    → IsWellFormed w.registry
    → (w.client_at r).channel ≡ some h
    → SameRooms (placed r none (rooms w.registry)) (rooms (remove conf h r w).registry)
remove-rooms conf h r w v inside x = elim (Bool-cases (nat_beq r x)) [
  | inl e ↦ ground (arith, e, remove-channel conf h r w v inside x)
  | inr e ↦ rw e (
      rooms-same w.registry (remove conf h r w).registry x
        (remove-channel conf h r w v inside x
          ∙ ap (λ b. if b then none else (w.client_at x).channel) e)
        (λ k f. remove-name conf h r w v inside k))
]

pub no_room :
    (r : ℕ) (g : Registry)
    → (g.client_at r).channel ≡ none
    → SameRooms (placed r none (rooms g)) (rooms g)
no_room r g e x = ground arith

left_channel-rooms :
    (conf : Settings) (r : ℕ) (w : World)
    → IsWellFormed w.registry
    → SameRooms (placed r none (rooms w.registry)) (rooms (left_channel conf r w).registry)
unfolding left_channel
left_channel-rooms conf r w v = elim (Option-cases (w.client_at r).channel) [
  | inl e ↦ rw (e, left_channel) (no_room r w.registry e)
  | inr (h, e) ↦ rw (e, left_channel) (remove-rooms conf h r w v e)
]

pub remove_client-rooms :
    (conf : Settings) (r : ℕ) (w : World)
    → IsWellFormed w.registry
    → SameRooms (placed r none (rooms w.registry)) (rooms (remove_client conf r w).registry)
unfolding left_channel remove_client
remove_client-rooms conf r w v = elim (Option-cases (get r (left_channel conf r w).clients)) [
  | inl e ↦ rw (e, remove_client) (left_channel-rooms conf r w v)
  | inr (u, e) ↦ rw (e, remove_client) (left_channel-rooms conf r w v)
]

-- No client has the channel that is allocated next.
fresh-channel :
    (g : Registry) (x h : ℕ)
    → IsWellFormed g
    → (g.client_at x).channel ≡ some h
    → h ≢ g.next_channel
unfolding members get
fresh-channel g x h v e same = ground (arith, v.linked.joined x h e, v.linked.fresh_channel h)

pub with_channel-rooms :
    (conf : Settings) (name password : Bytes) (locked : Bool) (r : ℕ) (w : World)
    → IsWellFormed w.registry
    → SameRooms (rooms w.registry) (rooms (with_channel conf name password locked r w).registry)
with_channel-rooms conf name password locked r w v x =
    rooms-same w.registry (with_channel conf name password locked r w).registry x refl
      (λ h e. ground (arith, fresh-channel w.registry x h v e))
