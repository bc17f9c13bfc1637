-- ===== src/Races.antt =====
-- Interleavings of two clients' goroutines that the locks of server/server.go and
-- server/clientChannel.go allow: a `join` looks its channel up and enters it in two steps.
use nvda_remote_server.Common.{
  ℕ, suc, ◌≡◌, ◌≢◌, ap, ◌∙◌, none, some, [], ◌∷◌, Bytes, nat_eq, bytes_eq, bytes_beq_iff, arith,
  Bool, inl, inr, Option-cases, Outcome, ok, panic, ◌>>=◌,
}
use nvda_remote_server.Common.Int.{int_eq}
use nvda_remote_server.GoMap.{get, put, get-put}
use nvda_remote_server.Channel.{ClientChannel, members}
use nvda_remote_server.World.{World, Settings, find_channel, set_authorized}
use nvda_remote_server.Membership.{add, add_channel, remove, remove_client, enter, announce}
use nvda_remote_server.Invariant.{IsWellFormed}
use nvda_remote_server.Invariant.Joining.{add_panics}
use nvda_remote_server.Invariant.Making.{add_channel_lem}
use nvda_remote_server.Invariant.Removing.{rest_of_one, remove_nil}

remove_client_channels :
    (conf : Settings) (h r : ℕ) (w : World)
    → (w.client_at r).channel ≡ some h
    → (remove_client conf r w).channel_at ≡ (remove conf h r w).channel_at
unfolding remove_client
remove_client_channels conf h r w inside =
    rw (inside, remove_client)
      (elim (Option-cases (get r (remove conf h r w).clients)) [
        | inl e ↦ rw e (rw inside)
        | inr (u, e) ↦ rw e (rw inside)
      ])

-- In a well-formed server, if a client has looked up a channel whose one client is then removed, and
-- after that enters what it found, then `Add` panics, at the write to the nil map.
pub join_race_panics :
    (conf : Settings) (name password : Bytes) (h r last : ℕ) (w : World)
    → IsWellFormed w.registry
    → find_channel name w ≡ some h
    → (w.client_at last).channel ≡ some h
    → members (w.channel_at h) ≡ ((w.client_at last).id, last) ∷ []
    → add conf h r password (remove_client conf last w) ≡ panic
join_race_panics conf name password h r last w v found inside alone =
    add_panics conf h r password (remove_client conf last w) (
      ap (λ (f : ℕ → ClientChannel). (f h).clients_all)
        (remove_client_channels conf h last w inside)
      ∙ remove_nil conf h last w v inside (rest_of_one h last w.registry alone))

-- If two clients have both found no channel of a name, then both calls of `AddChannel` succeed, and
-- leave the two clients in different channels, of which the name finds the second.
pub join_race_splits :
    (conf : Settings) (name password : Bytes) (locked : Bool) (r s : ℕ) (w : World)
    → r ≢ s
    → find_channel name w ≡ none
    → (w' : World) × ((add_channel conf name password locked r w
          >>= add_channel conf name password locked s)
        ≡ ok w')
      × ((w'.client_at r).channel ≡ some w.next_channel)
      × ((w'.client_at s).channel ≡ some (suc w.next_channel))
      × ((w'.channel_at w.next_channel).name ≡ name)
      × (find_channel name w' ≡ some (suc w.next_channel))
unfolding announce enter set_authorized find_channel
join_race_splits conf name password locked r s w ne unused = (
  _,
  ap (λ (o : Outcome World). o >>= add_channel conf name password locked s)
        (add_channel_lem conf name password locked r w)
      ∙ add_channel_lem conf name password locked s _,
  ground arith,
  ground arith,
  ground arith,
  ground (
    arith,
    get-put name name (suc w.next_channel) (put name w.next_channel w.channels),
    bytes_beq_iff name name,
  ),
)
