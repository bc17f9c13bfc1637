-- ===== src/Invariant/Removing.antt =====
-- `Remove` and `RemoveClient` keep the server's maps and pointers well formed.
use mathlib.Core.List.{cons-ne-nil}
use nvda_remote_server.Common.{
  ◌∙◌, ℕ, ◌≡◌, ◌≢◌, refl, ℕ_discrete, none, some, List, [], ◌∷◌, Bytes, nat_eq, bytes_eq, arith,
  nat_beq, inl, inr, if◌then◌else◌, ◌==◌, ◌⊎◌,
}
use nvda_remote_server.Common.Int.{ℤ, int_eq, int_beq_iff}
use nvda_remote_server.GoMap.{Map, get, delete, get-delete}
use nvda_remote_server.Channel.{members}
use nvda_remote_server.World.{World, Settings, Registry}
use nvda_remote_server.Membership.{leave, quit_locked, remove}
use nvda_remote_server.Invariant.{IsWellFormed}
use nvda_remote_server.Invariant.Leaving.{
  leave-IsLinked, leave-name, leave-channel, quit_locked_lem, name_in, without_channel-IsLinked,
  without_channel-IsPopulated,
}

List-cases {ℓ} :
    {A : Type ℓ} (xs : List A) → (xs ≡ []) ⊎ ((x : A) × (rest : List A) × (xs ≡ x ∷ rest))
List-cases [] = inl refl
List-cases (x ∷ rest) = inr (x, rest, refl)

-- What is left of a channel.
abbrev pub rest_of : ℕ → ℕ → Registry → Map ℤ ℕ
rest_of h r g = members ((leave h r g).channel_at h)

remove_last :
    (conf : Settings) (h r : ℕ) (w : World)
    → rest_of h r w.registry ≡ []
    → (remove conf h r w).registry ≡ quit_locked h (leave h r w.registry)
unfolding remove
remove_last conf h r w e = rw (e, remove)

remove_more :
    (conf : Settings) (h r : ℕ) (w : World) (x : ℤ × ℕ) (rest : Map ℤ ℕ)
    → rest_of h r w.registry ≡ x ∷ rest
    → (remove conf h r w).registry ≡ leave h r w.registry
unfolding remove
remove_more conf h r w x rest e = rw (e, remove)

module _ (g : Registry) (h r : ℕ) (v : IsWellFormed g)
    (inside : (g.client_at r).channel ≡ some h) where
  left_empty : rest_of h r g ≡ [] → ((leave h r g).channel_at h).clients_all ≡ some []
  unfolding leave members get
  left_empty e = ground (arith, v.linked.joined r h inside)

  left_found : get ((leave h r g).channel_at h).name (leave h r g).channels ≡ some h
  unfolding leave
  left_found = ground (arith, v.linked.registered r h inside)

  others_left :
      (n : Bytes) (k : ℕ)
      → get n (leave h r g).channels ≡ some k
      → k ≢ h
      → members ((leave h r g).channel_at k) ≢ []
  unfolding leave
  others_left n k e ne = ground (arith, v.populated n k)

  pub quit-IsWellFormed : rest_of h r g ≡ [] → IsWellFormed (quit_locked h (leave h r g))
  quit-IsWellFormed e =
      let linked = leave-IsLinked g h r v.linked inside in
      rw (quit_locked_lem (leave h r g) h left_found (left_empty e)) (record {
        linked = without_channel-IsLinked (leave h r g) h left_found (left_empty e) linked;
        populated =
            without_channel-IsPopulated (leave h r g) h left_found (left_empty e) others_left
              linked;
      })

  pub leave-IsWellFormed :
      (x : ℤ × ℕ) (rest : Map ℤ ℕ) → rest_of h r g ≡ x ∷ rest → IsWellFormed (leave h r g)
  leave-IsWellFormed x rest e = record {
    linked = leave-IsLinked g h r v.linked inside;
    populated = λ n k f. elim (ℕ_discrete k h) [
      | yes same ↦ rw (same, e) (cons-ne-nil x rest)
      | no ne ↦ others_left n k f ne
    ];
  }

-- A departure keeps the maps and pointers well formed, also where it empties the channel.
pub remove-IsWellFormed :
    (conf : Settings) (h r : ℕ) (w : World)
    → IsWellFormed w.registry
    → (w.client_at r).channel ≡ some h
    → IsWellFormed (remove conf h r w).registry
remove-IsWellFormed conf h r w v inside = elim (List-cases (rest_of h r w.registry)) [
  | inl e ↦ rw (remove_last conf h r w e) (quit-IsWellFormed w.registry h r v inside e)
  | inr (x, rest, e) ↦
      rw (remove_more conf h r w x rest e) (leave-IsWellFormed w.registry h r v inside x rest e)
]

-- What a departure does to the channels of the clients: the one that left has none, and the others keep theirs.
pub remove-channel :
    (conf : Settings) (h r : ℕ) (w : World)
    → IsWellFormed w.registry
    → (w.client_at r).channel ≡ some h
    → (x : ℕ)
    → ((remove conf h r w).client_at x).channel
      ≡ (if nat_beq r x then none else (w.client_at x).channel)
remove-channel conf h r w v inside x = elim (List-cases (rest_of h r w.registry)) [
  | inl e ↦
      rw
        (
          remove_last conf h r w e,
          quit_locked_lem (leave h r w.registry) h (left_found w.registry h r v inside)
              (left_empty w.registry h r v inside e),
        )
        (leave-channel w.registry h r v.linked inside x)
  | inr (y, rest, e) ↦
      rw (remove_more conf h r w y rest e) (leave-channel w.registry h r v.linked inside x)
]

-- In a well-formed server the name of a channel that its last client leaves finds nothing any more, and
-- every other name finds what it did.
pub remove_quits :
    (conf : Settings) (h r : ℕ) (w : World)
    → IsWellFormed w.registry
    → (w.client_at r).channel ≡ some h
    → rest_of h r w.registry ≡ []
    → (n : Bytes)
    → get n (remove conf h r w).channels
      ≡ (if (w.channel_at h).name == n then none else get n w.channels)
remove_quits conf h r w v inside e n =
    rw
      (
        remove_last conf h r w e,
        quit_locked_lem (leave h r w.registry) h (left_found w.registry h r v inside)
            (left_empty w.registry h r v inside e),
        leave-name w.registry h r v.linked inside h,
      )
      (same_channels n)
  where
    same_channels :
        (n : Bytes)
        → get n (delete (w.channel_at h).name (leave h r w.registry).channels)
          ≡ (if (w.channel_at h).name == n then none else get n w.channels)
    same_channels n = unfold leave in get-delete (w.channel_at h).name n w.channels

-- The channel that its last client leaves has a nil map.
pub remove_nil :
    (conf : Settings) (h r : ℕ) (w : World)
    → IsWellFormed w.registry
    → (w.client_at r).channel ≡ some h
    → rest_of h r w.registry ≡ []
    → ((remove conf h r w).channel_at h).clients_all ≡ none
remove_nil conf h r w v inside e =
    rw
      (
        remove_last conf h r w e,
        quit_locked_lem (leave h r w.registry) h (left_found w.registry h r v inside)
            (left_empty w.registry h r v inside e),
      )
      (ground arith)

-- Nothing is left of a channel that had the one client.
pub rest_of_one :
    (h r : ℕ) (g : Registry)
    → members (g.channel_at h) ≡ ((g.client_at r).id, r) ∷ []
    → rest_of h r g ≡ []
unfolding leave members delete
rest_of_one h r g e = ground (arith, int_beq_iff (g.client_at r).id (g.client_at r).id)

-- A departure renames no channel.
pub remove-name :
    (conf : Settings) (h r : ℕ) (w : World)
    → IsWellFormed w.registry
    → (w.client_at r).channel ≡ some h
    → (k : ℕ) → ((remove conf h r w).channel_at k).name ≡ (w.channel_at k).name
remove-name conf h r w v inside k = elim (List-cases (rest_of h r w.registry)) [
  | inl e ↦
      let empty = left_empty w.registry h r v inside e in
      let found = left_found w.registry h r v inside in
      rw (remove_last conf h r w e, quit_locked_lem (leave h r w.registry) h found empty)
        (name_in (leave h r w.registry) h found empty k
          ∙ leave-name w.registry h r v.linked inside k)
  | inr (y, rest, e) ↦
      rw (remove_more conf h r w y rest e) (leave-name w.registry h r v.linked inside k)
]
