-- ===== src/Isolation.antt =====
-- Who is reached by a message that `MessageReceived` relays, in a well-formed server.
use nvda_remote_server.Common.{
  ℕ, ◌≡◌, ◌≢◌, ap, none, some, [], ◌∷◌, Bytes, nat_eq, bytes_eq, arith, nat_beq, leb, length, Bool,
  true, false, inl, inr, Bool-cases, Option-cases, if◌then◌else◌, ◌&&◌,
}
use nvda_remote_server.Common.Int.{ℤ, int_eq, int_beq_iff}
use nvda_remote_server.GoMap.{Map, get, IsMap}
use nvda_remote_server.Client.{Outbox, send, not_connected_msg}
use nvda_remote_server.Channel.{members}
use nvda_remote_server.World.{World, set_authorized}
use nvda_remote_server.Json.{json_add_origin}
use nvda_remote_server.Relay.{send_all, is_excluded}
use nvda_remote_server.Relay.Delivery.{holds, Apart, send_others-at, send_all_locked-at}
use nvda_remote_server.Server.{relay, relayed_by}
use nvda_remote_server.Invariant.{IsWellFormed}

holds-of-get : (m : Map ℤ ℕ) (i : ℤ) (x : ℕ) → get i m ≡ some x → holds m x ≡ true
unfolding holds get
holds-of-get [] i x e = cc
holds-of-get ((j, s) ∷ m) i x e = ground (arith, holds-of-get m i x)

get-of-holds : (m : Map ℤ ℕ) (x : ℕ) → IsMap m → holds m x ≡ true → (i : ℤ) × (get i m ≡ some x)
unfolding holds get
get-of-holds [] x u h = cc
get-of-holds ((j, s) ∷ m) x (new, u) h = elim (Bool-cases (nat_beq s x)) [
  | inl e ↦ (j, ground (arith, int_beq_iff j j))
  | inr e ↦ let (i, f) = get-of-holds m x u (ground arith) in (i, ground (arith, int_beq_iff j i))
]

-- Under distinct ids each client has one entry.
Apart-of-ids :
    (id_of : ℕ → ℤ) (m : Map ℤ ℕ)
    → IsMap m
    → ((i : ℤ) (x : ℕ) → get i m ≡ some x → id_of x ≡ i)
    → Apart m
unfolding get
Apart-of-ids id_of [] u ids = tt
Apart-of-ids id_of ((j, s) ∷ m) (new, u) ids = (alone, Apart-of-ids id_of m u tail_ids)
  where
    tail_ids : (i : ℤ) (x : ℕ) → get i m ≡ some x → id_of x ≡ i
    tail_ids i x e = ids i x (ground (arith, int_beq_iff j i))

    alone : holds m s ≡ false
    alone = elim (Bool-cases (holds m s)) [
      | inr h ↦ h
      | inl h ↦
          let (i, e) = get-of-holds m s u h in
          ground (arith, tail_ids i s e, ids j s, int_beq_iff j j)
    ]

-- The client `x` has the channel `h`.
abbrev pub in_channel : World → ℕ → ℕ → Bool
in_channel w h x = elim (w.client_at x).channel [ none ↦ false | some k ↦ nat_beq k h ]

two_members :
    (m : Map ℤ ℕ) (x r : ℕ) → x ≢ r → holds m x ≡ true → holds m r ≡ true → leb (length m) 1 ≡ false
unfolding holds
two_members [] x r ne hx hr = cc
two_members ((i, s) ∷ []) x r ne hx hr = ground arith
two_members ((i, s) ∷ (j, t) ∷ m) x r ne hx hr = ground arith

module _ (w : World) (v : IsWellFormed w.registry) (h : ℕ) where
  pub members-Apart : Apart (members (w.channel_at h))
  members-Apart =
      Apart-of-ids (λ x. (w.client_at x).id) (members (w.channel_at h)) (v.linked.mapped h)
        (λ i x e. v.linked.back_id h i x e)

  -- The entries of a channel's map are the clients that have the channel.
  pub holds-members : (x : ℕ) → holds (members (w.channel_at h)) x ≡ in_channel w h x
  holds-members x = elim (Bool-cases (holds (members (w.channel_at h)) x)) [
    | inl e ↦
        let (i, f) = get-of-holds (members (w.channel_at h)) x (v.linked.mapped h) e in
        ground (arith, v.linked.back h i x f)
    | inr e ↦
        ground
          (arith, v.linked.joined x h, holds-of-get (members (w.channel_at h)) (w.client_at x).id x)
  ]

-- The text of a relayed message: with the origin if it is an object, else as it came.
abbrev pub relayed_text : Bytes → ℤ → Bytes
relayed_text pmsg id = elim (json_add_origin pmsg id) [ none ↦ pmsg | some out ↦ out ]

abbrev pub is_object : Bytes → ℤ → Bool
is_object pmsg id = elim (json_add_origin pmsg id) [ none ↦ false | some out ↦ true ]

-- The queue of the client `x` after the client `r` of the channel `h` sent `pmsg`.
abbrev pub relayed : World → ℕ → ℕ → Bytes → ℕ → Outbox
relayed w r h pmsg x =
    let o = w.outbox x in
    let id = (w.client_at r).id in
    if nat_beq r x
    then (if is_object pmsg id && leb (length (members (w.channel_at h))) 1
        then send not_connected_msg o
        else o)
    else if in_channel w h x
    then send (relayed_text pmsg id) o
    else o

-- In a well-formed server a message of a client in a channel is sent to every other client of the
-- channel once, with the sender's id if it is an object, and changes nothing for any client outside.
-- The sender gets nothing, but for the notice that it is alone in its channel, and that for objects
-- only.
pub relay_outbox :
    (w : World) (r h : ℕ) (pmsg : Bytes) (x : ℕ)
    → IsWellFormed w.registry
    → (w.client_at r).channel ≡ some h
    → (relay r h pmsg w).outbox x ≡ relayed w r h pmsg x
unfolding relay send_all is_excluded
relay_outbox w r h pmsg x v inside = elim (Option-cases (json_add_origin pmsg (w.client_at r).id)) [
  | inl e ↦
      rw (e, relayed_by)
        (ground (
          arith,
          e,
          send_all_locked-at (members (w.channel_at h)) pmsg (some r) w.outbox x
              (members-Apart w v h),
          holds-members w v h x,
        ))
  | inr (out, e) ↦
      rw (e, relayed_by)
        (ground (
          arith,
          e,
          send_others-at (members (w.channel_at h)) out r w.outbox x (members-Apart w v h),
          holds-members w v h x,
          holds-members w v h r,
          two_members (members (w.channel_at h)) x r,
        ))
]

-- Whether a client is authorized makes no difference to what its messages do to the queues, whatever
-- channel it is in.
pub relay_ignores_auth :
    (w : World) (r h : ℕ) (auth : Bool) (pmsg : Bytes)
    → (relay r h pmsg (record w { registry = set_authorized r auth w.registry })).outbox
      ≡ (relay r h pmsg w).outbox
unfolding set_authorized relay
relay_ignores_auth w r h auth pmsg =
    ap (relayed_by (members (w.channel_at h)) r pmsg w.outbox) same_id
  where
    same_id : ((set_authorized r auth w.registry).client_at r).id ≡ (w.client_at r).id
    same_id = ground arith
