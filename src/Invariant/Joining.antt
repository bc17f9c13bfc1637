-- ===== src/Invariant/Joining.antt =====
-- `Add` of server/clientChannel.go: its branches, and that it does not panic where the channel is in
-- the map of channels.
use nvda_remote_server.Common.{
  ℕ, ◌≡◌, ◌≢◌, refl, sym, ap, ◌∙◌, none, some, [], Bytes, nat_eq, bytes_eq, arith, Bool, true,
  false, inl, inr, Bool-cases, Option-cases, Outcome, ok, panic,
}
use nvda_remote_server.Common.Int.{ℤ, int_eq}
use nvda_remote_server.GoMap.{Map, get, put-ne-nil}
use nvda_remote_server.Channel.{members, ClientChannel, authorizes}
use nvda_remote_server.World.{World, Settings, Registry, set_authorized}
use nvda_remote_server.Membership.{add, authorize, announce, enter, store_member}
use nvda_remote_server.Invariant.{IsLinked, IsWellFormed}
use nvda_remote_server.Invariant.Writes.{set_client-IsLinked, enter-IsLinked}

-- `Add` sets a client's authorization to what the channel decides.
pub authorize_lem :
    (h r : ℕ) (password : Bytes) (g : Registry)
    → authorize h r password g ≡ set_authorized r (authorizes (g.channel_at h) password) g
unfolding authorize
authorize_lem h r password g = elim (Bool-cases (authorizes (g.channel_at h) password)) [
  | inl allowed ↦ rw (allowed, authorize) (λ i. record g { client_at = λ x. twice x i })
  | inr denied ↦ rw (denied, authorize)
]
  where
    twice :
        (x : ℕ)
        → (set_authorized r true (set_authorized r false g)).client_at x
          ≡ (set_authorized r true g).client_at x
    twice x = ground arith

set_authorized-IsLinked :
    (r : ℕ) (auth : Bool) (g : Registry) → IsLinked g → IsLinked (set_authorized r auth g)
unfolding set_authorized
set_authorized-IsLinked r auth g =
    set_client-IsLinked g r (record (g.client_at r) { auth = auth }) refl refl

module _ (conf : Settings) (h r : ℕ) (password : Bytes) (w : World) where
  -- The registry in which the client enters the channel.
  abbrev pub ready_to_enter : Registry
  ready_to_enter = set_authorized r (authorizes (w.channel_at h) password) w.registry

  -- The id is taken in the channel: the client's authorization is set, and nothing else is done.
  pub add_taken :
      (x : ℕ)
      → get (w.client_at r).id (members (w.channel_at h)) ≡ some x
      → add conf h r password w ≡ ok (record w { registry = ready_to_enter })
  unfolding add
  add_taken x e =
      rw (e, add) (λ i. ok (record w { registry = authorize_lem h r password w.registry i }))

  -- The client enters, and the messages of the join are sent.
  pub add_enters :
      (m : Map ℤ ℕ)
      → get (w.client_at r).id (members (w.channel_at h)) ≡ none
      → (w.channel_at h).clients_all ≡ some m
      → add conf h r password w
        ≡ ok (announce conf h r password (record w { registry = enter h r m ready_to_enter }))
  unfolding add
  add_enters m e f =
      rw (e, add)
        (ap (λ o. store_member conf h r password o authorized) f ∙ λ i. ok (
          announce conf h r password
            (record w { registry = enter h r m (authorize_lem h r password w.registry i) })))
    where
      authorized : World
      authorized = record w { registry = authorize h r password w.registry }

  -- The channel was quit: the write to its nil map is a panic.
  pub add_panics : (w.channel_at h).clients_all ≡ none → add conf h r password w ≡ panic
  unfolding add
  add_panics f =
      rw (nothing, add)
        (ap
          (λ o.
            store_member conf h r password o
              (record w { registry = authorize h r password w.registry }))
          f)
    where
      nothing : get (w.client_at r).id (members (w.channel_at h)) ≡ none
      nothing = unfold members get in rw f

-- What a join comes to: no panic, and the links stand.
abbrev pub Joins : Outcome World → Type 0
Joins o = (w : World) × (o ≡ ok w) × IsWellFormed w.registry

pub members_within : (c : ClientChannel) {m : Map ℤ ℕ} → c.clients_all ≡ some m → members c ≡ m
unfolding members
members_within c e = rw e

pub members-cases : (c : ClientChannel) → members c ≢ [] → (m : Map ℤ ℕ) × (c.clients_all ≡ some m)
members-cases c ne = elim (Option-cases c.clients_all) [
  | inl e ↦ absurd (ne (unfold members in rw e))
  | inr h ↦ h
]

announce_registry :
    (conf : Settings) (h r : ℕ) (password : Bytes) (w : World)
    → (announce conf h r password w).registry ≡ w.registry
unfolding announce
announce_registry conf h r password w = refl

set_authorized-id :
    (r : ℕ) (auth : Bool) (g : Registry)
    → ((set_authorized r auth g).client_at r).id ≡ (g.client_at r).id
unfolding set_authorized
set_authorized-id r auth g = ground arith

set_authorized-channel :
    (r : ℕ) (auth : Bool) (g : Registry)
    → ((set_authorized r auth g).client_at r).channel ≡ (g.client_at r).channel
unfolding set_authorized
set_authorized-channel r auth g = ground arith

pub enter_authorized-IsLinked :
    (h r : ℕ) (auth : Bool) (m : Map ℤ ℕ) (g : Registry)
    → (g.channel_at h).clients_all ≡ some m
    → get (g.channel_at h).name g.channels ≡ some h
    → (g.client_at r).channel ≡ none
    → get (g.client_at r).id m ≡ none
    → get r g.clients ≡ some tt
    → IsLinked g
    → IsLinked (enter h r m (set_authorized r auth g))
unfolding set_authorized
enter_authorized-IsLinked h r auth m g ready found free new here v =
    enter-IsLinked (set_authorized r auth g) h r m ready found
      (set_authorized-channel r auth g ∙ free)
      (ap (λ i. get i m) (set_authorized-id r auth g) ∙ new) here
      (set_authorized-IsLinked r auth g v)

pub enter-members-ne-nil :
    (h r : ℕ) (m : Map ℤ ℕ) (g : Registry) (k : ℕ)
    → ((k ≢ h) → members (g.channel_at k) ≢ [])
    → members ((enter h r m g).channel_at k) ≢ []
unfolding enter members
enter-members-ne-nil h r m g k others = ground (arith, put-ne-nil (g.client_at r).id r m)

set_authorized-IsWellFormed :
    (r : ℕ) (auth : Bool) (g : Registry) → IsWellFormed g → IsWellFormed (set_authorized r auth g)
set_authorized-IsWellFormed r auth g v = record {
  linked = set_authorized-IsLinked r auth g v.linked;
  populated = unfold set_authorized in v.populated;
}

-- A connected client that is in no channel can be added to any channel that its name finds.
pub add-Joins :
    (conf : Settings) (h r : ℕ) (password : Bytes) (w : World)
    → IsWellFormed w.registry
    → (w.client_at r).channel ≡ none
    → get r w.clients ≡ some tt
    → get (w.channel_at h).name w.channels ≡ some h
    → Joins (add conf h r password w)
unfolding announce set_authorized enter
add-Joins conf h r password w v free here found =
    elim (Option-cases (get (w.client_at r).id (members (w.channel_at h)))) [
      | inr (x, e) ↦ (
        _,
        add_taken conf h r password w x e,
        set_authorized-IsWellFormed r (authorizes (w.channel_at h) password) w.registry v,
      )
      | inl new ↦
          let (m, e) = members-cases (w.channel_at h) (v.populated _ h found) in
          (
            _,
            add_enters conf h r password w m new e,
            record {
              linked =
                  enter_authorized-IsLinked h r (authorizes (w.channel_at h) password) m w.registry
                    e found free
                    (sym (ap (get (w.client_at r).id) (members_within (w.channel_at h) e)) ∙ new)
                    here v.linked;
              populated = λ n k f.
                  enter-members-ne-nil h r m (ready_to_enter conf h r password w) k
                    (λ _. v.populated n k f);
            },
          )
    ]
