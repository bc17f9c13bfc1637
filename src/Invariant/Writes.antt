-- ===== src/Invariant/Writes.antt =====
-- Writes to the registry that keep the links: to a client's own fields, and those of a join and a
-- departure.
use nvda_remote_server.Common.{
  ℕ, ◌≡◌, sym, ap, ◌∙◌, none, some, nat_eq, bytes_eq, arith, update, nat_beq, inl, inr, Bool-cases,
  if◌then◌else◌, ◌==◌,
}
use nvda_remote_server.Common.Int.{ℤ, int_eq, int_beq_iff}
use nvda_remote_server.GoMap.{Map, get, put, get-put, put-IsMap}
use nvda_remote_server.Channel.{members}
use nvda_remote_server.Client.{Client}
use nvda_remote_server.World.{Registry, set_client}
use nvda_remote_server.Membership.{enter}
use nvda_remote_server.Invariant.{IsLinked}

-- A write to a client that leaves its id and its channel alone.
module _ (g : Registry) (r : ℕ) (c : Client) (same_id : c.id ≡ (g.client_at r).id)
    (same_channel : c.channel ≡ (g.client_at r).channel) where
  channel_same : (x : ℕ) → (update g.client_at r c x).channel ≡ (g.client_at x).channel
  channel_same x = ground arith

  id_same : (x : ℕ) → (update g.client_at r c x).id ≡ (g.client_at x).id
  id_same x = ground arith

  pub set_client-IsLinked : IsLinked g → IsLinked (set_client r c g)
  set_client-IsLinked v = record {
    mapped = v.mapped;
    named = v.named;
    entered = v.entered;
    joined = λ x h e. rw (id_same x) (v.joined x h (sym (channel_same x) ∙ e));
    registered = λ x h e. v.registered x h (sym (channel_same x) ∙ e);
    back = λ h i x e. channel_same x ∙ v.back h i x e;
    back_id = λ h i x e. id_same x ∙ v.back_id h i x e;
    known = λ x h e. v.known x h (sym (channel_same x) ∙ e);
    allocated = v.allocated;
    fresh_client = λ x e. channel_same x ∙ v.fresh_client x e;
    fresh_channel = v.fresh_channel;
  }

-- A client enters a channel that has no entry under its id.
module _ (g : Registry) (h r : ℕ) (m : Map ℤ ℕ) (ready : (g.channel_at h).clients_all ≡ some m)
    (found : get (g.channel_at h).name g.channels ≡ some h) (free : (g.client_at r).channel ≡ none)
    (new : get (g.client_at r).id m ≡ none) (here : get r g.clients ≡ some tt) where
  abbrev after : Registry
  after = enter h r m g

  members_ready : members (g.channel_at h) ≡ m
  unfolding members
  members_ready = rw ready

  enter-channel :
      (x : ℕ)
      → (after.client_at x).channel ≡ (if nat_beq r x then some h else (g.client_at x).channel)
  unfolding enter
  enter-channel x = ground arith

  enter-id : (x : ℕ) → (after.client_at x).id ≡ (g.client_at x).id
  unfolding enter
  enter-id x = ground arith

  enter-name : (k : ℕ) → (after.channel_at k).name ≡ (g.channel_at k).name
  unfolding enter
  enter-name k = ground arith

  pub enter-members :
      (k : ℕ)
      → members (after.channel_at k)
        ≡ (if nat_beq h k then put (g.client_at r).id r m else members (g.channel_at k))
  unfolding enter members
  enter-members k = ground arith

  enter-get :
      (i : ℤ) (k : ℕ)
      → get i (members (after.channel_at k)) ≡ (
          if nat_beq h k
          then (if (g.client_at r).id == i then some r else get i m)
          else get i (members (g.channel_at k)))
  enter-get i k = ap (get i) (enter-members k) ∙ elim (Bool-cases (nat_beq h k)) [
    | inl e ↦ rw e (get-put (g.client_at r).id i r m)
    | inr e ↦ rw e
  ]

  pub enter-IsLinked : IsLinked g → IsLinked (enter h r m g)
  unfolding enter
  enter-IsLinked v = record {
    mapped = λ k.
        rw (enter-members k)
          (ground (arith, v.mapped k, v.mapped h, members_ready, put-IsMap (g.client_at r).id r m));
    entered = v.entered;
    named = λ n k e. ground (arith, enter-name k, v.named n k);
    joined = λ x k e. ground (
      arith,
      enter-channel x,
      enter-id x,
      enter-get (after.client_at x).id k,
      v.joined x k,
      members_ready,
      int_beq_iff (g.client_at r).id (g.client_at x).id,
    );
    registered = λ x k e. ground (arith, enter-channel x, enter-name k, v.registered x k, found);
    back = λ k i x e. ground (arith, enter-channel x, enter-get i k, v.back k i x, members_ready);
    back_id = λ k i x e. ground (
      arith,
      enter-id x,
      enter-get i k,
      v.back_id k i x,
      members_ready,
      int_beq_iff (g.client_at r).id i,
    );
    known = λ x k e. ground (arith, enter-channel x, v.known x k, here);
    allocated = v.allocated;
    fresh_client = λ x e. ground (arith, enter-channel x, v.fresh_client x, v.allocated r);
    fresh_channel = λ k e. ground (arith, v.fresh_channel k, ready);
  }
