-- ===== src/Invariant/Leaving.antt =====
-- Departures: a client leaves its channel, and a channel that is left empty is quit.
use nvda_remote_server.Common.{
  ℕ, ◌≡◌, ◌≢◌, sym, ap, ◌∙◌, none, some, [], Bytes, nat_eq, bytes_eq, bytes_beq_iff, arith, update,
  nat_beq, inl, inr, Bool-cases, if◌then◌else◌, ◌==◌,
}
use nvda_remote_server.Common.Int.{ℤ, int_eq, int_beq_iff}
use nvda_remote_server.GoMap.{get, delete, get-delete, delete-IsMap}
use nvda_remote_server.Channel.{members}
use nvda_remote_server.World.{Registry, remove_channel}
use nvda_remote_server.Membership.{leave, quit_locked}
use nvda_remote_server.Invariant.{IsLinked, IsPopulated}

module _ (g : Registry) (h r : ℕ) (v : IsLinked g) (inside : (g.client_at r).channel ≡ some h) where
  pub leave-channel :
      (x : ℕ)
      → ((leave h r g).client_at x).channel
        ≡ (if nat_beq r x then none else (g.client_at x).channel)
  unfolding leave
  leave-channel x = ground arith

  leave-id : (x : ℕ) → ((leave h r g).client_at x).id ≡ (g.client_at x).id
  unfolding leave
  leave-id x = ground arith

  pub leave-name : (k : ℕ) → ((leave h r g).channel_at k).name ≡ (g.channel_at k).name
  unfolding leave
  leave-name k = ground arith

  pub leave-members :
      (k : ℕ)
      → members ((leave h r g).channel_at k) ≡ (
          if nat_beq h k
          then delete (g.client_at r).id (members (g.channel_at h))
          else members (g.channel_at k))
  unfolding leave members delete
  leave-members k = ground arith

  leave-get :
      (i : ℤ) (k : ℕ)
      → get i (members ((leave h r g).channel_at k)) ≡ (
          if nat_beq h k
          then (if (g.client_at r).id == i then none else get i (members (g.channel_at h)))
          else get i (members (g.channel_at k)))
  leave-get i k = ap (get i) (leave-members k) ∙ elim (Bool-cases (nat_beq h k)) [
    | inl e ↦ rw e (get-delete (g.client_at r).id i (members (g.channel_at h)))
    | inr e ↦ rw e
  ]

  pub leave-IsLinked : IsLinked (leave h r g)
  unfolding leave
  leave-IsLinked = record {
    mapped = λ k. rw (leave-members k) (
        ground (
          arith,
          v.mapped k,
          v.mapped h,
          delete-IsMap (g.client_at r).id (members (g.channel_at h)),
        ));
    entered = v.entered;
    named = λ n k e. ground (arith, leave-name k, v.named n k);
    joined = λ x k e. ground (
      arith,
      leave-channel x,
      leave-id x,
      leave-get ((leave h r g).client_at x).id k,
      v.joined x k,
      v.joined r h,
      int_beq_iff (g.client_at r).id (g.client_at x).id,
    );
    registered = λ x k e. ground (arith, leave-channel x, leave-name k, v.registered x k);
    back = λ k i x e. ground (
      arith,
      leave-channel x,
      leave-get i k,
      v.back k i x,
      v.back_id k i x,
      int_beq_iff (g.client_at r).id i,
    );
    back_id = λ k i x e. ground (arith, leave-id x, leave-get i k, v.back_id k i x);
    known = λ x k e. ground (arith, leave-channel x, v.known x k);
    allocated = v.allocated;
    fresh_client = λ x e. ground (arith, leave-channel x, v.fresh_client x);
    fresh_channel = λ k e. ground (arith, v.fresh_channel k);
  }

-- The registry once the channel `h` is quit.
abbrev pub without_channel : ℕ → Registry → Registry
without_channel h g = record g {
  channel_at = update g.channel_at h (record (g.channel_at h) { clients_all = none });
  channels = delete (g.channel_at h).name g.channels;
}

-- A channel that its name finds and that has no client is quit.
module _ (g : Registry) (h : ℕ) (found : get (g.channel_at h).name g.channels ≡ some h)
    (empty : (g.channel_at h).clients_all ≡ some []) where
  pub quit_locked_lem : quit_locked h g ≡ without_channel h g
  unfolding quit_locked remove_channel
  quit_locked_lem = rw (empty, quit_locked) (rw (found, remove_channel))

  none_in : (k : ℕ) → members ((without_channel h g).channel_at k) ≡ members (g.channel_at k)
  unfolding members
  none_in k = ground arith

  pub name_in : (k : ℕ) → ((without_channel h g).channel_at k).name ≡ (g.channel_at k).name
  name_in k = ground arith

  empty_members : members (g.channel_at h) ≡ []
  unfolding members
  empty_members = rw empty

  nobody : (i : ℤ) → get i (members (g.channel_at h)) ≡ none
  unfolding get
  nobody i = rw empty_members

  find_in :
      (n : Bytes)
      → get n (without_channel h g).channels
        ≡ (if (g.channel_at h).name == n then none else get n g.channels)
  find_in n = get-delete (g.channel_at h).name n g.channels

  pub without_channel-IsLinked : IsLinked g → IsLinked (without_channel h g)
  without_channel-IsLinked v = record {
    mapped = λ k. rw (none_in k) (v.mapped k);
    entered = λ n k e. ground (arith, find_in n, v.entered n k);
    named = λ n k e. ground (arith, find_in n, name_in k, v.named n k);
    joined = λ x k e. ap (get (g.client_at x).id) (none_in k) ∙ v.joined x k e;
    registered = λ x k e. ground (
      arith,
      find_in ((without_channel h g).channel_at k).name,
      name_in k,
      v.registered x k,
      v.joined x k,
      nobody (g.client_at x).id,
      bytes_beq_iff (g.channel_at h).name (g.channel_at k).name,
    );
    back = λ k i x e. v.back k i x (sym (ap (get i) (none_in k)) ∙ e);
    back_id = λ k i x e. v.back_id k i x (sym (ap (get i) (none_in k)) ∙ e);
    known = v.known;
    allocated = v.allocated;
    fresh_client = v.fresh_client;
    fresh_channel = λ k e. ground (arith, v.fresh_channel k);
  }

  pub without_channel-IsPopulated :
      ((n : Bytes) (k : ℕ) → get n g.channels ≡ some k → k ≢ h → members (g.channel_at k) ≢ [])
      → IsLinked g
      → IsPopulated (without_channel h g)
  without_channel-IsPopulated others v n k e none_left =
      others n k (ground (arith, find_in n))
        (λ same. ground (arith, find_in n, v.named n k, bytes_beq_iff (g.channel_at h).name n))
        (sym (none_in k) ∙ none_left)
