-- ===== src/Invariant/Clients.antt =====
-- `AddClient` and `RemoveClient` of server/server.go keep the maps and pointers well formed.
use nvda_remote_server.Common.{
  ℕ, ◌≡◌, sym, ap, ◌∙◌, none, some, Bytes, nat_eq, bytes_eq, arith, nat_beq, Bool, inl, inr,
  Option-cases, if◌then◌else◌,
}
use nvda_remote_server.Common.Int.{int_eq}
use nvda_remote_server.GoMap.{get, delete, get-delete, get-put}
use nvda_remote_server.Channel.{members}
use nvda_remote_server.World.{World, Settings, Registry, add_client}
use nvda_remote_server.Membership.{remove, remove_client}
use nvda_remote_server.Invariant.{IsWellFormed}
use nvda_remote_server.Invariant.Removing.{remove-IsWellFormed, remove-channel}

forget_client :
    (g : Registry) (r : ℕ)
    → (g.client_at r).channel ≡ none
    → IsWellFormed g
    → IsWellFormed (record g { clients = delete r g.clients })
forget_client g r gone v = record {
  linked = record {
    mapped = v.linked.mapped;
    named = v.linked.named;
    entered = v.linked.entered;
    joined = v.linked.joined;
    registered = v.linked.registered;
    back = v.linked.back;
    back_id = v.linked.back_id;
    known = λ x h e. ground (arith, get-delete r x g.clients, v.linked.known x h);
    allocated = λ x e. ground (arith, get-delete r x g.clients, v.linked.allocated x);
    fresh_client = v.linked.fresh_client;
    fresh_channel = v.linked.fresh_channel;
  };
  populated = v.populated;
}

-- The world of `RemoveClient` once the client has left its channel.
unfoldable pub left_channel : Settings → ℕ → World → World
left_channel conf r w = elim (w.client_at r).channel [ none ↦ w | some h ↦ remove conf h r w ]

left_channel-IsWellFormed :
    (conf : Settings) (r : ℕ) (w : World)
    → IsWellFormed w.registry
    → IsWellFormed (left_channel conf r w).registry
      × (((left_channel conf r w).client_at r).channel ≡ none)
unfolding left_channel
left_channel-IsWellFormed conf r w v = elim (Option-cases (w.client_at r).channel) [
  | inl e ↦ rw (e, left_channel) (v, e)
  | inr (h, e) ↦
      rw (e, left_channel)
        (remove-IsWellFormed conf h r w v e, remove-channel conf h r w v e r ∙ ground arith)
]

pub remove_client-IsWellFormed :
    (conf : Settings) (r : ℕ) (w : World)
    → IsWellFormed w.registry
    → IsWellFormed (remove_client conf r w).registry
unfolding left_channel remove_client
remove_client-IsWellFormed conf r w v =
    let (v', gone) = left_channel-IsWellFormed conf r w v in
    elim (Option-cases (get r (left_channel conf r w).clients)) [
      | inl e ↦ rw (e, remove_client) v'
      | inr (u, e) ↦
          rw (e, remove_client) (forget_client (left_channel conf r w).registry r gone v')
    ]

module _ (ip : Bytes) (picks : ℕ → Bool) (w : World) (v : IsWellFormed w.registry) where
  pub added-channel :
      (x : ℕ) → ((add_client ip picks w).client_at x).channel ≡ (w.client_at x).channel
  unfolding add_client
  added-channel x = ground (arith, v.linked.fresh_client x)

  added-id :
      (x h : ℕ)
      → (w.client_at x).channel ≡ some h
      → ((add_client ip picks w).client_at x).id ≡ (w.client_at x).id
  unfolding add_client
  added-id x h e = ground (arith, v.linked.fresh_client x)

  added-known :
      (x : ℕ)
      → get x (add_client ip picks w).clients
        ≡ (if nat_beq w.next_client x then some tt else get x w.clients)
  unfolding add_client
  added-known x = get-put w.next_client x tt w.clients

  pub add_client-IsWellFormed : IsWellFormed (add_client ip picks w).registry
  unfolding add_client
  add_client-IsWellFormed = record {
    linked = record {
      mapped = v.linked.mapped;
      named = v.linked.named;
      entered = v.linked.entered;
      joined = λ x h e.
          let old = sym (added-channel x) ∙ e in
          ap (λ i. get i (members (w.channel_at h))) (added-id x h old) ∙ v.linked.joined x h old;
      registered = λ x h e. v.linked.registered x h (sym (added-channel x) ∙ e);
      back = λ h i x e. added-channel x ∙ v.linked.back h i x e;
      back_id = λ h i x e. added-id x h (v.linked.back h i x e) ∙ v.linked.back_id h i x e;
      known =
          λ x h e. ground (arith, added-known x, v.linked.known x h (sym (added-channel x) ∙ e));
      allocated = λ x e. ground (arith, added-known x, v.linked.allocated x);
      fresh_client = λ x e. added-channel x ∙ v.linked.fresh_client x (omega arith);
      fresh_channel = v.linked.fresh_channel;
    };
    populated = v.populated;
  }
