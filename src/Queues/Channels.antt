-- ===== src/Queues/Channels.antt =====
-- The queues under `Add`, `AddChannel` and `Remove` (server/clientChannel.go, server/server.go).
use nvda_remote_server.Common.{
  ℕ, suc, ◌≡◌, refl, subst, Bool, Option, none, some, [], ◌∷◌, Bytes, bytes_eq, nat_eq, Outcome, ok,
  panic, ◌>>=◌, Option-cases, inl, inr,
}
use nvda_remote_server.Common.Int.{ℤ, int_eq}
use nvda_remote_server.GoMap.{Map, get, put}
use nvda_remote_server.Channel.{members}
use nvda_remote_server.World.{set_channel_at, World}
use nvda_remote_server.Relay.{send_all_locked, must_encode}
use nvda_remote_server.Channel.{ClientChannel}
use nvda_remote_server.Membership.Announce.{left_data}
use nvda_remote_server.Membership.{enter, leave, add, add_channel, store_member, remove}
use nvda_remote_server.Queues.{
  QueueLaws, encoded, AllKept, send_all_locked-AllKept, announce-AllKept,
}

-- If the outcome is a state, then its queues are kept.
abbrev pub Served : QueueLaws → Outcome World → Type 0
Served k o = (w : World) → o ≡ ok w → AllKept k w.outbox

module _ (k : QueueLaws) where
  pub ok-Served : (w : World) → AllKept k w.outbox → Served k (ok w)
  ok-Served w v w' e = subst (λ (u : World). AllKept k u.outbox) (same e) v
    where
      same : ok w ≡ ok w' → w ≡ w'
      same e = cc

  pub store_member-Served :
      (h r : ℕ) (password : Bytes) (m : Option (Map ℤ ℕ)) (w : World)
      → AllKept k w.outbox
      → Served k (store_member k.conf h r password m w)
  unfolding store_member
  store_member-Served h r password none w v = λ w' e. cc
  store_member-Served h r password (some m) w v =
      ok-Served _
        (announce-AllKept k h r password (record w { registry = enter h r m w.registry }) v)

  pub add-Served :
      (h r : ℕ) (password : Bytes) (w : World)
      → AllKept k w.outbox
      → Served k (add k.conf h r password w)
  unfolding add
  add-Served h r password w v =
      elim (Option-cases (get (w.client_at r).id (members (w.channel_at h)))) [
        | inl e ↦ rw (e, add) (store_member-Served h r password (w.channel_at h).clients_all _ v)
        | inr (s, e) ↦ rw (e, add) (ok-Served _ v)
      ]

  pub then-Served :
      (o : Outcome World) (f : World → Outcome World)
      → Served k o
      → ((w : World) → AllKept k w.outbox → Served k (f w))
      → Served k (o >>= f)
  then-Served (ok w) f v g = g w (v w refl)
  then-Served panic f v g = λ w' e. cc

  pub add_channel-Served :
      (name password : Bytes) (locked : Bool) (r : ℕ) (w : World)
      → AllKept k w.outbox
      → Served k (add_channel k.conf name password locked r w)
  unfolding add_channel
  add_channel-Served name password locked r w v =
      let c : ClientChannel = record {
        name = name;
        password = password;
        locked = locked;
        clients_all = some [];
      } in
      let made : World = record w {
        registry = record (set_channel_at w.next_channel c w.registry) {
          next_channel = suc w.next_channel;
        };
      } in
      let named : World → World = λ w'. record w' {
        registry = record w'.registry { channels = put name w.next_channel w'.channels };
      } in
      then-Served (add k.conf w.next_channel r password made) (λ w'. ok (named w'))
        (add-Served w.next_channel r password made v) (λ w' v'. ok-Served (named w') v')

  pub remove-AllKept :
      (h r : ℕ) (w : World) → AllKept k w.outbox → AllKept k (remove k.conf h r w).outbox
  unfolding remove
  remove-AllKept h r w v = by_rest (members ((leave h r w.registry).channel_at h)) refl
    where
      sent :
          (m : Map ℤ ℕ)
          → AllKept k (
              send_all_locked m
                (must_encode k.conf.codec (left_data (w.client_at r)))
                (some r)
                w.outbox)
      sent m =
          send_all_locked-AllKept k m (must_encode k.conf.codec (left_data (w.client_at r)))
            (some r) w.outbox (encoded k (left_data (w.client_at r))) v

      by_rest :
          (m : Map ℤ ℕ)
          → members ((leave h r w.registry).channel_at h) ≡ m
          → AllKept k (remove k.conf h r w).outbox
      by_rest [] e = rw (remove, e) (sent (members ((leave h r w.registry).channel_at h)))
      by_rest (x ∷ m) e = rw (remove, e) (sent (members ((leave h r w.registry).channel_at h)))
