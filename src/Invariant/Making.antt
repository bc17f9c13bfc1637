-- ===== src/Invariant/Making.antt =====
-- `AddChannel` of server/server.go: the channel that it makes, and that it does not panic.
use nvda_remote_server.Common.{
  ℕ, suc, ◌≡◌, ◌≢◌, refl, sym, ap, ◌∙◌, none, some, [], Bytes, nat_eq, bytes_eq, bytes_beq_iff,
  arith, update, Bool, if◌then◌else◌, ◌==◌, Outcome, ok, ◌>>=◌,
}
use nvda_remote_server.Common.Int.{ℤ, int_eq}
use nvda_remote_server.GoMap.{get, put, get-put}
use nvda_remote_server.Channel.{members, ClientChannel, authorizes}
use nvda_remote_server.World.{World, Settings, Registry, set_channel_at, set_authorized}
use nvda_remote_server.Membership.{add_channel, announce, enter}
use nvda_remote_server.Invariant.{IsLinked, IsPopulated, IsWellFormed}
use nvda_remote_server.Invariant.Joining.{
  ready_to_enter, add_enters, members_within, enter_authorized-IsLinked, enter-members-ne-nil,
  Joins,
}

-- A channel is allocated and its name entered, before it has a client.
module _ (g : Registry) (c : ClientChannel) (empty : c.clients_all ≡ some [])
    (unused : get c.name g.channels ≡ none) where
  abbrev pub allocated_channel : Registry
  allocated_channel = record g {
    channel_at = update g.channel_at g.next_channel c;
    next_channel = suc g.next_channel;
    channels = put c.name g.next_channel g.channels;
  }

  same_members :
      IsLinked g → (k : ℕ) → members (allocated_channel.channel_at k) ≡ members (g.channel_at k)
  unfolding members
  same_members v k = ground (arith, v.fresh_channel k)

  nobody_yet : IsLinked g → (i : ℤ) → get i (members (g.channel_at g.next_channel)) ≡ none
  unfolding members get
  nobody_yet v i = ground (arith, v.fresh_channel g.next_channel)

  find_after :
      (n : Bytes)
      → get n allocated_channel.channels
        ≡ (if c.name == n then some g.next_channel else get n g.channels)
  find_after n = get-put c.name n g.next_channel g.channels

  allocated_channel-IsLinked : IsLinked g → IsLinked allocated_channel
  allocated_channel-IsLinked v = record {
    mapped = λ k. rw (same_members v k) (v.mapped k);
    named =
        λ n k e. ground (arith, find_after n, v.named n k, v.entered n k, bytes_beq_iff c.name n);
    entered = λ n k e. ground (arith, find_after n, v.entered n k);
    joined = λ x k e. ap (get (g.client_at x).id) (same_members v k) ∙ v.joined x k e;
    registered = λ x k e. ground (
      arith,
      find_after (allocated_channel.channel_at k).name,
      v.registered x k,
      v.entered (g.channel_at k).name k,
      unused,
      bytes_beq_iff c.name (g.channel_at k).name,
    );
    back = λ k i x e. v.back k i x (sym (ap (get i) (same_members v k)) ∙ e);
    back_id = λ k i x e. v.back_id k i x (sym (ap (get i) (same_members v k)) ∙ e);
    known = v.known;
    allocated = v.allocated;
    fresh_client = v.fresh_client;
    fresh_channel = λ k e. ground (arith, v.fresh_channel k);
  }

-- The channel that `AddChannel` makes.
abbrev pub made_channel : Bytes → Bytes → Bool → ClientChannel
made_channel name password locked = record {
  name = name;
  password = password;
  locked = locked;
  clients_all = some [];
}

-- The world in which `AddChannel` calls `Add`, and the one that it leaves.
module _ (conf : Settings) (name password : Bytes) (locked : Bool) (r : ℕ) (w : World) where
  abbrev pub with_channel : World
  with_channel = record w {
    registry =
        record (set_channel_at w.next_channel (made_channel name password locked) w.registry) {
          next_channel = suc w.next_channel;
        };
  }

  made_at : with_channel.channel_at w.next_channel ≡ made_channel name password locked
  made_at = ground arith

  abbrev pub added_channel : World
  added_channel = announce conf w.next_channel r password (record w {
    registry =
        enter w.next_channel r [] (ready_to_enter conf w.next_channel r password with_channel);
  })

  pub add_channel_lem :
      add_channel conf name password locked r w
      ≡ ok (record added_channel {
        registry = record added_channel.registry {
          channels = put name w.next_channel added_channel.channels;
        };
      })
  unfolding add_channel get
  add_channel_lem =
      ap
        (λ (o : Outcome World). o >>= λ (w' : World). ok (record w' {
          registry = record w'.registry { channels = put name w.next_channel w'.channels };
        }))
        (add_enters conf w.next_channel r password with_channel []
          (ap (get (w.client_at r).id) (members_within _ (ap (λ c. c.clients_all) made_at)))
          (ap (λ c. c.clients_all) made_at))

others_populated :
    (g : Registry) (c : ClientChannel) (n : Bytes) (k : ℕ)
    → IsPopulated g
    → get n (put c.name g.next_channel g.channels) ≡ some k
    → k ≢ g.next_channel
    → members (update g.channel_at g.next_channel c k) ≢ []
others_populated g c n k v e ne = ground (arith, get-put c.name n g.next_channel g.channels, v n k)

-- A connected client that is in no channel can make one, under a name that finds none.
pub add_channel-Joins :
    (conf : Settings) (name password : Bytes) (locked : Bool) (r : ℕ) (w : World)
    → IsWellFormed w.registry
    → (w.client_at r).channel ≡ none
    → get r w.clients ≡ some tt
    → get name w.channels ≡ none
    → Joins (add_channel conf name password locked r w)
unfolding announce set_authorized enter get
add_channel-Joins conf name password locked r w v free here unused = (
  _,
  add_channel_lem conf name password locked r w,
  record {
    linked =
        enter_authorized-IsLinked h r (authorizes (g.channel_at h) password) [] g made found free
          refl here (allocated_channel-IsLinked w.registry c refl unused v.linked);
    populated = λ n k e.
        enter-members-ne-nil h r [] (set_authorized r (authorizes (g.channel_at h) password) g) k
          (others_populated w.registry c n k v.populated e);
  },
)
  where
    h : ℕ
    h = w.next_channel

    c : ClientChannel
    c = made_channel name password locked

    g : Registry
    g = allocated_channel w.registry c refl unused

    made : (g.channel_at h).clients_all ≡ some []
    made = ground arith

    found : get (g.channel_at h).name g.channels ≡ some h
    found = ground (arith, get-put name name h w.channels, bytes_beq_iff name name)
