-- ===== src/Joins.antt =====
-- What a `join` comes to (server/commands.go with `Add` and `AddChannel`): which channel the client
-- gets, what it may do there, and that other clients are not touched.
use nvda_remote_server.Common.{
  ℕ, ◌≡◌, ◌≢◌, ap, ◌∙◌, none, some, [], Bytes, nat_eq, bytes_eq, bytes_beq_iff, arith, inl, inr,
  Bool-cases, Option-cases, ◌==◌, ok,
}
use nvda_remote_server.Common.Int.{int_eq}
use nvda_remote_server.GoMap.{get, get-put}
use nvda_remote_server.Protocol.{Data}
use nvda_remote_server.Channel.{ChannelParams, members, authorizes, get_channel_params}
use nvda_remote_server.World.{World, Settings, find_channel, set_authorized, set_connection_type}
use nvda_remote_server.Membership.{add, add_channel, enter, announce}
use nvda_remote_server.Commands.{exec_join, exec_join_free, enter_channel}
use nvda_remote_server.Invariant.{IsWellFormed}
use nvda_remote_server.Invariant.Joining.{add_enters, members-cases}
use nvda_remote_server.Invariant.Making.{add_channel_lem}
use nvda_remote_server.Invariant.Steps.{set_connection_type-IsWellFormed}

-- The client `r` of `w` has, in `w'`, entered the channel that the parameters name.
pub record HasEntered (params : ChannelParams) (r : ℕ) (w : World) (w' : World) : Type 0 where
  pub address : ℕ
  pub in_it : (w'.client_at r).channel ≡ some address
  pub found : find_channel params.name w' ≡ some address
  pub decided : (w'.client_at r).auth ≡ authorizes (w'.channel_at address) params.password
  pub others : (x : ℕ) → x ≢ r → w'.client_at x ≡ w.client_at x

-- The id is not in use in the channel that the name finds.
abbrev pub IsNewIn : Bytes → ℕ → World → Type 0
IsNewIn name r w =
    (h : ℕ)
    → find_channel name w ≡ some h
    → get (w.client_at r).id (members (w.channel_at h)) ≡ none

enter_channel-some :
    (conf : Settings) (r h : ℕ) (params : ChannelParams) (w : World)
    → find_channel params.name w ≡ some h
    → enter_channel conf r params w ≡ add conf h r params.password w
unfolding enter_channel
enter_channel-some conf r h params w e = rw (e, enter_channel)

enter_channel-none :
    (conf : Settings) (r : ℕ) (params : ChannelParams) (w : World)
    → find_channel params.name w ≡ none
    → enter_channel conf r params w ≡ add_channel conf params.name params.password params.locked r w
unfolding enter_channel
enter_channel-none conf r params w e = rw (e, enter_channel)

enter_found :
    (conf : Settings) (r h : ℕ) (params : ChannelParams) (w : World)
    → IsWellFormed w.registry
    → find_channel params.name w ≡ some h
    → get (w.client_at r).id (members (w.channel_at h)) ≡ none
    → (w' : World) × (enter_channel conf r params w ≡ ok w') × HasEntered params r w w'
unfolding announce enter set_authorized find_channel authorizes
enter_found conf r h params w v found new =
    let (m, ready) = members-cases (w.channel_at h) (v.populated params.name h found) in
    (
      _,
      enter_channel-some conf r h params w found
          ∙ (add_enters conf h r params.password w m new ready),
      record {
        address = h;
        in_it = ground arith;
        found = found;
        decided = ground arith;
        others = λ x ne. ground arith;
      },
    )

enter_made :
    (conf : Settings) (r : ℕ) (params : ChannelParams) (w : World)
    → find_channel params.name w ≡ none
    → (w' : World) × (enter_channel conf r params w ≡ ok w') × HasEntered params r w w'
unfolding announce enter set_authorized find_channel authorizes
enter_made conf r params w unused = (
  _,
  enter_channel-none conf r params w unused
      ∙ (add_channel_lem conf params.name params.password params.locked r w),
  record {
    address = w.next_channel;
    in_it = ground arith;
    found = ground (
      arith,
      get-put params.name params.name w.next_channel w.channels,
      bytes_beq_iff params.name params.name,
    );
    decided = ground arith;
    others = λ x ne. ground arith;
  },
)

abbrev typed : ℕ → Data → World → World
typed r db w = record w { registry = set_connection_type r db.connection_type w.registry }

exec_join_lem :
    (conf : Settings) (r : ℕ) (db : Data) (w : World)
    → (w.client_at r).channel ≡ none
    → (get_channel_params db.channel).name ≢ []
    → exec_join conf r db w ≡ enter_channel conf r (get_channel_params db.channel) (typed r db w)
unfolding exec_join exec_join_free
exec_join_lem conf r db w free named = first ∙ second
  where
    first : exec_join conf r db w ≡ exec_join_free conf r db w
    first = rw (free, exec_join)

    second :
        exec_join_free conf r db w
        ≡ enter_channel conf r (get_channel_params db.channel) (typed r db w)
    second = elim (Bool-cases ((get_channel_params db.channel).name == [])) [
      | inl e ↦ absurd (named ((bytes_beq_iff (get_channel_params db.channel).name []).0 e))
      | inr e ↦ rw (e, exec_join_free)
    ]

enter_any :
    (conf : Settings) (r : ℕ) (params : ChannelParams) (w : World)
    → IsWellFormed w.registry
    → IsNewIn params.name r w
    → (w' : World) × (enter_channel conf r params w ≡ ok w') × HasEntered params r w w'
enter_any conf r params w v new = elim (Option-cases (find_channel params.name w)) [
  | inl e ↦ enter_made conf r params w e
  | inr (h, e) ↦ enter_found conf r h params w v e (new h e)
]

typed_new :
    (r : ℕ) (db : Data) (name : Bytes) (w : World)
    → IsNewIn name r w
    → IsNewIn name r (typed r db w)
unfolding set_connection_type find_channel
typed_new r db name w new h e = ap (λ i. get i (members (w.channel_at h))) same ∙ new h e
  where
    same : ((typed r db w).client_at r).id ≡ (w.client_at r).id
    same = ground arith

typed_others :
    (r : ℕ) (db : Data) (w : World) (x : ℕ) → x ≢ r → (typed r db w).client_at x ≡ w.client_at x
unfolding set_connection_type
typed_others r db w x ne = ground arith

-- In a well-formed server a `join` by a client in no channel, whose key has a name and whose id is new
-- in the channel that the name finds, succeeds: the client then has the channel that the name finds,
-- with the authorization that this channel decides, and no other client is changed.
pub exec_join_enters :
    (conf : Settings) (r : ℕ) (db : Data) (w : World)
    → IsWellFormed w.registry
    → (w.client_at r).channel ≡ none
    → (get_channel_params db.channel).name ≢ []
    → IsNewIn (get_channel_params db.channel).name r w
    → (w' : World) × (exec_join conf r db w ≡ ok w')
      × HasEntered (get_channel_params db.channel) r w w'
exec_join_enters conf r db w v free named new =
    let (w', e, entered) =
      enter_any conf r (get_channel_params db.channel) (typed r db w)
        (set_connection_type-IsWellFormed r db.connection_type w.registry v)
        (typed_new r db (get_channel_params db.channel).name w new) in
    (
      w',
      exec_join_lem conf r db w free named ∙ e,
      record {
        address = entered.address;
        in_it = entered.in_it;
        found = entered.found;
        decided = entered.decided;
        others = λ x ne. entered.others x ne ∙ typed_others r db w x ne;
      },
    )
