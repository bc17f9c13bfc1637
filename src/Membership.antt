-- ===== src/Membership.antt =====
-- `Add`, `Remove`, `quitLocked` and `NewClientChannel` of server/clientChannel.go, and `AddChannel`
-- and `RemoveClient` of server/server.go. Each runs under the locks that the source takes, so each is
-- one step here; logging is left out.
pub mod Announce
use nvda_remote_server.Common.{
  ℕ, suc, Bool, true, false, ◌||◌, not, Option, none, some, List, [], ◌∷◌, ◌++◌, Bytes, codes,
  bytes_eq, nat_eq, update, ◌==◌, if◌then◌else◌, Outcome, ok, panic, ◌>>=◌,
}
use nvda_remote_server.Common.Int.{ℤ, int_eq}
use nvda_remote_server.GoMap.{Map, get, put, delete}
use nvda_remote_server.Protocol.{Data, zero_data, ClientData}
use nvda_remote_server.Channel.{ClientChannel, members, lmotd, authorizes}
use nvda_remote_server.World.{
  Registry, World, Settings, set_channel_at, set_authorized, set_channel, clear_channel,
  remove_channel,
}
use nvda_remote_server.Relay.{send_json, send_to_client, send_all_locked, must_encode}
use Announce.{joined_data, channel_joined_data, motd_data, left_data}

-- What the client and the channel look like to each other after a successful join.
unfoldable pub enter : ℕ → ℕ → Map ℤ ℕ → Registry → Registry
unfolding set_channel
enter h r m g = set_channel r h (
    set_channel_at h (record (g.channel_at h) { clients_all = some (put (g.client_at r).id r m) })
      g)

-- The messages of `Add`: `client_joined` to the others, `channel_joined` and the message of the day to
-- the client.
unfoldable pub announce : Settings → ℕ → ℕ → Bytes → World → World
unfolding send_json send_to_client
announce conf h r password w =
    let c = w.channel_at h in
    let client = w.client_at r in
    let told = send_json conf.codec (members c) (some r) (joined_data c client) w.outbox in
    let listed = send_to_client conf.codec r (channel_joined_data w.registry c client) told in
    let text = lmotd c client.connection_type c.name password in
    let greeted =
      if not (conf.motd == []) || not (text == [])
      then send_to_client conf.codec r (motd_data conf text) listed
      else listed in
    record w { outbox = greeted }

-- `SetAuthorized(false)`, and `true` where the password opens the channel.
unfoldable pub authorize : ℕ → ℕ → Bytes → Registry → Registry
unfolding set_authorized
authorize h r password g =
    let denied = set_authorized r false g in
    if authorizes (g.channel_at h) password then set_authorized r true denied else denied

-- `c.ClientsAll[id] = client` and what follows it in `Add`: a write to the nil map of a channel that
-- was quit is a panic.
unfoldable pub store_member : Settings → ℕ → ℕ → Bytes → Option (Map ℤ ℕ) → World → Outcome World
store_member conf h r password none w = panic
store_member conf h r password (some m) w =
    ok (announce conf h r password (record w { registry = enter h r m w.registry }))

-- `Add`: an id that is in the channel already is not entered again.
unfoldable pub add : Settings → ℕ → ℕ → Bytes → World → Outcome World
unfolding store_member
add conf h r password w =
    let w' = record w { registry = authorize h r password w.registry } in
    let c = w.channel_at h in
    elim (get (w.client_at r).id (members c)) [
      | some _ ↦ ok w'
      | none ↦ store_member conf h r password c.clients_all w'
    ]

clear_channels : Map ℤ ℕ → Registry → Registry
unfolding clear_channel
clear_channels [] g = g
clear_channels ((id, r) ∷ m) g = clear_channels m (clear_channel r g)

unfoldable pub quit_locked : ℕ → Registry → Registry
unfolding clear_channels remove_channel
quit_locked h g =
    let c = g.channel_at h in
    elim c.clients_all [
      | none ↦ remove_channel c.name g
      | some m ↦
          let left = clear_channels m g in
          remove_channel c.name (set_channel_at h (record c { clients_all = none }) left)
    ]

delete_member : ℤ → ClientChannel → ClientChannel
delete_member id c = elim c.clients_all [
  | none ↦ c
  | some m ↦ record c { clients_all = some (delete id m) }
]

-- The client leaves the channel's map, and loses its channel.
unfoldable pub leave : ℕ → ℕ → Registry → Registry
unfolding delete_member clear_channel
leave h r g =
    clear_channel r (set_channel_at h (delete_member (g.client_at r).id (g.channel_at h)) g)

unfoldable pub remove : Settings → ℕ → ℕ → World → World
unfolding leave quit_locked
remove conf h r w =
    let g = leave h r w.registry in
    let rest = members (g.channel_at h) in
    let o =
      send_all_locked rest (must_encode conf.codec (left_data (w.client_at r))) (some r) w.outbox in
    elim rest [
      | [] ↦ record { registry = quit_locked h g; outbox = o }
      | _ ∷ _ ↦ record { registry = g; outbox = o }
    ]

-- `AddChannel` with `NewClientChannel`: the channel is allocated, the client is added, and the name
-- is entered.
unfoldable pub add_channel : Settings → Bytes → Bytes → Bool → ℕ → World → Outcome World
unfolding add
add_channel conf name password locked r w = do
  let h = w.next_channel
  let c : ClientChannel = record {
    name = name;
    password = password;
    locked = locked;
    clients_all = some [];
  }
  w' ←
      add conf h r password
        (record w { registry = record (set_channel_at h c w.registry) { next_channel = suc h } })
  ok (record w' { registry = record w'.registry { channels = put name h w'.channels } })

-- `RemoveClient`: the client leaves its channel, and then the map.
unfoldable pub remove_client : Settings → ℕ → World → World
unfolding remove
remove_client conf r w =
    let w' : World = elim (w.client_at r).channel [ none ↦ w | some h ↦ remove conf h r w ] in
    elim (get r w'.clients) [
      | none ↦ w'
      | some _ ↦ record w' { registry = record w'.registry { clients = delete r w'.clients } }
    ]
