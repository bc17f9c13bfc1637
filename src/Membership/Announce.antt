-- ===== src/Membership/Announce.antt =====
-- The messages that `Add` and `Remove` of server/clientChannel.go build.
use nvda_remote_server.Common.{
  ℕ, true, some, List, [], ◌∷◌, ◌++◌, Bytes, codes, bytes_eq, ◌==◌, if◌then◌else◌, not, length, leb,
}
use nvda_remote_server.Common.Int.{ℤ, int_eq, int_leb}
use nvda_remote_server.GoMap.{Map}
use nvda_remote_server.Protocol.{Data, zero_data, ClientData}
use nvda_remote_server.Client.{Client}
use nvda_remote_server.Channel.{ClientChannel, members}
use nvda_remote_server.World.{Registry, Settings}

abbrev pub client_data : Client → ClientData
client_data client = record { id = client.id; connection_type = client.connection_type }

-- client_joined, for the other clients of the channel.
unfoldable pub joined_data : ClientChannel → Client → Data
joined_data c client = record zero_data {
  type = codes "client_joined";
  channel = c.name;
  id = client.id;
  client = some (client_data client);
}

-- client_left, for those who remain.
unfoldable pub left_data : Client → Data
left_data client = record zero_data {
  type = codes "client_left";
  id = client.id;
  origin = client.id;
  client = some (client_data client);
}

-- The loop over the members, but the joining client's own id: `UserIds` and `Clients`.
unfoldable pub other_ids : ℤ → Map ℤ ℕ → List ℤ
other_ids id [] = []
other_ids id ((cid, cc) ∷ m) = let rest = other_ids id m in if cid == id then rest else cid ∷ rest

unfoldable pub other_clients : Registry → ℤ → Map ℤ ℕ → List ClientData
other_clients g id [] = []
other_clients g id ((cid, cc) ∷ m) =
    let rest = other_clients g id m in
    if cid == id
    then rest
    else record { id = cid; connection_type = (g.client_at cc).connection_type } ∷ rest

-- slices.Sort and slices.SortStableFunc, by a key.
insert_by {ℓ} : {A : Type ℓ} → (A → ℤ) → A → List A → List A
insert_by key x [] = x ∷ []
insert_by key x (y ∷ ys) = if int_leb (key x) (key y) then x ∷ y ∷ ys else y ∷ insert_by key x ys

unfoldable pub sort_by {ℓ} : {A : Type ℓ} → (A → ℤ) → List A → List A
unfolding insert_by
sort_by key [] = []
sort_by key (x ∷ xs) = insert_by key x (sort_by key xs)

-- channel_joined, for the client that joined. A list of one needs no sort.
unfoldable pub channel_joined_data : Registry → ClientChannel → Client → Data
unfolding other_ids other_clients sort_by
channel_joined_data g c client =
    let ids = other_ids client.id (members c) in
    let clients = other_clients g client.id (members c) in
    let sorted = not (leb (length ids) 1) in
    record zero_data {
      type = codes "channel_joined";
      channel = c.name;
      origin = client.id;
      user_ids = if sorted then sort_by (λ i. i) ids else ids;
      clients = if sorted then sort_by (λ d. d.id) clients else clients;
    }

-- The message of the day, under the text about the lock if there is one.
unfoldable pub motd_data : Settings → Bytes → Data
motd_data conf text = record zero_data {
  type = codes "motd";
  motd =
      if not (text == [])
      then (if conf.motd == [] then text else text ++ (codes "\n" ++ conf.motd))
      else conf.motd;
  motd_always_display = if not (text == []) then true else conf.motd_always_display;
}
