-- ===== src/World.antt =====
-- The state of the server process: the maps `clients` and `channels` and the counter `lastID` of
-- server/server.go, and the heaps of the objects that their pointers name. The queues of the clients
-- stand apart in `outbox`, since sends change nothing else.
use nvda_remote_server.Common.{
  ℕ, suc, ◌+◌, ◌%◌, ◌^◌, Bool, true, false, Option, none, some, [], Bytes, update, nat_eq, bytes_eq,
}
use nvda_remote_server.Common.Int.{ℤ, pos, int32}
use nvda_remote_server.GoMap.{Map, get, put, delete}
use nvda_remote_server.Client.{Client, Outbox}
use nvda_remote_server.Channel.{ClientChannel}
use nvda_remote_server.Protocol.{Codec}

-- `clients` is the Go map from pointers to empty structs. An address at or above `next_client` or
-- `next_channel` is not allocated.
pub record Registry : Type 0 where
  pub last_id : ℕ
  pub clients : Map ℕ (Unit {0})
  pub channels : Map Bytes ℕ
  pub client_at : ℕ → Client
  pub channel_at : ℕ → ClientChannel
  pub next_client : ℕ
  pub next_channel : ℕ

abbrev pub Outboxes : Type 0
Outboxes = ℕ → Outbox

pub record World : Type 0 where
  pub registry : Registry
  pub open registry use *
  pub outbox : Outboxes

-- What is fixed when the first client connects: the JSON codec and the message of the day.
pub record Settings : Type 0 where
  pub codec : Codec
  pub open codec use *
  pub motd : Bytes
  pub motd_always_display : Bool

-- Writes to the fields of one object.
abbrev pub set_client : ℕ → Client → Registry → Registry
set_client r c g = record g { client_at = update g.client_at r c }

abbrev pub set_channel_at : ℕ → ClientChannel → Registry → Registry
set_channel_at h c g = record g { channel_at = update g.channel_at h c }

-- client.SetAuthorized
unfoldable pub set_authorized : ℕ → Bool → Registry → Registry
set_authorized r auth g = set_client r (record (g.client_at r) { auth = auth }) g

-- client.SetConnectionType
unfoldable pub set_connection_type : ℕ → Bytes → Registry → Registry
set_connection_type r ctype g = set_client r (record (g.client_at r) { connection_type = ctype }) g

-- client.SetVersion
unfoldable pub set_version : ℕ → ℤ → Registry → Registry
set_version r version g = set_client r (record (g.client_at r) { version = version }) g

-- client.SetChannel
unfoldable pub set_channel : ℕ → ℕ → Registry → Registry
set_channel r h g = set_client r (record (g.client_at r) { channel = some h }) g

-- client.ClearChannel
unfoldable pub clear_channel : ℕ → Registry → Registry
clear_channel r g = set_client r (record (g.client_at r) { channel = none }) g

-- A `Client` as `accept` allocates it.
abbrev pub new_client : Bytes → Client
new_client ip = record {
  connection_type = [];
  id = pos 0;
  version = pos 0;
  ip = ip;
  channel = none;
  auth = false;
}

abbrev pub new_outbox : (ℕ → Bool) → Outbox
new_outbox picks = record { sd = []; dropped = 0; cancelled = false; closed = false; picks = picks }

-- `accept` of connection.go up to the start of the client's goroutine, and `AddClient`: the client
-- gets the next id, a 32-bit counter, and is entered in the map.
unfoldable pub add_client : Bytes → (ℕ → Bool) → World → World
add_client ip picks w =
    let r = w.next_client in
    let id = (w.last_id + 1) % 2 ^ 32 in
    record {
      registry = record w.registry {
        last_id = id;
        client_at = update w.client_at r (record (new_client ip) { id = int32 id });
        clients = put r tt w.clients;
        next_client = suc r;
      };
      outbox = update w.outbox r (new_outbox picks);
    }

unfoldable pub find_client : ℕ → World → Bool
find_client r w = elim (get r w.clients) [ none ↦ false | some _ ↦ true ]

unfoldable pub find_channel : Bytes → World → Option ℕ
find_channel name w = get name w.channels

-- `RemoveChannel`: a name that is not in the map is left out of it.
unfoldable pub remove_channel : Bytes → Registry → Registry
remove_channel name g = elim (get name g.channels) [
  | none ↦ g
  | some _ ↦ record g { channels = delete name g.channels }
]

-- The process before its first connection. What stands at an address that is not allocated is never
-- read.
abbrev pub start : World
start = record {
  registry = record {
    last_id = 0;
    clients = [];
    channels = [];
    client_at = λ _. new_client [];
    channel_at = λ _. record { name = []; password = []; locked = false; clients_all = none };
    next_client = 0;
    next_channel = 0;
  };
  outbox = λ _. new_outbox (λ _. false);
}
