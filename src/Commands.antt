-- ===== src/Commands.antt =====
-- server/commands.go: the table of commands and the three handlers.
use nvda_remote_server.Common.{
  ℕ, Option, none, some, List, [], Bytes, codes, bytes_eq, update, ◌==◌, if◌then◌else◌, Outcome, ok,
  ◌>>=◌,
}
use nvda_remote_server.Common.Int.{pos, int_leb}
use nvda_remote_server.GoMap.{Map, get, put}
use nvda_remote_server.Protocol.{Data, zero_data}
use nvda_remote_server.Client.{close, close_gracefully}
use nvda_remote_server.Channel.{ChannelParams, get_channel_params}
use nvda_remote_server.World.{World, Settings, set_connection_type, set_version, find_channel}
use nvda_remote_server.Relay.{send_to_client}
use nvda_remote_server.Membership.{add, add_channel}
use nvda_remote_server.Keys.{generated, failed, drawing, gen_key}

pub data Command : Type 0 where
  join protocol_version generate_key : Command

-- The map `command` as `init` fills it by `cmd_add`.
unfoldable pub command : Map Bytes Command
command =
    put (codes "generate_key") generate_key
      (put (codes "protocol_version") protocol_version (put (codes "join") join []))

abbrev pub error_data : Bytes → Data
error_data kind = record zero_data { type = codes "error"; error = kind }

unfoldable pub send_error : Settings → ℕ → Bytes → World → World
send_error conf r kind w = record w {
  outbox = send_to_client conf.codec r (error_data kind) w.outbox;
}

-- c.Close()
unfoldable pub close_client : ℕ → World → World
close_client r w = record w { outbox = update w.outbox r (close (w.outbox r)) }

-- The end of the handler of `join`: the client enters the channel, which is made if there is none.
unfoldable pub enter_channel : Settings → ℕ → ChannelParams → World → Outcome World
enter_channel conf r params w = elim (find_channel params.name w) [
  | some cc ↦ add conf cc r params.password w
  | none ↦ add_channel conf params.name params.password params.locked r w
]

-- The handler of `join` for a client that is in no channel.
unfoldable pub exec_join_free : Settings → ℕ → Data → World → Outcome World
exec_join_free conf r db w =
    let params = get_channel_params db.channel in
    if params.name == []
    then ok (close_client r (send_error conf r (codes "invalid_parameters") w))
    else enter_channel conf r params
        (record w { registry = set_connection_type r db.connection_type w.registry })

unfoldable pub exec_join : Settings → ℕ → Data → World → Outcome World
exec_join conf r db w = elim (w.client_at r).channel [
  | some _ ↦ ok (send_error conf r (codes "already_joined") w)
  | none ↦ exec_join_free conf r db w
]

unfoldable pub exec_protocol_version : ℕ → Data → World → World
unfolding set_version
exec_protocol_version r db w =
    if int_leb db.version (pos 0)
    then w
    else record w { registry = set_version r db.version w.registry }

abbrev pub key_data : Bytes → Data
key_data key = record zero_data { type = codes "generate_key"; key = key }

-- `reads` is what `crypto/rand` returns to `gen_key`. If its loop has not ended with them, nothing
-- has happened yet.
unfoldable pub exec_generate_key : Settings → ℕ → List (Option Bytes) → World → Outcome World
unfolding close_client
exec_generate_key conf r reads w = elim (gen_key w.registry reads) [
  | failed ↦ ok (close_client r w)
  | drawing ↦ ok w
  | generated key ↦
      let told = send_to_client conf.codec r (key_data key) w.outbox in
      do o ← close_gracefully (told r); ok (record w { outbox = update told r o })
]

unfoldable pub exec : Settings → ℕ → Command → Data → List (Option Bytes) → World → Outcome World
unfolding exec_join exec_protocol_version exec_generate_key
exec conf r join db reads w = exec_join conf r db w
exec conf r protocol_version db reads w = ok (exec_protocol_version r db w)
exec conf r generate_key db reads w = exec_generate_key conf r reads w

-- `cmd_exec`: a message with no type or an unknown one is ignored.
unfoldable pub cmd_exec : Settings → ℕ → Data → List (Option Bytes) → World → Outcome World
unfolding command
cmd_exec conf r db reads w =
    if db.type == []
    then ok w
    else elim (get db.type command) [ none ↦ ok w | some cmd ↦ exec conf r cmd db reads w ]
