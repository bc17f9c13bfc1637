-- ===== src/Channel.antt =====
-- server/clientChannel.go: the `ClientChannel` object, `Lmotd` and `getChannelParams`. The sends of a
-- channel are in Relay.antt, and `Add` and `Remove`, which use the whole server, in Membership.antt.
pub mod Params
pub mod Lmotd
use nvda_remote_server.Common.{
  ℕ, zero, suc, ◌+◌, Bool, true, false, ◌&&◌, ◌||◌, not, Option, none, some, ◌++◌, Bytes, codes,
  List, [], ◌∷◌, bytes_eq, take, drop, length, ◌==◌, if◌then◌else◌,
}
use nvda_remote_server.Common.Int.{ℤ}
use nvda_remote_server.GoMap.{Map}
use nvda_remote_server.Strings.{index}

abbrev pub conn_type_slave : Bytes
conn_type_slave = codes "slave"

abbrev pub conn_type_master : Bytes
conn_type_master = codes "master"

-- `clients_all` is `none` for the nil map, and holds the addresses of the clients.
pub record ClientChannel : Type 0 where
  pub name : Bytes
  pub password : Bytes
  pub locked : Bool
  pub clients_all : Option (Map ℤ ℕ)

-- `range` and `len` read a nil map as an empty one.
unfoldable pub members : ClientChannel → Map ℤ ℕ
members c = elim c.clients_all [ none ↦ [] | some m ↦ m ]

-- The message that is built up in `Lmotd` before it looks at `c.locked`.
lmotd_text : ClientChannel → Bytes → Bytes → Bytes → Bytes
lmotd_text c ctype name password =
    let msg = codes "This is a locked channel. Name: " ++ (name ++ codes "\n") in
    if ctype == conn_type_slave
    then msg
      ++ (codes "No one will be able to control your computer"
          ++ (if not (c.password == [])
              then codes " unless they authenticate"
                ++ (if password == c.password then codes " (password accepted)" else codes ".")
              else codes "."))
    else if ctype == conn_type_master
    then msg
      ++ ((if (not (c.password == []) && not (password == c.password)) || c.password == []
            then codes "You won't be able to control any computers connected to this channel."
            else [])
          ++ (if password == c.password && not (c.password == [])
              then codes "You are authorized to control any computer connected to this channel."
              else []))
    else msg

unfoldable pub lmotd : ClientChannel → Bytes → Bytes → Bytes → Bytes
unfolding lmotd_text
lmotd c ctype name password = if not c.locked then [] else lmotd_text c ctype name password

-- What `Add` decides for a client that joins with `password`.
unfoldable pub authorizes : ClientChannel → Bytes → Bool
authorizes c password =
    if c.locked
    then (if password == c.password && not (c.password == []) then true else false)
    else true

pub record ChannelParams : Type 0 where
  pub name : Bytes
  pub password : Bytes
  pub locked : Bool

abbrev pub lock_prefix : Bytes
lock_prefix = codes "lock_"

abbrev pub password_marker : Bytes
password_marker = codes "__password__"

-- The last `if` of `getChannelParams`, with its local variables.
unfoldable pub split_password : ChannelParams → Option ℕ → ChannelParams
split_password p none = p
split_password p (some zero) = p
split_password p (some (suc i)) = record {
  name = take (suc i) p.name;
  password = drop (suc i + length password_marker) p.name;
  locked = true;
}

unfoldable pub get_channel_params : Bytes → ChannelParams
unfolding split_password
get_channel_params name =
    let li = index name lock_prefix in
    let pi = index name password_marker in
    let plain : ChannelParams = record { name = name; password = []; locked = false } in
    let rest = drop (length lock_prefix) name in
    let unlocked : ChannelParams = record { name = rest; password = []; locked = true } in
    elim li [
      | none ↦ (elim pi [ none ↦ plain | some i ↦ split_password plain (some i) ])
      | some zero ↦ split_password unlocked (index rest password_marker)
      | some (suc j) ↦ split_password plain pi
    ]
