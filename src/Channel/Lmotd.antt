-- ===== src/Channel/Lmotd.antt =====
-- The message of a locked channel (server/clientChannel.go, `Lmotd`) against what `Add` decides.
use nvda_remote_server.Common.{
  ◌≡◌, Bool, true, false, not, ◌++◌, [], Bytes, codes, bytes_eq, bytes_beq, ◌==◌, if◌then◌else◌,
  Bool-cases, inl, inr,
}
use nvda_remote_server.Channel.{ClientChannel, lmotd, authorizes, conn_type_slave, conn_type_master}

abbrev pub header : Bytes → Bytes
header name = codes "This is a locked channel. Name: " ++ (name ++ codes "\n")

-- What a slave is told, by the channel's having a password and the client's being authorized.
abbrev pub slave_text : Bool → Bool → Bytes
slave_text false auth = codes "No one will be able to control your computer."
slave_text true true =
    codes
      "No one will be able to control your computer unless they authenticate (password accepted)"
slave_text true false =
    codes "No one will be able to control your computer unless they authenticate."

abbrev pub master_text : Bool → Bytes
master_text true = codes "You are authorized to control any computer connected to this channel."
master_text false = codes "You won't be able to control any computers connected to this channel."

-- A locked channel's message says to slaves and masters what `Add` decides about their password.
-- To clients of another type it names the channel only, and an unlocked channel has no message.
pub lmotd-authorizes :
    (c : ClientChannel) (ctype name password : Bytes)
    → lmotd c ctype name password ≡ (
        if not c.locked
        then []
        else if ctype == conn_type_slave
        then header name ++ slave_text (not (c.password == [])) (authorizes c password)
        else if ctype == conn_type_master
        then header name ++ master_text (authorizes c password)
        else header name)
unfolding lmotd authorizes
lmotd-authorizes c ctype name password = elim (Bool-cases c.locked) [
  | inr open_ ↦ rw (open_, lmotd)
  | inl locked ↦ elim (Bool-cases (bytes_beq c.password [])) [
    | inl empty ↦ elim (Bool-cases (bytes_beq password c.password)) [
      | inl good ↦ rw (locked, empty, good, lmotd, authorizes)
      | inr bad ↦ rw (locked, empty, bad, lmotd, authorizes)
    ]
    | inr has ↦ elim (Bool-cases (bytes_beq password c.password)) [
      | inl good ↦ rw (locked, has, good, lmotd, authorizes)
      | inr bad ↦ rw (locked, has, bad, lmotd, authorizes)
    ]
  ]
]
