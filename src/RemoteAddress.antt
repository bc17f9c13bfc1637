-- ===== src/RemoteAddress.antt =====
-- `getIP` of server/connection.go: the address that a client is shown with, from the text of its
-- connection's remote address.
pub mod Joined
use nvda_remote_server.Common.{
  ℕ, suc, ◌+◌, Bool, true, false, ◌||◌, ◌&&◌, Option, none, some, [], ◌∷◌, Bytes, codes, nat_beq,
  take, drop, bytes_eq, ◌==◌, if◌then◌else◌,
}
use nvda_remote_server.Strings.{index, succ_index, has_prefix}
use nvda_remote_server.Config.Addresses.{has_byte}

-- The place of the last colon.
unfoldable pub last_index : ℕ → Bytes → Option ℕ
unfolding succ_index
last_index c [] = none
last_index c (d ∷ s) =
    let further = last_index c s in
    elim further [ some i ↦ some (suc i) | none ↦ if nat_beq d c then some 0 else none ]

-- The end of `net.SplitHostPort`: no bracket behind the places `j` and `k`.
unfoldable pub without_brackets : ℕ → ℕ → Bytes → ℕ → Bytes → Option (Bytes × Bytes)
unfolding has_byte
without_brackets j k host i s =
    if has_byte b'[' (drop j s) || has_byte b']' (drop k s)
    then none
    else some (host, drop (i + 1) s)

-- A host in brackets, which the last colon follows.
unfoldable pub split_bracketed : ℕ → Bytes → Option (Bytes × Bytes)
unfolding without_brackets index
split_bracketed i s = elim (index s (codes "]")) [
  | none ↦ none
  | some end ↦
      if nat_beq (end + 1) i then without_brackets 1 (end + 1) (drop 1 (take end s)) i s else none
]

-- net.SplitHostPort, with `none` for its errors.
unfoldable pub split_host_port : Bytes → Option (Bytes × Bytes)
unfolding last_index split_bracketed without_brackets has_prefix has_byte
split_host_port s = elim (last_index b':' s) [
  | none ↦ none
  | some i ↦
      if has_prefix s (codes "[")
      then split_bracketed i s
      else if has_byte b':' (take i s)
      then none
      else without_brackets 0 0 (take i s) i s
]

abbrev pub is_bracket : ℕ → Bool
is_bracket c = nat_beq c b'[' || nat_beq c b']'

unfoldable pub trim_left_brackets : Bytes → Bytes
trim_left_brackets [] = []
trim_left_brackets (c ∷ s) = let rest = trim_left_brackets s in if is_bracket c then rest else c ∷ s

unfoldable pub trim_right_brackets : Bytes → Bytes
trim_right_brackets [] = []
trim_right_brackets (c ∷ s) =
    let rest = trim_right_brackets s in if is_bracket c && (rest == []) then [] else c ∷ rest

-- strings.Trim(s, "[]")
unfoldable pub trim_brackets : Bytes → Bytes
unfolding trim_left_brackets trim_right_brackets
trim_brackets s = trim_right_brackets (trim_left_brackets s)

unfoldable pub get_ip : Bytes → Bytes
unfolding split_host_port trim_brackets
get_ip remote_address = elim (split_host_port remote_address) [
  | none ↦ []
  | some (ip, port) ↦ trim_brackets ip
]
