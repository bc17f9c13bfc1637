-- ===== src/Json.antt =====
-- server/jsonFuncs.go: `JsonAddOrigin`, which puts the sender's id into a message without parsing
-- it. `Encode` is in Json/Encode, and with `Decode` the codec of Protocol.antt. `strconv.AppendInt` is `append_int`.
pub mod Decimal
pub mod Origin
pub mod Quote
pub mod Encode
pub mod Line
pub mod Relayed
pub mod Unquote
pub mod Separators
pub mod ReadBack
use nvda_remote_server.Common.{
  ℕ, zero, suc, ◌+◌, Bool, true, false, ◌||◌, Option, none, some, List, [], ◌∷◌, ◌++◌, Bytes, codes,
  nat_beq, take, drop, if◌then◌else◌,
}
use nvda_remote_server.Common.Int.{ℤ}
use Decimal.{append_int}

unfoldable pub is_space : ℕ → Bool
is_space b = nat_beq b b' ' || nat_beq b b'\t' || nat_beq b b'\r' || nat_beq b b'\n'

-- `for i < len(data) && (data[i] == ' ' || …) { i++ }`: the number of blanks that `data` begins with.
unfoldable pub skip_spaces : Bytes → ℕ
unfolding is_space
skip_spaces [] = 0
skip_spaces (b ∷ rest) = let n = skip_spaces rest in if is_space b then suc n else 0

abbrev pub origin_field : Bytes
origin_field = codes "\"origin\":"

-- The two ways to build the result, from what stands behind the brace at `i` and at `j`.
unfoldable pub insert_origin : Bytes → ℕ → ℤ → Bytes → Bytes
insert_origin payload i id [] =
    take (i + 1) payload ++ (append_int origin_field id ++ (b',' ∷ drop (i + 1) payload))
insert_origin payload i id (b ∷ rest) =
    if nat_beq b b'}'
    then take (i + 1) payload ++ (append_int origin_field id ++ (b ∷ rest))
    else take (i + 1) payload ++ (append_int origin_field id ++ (b',' ∷ drop (i + 1) payload))

-- `none` is the error, with the data returned as it was.
unfoldable pub add_at_brace : Bytes → ℕ → ℤ → Bytes → Option Bytes
unfolding insert_origin skip_spaces
add_at_brace payload i id [] = none
add_at_brace payload i id (b ∷ rest) =
    if nat_beq b b'{'
    then some (insert_origin payload i id (drop (skip_spaces rest) rest))
    else none

unfoldable pub json_add_origin : Bytes → ℤ → Option Bytes
unfolding add_at_brace skip_spaces
json_add_origin [] id = none
json_add_origin (b ∷ payload) id =
    let i = skip_spaces (b ∷ payload) in add_at_brace (b ∷ payload) i id (drop i (b ∷ payload))
