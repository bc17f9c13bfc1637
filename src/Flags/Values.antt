-- ===== src/Flags/Values.antt =====
-- The values of flags: `strconv.ParseInt` in base 0 and `strconv.ParseBool`, with which the flags of
-- server/configure.go are set.
use nvda_remote_server.Common.{
  ℕ, ◌+◌, ◌-◌, ◌*◌, Bool, true, false, not, ◌&&◌, ◌||◌, Option, none, some, [], ◌∷◌, Bytes, codes,
  bytes_eq, ◌==◌, ltb, leb, nat_beq, if◌then◌else◌,
}
use nvda_remote_server.Common.Int.{ℤ}
use nvda_remote_server.Config.Atoi.{positive, negative}

-- The value of a digit, 36 if it is none.
unfoldable pub digit_value : ℕ → ℕ
digit_value c =
    if leb b'0' c && leb c b'9'
    then c - b'0'
    else if leb b'a' c && leb c b'z'
    then (c - b'a') + 10
    else if leb b'A' c && leb c b'Z'
    then (c - b'A') + 10
    else 36

unfoldable pub digits_in : ℕ → ℕ → Bytes → Option ℕ
unfolding digit_value
digits_in base n [] = some n
digits_in base n (c ∷ s) =
    let skipped = digits_in base n s in
    let more = digits_in base (n * base + digit_value c) s in
    if nat_beq c b'_' then skipped else if ltb (digit_value c) base then more else none

-- `underscoreOK`: an underscore stands behind a digit and before one; `saw` is what came before.
unfoldable pub underscores_ok : ℕ → Bytes → Bool
underscores_ok saw [] = not (nat_beq saw b'_')
underscores_ok saw (c ∷ s) =
    let behind_mark = underscores_ok b'_' s in
    let behind_digit = underscores_ok b'0' s in
    if nat_beq c b'_' then nat_beq saw b'0' && behind_mark else behind_digit

unfoldable pub in_base : ℕ → ℕ → Bytes → Option ℕ
unfolding digits_in underscores_ok
in_base base saw s = if underscores_ok saw s then digits_in base 0 s else none

abbrev is_letter : ℕ → ℕ → ℕ → Bool
is_letter small large c = nat_beq c small || nat_beq c large

-- Behind a leading zero.
unfoldable pub prefixed : Bytes → Option ℕ
unfolding in_base
prefixed [] = some 0
prefixed (c ∷ []) = in_base 8 b'0' (c ∷ [])
prefixed (c ∷ d ∷ s) =
    if is_letter b'b' b'B' c
    then in_base 2 b'0' (d ∷ s)
    else if is_letter b'o' b'O' c
    then in_base 8 b'0' (d ∷ s)
    else if is_letter b'x' b'X' c
    then in_base 16 b'0' (d ∷ s)
    else in_base 8 b'0' (c ∷ d ∷ s)

unfoldable pub parse_uint : Bytes → Option ℕ
unfolding prefixed in_base
parse_uint [] = none
parse_uint (c ∷ s) = if nat_beq c b'0' then prefixed s else in_base 10 b'^' (c ∷ s)

-- strconv.ParseInt(s, 0, 64)
unfoldable pub parse_int : Bytes → Option ℤ
unfolding parse_uint positive negative
parse_int [] = none
parse_int (c ∷ s) =
    if nat_beq c b'-'
    then negative (parse_uint s)
    else if nat_beq c b'+'
    then positive (parse_uint s)
    else positive (parse_uint (c ∷ s))

-- strconv.ParseBool(s)
unfoldable pub parse_bool : Bytes → Option Bool
parse_bool s =
    if s == codes "1"
      || s == codes "t"
      || s == codes "T"
      || s == codes "TRUE"
      || s == codes "true"
      || s == codes "True"
    then some true
    else if s == codes "0"
        || s == codes "f"
        || s == codes "F"
        || s == codes "FALSE"
        || s == codes "false"
        || s == codes "False"
    then some false
    else none
