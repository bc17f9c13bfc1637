-- ===== src/Config/Atoi.antt =====
-- `strconv.Atoi`, as server/conf.go uses it: an optional sign and decimal digits, in the range of a
-- 64-bit `int`; `none` is the error.
use nvda_remote_server.Common.{
  ℕ, zero, suc, ◌+◌, ◌-◌, ◌*◌, ◌^◌, ◌&&◌, Option, none, some, [], ◌∷◌, Bytes, ltb, leb, nat_beq,
  if◌then◌else◌,
}
use nvda_remote_server.Common.Int.{ℤ, pos, negsuc}

-- The number that the digits stand for, behind the number `n`.
unfoldable pub digits_from : ℕ → Bytes → Option ℕ
digits_from n [] = some n
digits_from n (c ∷ s) =
    let rest = digits_from (n * 10 + (c - b'0')) s in
    if leb b'0' c && leb c b'9' then rest else none

unfoldable pub some_digits : Bytes → Option ℕ
unfolding digits_from
some_digits [] = none
some_digits (c ∷ s) = digits_from 0 (c ∷ s)

unfoldable pub positive : Option ℕ → Option ℤ
positive none = none
positive (some n) = if ltb n (2 ^ 63) then some (pos n) else none

unfoldable pub negative : Option ℕ → Option ℤ
negative none = none
negative (some zero) = some (pos 0)
negative (some (suc n)) = if ltb n (2 ^ 63) then some (negsuc n) else none

unfoldable pub atoi : Bytes → Option ℤ
unfolding some_digits positive negative
atoi [] = none
atoi (c ∷ s) =
    if nat_beq c b'-'
    then negative (some_digits s)
    else if nat_beq c b'+'
    then positive (some_digits s)
    else positive (some_digits (c ∷ s))
