-- ===== src/Config/Numbers.antt =====
-- Numbers in a configuration file: what `strconv.Atoi` makes of a printed number.
use nvda_remote_server.Common.{
  ℕ, suc, ◌+◌, ◌-◌, ◌*◌, ◌^◌, ◌<◌, ◌≡◌, ◌≢◌, refl, ap, ◌∙◌, some, [], ◌∷◌, Bytes, All, arith,
}
use nvda_remote_server.Common.Int.{ℤ, pos, negsuc}
use nvda_remote_server.Json.Decimal.{
  digits, append_int, value, IsDigit, digits-value, digits-IsDigit, digits-ne-nil,
}
use nvda_remote_server.Config.Atoi.{atoi, digits_from, some_digits, positive, negative}

digits_from-value : (n : ℕ) (s : Bytes) → All IsDigit s → digits_from n s ≡ some (value n s)
unfolding digits_from value
digits_from-value n [] h = refl
digits_from-value n (c ∷ s) ((low, high), h) =
    ground (arith, digits_from-value (n * 10 + (c - b'0')) s h)

some_digits-value : (s : Bytes) → All IsDigit s → s ≢ [] → some_digits s ≡ some (value 0 s)
unfolding some_digits
some_digits-value [] h ne = absurd (ne refl)
some_digits-value (c ∷ s) h ne = digits_from-value 0 (c ∷ s) h

some_digits-digits : (n : ℕ) → some_digits (digits n) ≡ some n
some_digits-digits n =
    some_digits-value (digits n) (digits-IsDigit n) (digits-ne-nil n) ∙ ap some (digits-value n)

atoi-IsDigit : (s : Bytes) → All IsDigit s → s ≢ [] → atoi s ≡ positive (some_digits s)
unfolding atoi
atoi-IsDigit [] h ne = absurd (ne refl)
atoi-IsDigit (c ∷ s) ((low, high), h) ne = ground arith

-- The numbers that a 64-bit `int` holds.
abbrev pub IsInt64 : ℤ → Type 0
IsInt64 (pos n) = n < 2 ^ 63
IsInt64 (negsuc n) = n < 2 ^ 63

positive_int : (n : ℕ) → n < 2 ^ 63 → positive (some n) ≡ some (pos n)
unfolding positive
positive_int n h = ground arith

negative_int : (n : ℕ) → n < 2 ^ 63 → negative (some (suc n)) ≡ some (negsuc n)
unfolding negative
negative_int n h = ground arith

atoi_minus : (s : Bytes) → atoi (b'-' ∷ s) ≡ negative (some_digits s)
unfolding atoi
atoi_minus s = refl

-- A number in the range of `int` that is printed by `strconv.AppendInt` is read back by
-- `strconv.Atoi`.
pub atoi-append_int : (n : ℤ) → IsInt64 n → atoi (append_int [] n) ≡ some n
unfolding append_int
atoi-append_int (pos n) h =
    atoi-IsDigit (digits n) (digits-IsDigit n) (digits-ne-nil n)
    ∙ ap positive (some_digits-digits n)
    ∙ positive_int n h
atoi-append_int (negsuc n) h =
    atoi_minus (digits (suc n)) ∙ ap negative (some_digits-digits (suc n)) ∙ negative_int n h
