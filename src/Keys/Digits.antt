-- ===== src/Keys/Digits.antt =====
-- The digits that `randomDigits` of server/genKey.go writes.
use native.Mathlib.Nat.{pow-suc, mod-lt}
use mathlib.Core.List.{reverse, reverse-cons}
use nvda_remote_server.Common.{
  ℕ, zero, suc, ◌+◌, ◌/◌, ◌%◌, ◌^◌, ◌≤◌, ◌<◌, ◌≡◌, refl, ◌∙◌, ap, Bool, true, ◌&&◌, Option, some,
  List, [], ◌∷◌, Bytes, nat_beq, nat_beq_iff, arith, All, length, length-append,
}
use nvda_remote_server.Json.Decimal.{IsDigit, value, value-append, All-append}
use nvda_remote_server.Keys.{uint64_from, modulus, write_digits, random_digits}

-- The first `n` moduli are the powers of ten.
unwrapped : ℕ → Bool
unfolding modulus
unwrapped zero = true
unwrapped (suc n) = nat_beq (modulus n) (10 ^ n) && unwrapped n

unwrapped_first : unwrapped 19 ≡ true
unfolding unwrapped
unwrapped_first = refl

modulus-unwrapped : (n k : ℕ) → unwrapped n ≡ true → k < n → modulus k ≡ 10 ^ k
unfolding unwrapped
modulus-unwrapped zero k h below = absurd (omega arith)
modulus-unwrapped (suc n) k h below =
    ground (arith, modulus-unwrapped n k, nat_beq_iff (modulus n) (10 ^ n))

-- Up to eighteen digits the modulus does not wrap around.
pub modulus-pow : (n : ℕ) → n ≤ 18 → modulus n ≡ 10 ^ n
modulus-pow n h = modulus-unwrapped 19 n unwrapped_first (omega arith)

write_digits-value : (n val : ℕ) → val < 10 ^ n → value 0 (reverse (write_digits n val)) ≡ val
unfolding write_digits value
write_digits-value zero val h = omega arith
write_digits-value (suc n) val h =
    ap (value 0) (reverse-cons (b'0' + val % 10) (write_digits n (val / 10)))
    ∙ value-append 0 (reverse (write_digits n (val / 10))) ((b'0' + val % 10) ∷ [])
    ∙ omega (arith, write_digits-value n (val / 10) (omega (arith, pow-suc 10 n)))

length-reverse : (s : Bytes) → length (reverse s) ≡ length s
length-reverse [] = refl
length-reverse (c ∷ s) =
    omega
      (arith, ap length (reverse-cons c s), length-append (reverse s) (c ∷ []), length-reverse s)

length-write_digits : (n val : ℕ) → length (write_digits n val) ≡ n
unfolding write_digits
length-write_digits zero val = refl
length-write_digits (suc n) val = ap suc (length-write_digits n (val / 10))

All-reverse : (s : Bytes) → All IsDigit s → All IsDigit (reverse s)
All-reverse [] h = tt
All-reverse (c ∷ s) (hc, hs) =
    rw (reverse-cons c s) (All-append IsDigit (reverse s) (c ∷ []) (All-reverse s hs) (hc, tt))

write_digits-IsDigit : (n val : ℕ) → All IsDigit (write_digits n val)
unfolding write_digits
write_digits-IsDigit zero val = tt
write_digits-IsDigit (suc n) val = (omega arith, write_digits-IsDigit n (val / 10))

pow_positive : (n : ℕ) → 0 < 10 ^ n
pow_positive zero = omega arith
pow_positive (suc n) = omega (arith, pow-suc 10 n, pow_positive n)

-- For up to eighteen digits the text has just that many, all of them decimal digits, and it stands
-- for the random 64-bit number modulo the power of ten.
pub random_digits_small_lem :
    (n : ℕ) (buf : Bytes) (ints : List (Option ℕ))
    → n ≤ 18
    → (s : Bytes) × (random_digits n (some buf) ints ≡ some s)
      × (length s ≡ n)
      × All IsDigit s
      × (value 0 s ≡ uint64_from 0 buf % 10 ^ n)
unfolding random_digits
random_digits_small_lem zero buf ints h = ([], refl, refl, tt, unfold value in omega arith)
random_digits_small_lem (suc n) buf ints h =
    let val = uint64_from 0 buf % 10 ^ suc n in
    (
      reverse (write_digits (suc n) val),
      rw (modulus-pow (suc n) h) (ground arith),
      length-reverse (write_digits (suc n) val) ∙ length-write_digits (suc n) val,
      All-reverse (write_digits (suc n) val) (write_digits-IsDigit (suc n) val),
      write_digits-value (suc n) val (mod-lt (uint64_from 0 buf) (pow_positive (suc n))),
    )
