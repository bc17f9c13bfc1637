-- ===== src/Json/Decimal.antt =====
-- `strconv.AppendInt` in base ten, and the number that a decimal text stands for.
use mathlib.Core.List.{cons-ne-nil}
use nvda_remote_server.Common.{
  ◌≢◌, Bool-cases, inl, inr, ℕ, zero, suc, ◌+◌, ◌-◌, ◌*◌, ◌/◌, ◌%◌, ◌≤◌, ◌<◌, ◌≡◌, refl, List, [],
  ◌∷◌, ◌++◌, Bytes, arith, ltb, if◌then◌else◌, All,
}
use nvda_remote_server.Common.Int.{ℤ, pos, negsuc}

-- The digits of `n`, the last one last; the first argument bounds the rounds.
digits_within : ℕ → ℕ → Bytes
digits_within zero n = []
digits_within (suc fuel) n =
    let more = digits_within fuel (n / 10) in
    if ltb n 10 then (b'0' + n) ∷ [] else more ++ (b'0' + n % 10) ∷ []

unfoldable pub digits : ℕ → Bytes
unfolding digits_within
digits n = digits_within (suc n) n

unfoldable pub append_int : Bytes → ℤ → Bytes
unfolding digits
append_int dst (pos n) = dst ++ digits n
append_int dst (negsuc n) = dst ++ (b'-' ∷ digits (suc n))

-- The value of a row of digits behind `n`.
unfoldable pub value : ℕ → Bytes → ℕ
value n [] = n
value n (c ∷ s) = value (n * 10 + (c - b'0')) s

abbrev pub IsDigit : ℕ → Type 0
IsDigit c = (b'0' ≤ c) × (c ≤ b'9')

pub value-append : (n : ℕ) (s t : Bytes) → value n (s ++ t) ≡ value (value n s) t
unfolding value
value-append n [] t = refl
value-append n (c ∷ s) t = value-append (n * 10 + (c - b'0')) s t

digits_within-value : (fuel n : ℕ) → n < fuel → value 0 (digits_within fuel n) ≡ n
unfolding digits_within value
digits_within-value zero n h = absurd (omega arith)
digits_within-value (suc fuel) n h = ground (
  arith,
  value-append 0 (digits_within fuel (n / 10)) ((b'0' + n % 10) ∷ []),
  digits_within-value fuel (n / 10),
)

-- The printed digits stand for the number.
pub digits-value : (n : ℕ) → value 0 (digits n) ≡ n
unfolding digits
digits-value n = digits_within-value (suc n) n (omega arith)

pub All-append : {A : Type 0} → (P : A → Type 0) (s t : List A) → All P s → All P t → All P (s ++ t)
All-append P [] t hs ht = ht
All-append P (c ∷ s) t (hc, hs) ht = (hc, All-append P s t hs ht)

digits_within-IsDigit : (fuel n : ℕ) → All IsDigit (digits_within fuel n)
unfolding digits_within
digits_within-IsDigit zero n = tt
digits_within-IsDigit (suc fuel) n = ground (
  arith,
  All-append IsDigit (digits_within fuel (n / 10)) ((b'0' + n % 10) ∷ [])
      (digits_within-IsDigit fuel (n / 10)),
)

pub digits-IsDigit : (n : ℕ) → All IsDigit (digits n)
unfolding digits
digits-IsDigit n = digits_within-IsDigit (suc n) n

append-ne-nil : (s : Bytes) (c : ℕ) → s ++ (c ∷ []) ≢ []
append-ne-nil [] c = cons-ne-nil c []
append-ne-nil (d ∷ s) c = cons-ne-nil d (s ++ (c ∷ []))

-- A printed number is not empty.
pub digits-ne-nil : (n : ℕ) → digits n ≢ []
unfolding digits digits_within
digits-ne-nil n = elim (Bool-cases (ltb n 10)) [
  | inl e ↦ rw (e, digits, digits_within) (cons-ne-nil (b'0' + n) [])
  | inr e ↦ rw (e, digits, digits_within) (append-ne-nil (digits_within n (n / 10)) (b'0' + n % 10))
]
