-- ===== src/Json/Separators.antt =====
-- U+2028 and U+2029 in the strings that `Encode` of server/jsonFuncs.go writes.
use nvda_remote_server.Common.{
  ℕ, ◌≤◌, ◌≡◌, refl, some, [], ◌∷◌, ◌++◌, Bytes, codes, take, arith, inl, inr, ◌⊎◌,
}
use nvda_remote_server.Json.Quote.{hex, behind, is_second, separator_digit}
use nvda_remote_server.Json.Unquote.{IsEscape, read_escape}

-- The two separators.
IsSeparator : ℕ → ℕ → ℕ → ℕ → Type 0
IsSeparator b c d h =
    (b ≡ 0xe2) × (c ≡ 0x80) × (((d ≡ 0xa8) × (h ≡ b'8')) ⊎ ((d ≡ 0xa9) × (h ≡ b'9')))

IsSeparator-of :
    (b c d : ℕ) (s : Bytes) (h : ℕ) → separator_digit b (c ∷ d ∷ s) ≡ some h → IsSeparator b c d h
unfolding separator_digit hex IsSeparator
IsSeparator-of b c d s h e = ground (arith, e)

separator_width : (d : ℕ) (s : Bytes) → 0xa8 ≤ d → d ≤ 0xa9 → behind 0xe2 (0x80 ∷ d ∷ s) ≡ 2
unfolding behind is_second
separator_width d [] low high = ground (arith, low, high)
separator_width d (e ∷ s) low high = ground (arith, low, high)

separator-IsEscape :
    (b c d h : ℕ) (s : Bytes)
    → IsSeparator b c d h
    → IsEscape (b ∷ take (behind b (c ∷ d ∷ s)) (c ∷ d ∷ s)) (codes "\\u202" ++ (h ∷ []))
unfolding IsSeparator
separator-IsEscape b c d h s (eb, ec, inl (ed, eh)) =
    rw (eb, ec, ed, eh, separator_width 0xa8 s (omega arith) (omega arith))
      (record { code = codes "u2028"; whole = refl; reads = λ t. unfold read_escape in refl })
separator-IsEscape b c d h s (eb, ec, inr (ed, eh)) =
    rw (eb, ec, ed, eh, separator_width 0xa9 s (omega arith) (omega arith))
      (record { code = codes "u2029"; whole = refl; reads = λ t. unfold read_escape in refl })

pub separator_digit-IsEscape :
    (b : ℕ) (s : Bytes) (h : ℕ)
    → separator_digit b s ≡ some h
    → IsEscape (b ∷ take (behind b s) s) (codes "\\u202" ++ (h ∷ []))
unfolding separator_digit
separator_digit-IsEscape b [] h e = cc
separator_digit-IsEscape b (c ∷ []) h e = cc
separator_digit-IsEscape b (c ∷ d ∷ s) h e =
    separator-IsEscape b c d h s (IsSeparator-of b c d s h e)
