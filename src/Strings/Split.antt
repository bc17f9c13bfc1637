-- ===== src/Strings/Split.antt =====
-- `strings.Split` and `strings.Cut` of Go for a separator, and `strings.TrimSuffix`.
use native.Mathlib.Nat.{suc-add}
use nvda_remote_server.Common.{
  ℕ, ◌+◌, ◌≡◌, ◌≢◌, refl, ap, Option, none, some, List, [], ◌∷◌, ◌++◌, Bytes, length, take, drop,
  nat_beq, if◌then◌else◌, arith, All, bytes_eq, bytes_beq, ◌==◌,
}
use nvda_remote_server.Strings.{has_prefix, index, succ_index}

-- The first part of a text gets one byte more.
unfoldable pub add_first : ℕ → List Bytes → List Bytes
add_first d [] = []
add_first d (p ∷ parts) = (d ∷ p) ∷ parts

-- strings.Split(s, sep), with a separator of one byte
unfoldable pub split : ℕ → Bytes → List Bytes
unfolding add_first
split sep [] = [] ∷ []
split sep (d ∷ s) =
    let parts = split sep s in if nat_beq d sep then [] ∷ parts else add_first d parts

-- strings.Cut(s, sep)
unfoldable pub cut : Bytes → Bytes → Option (Bytes × Bytes)
unfolding index
cut s sep = elim (index s sep) [ none ↦ none | some i ↦ some (take i s, drop (i + length sep) s) ]

-- strings.TrimSuffix(s, p): the end of the text that equals the suffix is left out.
unfoldable pub trim_suffix : Bytes → Bytes → Bytes
unfolding bytes_beq
trim_suffix [] p = []
trim_suffix (c ∷ s) p = let rest = trim_suffix s p in if (c ∷ s) == p then [] else c ∷ rest

pub split-append :
    (sep : ℕ) (t s : Bytes) → All (λ d. d ≢ sep) t → split sep (t ++ (sep ∷ s)) ≡ t ∷ split sep s
unfolding split add_first
split-append sep [] s h = ground arith
split-append sep (d ∷ t) s (ne, h) = ground (arith, ne, split-append sep t s h)

pub index-byte :
    (sep : ℕ) (a b : Bytes)
    → All (λ d. d ≢ sep) a
    → index (a ++ (sep ∷ b)) (sep ∷ []) ≡ some (length a)
unfolding index has_prefix succ_index
index-byte sep [] b h = ground arith
index-byte sep (d ∷ a) b (ne, h) = ground (arith, ne, index-byte sep a b h)

pub take_all : (a b : Bytes) → take (length a) (a ++ b) ≡ a
take_all [] b = refl
take_all (c ∷ a) b = ap (λ x. c ∷ x) (take_all a b)

pub drop_past : (sep : ℕ) (a b : Bytes) → drop (length a + 1) (a ++ (sep ∷ b)) ≡ b
drop_past sep [] b = refl
drop_past sep (c ∷ a) b = rw suc-add (drop_past sep a b)

pub cut-append :
    (sep : ℕ) (a b : Bytes) → All (λ d. d ≢ sep) a → cut (a ++ (sep ∷ b)) (sep ∷ []) ≡ some (a, b)
unfolding cut
cut-append sep a b h = rw (index-byte sep a b h, cut) (cc (take_all a (sep ∷ b), drop_past sep a b))

pub trim_suffix-append : (c : ℕ) (t : Bytes) → trim_suffix (t ++ (c ∷ [])) (c ∷ []) ≡ t
unfolding trim_suffix bytes_beq
trim_suffix-append c [] = ground arith
trim_suffix-append c (d ∷ []) = ground (arith, trim_suffix-append c [])
trim_suffix-append c (d ∷ e ∷ t) = ground (arith, trim_suffix-append c (e ∷ t))

-- What stands before another byte is kept.
pub trim_suffix-behind :
    (c sep : ℕ) (a b : Bytes)
    → sep ≢ c
    → trim_suffix (a ++ (sep ∷ b)) (c ∷ []) ≡ a ++ (sep ∷ trim_suffix b (c ∷ []))
unfolding trim_suffix bytes_beq
trim_suffix-behind c sep [] b ne = ground arith
trim_suffix-behind c sep (d ∷ []) b ne = ground (arith, trim_suffix-behind c sep [] b ne)
trim_suffix-behind c sep (d ∷ e ∷ a) b ne = ground (arith, trim_suffix-behind c sep (e ∷ a) b ne)
