-- ===== src/Strings.antt =====
-- The functions of Go's packages `strings` and `bytes` that the server uses, over byte strings, with
-- their laws.
pub mod Space
pub mod Split
pub mod Trimming
use native.Mathlib.Nat.{zero-add, add-zero, suc-add, add-suc}
use nvda_remote_server.Common.{
  ℕ, zero, suc, ◌+◌, ◌≤◌, ◌≡◌, refl, Bool, true, false, ◌&&◌, Option, none, some, [], ◌∷◌, ◌++◌,
  Bytes, length, take, drop, nat_beq, if◌then◌else◌, arith,
}

-- strings.HasPrefix(s, p)
unfoldable pub has_prefix : Bytes → Bytes → Bool
has_prefix s [] = true
has_prefix [] (c ∷ p) = false
has_prefix (d ∷ s) (c ∷ p) = nat_beq d c && has_prefix s p

unfoldable pub succ_index : Option ℕ → Option ℕ
succ_index none = none
succ_index (some i) = some (suc i)

-- strings.Index(s, p), with `none` for -1
unfoldable pub index : Bytes → Bytes → Option ℕ
unfolding has_prefix succ_index
index [] p = if has_prefix [] p then some 0 else none
index (d ∷ s) p = if has_prefix (d ∷ s) p then some 0 else succ_index (index s p)

pub has_prefix-split : (s p : Bytes) → has_prefix s p ≡ true → s ≡ p ++ drop (length p) s
unfolding has_prefix
has_prefix-split s [] h = refl
has_prefix-split [] (c ∷ p) h = cc
has_prefix-split (d ∷ s) (c ∷ p) h = ground (arith, has_prefix-split s p)

pub has_prefix-append : (p s : Bytes) → has_prefix (p ++ s) p ≡ true
unfolding has_prefix
has_prefix-append [] s = refl
has_prefix-append (c ∷ p) s = ground (arith, has_prefix-append p s)

pub drop-add : (n i : ℕ) (s : Bytes) → drop (i + n) s ≡ drop n (drop i s)
drop-add n zero s = rw zero-add
drop-add zero (suc i) [] = rw add-zero
drop-add (suc n) (suc i) [] = rw add-suc
drop-add n (suc i) (d ∷ s) = rw suc-add (drop-add n i s)

-- Where the pattern is found the text splits around it.
pub index-split :
    (s p : Bytes) (i : ℕ) → index s p ≡ some i → s ≡ take i s ++ (p ++ drop (length p) (drop i s))
unfolding index
index-split [] p zero h = ground (arith, has_prefix-split [] p)
index-split [] p (suc i) h = ground arith
index-split (d ∷ s) p zero h = ground (arith, has_prefix-split (d ∷ s) p)
index-split (d ∷ s) p (suc i) h = ground (arith, index-split s p i)

has_prefix-take : (n : ℕ) (s p : Bytes) → has_prefix s p ≡ false → has_prefix (take n s) p ≡ false
unfolding has_prefix
has_prefix-take zero s [] h = h
has_prefix-take zero s (c ∷ p) h = refl
has_prefix-take (suc n) [] p h = h
has_prefix-take (suc n) (d ∷ s) [] h = h
has_prefix-take (suc n) (d ∷ s) (c ∷ p) h = ground (arith, has_prefix-take n s p)

index-nil : (s p : Bytes) → has_prefix s p ≡ false → index [] p ≡ none
unfolding index has_prefix
index-nil s [] h = cc
index-nil s (c ∷ p) h = refl

-- The part before the first match holds no match.
pub index-take : (s p : Bytes) (i : ℕ) → index s p ≡ some (suc i) → index (take (suc i) s) p ≡ none
unfolding index
index-take [] p i h = ground arith
index-take (d ∷ s) p zero h = ground (arith, has_prefix-take 1 (d ∷ s) p, index-nil (d ∷ s) p)
index-take (d ∷ s) p (suc i) h =
    ground (arith, has_prefix-take (suc (suc i)) (d ∷ s) p, index-take s p i)

pub index_zero : (s p : Bytes) → index s p ≡ some 0 → has_prefix s p ≡ true
unfolding index
index_zero [] p h = ground arith
index_zero (d ∷ s) p h = ground arith

pub index-le : (s p : Bytes) (i : ℕ) → index s p ≡ some i → i ≤ length s
unfolding index
index-le [] p i h = ground arith
index-le (d ∷ s) p zero h = omega arith
index-le (d ∷ s) p (suc i) h = ground (arith, index-le s p i)
