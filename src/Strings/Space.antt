-- ===== src/Strings/Space.antt =====
-- `strings.TrimSpace` of Go, which trims the white space of `unicode.IsSpace`, on the bytes of its
-- encodings. A rune of more than one byte is decoded alike from both ends.

use mathlib.Core.List.{reverse}
use nvda_remote_server.Common.{
  ℕ, zero, suc, ◌+◌, ◌≤◌, ◌<◌, ◌≡◌, refl, Bool, true, ◌&&◌, ◌||◌, List, [], ◌∷◌, ◌++◌, Bytes,
  length, drop, nat_beq, ltb, if◌then◌else◌, arith, map,
}
use nvda_remote_server.Strings.{has_prefix}

-- `unicode.IsSpace` in UTF-8.
abbrev pub spaces : List Bytes
spaces =
    (9 ∷ [])
    ∷ (10 ∷ [])
    ∷ (11 ∷ [])
    ∷ (12 ∷ [])
    ∷ (13 ∷ [])
    ∷ (32 ∷ [])
    ∷ (194 ∷ 133 ∷ [])
    ∷ (194 ∷ 160 ∷ [])
    ∷ (225 ∷ 154 ∷ 128 ∷ [])
    ∷ (226 ∷ 128 ∷ 128 ∷ [])
    ∷ (226 ∷ 128 ∷ 129 ∷ [])
    ∷ (226 ∷ 128 ∷ 130 ∷ [])
    ∷ (226 ∷ 128 ∷ 131 ∷ [])
    ∷ (226 ∷ 128 ∷ 132 ∷ [])
    ∷ (226 ∷ 128 ∷ 133 ∷ [])
    ∷ (226 ∷ 128 ∷ 134 ∷ [])
    ∷ (226 ∷ 128 ∷ 135 ∷ [])
    ∷ (226 ∷ 128 ∷ 136 ∷ [])
    ∷ (226 ∷ 128 ∷ 137 ∷ [])
    ∷ (226 ∷ 128 ∷ 138 ∷ [])
    ∷ (226 ∷ 128 ∷ 168 ∷ [])
    ∷ (226 ∷ 128 ∷ 169 ∷ [])
    ∷ (226 ∷ 128 ∷ 175 ∷ [])
    ∷ (226 ∷ 129 ∷ 159 ∷ [])
    ∷ (227 ∷ 128 ∷ 128 ∷ [])
    ∷ []

-- The length of the first of the patterns that begins the text, or 0.
unfoldable pub prefix_width : List Bytes → Bytes → ℕ
prefix_width [] s = 0
prefix_width (p ∷ ps) s = if has_prefix s p then length p else prefix_width ps s

-- The patterns are taken off the front of the text, which is done after as many rounds as it has bytes.
unfoldable pub strip : List Bytes → ℕ → Bytes → Bytes
unfolding prefix_width
strip ps zero s = s
strip ps (suc n) s =
    let w = prefix_width ps s in let rest = strip ps n (drop w s) in if nat_beq w 0 then s else rest

unfoldable pub trim_left : Bytes → Bytes
unfolding strip
trim_left s = strip spaces (length s) s

abbrev pub spaces_reversed : List Bytes
spaces_reversed = map reverse spaces

unfoldable pub trim_right : Bytes → Bytes
unfolding strip
trim_right s = reverse (strip spaces_reversed (length s) (reverse s))

unfoldable pub trim_space : Bytes → Bytes
unfolding trim_left trim_right
trim_space s = trim_right (trim_left s)

-- A byte that occurs in no white space.
abbrev pub IsVisible : ℕ → Type 0
IsVisible c = (33 ≤ c) × (c < 128)

is_blank : ℕ → Bool
is_blank d = ltb d 33 || ltb 127 d

unfoldable pub all_blank : Bytes → Bool
unfolding is_blank
all_blank [] = true
all_blank (d ∷ p) = is_blank d && all_blank p

pub are_blank : List Bytes → Bool
unfolding all_blank
are_blank [] = true
are_blank (p ∷ ps) = all_blank p && are_blank ps

pub spaces_blank : (are_blank spaces ≡ true) × (are_blank spaces_reversed ≡ true)
unfolding are_blank
spaces_blank = (refl, refl)

pub has_prefix-visible :
    (c : ℕ) (a b p : Bytes)
    → IsVisible c
    → all_blank p ≡ true
    → has_prefix (a ++ (c ∷ b)) p ≡ has_prefix a p
unfolding has_prefix all_blank
has_prefix-visible c a b [] v h = ground arith
has_prefix-visible c [] b (d ∷ p) (low, high) h = ground arith
has_prefix-visible c (x ∷ a) b (d ∷ p) v h = ground (arith, has_prefix-visible c a b p v)

pub prefix_width-visible :
    (c : ℕ) (a b : Bytes) (ps : List Bytes)
    → IsVisible c
    → are_blank ps ≡ true
    → prefix_width ps (a ++ (c ∷ b)) ≡ prefix_width ps a
unfolding prefix_width are_blank
prefix_width-visible c a b [] v h = refl
prefix_width-visible c a b (p ∷ ps) v h =
    ground (arith, has_prefix-visible c a b p v, prefix_width-visible c a b ps v)

has_prefix-length : (s p : Bytes) → has_prefix s p ≡ true → length p ≤ length s
unfolding has_prefix
has_prefix-length s [] h = omega arith
has_prefix-length [] (d ∷ p) h = cc
has_prefix-length (x ∷ s) (d ∷ p) h = ground (arith, has_prefix-length s p)

pub prefix_width-le : (ps : List Bytes) (s : Bytes) → prefix_width ps s ≤ length s
unfolding prefix_width
prefix_width-le [] s = omega arith
prefix_width-le (p ∷ ps) s = ground (arith, has_prefix-length s p, prefix_width-le ps s)

pub drop-append : (n : ℕ) (a b : Bytes) → n ≤ length a → drop n (a ++ b) ≡ drop n a ++ b
drop-append zero a b h = refl
drop-append (suc n) [] b h = ground arith
drop-append (suc n) (x ∷ a) b h = drop-append n a b (omega arith)

pub length-drop : (n : ℕ) (s : Bytes) → n ≤ length s → length (drop n s) + n ≡ length s
length-drop zero s h = omega arith
length-drop (suc n) [] h = ground arith
length-drop (suc n) (x ∷ s) h = omega (arith, length-drop n s (omega arith))
