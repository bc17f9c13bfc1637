-- ===== src/Strings/Trimming.antt =====
-- What `strings.TrimSpace` does around a byte that is no white space.

use mathlib.Core.List.{reverse, reverse-append, reverse-cons, reverse-reverse}
use nvda_remote_server.Common.{
  ℕ, zero, suc, ◌≤◌, ◌≡◌, ◌≢◌, refl, sym, ap, ◌∙◌, subst, true, false, List, [], ◌∷◌, ◌++◌, Bytes,
  length, drop, nat_beq, arith, append_assoc, Bool-cases, inl, inr, length-append, All,
}
use nvda_remote_server.Strings.Space.{
  prefix_width, strip, trim_left, trim_right, trim_space, spaces, spaces_reversed, IsVisible,
  are_blank, spaces_blank, prefix_width-visible, prefix_width-le, drop-append, length-drop,
}

strip_now : (ps : List Bytes) (n : ℕ) (s : Bytes) → prefix_width ps s ≡ 0 → strip ps n s ≡ s
unfolding strip
strip_now ps zero s e = refl
strip_now ps (suc n) s e = ground (arith, e)

strip_more :
    (ps : List Bytes) (n : ℕ) (s : Bytes)
    → prefix_width ps s ≢ 0
    → strip ps (suc n) s ≡ strip ps n (drop (prefix_width ps s) s)
unfolding strip
strip_more ps n s e = ground (arith, e)

drop-nil : (w : ℕ) → drop {A = ℕ} w [] ≡ []
drop-nil zero = refl
drop-nil (suc w) = refl

strip-nil : (ps : List Bytes) (n : ℕ) → strip ps n [] ≡ []
unfolding strip
strip-nil ps zero = refl
strip-nil ps (suc n) = elim (Bool-cases (nat_beq (prefix_width ps []) 0)) [
  | inl e ↦ rw e refl
  | inr e ↦ rw e (ap (strip ps n) (drop-nil (prefix_width ps [])) ∙ strip-nil ps n)
]

strip_enough :
    (ps : List Bytes) (n m : ℕ) (s : Bytes)
    → length s ≤ n
    → length s ≤ m
    → strip ps n s ≡ strip ps m s
strip_enough ps n m [] h k = strip-nil ps n ∙ sym (strip-nil ps m)
strip_enough ps zero m (c ∷ s) h k = ground arith
strip_enough ps (suc n) zero (c ∷ s) h k = ground arith
strip_enough ps (suc n) (suc m) (c ∷ s) h k =
    elim (Bool-cases (nat_beq (prefix_width ps (c ∷ s)) 0)) [
      | inl e ↦
          strip_now ps (suc n) (c ∷ s) (ground arith)
          ∙ sym (strip_now ps (suc m) (c ∷ s) (ground arith))
      | inr e ↦
          strip_more ps n (c ∷ s) (ground arith)
          ∙ strip_enough ps n m (drop (prefix_width ps (c ∷ s)) (c ∷ s)) (shorter n h e)
              (shorter m k e)
          ∙ sym (strip_more ps m (c ∷ s) (ground arith))
    ]
  where
    shorter :
        (n : ℕ)
        → length (c ∷ s) ≤ suc n
        → nat_beq (prefix_width ps (c ∷ s)) 0 ≡ false
        → length (drop (prefix_width ps (c ∷ s)) (c ∷ s)) ≤ n
    shorter n h e =
        ground
          (arith, h, e, length-drop (prefix_width ps (c ∷ s)) (c ∷ s) (prefix_width-le ps (c ∷ s)))

-- A byte that is no part of a pattern stops the stripping.
strip-visible :
    (ps : List Bytes) (n c : ℕ) (a b : Bytes)
    → IsVisible c
    → are_blank ps ≡ true
    → strip ps n (a ++ (c ∷ b)) ≡ strip ps n a ++ (c ∷ b)
strip-visible ps zero c a b v h = unfold strip in refl
strip-visible ps (suc n) c a b v h = elim (Bool-cases (nat_beq (prefix_width ps a) 0)) [
  | inl e ↦
      strip_now ps (suc n) (a ++ (c ∷ b)) (same ∙ (ground arith))
      ∙ ap (λ x. x ++ (c ∷ b)) (sym (strip_now ps (suc n) a (ground arith)))
  | inr e ↦
      strip_more ps n (a ++ (c ∷ b)) (subst (λ w. w ≢ 0) (sym same) (ground arith))
      ∙ ap (strip ps n) (
          ap (λ w. drop w (a ++ (c ∷ b))) same
          ∙ drop-append (prefix_width ps a) a (c ∷ b) (prefix_width-le ps a))
      ∙ strip-visible ps n c (drop (prefix_width ps a) a) b v h
      ∙ ap (λ x. x ++ (c ∷ b)) (sym (strip_more ps n a (ground arith)))
]
  where
    same : prefix_width ps (a ++ (c ∷ b)) ≡ prefix_width ps a
    same = prefix_width-visible c a b ps v h

strip_up_to :
    (ps : List Bytes) (c : ℕ) (a b : Bytes)
    → IsVisible c
    → are_blank ps ≡ true
    → strip ps (length (a ++ (c ∷ b))) (a ++ (c ∷ b)) ≡ strip ps (length a) a ++ (c ∷ b)
strip_up_to ps c a b v h =
    strip-visible ps (length (a ++ (c ∷ b))) c a b v h
    ∙ ap (λ x. x ++ (c ∷ b))
        (strip_enough ps (length (a ++ (c ∷ b))) (length a) a
          (omega (arith, length-append a (c ∷ b))) (omega arith))

trim_left-visible :
    (c : ℕ) (a b : Bytes) → IsVisible c → trim_left (a ++ (c ∷ b)) ≡ trim_left a ++ (c ∷ b)
unfolding trim_left
trim_left-visible c a b v = strip_up_to spaces c a b v spaces_blank.0

reverse-around : (c : ℕ) (a b : Bytes) → reverse (a ++ (c ∷ b)) ≡ reverse b ++ (c ∷ reverse a)
reverse-around c a b =
    reverse-append a (c ∷ b)
    ∙ ap (λ x. x ++ reverse a) (reverse-cons c b)
    ∙ append_assoc (reverse b) (c ∷ []) (reverse a)

length-reverse : (s : Bytes) → length (reverse s) ≡ length s
length-reverse [] = refl
length-reverse (c ∷ s) =
    ground (arith, reverse-cons c s, length-append (reverse s) (c ∷ []), length-reverse s)

trim_right_lem :
    (s : Bytes) → trim_right s ≡ reverse (strip spaces_reversed (length (reverse s)) (reverse s))
unfolding trim_right
trim_right_lem s = ap (λ n. reverse (strip spaces_reversed n (reverse s))) (sym (length-reverse s))

trim_right-visible :
    (c : ℕ) (a b : Bytes) → IsVisible c → trim_right (a ++ (c ∷ b)) ≡ a ++ (c ∷ trim_right b)
trim_right-visible c a b v =
    trim_right_lem (a ++ (c ∷ b))
    ∙ ap (λ x. reverse (strip spaces_reversed (length x) x)) (reverse-around c a b)
    ∙ ap reverse (strip_up_to spaces_reversed c (reverse b) (reverse a) v spaces_blank.1)
    ∙ reverse-around c (strip spaces_reversed (length (reverse b)) (reverse b)) (reverse a)
    ∙ ap (λ x. x ++ (c ∷ reverse (strip spaces_reversed (length (reverse b)) (reverse b))))
        (reverse-reverse a)
    ∙ ap (λ x. a ++ (c ∷ x)) (sym (trim_right_lem b))

-- A visible byte separates the two ends that are trimmed.
pub trim_space-around :
    (c : ℕ) (a b : Bytes)
    → IsVisible c
    → trim_space (a ++ (c ∷ b)) ≡ trim_left a ++ (c ∷ trim_right b)
unfolding trim_space
trim_space-around c a b v =
    ap trim_right (trim_left-visible c a b v) ∙ trim_right-visible c (trim_left a) b v

trim_right_keeps : (s : Bytes) → All IsVisible s → trim_right s ≡ s
trim_right_keeps [] h = unfold trim_right strip in refl
trim_right_keeps (c ∷ s) (v, h) =
    trim_right-visible c [] s v ∙ ap (λ x. c ∷ x) (trim_right_keeps s h)

-- A text of visible bytes is left alone.
pub trim_space_keeps : (s : Bytes) → All IsVisible s → trim_space s ≡ s
unfolding trim_space
trim_space_keeps [] h = unfold trim_right trim_left strip in refl
trim_space_keeps (c ∷ s) (v, h) =
    trim_space-around c [] s v
    ∙ ap (λ x. x ++ (c ∷ trim_right s)) trim_left_nil
    ∙ ap (λ x. c ∷ x) (trim_right_keeps s h)
  where
    trim_left_nil : trim_left [] ≡ []
    trim_left_nil = unfold trim_left strip in refl
