-- ===== src/Json/ReadBack.antt =====
-- Strings as `quote` writes them for `Encode` (server/jsonFuncs.go) read back.
use nvda_remote_server.Common.{
  ℕ, zero, suc, ◌≤◌, ◌<◌, ◌≡◌, refl, sym, ap, ◌∙◌, Bool, true, false, Option, none, some, [], ◌∷◌,
  ◌++◌, Bytes, codes, nat_beq, ltb, take, length, length-append, if◌then◌else◌, All, arith,
  Bool-cases, Option-cases, inl, inr, append_assoc, subst,
}
use nvda_remote_server.Json.Quote.{
  behind, is_second, separator_digit, ascii_text, rune_text, quote_from, quote,
}
use nvda_remote_server.Json.Separators.{separator_digit-IsEscape}
use nvda_remote_server.Json.Unquote.{
  read_piece, read_text, unquote, push, repaired_from, Reads, plain-Reads, ascii_text-Reads,
  escape-Reads, IsEscape, read_escape,
}

-- The text reads as `text`, up to what follows the closing quote.
record Reaches (t text rest : Bytes) : Type 0 where
  fuel : ℕ
  enough : fuel ≤ length t
  reads : read_text fuel t ≡ some (text, rest)

read_more :
    (u p t text rest : Bytes)
    → 1 ≤ length u
    → Reads u p
    → Reaches t text rest
    → Reaches (u ++ t) (p ++ text) rest
read_more u p t text rest long one v = record {
  fuel = suc v.fuel;
  enough = omega (arith, v.enough, long, length-append u t);
  reads = one v.fuel t ∙ ap (push p) v.reads;
}

abbrev one_round :
    Bool
    → Bytes
    → Option (Bytes × Bytes)
    → (Bytes → Option (Bytes × Bytes))
    → Option (Bytes × Bytes)
one_round closing s piece further =
    if closing
    then some ([], s)
    else elim piece [ none ↦ none | some (p, rest) ↦ push p (further rest) ]

-- A round that goes on with more fuel.
grow_round :
    (closing : Bool) (s : Bytes) (piece : Option (Bytes × Bytes))
    (f g : Bytes → Option (Bytes × Bytes)) (text rest : Bytes)
    → ((r t u : Bytes) → f r ≡ some (t, u) → g r ≡ some (t, u))
    → one_round closing s piece f ≡ some (text, rest)
    → one_round closing s piece g ≡ some (text, rest)
grow_round true s piece f g text rest more e = e
grow_round false s none f g text rest more e = cc
grow_round false s (some (p, r)) f g text rest more e = elim (Option-cases (f r)) [
  | inl q ↦ no_text (sym (ap (push p) q) ∙ e)
  | inr ((t, u), q) ↦ ap (push p) (more r t u q) ∙ sym (ap (push p) q) ∙ e
]
  where
    no_text : {P : Type 0} → ◌≡◌ {A = Option (Bytes × Bytes)} none (some (text, rest)) → P
    no_text e = cc

grow :
    (n : ℕ) (s text rest : Bytes) (m : ℕ)
    → read_text n s ≡ some (text, rest)
    → n ≤ m
    → read_text m s ≡ some (text, rest)
unfolding read_text
grow zero s text rest m e h = cc
grow (suc n) [] text rest m e h = cc
grow (suc n) (c ∷ s) text rest zero e h = absurd (omega (arith, h))
grow (suc n) (c ∷ s) text rest (suc m) e h =
    grow_round (nat_beq c b'"') s (read_piece c s) (read_text n) (read_text m) text rest
      (λ r t u f. grow n r t u m f (omega (arith, h))) e

shown_all :
    (u t text rest : Bytes)
    → All (λ c. 0x80 ≤ c) u
    → Reaches t text rest
    → Reaches (u ++ t) (u ++ text) rest
shown_all [] t text rest h v = v
shown_all (c ∷ u) t text rest (large, h) v =
    read_more (c ∷ []) (c ∷ []) (u ++ t) (u ++ text) rest (omega arith)
      (plain-Reads c (λ e. omega (arith, large, e)) (λ e. omega (arith, large, e)))
      (shown_all u t text rest h v)

take-behind-large : (b : ℕ) (s : Bytes) → All (λ c. 0x80 ≤ c) (take (behind b s) s)
unfolding behind is_second
take-behind-large b [] = tt
take-behind-large b (c ∷ []) = ground arith
take-behind-large b (c ∷ d ∷ []) = ground arith
take-behind-large b (c ∷ d ∷ e ∷ s) = ground arith

replaced : IsEscape (0xef ∷ 0xbf ∷ 0xbd ∷ []) (codes "\\ufffd")
replaced = record { code = codes "ufffd"; whole = refl; reads = λ t. unfold read_escape in refl }

-- What a byte that is not ASCII becomes.
repaired_rune : ℕ → Bytes → Bytes
repaired_rune b s =
    if nat_beq (behind b s) 0 then 0xef ∷ 0xbf ∷ 0xbd ∷ [] else b ∷ take (behind b s) s

rune_text-Reaches :
    (b : ℕ) (s t text rest : Bytes)
    → 0x80 ≤ b
    → Reaches t text rest
    → Reaches (rune_text b s ++ t) (repaired_rune b s ++ text) rest
unfolding rune_text repaired_rune
rune_text-Reaches b s t text rest large v = elim (Bool-cases (nat_beq (behind b s) 0)) [
  | inl e ↦
      rw (e, rune_text, repaired_rune)
        (read_more (codes "\\ufffd") (0xef ∷ 0xbf ∷ 0xbd ∷ []) t text rest (omega arith)
          (escape-Reads _ _ replaced) v)
  | inr e ↦
      rw (e, rune_text, repaired_rune)
        (elim (Option-cases (separator_digit b s)) [
          | inl f ↦
              rw f
                (shown_all (b ∷ take (behind b s) s) t text rest (large, take-behind-large b s) v)
          | inr (h, f) ↦ rw f (
              read_more (codes "\\u202" ++ (h ∷ [])) (b ∷ take (behind b s) s) t text rest
                (omega arith) (escape-Reads _ _ (separator_digit-IsEscape b s h f)) v)
        ])
]

ascii_text-long : (b : ℕ) → 1 ≤ length (ascii_text b)
unfolding ascii_text
ascii_text-long b = ground arith

closing-Reaches : (rest : Bytes) → Reaches (b'"' ∷ rest) [] rest
unfolding read_text
closing-Reaches rest = record { fuel = 1; enough = omega arith; reads = refl }

repaired_from-rune :
    (b : ℕ) (s : Bytes)
    → ltb b 0x80 ≡ false
    → repaired_from zero (b ∷ s) ≡ repaired_rune b s ++ repaired_from (behind b s) s
unfolding repaired_from repaired_rune
repaired_from-rune b s e =
    rw e (elim (Bool-cases (nat_beq (behind b s) 0)) [ inl f ↦ rw f refl | inr f ↦ rw f refl ])

repaired_from-small :
    (b : ℕ) (s : Bytes) → ltb b 0x80 ≡ true → repaired_from zero (b ∷ s) ≡ b ∷ repaired_from zero s
unfolding repaired_from
repaired_from-small b s e = rw e refl

quote_from-small :
    (b : ℕ) (s : Bytes)
    → ltb b 0x80 ≡ true
    → quote_from zero (b ∷ s) ≡ ascii_text b ++ quote_from zero s
unfolding quote_from
quote_from-small b s e = rw e refl

quote_from-rune :
    (b : ℕ) (s : Bytes)
    → ltb b 0x80 ≡ false
    → quote_from zero (b ∷ s) ≡ rune_text b s ++ quote_from (behind b s) s
unfolding quote_from
quote_from-rune b s e = rw e refl

Reaches-as : (t u text v rest : Bytes) → t ≡ u → text ≡ v → Reaches u v rest → Reaches t text rest
Reaches-as t u text v rest e f h =
    subst (λ a. Reaches a text rest) (sym e) (subst (λ a. Reaches u a rest) (sym f) h)

quote_from-Reaches :
    (skip : ℕ) (s rest : Bytes)
    → Reaches (quote_from skip s ++ (b'"' ∷ rest)) (repaired_from skip s) rest
unfolding quote_from repaired_from
quote_from-Reaches skip [] rest = closing-Reaches rest
quote_from-Reaches (suc skip) (b ∷ s) rest = quote_from-Reaches skip s rest
quote_from-Reaches zero (b ∷ s) rest =
    by_kind (ltb b 0x80) refl (quote_from-Reaches zero s rest)
      (quote_from-Reaches (behind b s) s rest)
  where
    by_kind :
        (small : Bool)
        → ltb b 0x80 ≡ small
        → Reaches (quote_from zero s ++ (b'"' ∷ rest)) (repaired_from zero s) rest
        → Reaches (quote_from (behind b s) s ++ (b'"' ∷ rest)) (repaired_from (behind b s) s) rest
        → Reaches (quote_from zero (b ∷ s) ++ (b'"' ∷ rest)) (repaired_from zero (b ∷ s)) rest
    by_kind true e next beyond =
        Reaches-as _ (ascii_text b ++ (quote_from zero s ++ (b'"' ∷ rest))) _
          ((b ∷ []) ++ repaired_from zero s) rest
          (ap (λ t. t ++ (b'"' ∷ rest)) (quote_from-small b s e)
            ∙ append_assoc (ascii_text b) (quote_from zero s) (b'"' ∷ rest))
          (repaired_from-small b s e)
          (read_more (ascii_text b) (b ∷ []) _ _ rest (ascii_text-long b)
            (ascii_text-Reads b (ground (arith, e))) next)
    by_kind false e next beyond =
        Reaches-as _ (rune_text b s ++ (quote_from (behind b s) s ++ (b'"' ∷ rest))) _
          (repaired_rune b s ++ repaired_from (behind b s) s) rest
          (ap (λ t. t ++ (b'"' ∷ rest)) (quote_from-rune b s e)
            ∙ append_assoc (rune_text b s) (quote_from (behind b s) s) (b'"' ∷ rest))
          (repaired_from-rune b s e) (rune_text-Reaches b s _ _ rest (ground (arith, e)) beyond)

-- What `quote` writes for a string reads back as that string by the rules of JSON, whatever bytes are
-- in it and whatever follows: its bytes, but the replacement character for each byte that is not of a
-- character in UTF-8.
pub unquote-quote : (s rest : Bytes) → unquote (quote s ++ rest) ≡ some (repaired_from 0 s, rest)
unfolding unquote quote
unquote-quote s rest =
    let v = quote_from-Reaches 0 s rest in
    let text = quote_from 0 s ++ (b'"' ∷ rest) in
    ap (λ t. read_text (length t) t) (append_assoc (quote_from 0 s) (b'"' ∷ []) rest)
    ∙ grow v.fuel text (repaired_from 0 s) rest (length text) v.reads v.enough

-- A text in ASCII has nothing to repair.
pub repaired_from-ascii : (s : Bytes) → All (λ b. b < 0x80) s → repaired_from 0 s ≡ s
repaired_from-ascii [] h = unfold repaired_from in refl
repaired_from-ascii (b ∷ s) (small, h) =
    repaired_from-small b s (ground (arith, small)) ∙ ap (λ t. b ∷ t) (repaired_from-ascii s h)
