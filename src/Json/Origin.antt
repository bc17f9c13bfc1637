-- ===== src/Json/Origin.antt =====
-- What `JsonAddOrigin` of server/jsonFuncs.go does to a message, against a description of its text.
use native.Mathlib.Nat.{suc-add}
use nvda_remote_server.Common.{
  ℕ, suc, ◌+◌, ◌≡◌, ◌↔◌, nat_beq_iff, refl, sym, ap, ◌∙◌, ◌⊎◌, inl, inr, true, false, none, some,
  [], ◌∷◌, ◌++◌, Bytes, nat_beq, take, drop, if◌then◌else◌, All, Bool-cases, append_assoc, length,
}
use nvda_remote_server.Common.Int.{ℤ, pos}
use nvda_remote_server.Json.{
  is_space, skip_spaces, origin_field, insert_origin, add_at_brace, json_add_origin,
}
use nvda_remote_server.Json.Decimal.{
  append_int, digits, value, IsDigit, digits-value, digits-IsDigit,
}

abbrev pub IsSpace : ℕ → Type 0
IsSpace b = is_space b ≡ true

-- What follows the inserted field: an object with no field keeps its brace, any other its text
-- behind a comma.
abbrev pub after_field : Bytes → Bytes → Bytes
after_field body [] = b',' ∷ body
after_field body (b ∷ rest) = if nat_beq b b'}' then b ∷ rest else b',' ∷ body

abbrev pub with_origin : ℤ → Bytes → Bytes
with_origin id body = append_int origin_field id ++ after_field body (drop (skip_spaces body) body)

skip_spaces-All :
    (ws rest : Bytes) (b : ℕ)
    → All IsSpace ws
    → is_space b ≡ false
    → skip_spaces (ws ++ (b ∷ rest)) ≡ length ws
unfolding skip_spaces
skip_spaces-All [] rest b h no_space = rw no_space
skip_spaces-All (w ∷ ws) rest b (hw, h) no_space =
    rw hw (ap suc (skip_spaces-All ws rest b h no_space))

drop-length : (ws rest : Bytes) → drop (length ws) (ws ++ rest) ≡ rest
drop-length [] rest = refl
drop-length (w ∷ ws) rest = drop-length ws rest

drop_past : (ws rest : Bytes) (b : ℕ) → drop (length ws + 1) (ws ++ (b ∷ rest)) ≡ rest
drop_past [] rest b = refl
drop_past (w ∷ ws) rest b = rw suc-add (drop_past ws rest b)

take_past : (ws rest : Bytes) (b : ℕ) → take (length ws + 1) (ws ++ (b ∷ rest)) ≡ ws ++ (b ∷ [])
take_past [] rest b = refl
take_past (w ∷ ws) rest b = rw suc-add (ap (λ r. w ∷ r) (take_past ws rest b))

insert_origin_lem :
    (ws body tail : Bytes) (id : ℤ)
    → insert_origin (ws ++ (b'{' ∷ body)) (length ws) id tail
      ≡ ws ++ (b'{' ∷ (append_int origin_field id ++ after_field body tail))
unfolding insert_origin
insert_origin_lem ws body [] id =
    rw (take_past ws body b'{', drop_past ws body b'{') (append_assoc ws _ _)
insert_origin_lem ws body (b ∷ rest) id =
    rw (take_past ws body b'{', drop_past ws body b'{')
      (elim (Bool-cases (nat_beq b b'}')) [
        | inl e ↦ rw e (append_assoc ws _ _)
        | inr e ↦ rw e (append_assoc ws _ _)
      ])

at_first_text :
    (text : Bytes) (id : ℤ)
    → json_add_origin text id
      ≡ add_at_brace text (skip_spaces text) id (drop (skip_spaces text) text)
unfolding json_add_origin
at_first_text [] id = refl
at_first_text (b ∷ text) id = refl

-- Whatever stands behind the brace, and whatever blanks stand before it, an object gets the origin as
-- its first field, with a comma behind it and the text of the object kept as it was. If the first
-- thing behind the brace and its blanks is the closing brace, there is no comma, and the blanks
-- between the two go.
pub json_add_origin_object :
    (ws body : Bytes) (id : ℤ)
    → All IsSpace ws
    → json_add_origin (ws ++ (b'{' ∷ body)) id ≡ some (ws ++ (b'{' ∷ with_origin id body))
unfolding add_at_brace
json_add_origin_object ws body id h = rw (
  at_first_text,
  skip_spaces-All ws body b'{' h (unfold is_space in refl),
  drop-length ws (b'{' ∷ body),
  insert_origin_lem ws body (drop (skip_spaces body) body) id,
)

-- The blanks that a text begins with, and what follows them.
abbrev pub IsObject : Bytes → Type 0
IsObject text = (ws : Bytes) × (body : Bytes) × (text ≡ ws ++ (b'{' ∷ body)) × All IsSpace ws

leading :
    (text : Bytes) → (ws : Bytes) × (text ≡ ws ++ drop (skip_spaces text) text) × All IsSpace ws
unfolding skip_spaces
leading [] = ([], refl, tt)
leading (b ∷ text) = elim (Bool-cases (is_space b)) [
  | inl e ↦
      rw e (let (ws, split, spaces) = leading text in (b ∷ ws, ap (λ r. b ∷ r) split, (e, spaces)))
  | inr e ↦ rw e ([], refl, tt)
]

IsObject-behind :
    (text ws rest : Bytes)
    → text ≡ ws ++ rest
    → All IsSpace ws
    → IsObject text ⊎ ((id : ℤ) (i : ℕ) → add_at_brace text i id rest ≡ none)
unfolding add_at_brace
IsObject-behind text ws [] e spaces = inr (λ id i. refl)
IsObject-behind text ws (b ∷ rest) e spaces = elim (Bool-cases (nat_beq b b'{')) [
  | inl brace ↦
      inl (ws, rest, e ∙ ap (λ c. ws ++ (c ∷ rest)) ((nat_beq_iff b b'{').0 brace), spaces)
  | inr other ↦ inr (λ id i. rw other)
]

-- The error is returned exactly for the texts that are not an opening brace behind blanks and
-- something behind it.
pub json_add_origin-none :
    (text : Bytes) (id : ℤ) → (json_add_origin text id ≡ none) ↔ (¬ IsObject text)
json_add_origin-none text id = (
  λ h (ws, body, e, spaces).
      clash (
        sym (json_add_origin_object ws body id spaces)
        ∙ ap (λ t. json_add_origin t id) (sym e)
        ∙ h),
  λ no_object.
      let (ws, split, spaces) = leading text in
      elim (IsObject-behind text ws _ split spaces) [
        | inl o ↦ absurd (no_object o)
        | inr h ↦ at_first_text text id ∙ h id _
      ],
)
  where
    clash : {out : Bytes} → some out ≡ none → ⊥
    clash e = cc

field_end :
    (body tail : Bytes)
    → (c : ℕ) × (rest : Bytes) × (after_field body tail ≡ c ∷ rest) × ((c ≡ b',') ⊎ (c ≡ b'}'))
field_end body [] = (b',', body, refl, inl refl)
field_end body (b ∷ rest) = elim (Bool-cases (nat_beq b b'}')) [
  | inl e ↦ (b, rest, rw e, inr ((nat_beq_iff b b'}').0 e))
  | inr e ↦ (b',', body, rw e, inl refl)
]

-- The origin that an object gets reads back as the sender's id, if that is not negative: behind the
-- field's name stand digits that have the id as their value, and then a comma or the closing brace.
pub json_add_origin_reads_back :
    (ws body : Bytes) (n : ℕ)
    → All IsSpace ws
    → (c : ℕ) × (rest : Bytes) × (json_add_origin (ws ++ (b'{' ∷ body)) (pos n)
        ≡ some (ws ++ (b'{' ∷ ((origin_field ++ digits n) ++ (c ∷ rest)))))
      × All IsDigit (digits n)
      × (value 0 (digits n) ≡ n)
      × ((c ≡ b',') ⊎ (c ≡ b'}'))
unfolding append_int
json_add_origin_reads_back ws body n h =
    let (c, rest, e, end) = field_end body (drop (skip_spaces body) body) in
    (
      c,
      rest,
      json_add_origin_object ws body (pos n) h
          ∙ ap (λ r. some (ws ++ (b'{' ∷ ((origin_field ++ digits n) ++ r)))) e,
      digits-IsDigit n,
      digits-value n,
      end,
    )
