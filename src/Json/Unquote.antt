-- ===== src/Json/Unquote.antt =====
-- A reader of JSON strings, as RFC 8259 has them, and what it makes of the strings that `Encode` of
-- server/jsonFuncs.go writes.
use nvda_remote_server.Common.{
  ℕ, zero, suc, ◌+◌, ◌-◌, ◌*◌, ◌/◌, ◌%◌, ◌<◌, ◌≡◌, ◌≢◌, refl, sym, ap, ◌∙◌, true, ◌&&◌, ◌||◌,
  Option, none, some, [], ◌∷◌, ◌++◌, Bytes, codes, nat_beq, leb, ltb, take, length, if◌then◌else◌,
  arith, Bool-cases, inl, inr, either_branch, nat_beq_iff,
}
use nvda_remote_server.Json.Quote.{hex, html_safe, ascii_text, behind}

-- A digit behind "\u".
unfoldable pub hex_value : ℕ → Option ℕ
hex_value c =
    if leb b'0' c && leb c b'9'
    then some (c - b'0')
    else if leb b'a' c && leb c b'f'
    then some ((c - b'a') + 10)
    else if leb b'A' c && leb c b'F'
    then some ((c - b'A') + 10)
    else none

-- A character below U+10000 in UTF-8.
unfoldable pub utf8 : ℕ → Bytes
utf8 n =
    if ltb n 0x80
    then n ∷ []
    else if ltb n 0x800
    then (0xc0 + n / 64) ∷ (0x80 + n % 64) ∷ []
    else (0xe0 + n / 4096) ∷ (0x80 + n / 64 % 64) ∷ (0x80 + n % 64) ∷ []

-- A further digit.
unfoldable pub digit_behind : ℕ → Option ℕ → Option ℕ
unfolding hex_value
digit_behind c none = none
digit_behind c (some n) = elim (hex_value c) [ none ↦ none | some d ↦ some (n * 16 + d) ]

-- Behind "\u", with the bytes of the character and what follows.
unfoldable pub read_code : Bytes → Option (Bytes × Bytes)
unfolding digit_behind utf8
read_code (a ∷ b ∷ c ∷ d ∷ s) =
    elim (digit_behind d (digit_behind c (digit_behind b (digit_behind a (some 0))))) [
      | none ↦ none
      | some n ↦ some (utf8 n, s)
    ]
read_code _ = none

unfoldable pub read_escape : Bytes → Option (Bytes × Bytes)
unfolding read_code
read_escape [] = none
read_escape (c ∷ s) =
    if nat_beq c b'u'
    then read_code s
    else if nat_beq c b'"' || nat_beq c b'\\' || nat_beq c b'/'
    then some (c ∷ [], s)
    else if nat_beq c b'b'
    then some (8 ∷ [], s)
    else if nat_beq c b'f'
    then some (12 ∷ [], s)
    else if nat_beq c b'n'
    then some (b'\n' ∷ [], s)
    else if nat_beq c b'r'
    then some (b'\r' ∷ [], s)
    else if nat_beq c b't'
    then some (b'\t' ∷ [], s)
    else none

unfoldable pub read_piece : ℕ → Bytes → Option (Bytes × Bytes)
unfolding read_escape
read_piece c s = if nat_beq c b'\\' then read_escape s else some (c ∷ [], s)

abbrev pub push : Bytes → Option (Bytes × Bytes) → Option (Bytes × Bytes)
push p none = none
push p (some (text, rest)) = some (p ++ text, rest)

-- The text up to the closing quote, and what follows; each round takes a byte at least.
unfoldable pub read_text : ℕ → Bytes → Option (Bytes × Bytes)
unfolding read_piece
read_text zero s = none
read_text (suc n) [] = none
read_text (suc n) (c ∷ s) =
    if nat_beq c b'"'
    then some ([], s)
    else elim (read_piece c s) [ none ↦ none | some (p, rest) ↦ push p (read_text n rest) ]

unfoldable pub unquote : Bytes → Option (Bytes × Bytes)
unfolding read_text
unquote [] = none
unquote (c ∷ s) = if nat_beq c b'"' then read_text (length s) s else none

-- The text with the replacement character for each byte that is not of an encoded character.
unfoldable pub repaired_from : ℕ → Bytes → Bytes
unfolding behind
repaired_from skip [] = []
repaired_from (suc skip) (b ∷ s) = repaired_from skip s
repaired_from zero (b ∷ s) =
    let next = repaired_from zero s in
    let beyond = repaired_from (behind b s) s in
    if ltb b 0x80
    then b ∷ next
    else if nat_beq (behind b s) 0
    then 0xef ∷ 0xbf ∷ 0xbd ∷ beyond
    else (b ∷ take (behind b s) s) ++ beyond

hex_value-hex : (k : ℕ) → k < 16 → hex_value (hex k) ≡ some k
unfolding hex_value hex
hex_value-hex k h = ground arith

-- One piece is read in one round.
abbrev pub Reads : Bytes → Bytes → Type 0
Reads u p = (n : ℕ) (t : Bytes) → read_text (suc n) (u ++ t) ≡ push p (read_text n t)

digit_behind-hex : (k n : ℕ) → k < 16 → digit_behind (hex k) (some n) ≡ some (n * 16 + k)
unfolding digit_behind
digit_behind-hex k n h = rw (hex_value-hex k h, digit_behind) refl

digit_behind-zero : digit_behind b'0' (some 0) ≡ some 0
unfolding digit_behind
digit_behind-zero = refl

utf8-small : (n : ℕ) → n < 128 → utf8 n ≡ n ∷ []
unfolding utf8
utf8-small n h = ground arith

abbrev coded : Option ℕ → Bytes → Option (Bytes × Bytes)
coded o s = elim o [ none ↦ none | some n ↦ some (utf8 n, s) ]

read_code-digits :
    (a b c d : ℕ) (s : Bytes)
    → read_code (a ∷ b ∷ c ∷ d ∷ s)
      ≡ coded (digit_behind d (digit_behind c (digit_behind b (digit_behind a (some 0))))) s
unfolding read_code
read_code-digits a b c d s = refl

read_code-hex :
    (b : ℕ) (t : Bytes)
    → b < 128
    → read_code (b'0' ∷ b'0' ∷ hex (b / 16) ∷ hex (b % 16) ∷ t) ≡ some (b ∷ [], t)
read_code-hex b t h =
    read_code-digits b'0' b'0' (hex (b / 16)) (hex (b % 16)) t
    ∙ ap (λ o. coded (digit_behind (hex (b % 16)) o) t)
        (ap (digit_behind (hex (b / 16)))
            (ap (digit_behind b'0') digit_behind-zero ∙ digit_behind-zero)
          ∙ digit_behind-hex (b / 16) 0 (omega (arith, h)))
    ∙ ap (λ o. coded o t) (digit_behind-hex (b % 16) (0 * 16 + b / 16) (omega arith))
    ∙ ap (λ u. some (u, t)) (ap utf8 (omega (arith, h)) ∙ utf8-small b h)

pub plain-Reads : (b : ℕ) → b ≢ b'"' → b ≢ b'\\' → Reads (b ∷ []) (b ∷ [])
unfolding read_text read_piece
plain-Reads b no_quote no_escape n t = ground (arith, no_quote, no_escape)

-- The text of an escape, for the bytes `p`.
pub record IsEscape (p text : Bytes) : Type 0 where
  pub code : Bytes
  pub whole : text ≡ b'\\' ∷ code
  pub reads : (t : Bytes) → read_escape (code ++ t) ≡ some (p, t)

pub escape-Reads : (p text : Bytes) → IsEscape p text → Reads text p
unfolding read_text read_piece
escape-Reads p text v n t = rw (v.whole, read_text, read_piece, v.reads t) refl

-- An escape of two characters.
short-IsEscape :
    (b c : ℕ)
    → ((t : Bytes) → read_escape (c ∷ t) ≡ some (b ∷ [], t))
    → IsEscape (b ∷ []) (b'\\' ∷ c ∷ [])
short-IsEscape b c h = record { code = c ∷ []; whole = refl; reads = h }

named-IsEscape :
    (b k c : ℕ)
    → nat_beq b k ≡ true
    → ((t : Bytes) → read_escape (c ∷ t) ≡ some (k ∷ [], t))
    → IsEscape (b ∷ []) (b'\\' ∷ c ∷ [])
named-IsEscape b k c e h =
    short-IsEscape b c (λ t. h t ∙ ap (λ m. some (m ∷ [], t)) (sym ((nat_beq_iff b k).0 e)))

hex-IsEscape :
    (b : ℕ) → b < 128 → IsEscape (b ∷ []) (codes "\\u00" ++ (hex (b / 16) ∷ hex (b % 16) ∷ []))
hex-IsEscape b h = record {
  code = codes "u00" ++ (hex (b / 16) ∷ hex (b % 16) ∷ []);
  whole = refl;
  reads = λ t. unfold read_escape in read_code-hex b t h;
}

pub ascii_text-Reads : (b : ℕ) → b < 128 → Reads (ascii_text b) (b ∷ [])
unfolding ascii_text
ascii_text-Reads b h = elim (Bool-cases (html_safe b)) [
  | inl e ↦
      rw (e, ascii_text)
        (plain-Reads b (unfold html_safe in λ f. ground (arith, e, f))
          (unfold html_safe in λ f. ground (arith, e, f)))
  | inr e ↦
      rw (e, ascii_text)
        (escape-Reads (b ∷ []) _ (
          either_branch P (nat_beq b b'\\' || nat_beq b b'"')
            (λ q. short-IsEscape b b (λ t. itself t q))
            (λ _.
              either_branch P (nat_beq b 8)
                (λ k. named-IsEscape b 8 b'b' k (λ t. unfold read_escape in refl))
                (λ _.
                  either_branch P (nat_beq b 12)
                    (λ k. named-IsEscape b 12 b'f' k (λ t. unfold read_escape in refl))
                    (λ _.
                      either_branch P (nat_beq b b'\n')
                        (λ k. named-IsEscape b b'\n' b'n' k (λ t. unfold read_escape in refl))
                        (λ _.
                          either_branch P (nat_beq b b'\r')
                            (λ k. named-IsEscape b b'\r' b'r' k (λ t. unfold read_escape in refl))
                            (λ _.
                              either_branch P (nat_beq b b'\t')
                                (λ k.
                                  named-IsEscape b b'\t' b't' k (λ t. unfold read_escape in refl))
                                (λ _. hex-IsEscape b h))))))))
]
  where
    P : Bytes → Type 0
    P = IsEscape (b ∷ [])

    itself :
        (t : Bytes)
        → (nat_beq b b'\\' || nat_beq b b'"') ≡ true
        → read_escape (b ∷ t) ≡ some (b ∷ [], t)
    itself t q = unfold read_escape in ground (arith, q)
