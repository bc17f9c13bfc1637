-- ===== src/Json/Quote.antt =====
-- How `json.Marshal` of Go's standard library writes a string, for `Encode` of server/jsonFuncs.go:
-- the characters that HTML gives a meaning to are escaped too, and a byte that is not of a UTF-8
-- encoded character becomes the replacement character.
use nvda_remote_server.Common.{
  ℕ, zero, suc, ◌+◌, ◌-◌, ◌/◌, ◌%◌, Bool, ◌||◌, ◌&&◌, [], ◌∷◌, ◌++◌, Bytes, codes, nat_beq, leb,
  ltb, if◌then◌else◌, not, take, Option, none, some,
}

-- A digit of `hex`, "0123456789abcdef".
unfoldable pub hex : ℕ → ℕ
hex n = if ltb n 10 then b'0' + n else b'a' + (n - 10)

abbrev between : ℕ → ℕ → ℕ → Bool
between low high b = leb low b && leb b high

-- A byte that continues a character.
abbrev is_more : ℕ → Bool
is_more = between 0x80 0xbf

-- The second byte of a character, whose range the first one narrows.
unfoldable pub is_second : ℕ → ℕ → Bool
is_second b c =
    if nat_beq b 0xe0
    then between 0xa0 0xbf c
    else if nat_beq b 0xed
    then between 0x80 0x9f c
    else if nat_beq b 0xf0
    then between 0x90 0xbf c
    else if nat_beq b 0xf4
    then between 0x80 0x8f c
    else is_more c

-- `utf8.DecodeRune`: the number of bytes behind the first that are of its character, where the text
-- begins with an encoded character that is not ASCII, and 0 otherwise.
unfoldable pub behind : ℕ → Bytes → ℕ
unfolding is_second
behind b [] = 0
behind b (c ∷ []) = if between 0xc2 0xdf b && is_more c then 1 else 0
behind b (c ∷ d ∷ []) =
    if between 0xc2 0xdf b && is_more c
    then 1
    else if between 0xe0 0xef b && (is_second b c && is_more d)
    then 2
    else 0
behind b (c ∷ d ∷ e ∷ s) =
    if between 0xc2 0xdf b && is_more c
    then 1
    else if between 0xe0 0xef b && (is_second b c && is_more d)
    then 2
    else if between 0xf0 0xf4 b && (is_second b c && (is_more d && is_more e))
    then 3
    else 0

-- `htmlSafeSet`
unfoldable pub html_safe : ℕ → Bool
html_safe b =
    leb b' ' b
    && not (nat_beq b b'"' || nat_beq b b'\\' || nat_beq b b'<' || nat_beq b b'>' || nat_beq b b'&')

-- What an ASCII byte becomes.
unfoldable pub ascii_text : ℕ → Bytes
unfolding html_safe hex
ascii_text b =
    if html_safe b
    then b ∷ []
    else if nat_beq b b'\\' || nat_beq b b'"'
    then b'\\' ∷ b ∷ []
    else if nat_beq b 8
    then codes "\\b"
    else if nat_beq b 12
    then codes "\\f"
    else if nat_beq b b'\n'
    then codes "\\n"
    else if nat_beq b b'\r'
    then codes "\\r"
    else if nat_beq b b'\t'
    then codes "\\t"
    else codes "\\u00" ++ (hex (b / 16) ∷ hex (b % 16) ∷ [])

-- The last digit of U+2028 and U+2029, where the character is one of them.
unfoldable pub separator_digit : ℕ → Bytes → Option ℕ
unfolding hex
separator_digit b (c ∷ d ∷ s) =
    if nat_beq b 0xe2 && (nat_beq c 0x80 && between 0xa8 0xa9 d) then some (hex (d % 16)) else none
separator_digit b (c ∷ []) = none
separator_digit b [] = none

-- What a byte that is not ASCII becomes, with the bytes behind it that are of its character.
unfoldable pub rune_text : ℕ → Bytes → Bytes
unfolding behind separator_digit
rune_text b s = if nat_beq (behind b s) 0 then codes "\\ufffd" else elim (separator_digit b s) [
  | none ↦ b ∷ take (behind b s) s
  | some last ↦ codes "\\u202" ++ (last ∷ [])
]

-- The text of a string behind the bytes that are of a character already written.
unfoldable pub quote_from : ℕ → Bytes → Bytes
unfolding ascii_text rune_text
quote_from skip [] = []
quote_from (suc skip) (b ∷ s) = quote_from skip s
quote_from zero (b ∷ s) =
    let next = quote_from zero s in
    let beyond = quote_from (behind b s) s in
    if ltb b 0x80 then ascii_text b ++ next else rune_text b s ++ beyond

unfoldable pub quote : Bytes → Bytes
unfolding quote_from
quote s = b'"' ∷ (quote_from 0 s ++ (b'"' ∷ []))
