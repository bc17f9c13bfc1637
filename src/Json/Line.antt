-- ===== src/Json/Line.antt =====
-- What `Encode` of server/jsonFuncs.go writes has no control byte: it is one line.
use nvda_remote_server.Common.{
  ℕ, zero, suc, ◌/◌, ◌%◌, ◌≤◌, ◌≡◌, ◌≢◌, refl, Bool, true, false, List, [], ◌∷◌, Bytes, codes,
  nat_beq, ltb, take, Option, none, some, arith, All, either_branch, Option-cases, inl, inr,
}
use nvda_remote_server.Common.{bytes_eq, ◌==◌, map}
use nvda_remote_server.Common.Int.{ℤ, pos, negsuc, int_eq}
use nvda_remote_server.Protocol.{Data, ClientData}
use nvda_remote_server.Json.Decimal.{All-append, digits, append_int, IsDigit, digits-IsDigit}
use nvda_remote_server.Json.Encode.{
  commas, member, unless, object, array, int_text, bool_text, client_text, string_member,
  int_member, array_member, client_member, bool_member, members_of, encode,
}
use nvda_remote_server.Json.Quote.{
  hex, html_safe, ascii_text, is_second, behind, separator_digit, rune_text, quote_from, quote,
}

-- No control byte.
abbrev pub IsShown : ℕ → Type 0
IsShown b = b' ' ≤ b

abbrev pub IsShownText : Bytes → Type 0
IsShownText s = All IsShown s

hex-IsShown : (n : ℕ) → IsShown (hex n)
unfolding hex
hex-IsShown n = ground arith

ascii_text-IsShown : (b : ℕ) → IsShownText (ascii_text b)
unfolding ascii_text html_safe
ascii_text-IsShown b = ground (arith, hex-IsShown (b / 16), hex-IsShown (b % 16))

take-behind : (b : ℕ) (s : Bytes) → IsShownText (take (behind b s) s)
unfolding behind is_second
take-behind b [] = tt
take-behind b (c ∷ []) = ground arith
take-behind b (c ∷ d ∷ []) = ground arith
take-behind b (c ∷ d ∷ e ∷ s) = ground arith

separator_digit-IsShown : (b : ℕ) (s : Bytes) (h : ℕ) → separator_digit b s ≡ some h → IsShown h
unfolding separator_digit
separator_digit-IsShown b [] h e = cc
separator_digit-IsShown b (c ∷ []) h e = cc
separator_digit-IsShown b (c ∷ d ∷ s) h e = ground (arith, hex-IsShown (d % 16))

rune_text-IsShown : (b : ℕ) (s : Bytes) → b' ' ≤ b → IsShownText (rune_text b s)
unfolding rune_text
rune_text-IsShown b s large =
    either_branch {x = codes "\\ufffd"} IsShownText (nat_beq (behind b s) 0) (λ _. ground arith)
      (λ _. elim (Option-cases (separator_digit b s)) [
        | inl e ↦ rw e (large, take-behind b s)
        | inr (h, e) ↦ rw e (ground (arith, separator_digit-IsShown b s h e))
      ])

quote_from-IsShown : (skip : ℕ) (s : Bytes) → IsShownText (quote_from skip s)
unfolding quote_from
quote_from-IsShown skip [] = tt
quote_from-IsShown (suc skip) (b ∷ s) = quote_from-IsShown skip s
quote_from-IsShown zero (b ∷ s) =
    either_branch IsShownText (ltb b 0x80)
      (λ _.
        All-append IsShown (ascii_text b) (quote_from zero s) (ascii_text-IsShown b)
          (quote_from-IsShown zero s))
      (λ e.
        All-append IsShown (rune_text b s) (quote_from (behind b s) s)
          (rune_text-IsShown b s (ground arith)) (quote_from-IsShown (behind b s) s))

-- A text that stands as a member or an item: shown bytes.
quote-IsShown : (s : Bytes) → IsShownText (quote s)
unfolding quote
quote-IsShown s =
    (omega arith, All-append IsShown (quote_from 0 s) _ (quote_from-IsShown 0 s) (omega arith, tt))

digits-IsShown : (n : ℕ) → IsShownText (digits n)
digits-IsShown n = weaken (digits n) (digits-IsDigit n)
  where
    weaken : (s : Bytes) → All IsDigit s → IsShownText s
    weaken [] h = tt
    weaken (c ∷ s) ((low, high), h) = (omega arith, weaken s h)

pub append_int-IsShown : (dst : Bytes) (n : ℤ) → IsShownText dst → IsShownText (append_int dst n)
unfolding append_int
append_int-IsShown dst (pos n) h = All-append IsShown dst (digits n) h (digits-IsShown n)
append_int-IsShown dst (negsuc n) h =
    All-append IsShown dst (b'-' ∷ digits (suc n)) h (omega arith, digits-IsShown (suc n))

int_text-IsShown : (n : ℤ) → IsShownText (int_text n)
unfolding int_text
int_text-IsShown n = append_int-IsShown [] n tt

bool_text-IsShown : (b : Bool) → IsShownText (bool_text b)
unfolding bool_text
bool_text-IsShown true = ground arith
bool_text-IsShown false = ground arith

member-IsShown : (name text : Bytes) → IsShownText text → IsShownText (member name text)
unfolding member
member-IsShown name text h =
    All-append IsShown (quote name) (b':' ∷ text) (quote-IsShown name) (omega arith, h)

commas-IsShown : (xs : List Bytes) → All IsShownText xs → IsShownText (commas xs)
unfolding commas
commas-IsShown [] h = tt
commas-IsShown (x ∷ []) (hx, h) = hx
commas-IsShown (x ∷ y ∷ xs) (hx, h) =
    All-append IsShown x (b',' ∷ commas (y ∷ xs)) hx (omega arith, commas-IsShown (y ∷ xs) h)

object-IsShown : (xs : List Bytes) → All IsShownText xs → IsShownText (object xs)
unfolding object
object-IsShown xs h = (
  omega arith,
  All-append IsShown (commas xs) (b'}' ∷ []) (commas-IsShown xs h) (omega arith, tt),
)

array-IsShown : (xs : List Bytes) → All IsShownText xs → IsShownText (array xs)
unfolding array
array-IsShown xs h = (
  omega arith,
  All-append IsShown (commas xs) (b']' ∷ []) (commas-IsShown xs h) (omega arith, tt),
)

client_text-IsShown : (c : ClientData) → IsShownText (client_text c)
unfolding client_text
client_text-IsShown c = object-IsShown (_ ∷ _ ∷ []) (
  member-IsShown (codes "id") (int_text c.id) (int_text-IsShown c.id),
  (
    member-IsShown (codes "connection_type") (quote c.connection_type)
        (quote-IsShown c.connection_type),
    tt,
  ),
)

map-IsShown :
    {A : Type 0}
    → (f : A → Bytes) → ((a : A) → IsShownText (f a))
    → (xs : List A) → All IsShownText (map f xs)
map-IsShown f h [] = tt
map-IsShown f h (x ∷ xs) = (h x, map-IsShown f h xs)

module _ (name : Bytes) where
  string_member-IsShown : (s : Bytes) → All IsShownText (string_member name s)
  unfolding string_member unless
  string_member-IsShown s =
      either_branch (All IsShownText) (s == []) (λ _. tt)
        (λ _. (member-IsShown name (quote s) (quote-IsShown s), tt))

  int_member-IsShown : (n : ℤ) → All IsShownText (int_member name n)
  unfolding int_member unless
  int_member-IsShown n =
      either_branch (All IsShownText) (n == pos 0) (λ _. tt)
        (λ _. (member-IsShown name (int_text n) (int_text-IsShown n), tt))

  array_member-IsShown :
      (xs : List Bytes) → All IsShownText xs → All IsShownText (array_member name xs)
  unfolding array_member
  array_member-IsShown [] h = tt
  array_member-IsShown (x ∷ xs) h = (member-IsShown name _ (array-IsShown (x ∷ xs) h), tt)

  client_member-IsShown : (c : Option ClientData) → All IsShownText (client_member name c)
  unfolding client_member
  client_member-IsShown none = tt
  client_member-IsShown (some c) = (member-IsShown name _ (client_text-IsShown c), tt)

  bool_member-IsShown : (b : Bool) → All IsShownText (bool_member name b)
  unfolding bool_member
  bool_member-IsShown true = (member-IsShown name _ (bool_text-IsShown true), tt)
  bool_member-IsShown false = tt

members_of-IsShown : (d : Data) → All IsShownText (members_of d)
unfolding members_of
members_of-IsShown d = (
  member-IsShown (codes "type") _ (quote-IsShown d.type),
  All-append IsShownText _ _ (string_member-IsShown _ d.channel) (
      All-append IsShownText _ _ (string_member-IsShown _ d.connection_type) (
        All-append IsShownText _ _ (int_member-IsShown _ d.version) (
          All-append IsShownText _ _ (int_member-IsShown _ d.origin) (
            All-append IsShownText _ _ (string_member-IsShown _ d.key) (
              All-append IsShownText _ _ (int_member-IsShown _ d.id) (
                All-append IsShownText _ _
                  (array_member-IsShown _ _ (map-IsShown int_text int_text-IsShown d.user_ids))
                  (All-append IsShownText _ _
                    (array_member-IsShown _ _
                      (map-IsShown client_text client_text-IsShown d.clients))
                    (All-append IsShownText _ _ (client_member-IsShown _ d.client) (
                      All-append IsShownText _ _ (string_member-IsShown _ d.error) (
                        All-append IsShownText _ _ (string_member-IsShown _ d.motd)
                          (bool_member-IsShown _ d.motd_always_display))))))))))),
)

-- Every message is encoded, as a text that begins with a brace and has no control byte in it,
-- whatever bytes stand in its strings.
pub encode_shows :
    (d : Data) → (body : Bytes) × (encode d ≡ some (b'{' ∷ body)) × IsShownText (b'{' ∷ body)
unfolding encode object
encode_shows d = (_, refl, object-IsShown (members_of d) (members_of-IsShown d))

-- Bytes that are no control bytes are one line.
pub IsShown-line : (s : Bytes) → IsShownText s → All (λ d. d ≢ b'\n') s
IsShown-line [] h = tt
IsShown-line (c ∷ s) (shown, h) = ((λ e. omega (arith, shown, e)), IsShown-line s h)
