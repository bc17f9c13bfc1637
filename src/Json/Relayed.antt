-- ===== src/Json/Relayed.antt =====
-- What `JsonAddOrigin` of server/jsonFuncs.go makes of one line is one line.
use nvda_remote_server.Common.{
  ℕ, zero, suc, ◌+◌, ◌≡◌, ◌≢◌, [], ◌∷◌, ◌++◌, Bytes, nat_beq, take, drop, Option, none, some, arith,
  All, either_branch, subst,
}
use nvda_remote_server.Common.Int.{ℤ}
use nvda_remote_server.Json.{
  insert_origin, add_at_brace, json_add_origin, skip_spaces, origin_field,
}
use nvda_remote_server.Json.Decimal.{append_int, All-append}
use nvda_remote_server.Json.Line.{append_int-IsShown, IsShown-line}
use nvda_remote_server.Client.Framing.{IsLine}

All-take : (P : ℕ → Type 0) (n : ℕ) (s : Bytes) → All P s → All P (take n s)
All-take P zero s h = tt
All-take P (suc n) [] h = tt
All-take P (suc n) (c ∷ s) (hc, h) = (hc, All-take P n s h)

All-drop : (P : ℕ → Type 0) (n : ℕ) (s : Bytes) → All P s → All P (drop n s)
All-drop P zero s h = h
All-drop P (suc n) [] h = tt
All-drop P (suc n) (c ∷ s) (hc, h) = All-drop P n s h

IsLine-append : (s t : Bytes) → IsLine s → IsLine t → IsLine (s ++ t)
IsLine-append = All-append (λ d. d ≢ b'\n')

-- The text of the field.
field-IsLine : (id : ℤ) → IsLine (append_int origin_field id)
field-IsLine id =
    IsShown-line (append_int origin_field id) (append_int-IsShown origin_field id (ground arith))

around-IsLine :
    (payload : Bytes) (i : ℕ) (id : ℤ) (rest : Bytes)
    → IsLine payload
    → IsLine rest
    → IsLine (take (i + 1) payload ++ (append_int origin_field id ++ rest))
around-IsLine payload i id rest h k =
    IsLine-append (take (i + 1) payload) _ (All-take _ (i + 1) payload h)
      (IsLine-append (append_int origin_field id) rest (field-IsLine id) k)

insert_origin-IsLine :
    (payload : Bytes) (i : ℕ) (id : ℤ) (behind : Bytes)
    → IsLine payload
    → IsLine behind
    → IsLine (insert_origin payload i id behind)
unfolding insert_origin
insert_origin-IsLine payload i id behind h k =
    elim behind as (λ b. IsLine b → IsLine (insert_origin payload i id b)) [
      | [] ↦ λ _. kept
      | b ∷ rest ↦ λ k.
          either_branch IsLine (nat_beq b b'}') (λ _. around-IsLine payload i id (b ∷ rest) h k)
            (λ _. kept)
    ]
      k
  where
    kept :
        IsLine
          (take (i + 1) payload ++ (append_int origin_field id ++ (b',' ∷ drop (i + 1) payload)))
    kept = around-IsLine payload i id _ h (ground arith, All-drop _ (i + 1) payload h)

-- If there is a text, it is one line.
abbrev IsLineOr : Option Bytes → Type 0
IsLineOr o = (out : Bytes) → o ≡ some out → IsLine out

some-IsLineOr : (s : Bytes) → IsLine s → IsLineOr (some s)
some-IsLineOr s h out e = subst IsLine (same e) h
  where
    same : some s ≡ some out → s ≡ out
    same e = cc

none-IsLineOr : IsLineOr none
none-IsLineOr out e = cc

add_at_brace-IsLine :
    (payload : Bytes) (i : ℕ) (id : ℤ) (behind : Bytes)
    → IsLine payload
    → IsLine behind
    → IsLineOr (add_at_brace payload i id behind)
unfolding add_at_brace
add_at_brace-IsLine payload i id [] h k = none-IsLineOr
add_at_brace-IsLine payload i id (b ∷ rest) h (kb, k) =
    either_branch IsLineOr (nat_beq b b'{')
      (λ _. some-IsLineOr _ (
        insert_origin-IsLine payload i id (drop (skip_spaces rest) rest) h
          (All-drop _ (skip_spaces rest) rest k)))
      (λ _. none-IsLineOr)

-- One line with its origin is one line.
pub json_add_origin-IsLine :
    (pmsg : Bytes) (id : ℤ) (out : Bytes)
    → IsLine pmsg
    → json_add_origin pmsg id ≡ some out
    → IsLine out
unfolding json_add_origin
json_add_origin-IsLine [] id out h = none-IsLineOr out
json_add_origin-IsLine (b ∷ payload) id out h =
    add_at_brace-IsLine (b ∷ payload) (skip_spaces (b ∷ payload)) id _ h
      (All-drop _ (skip_spaces (b ∷ payload)) (b ∷ payload) h) out
