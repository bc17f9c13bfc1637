-- ===== src/Flags/Dashed.antt =====
-- One argument of a command line: a flag behind its dashes, as `flag.Parse` of Go's standard library
-- reads it.
use nvda_remote_server.Common.{
  ℕ, ◌≡◌, ◌≢◌, refl, Bool, true, false, none, some, [], ◌∷◌, ◌++◌, Bytes, codes, All, arith,
}
use nvda_remote_server.Strings.{index, succ_index, has_prefix}
use nvda_remote_server.Strings.Split.{cut, cut-append}
use nvda_remote_server.Flags.{named, flag_shape, shape}

abbrev pub dashed : Bool → Bytes → Bytes
dashed true text = b'-' ∷ b'-' ∷ text
dashed false text = b'-' ∷ text

-- A name of a flag: not empty, not with a dash in front, and without "=".
abbrev pub IsName : Bytes → Type 0
IsName [] = ⊥
IsName (c ∷ s) = (c ≢ b'-') × All (λ d. d ≢ b'=') (c ∷ s)

index-none : (sep : ℕ) (s : Bytes) → All (λ d. d ≢ sep) s → index s (sep ∷ []) ≡ none
unfolding index has_prefix succ_index
index-none sep [] h = refl
index-none sep (d ∷ s) (ne, h) = ground (arith, ne, index-none sep s h)

cut-none : (s : Bytes) → All (λ d. d ≢ b'=') s → cut s (codes "=") ≡ none
unfolding cut
cut-none s h = rw (index-none b'=' s h, cut) refl

pub flag_shape-name : (n : Bytes) → IsName n → flag_shape n ≡ named n none
unfolding flag_shape
flag_shape-name [] h = absurd h
flag_shape-name (c ∷ s) (no_dash, (no_mark, h)) =
    rw (cut-none (c ∷ s) (no_mark, h), flag_shape) (ground (arith, no_dash, no_mark))

pub flag_shape-value : (n v : Bytes) → IsName n → flag_shape (n ++ (b'=' ∷ v)) ≡ named n (some v)
unfolding flag_shape
flag_shape-value [] v h = absurd h
flag_shape-value (c ∷ s) v (no_dash, (no_mark, h)) =
    rw (cut-append b'=' (c ∷ s) v (no_mark, h), flag_shape) (ground (arith, no_dash, no_mark))

-- The dashes, one or two, are not of the text.
pub shape-dashed :
    (double : Bool) (n : Bytes) (t : Bytes)
    → IsName n
    → shape (dashed double (n ++ t)) ≡ flag_shape (n ++ t)
unfolding shape
shape-dashed double [] t h = absurd h
shape-dashed true (c ∷ s) t h = refl
shape-dashed false (c ∷ s) t (no_dash, h) = ground (arith, no_dash)
