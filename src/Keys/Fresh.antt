-- ===== src/Keys/Fresh.antt =====
-- What `gen_key` of server/genKey.go promises of the key that it returns.
use nvda_remote_server.Common.{
  ℕ, ◌≡◌, ◌≢◌, ◌⊎◌, refl, ◌∙◌, sym, subst, true, false, Option, none, some, List, [], ◌∷◌, ◌++◌,
  Bytes, arith, length, All, bytes_beq_iff, bytes_eq, Bool-cases, if◌then◌else◌, inl, inr,
}
use nvda_remote_server.GoMap.{Map, get}
use nvda_remote_server.Json.Decimal.{IsDigit}
use nvda_remote_server.World.{Registry}
use nvda_remote_server.Keys.{channel_key_taken, taken_in, random_digits, gen_key, generated}
use nvda_remote_server.Keys.Digits.{random_digits_small_lem}

-- No channel has the key as its name or as its password.
abbrev pub IsFree : Registry → Bytes → Type 0
IsFree g key =
    (name : Bytes) (c : ℕ)
    → get name g.channels ≡ some c
    → (name ≢ key) × ((g.channel_at c).password ≢ key)

taken_in-false :
    (g : Registry) (key : Bytes) (m : Map Bytes ℕ) (name : Bytes) (c : ℕ)
    → taken_in g key m ≡ false
    → get name m ≡ some c
    → (name ≢ key) × ((g.channel_at c).password ≢ key)
unfolding taken_in get
taken_in-false g key [] name c h e = cc
taken_in-false g key ((n, d) ∷ m) name c h e = ground (
  arith,
  taken_in-false g key m name c,
  bytes_beq_iff n key,
  bytes_beq_iff n name,
  bytes_beq_iff (g.channel_at d).password key,
)

channel_key_taken-false :
    (g : Registry) (key : Bytes) → channel_key_taken g key ≡ false → IsFree g key
unfolding channel_key_taken
channel_key_taken-false g key h name c e = taken_in-false g key g.channels name c h e

taken_in_hit :
    (g : Registry) (key : Bytes) (m : Map Bytes ℕ) (name : Bytes) (c : ℕ)
    → get name m ≡ some c
    → (name ≡ key) ⊎ ((g.channel_at c).password ≡ key)
    → taken_in g key m ≡ true
unfolding taken_in get
taken_in_hit g key [] name c e h = cc
taken_in_hit g key ((n, d) ∷ m) name c e h = ground (
  arith,
  taken_in_hit g key m name c,
  bytes_beq_iff n key,
  bytes_beq_iff n name,
  bytes_beq_iff (g.channel_at d).password key,
)

-- A channel of the map makes its name and its password unsafe as keys.
pub channel_key_taken_hit :
    (g : Registry) (key name : Bytes) (c : ℕ)
    → get name g.channels ≡ some c
    → (name ≡ key) ⊎ ((g.channel_at c).password ≡ key)
    → channel_key_taken g key ≡ true
unfolding channel_key_taken
channel_key_taken_hit g key name c e h = taken_in_hit g key g.channels name c e h

gen_key_step :
    (g : Registry) (reads : List (Option Bytes)) (buf s : Bytes)
    → random_digits 9 (some buf) [] ≡ some s
    → gen_key g (some buf ∷ reads)
      ≡ (if channel_key_taken g s then gen_key g reads else generated s)
unfolding gen_key
gen_key_step g reads buf s e = rw (e, gen_key)

abbrev IsKey : Registry → Bytes → Type 0
IsKey g key = (length key ≡ 9) × All IsDigit key × IsFree g key

gen_key_drawn :
    (g : Registry) (reads : List (Option Bytes)) (s key : Bytes)
    → (gen_key g reads ≡ generated key → IsKey g key)
    → (length s ≡ 9) × All IsDigit s
    → (if channel_key_taken g s then gen_key g reads else generated s) ≡ generated key
    → IsKey g key
gen_key_drawn g reads s key later (size, all_digits) h = elim (Bool-cases (channel_key_taken g s)) [
  | inl taken ↦ later (rw taken at h)
  | inr free ↦
      let same : s ≡ key = generated-injective (rw free at h) in
      subst (IsKey g) same (size, all_digits, channel_key_taken-false g s free)
]
  where
    generated-injective : generated s ≡ generated key → s ≡ key
    generated-injective e = cc

-- A generated key is nine decimal digits, and neither the name nor the password of a channel.
pub gen_key_sound :
    (g : Registry) (reads : List (Option Bytes)) (key : Bytes)
    → gen_key g reads ≡ generated key
    → (length key ≡ 9) × All IsDigit key × IsFree g key
unfolding gen_key
gen_key_sound g [] key h = cc
gen_key_sound g (none ∷ reads) key h = unfold random_digits in cc
gen_key_sound g (some buf ∷ reads) key h =
    let (s, e, size, all_digits, _) = random_digits_small_lem 9 buf [] (omega arith) in
    gen_key_drawn g reads s key (gen_key_sound g reads key) (size, all_digits)
      (sym (gen_key_step g reads buf s e) ∙ h)

-- The bytes `buf` draw the key `key`.
abbrev pub Draws : Bytes → Bytes → Type 0
Draws buf key = random_digits 9 (some buf) [] ≡ some key

-- Every read draws a key that is taken.
abbrev pub AllTaken : Registry → List (Option Bytes) → Type 0
AllTaken g =
    All λ read.
      (key : Bytes) × (random_digits 9 read [] ≡ some key) × (channel_key_taken g key ≡ true)

-- If the reads draw keys that are taken, and then one that is not, the loop ends with that one.
pub gen_key_first_free :
    (g : Registry) (reads rest : List (Option Bytes)) (buf key : Bytes)
    → AllTaken g reads
    → Draws buf key
    → channel_key_taken g key ≡ false
    → gen_key g (reads ++ (some buf ∷ rest)) ≡ generated key
unfolding gen_key
gen_key_first_free g [] rest buf key t d free = rw (d, gen_key) (rw free refl)
gen_key_first_free g (read ∷ reads) rest buf key ((k, e, taken), t) d free =
    rw (e, gen_key) (rw taken (gen_key_first_free g reads rest buf key t d free))
