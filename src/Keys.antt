-- ===== src/Keys.antt =====
-- server/genKey.go: random channel keys. What `crypto/rand` returns is an argument: the eight bytes of
-- each `rand.Read`, the numbers of the calls of `rand.Int`, or `none` for an error.
pub mod Digits
pub mod Fresh
use mathlib.Core.List.{reverse}
use nvda_remote_server.Common.{
  ℕ, zero, suc, ◌+◌, ◌*◌, ◌/◌, ◌%◌, ◌^◌, Bool, true, false, ◌||◌, Option, none, some, List, [], ◌∷◌,
  Bytes, ltb, bytes_eq, ◌==◌, if◌then◌else◌,
}
use nvda_remote_server.GoMap.{Map}
use nvda_remote_server.World.{Registry}

-- binary.BigEndian.Uint64, behind the bytes that were read before.
unfoldable pub uint64_from : ℕ → Bytes → ℕ
uint64_from acc [] = acc
uint64_from acc (b ∷ buf) = uint64_from ((acc * 256 + b) % 2 ^ 64) buf

-- `for range n { modulus *= 10 }`, in uint64.
unfoldable pub modulus : ℕ → ℕ
modulus zero = 1
modulus (suc n) = modulus n * 10 % 2 ^ 64

-- `for range n { sb.WriteByte(byte('0' + val%10)); val /= 10 }`
unfoldable pub write_digits : ℕ → ℕ → Bytes
write_digits zero val = []
write_digits (suc n) val = (b'0' + val % 10) ∷ write_digits n (val / 10)

-- One `rand.Int(rand.Reader, 10)` for each digit that is left, added to '0' as a byte.
unfoldable pub random_digits_big : ℕ → List (Option ℕ) → Option Bytes
random_digits_big zero ints = some []
random_digits_big (suc n) [] = none
random_digits_big (suc n) (none ∷ ints) = none
random_digits_big (suc n) (some num ∷ ints) = prepend (random_digits_big n ints)
  where
    prepend : Option Bytes → Option Bytes
    prepend none = none
    prepend (some s) = some ((b'0' + num % 256) % 256 ∷ s)

-- The digits come out last one first, and are reversed in place.
unfoldable pub random_digits_small : ℕ → Option Bytes → Option Bytes
unfolding uint64_from modulus write_digits
random_digits_small n none = none
random_digits_small n (some buf) = some (reverse (write_digits n (uint64_from 0 buf % modulus n)))

unfoldable pub random_digits : ℕ → Option Bytes → List (Option ℕ) → Option Bytes
unfolding random_digits_small random_digits_big
random_digits zero read ints = some []
random_digits (suc n) read ints =
    if ltb 18 (suc n) then random_digits_big (suc n) ints else random_digits_small (suc n) read

-- The loop of `channelKeyTaken` over the map of channels.
unfoldable pub taken_in : Registry → Bytes → Map Bytes ℕ → Bool
taken_in g key [] = false
taken_in g key ((name, c) ∷ m) = name == key || (g.channel_at c).password == key || taken_in g key m

unfoldable pub channel_key_taken : Registry → Bytes → Bool
unfolding taken_in
channel_key_taken g key = taken_in g key g.channels

-- How `gen_key` stands after the given reads: it returned a key, it returned an error, or every key
-- so far was taken and it goes on.
pub data GenKey : Type 0 where
  generated : Bytes → GenKey
  failed : GenKey
  drawing : GenKey

unfoldable pub gen_key : Registry → List (Option Bytes) → GenKey
gen_key g [] = drawing
gen_key g (read ∷ reads) =
    let again = gen_key g reads in
    elim (random_digits 9 read []) [
      | none ↦ failed
      | some key ↦ if channel_key_taken g key then again else generated key
    ]
