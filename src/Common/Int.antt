-- ===== src/Common/Int.antt =====
-- Go's `int`: a sign and a number. Overflow of the 64-bit type does not arise for the values that the
-- server keeps in it (client ids are 32-bit, and versions are only stored).
use nvda_remote_server.Common.{
  ℕ, suc, ◌-◌, ◌^◌, ◌≡◌, ◌↔◌, Bool, true, false, arith, nat_beq, ltb, leb, Comparable,
  if◌then◌else◌,
}

-- `negsuc n` is -(n + 1).
pub data ℤ : Type 0 where
  pos : ℕ → ℤ
  negsuc : ℕ → ℤ

unfoldable pub int_beq : ℤ → ℤ → Bool
int_beq (pos a) (pos b) = nat_beq a b
int_beq (negsuc a) (negsuc b) = nat_beq a b
int_beq _ _ = false

int_beq_sound : (a b : ℤ) → int_beq a b ≡ true → a ≡ b
unfolding int_beq
int_beq_sound (pos a) (pos b) h = ground arith
int_beq_sound (pos a) (negsuc b) h = ground arith
int_beq_sound (negsuc a) (pos b) h = ground arith
int_beq_sound (negsuc a) (negsuc b) h = ground arith

int_beq_self : (a : ℤ) → int_beq a a ≡ true
unfolding int_beq
int_beq_self (pos a) = ground arith
int_beq_self (negsuc a) = ground arith

pub int_beq_iff : (a b : ℤ) → (int_beq a b ≡ true) ↔ (a ≡ b)
int_beq_iff a b = (int_beq_sound a b, λ e. rw e (int_beq_self b))

instance abbrev pub int_eq : Comparable ℤ
int_eq = record { same = int_beq; same_iff = int_beq_iff }

-- a ≤ b
unfoldable pub int_leb : ℤ → ℤ → Bool
int_leb (pos a) (pos b) = leb a b
int_leb (pos a) (negsuc b) = false
int_leb (negsuc a) (pos b) = true
int_leb (negsuc a) (negsuc b) = leb b a

-- The `int32` whose bit pattern is `n`, a number below 2^32.
unfoldable pub int32 : ℕ → ℤ
int32 n = if ltb n (2 ^ 31) then pos n else negsuc (2 ^ 32 - suc n)
