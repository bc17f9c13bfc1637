-- ===== src/Client/Framing.antt =====
-- What the reading loop of `listen` in server/client.go makes of lines.
use native.Mathlib.Nat.{suc-add}
use nvda_remote_server.Common.{
  ℕ, zero, suc, ◌+◌, ◌-◌, ◌≤◌, ◌≡◌, ◌≢◌, refl, sym, ap, ◌∙◌, Bool, false, not, ◌&&◌, ◌||◌, none,
  some, List, [], ◌∷◌, ◌++◌, Bytes, length, length-append, nat_beq, bytes_eq, bytes_beq,
  if◌then◌else◌, All, arith, Bool-cases, inl, inr, append_assoc,
}
use nvda_remote_server.Common.Int.{ℤ, pos, negsuc, int_leb}
use nvda_remote_server.Client.Listen.{
  read_bytes, succ_message, trim_right_byte, is_too_long, Ending, read_failed, too_long,
  listen_loop, listen,
}

-- The messages, each with a line feed behind it.
abbrev pub stream : List Bytes → Bytes
stream [] = []
stream (m ∷ ms) = m ++ (b'\n' ∷ stream ms)

abbrev pub nonempty : List Bytes → List Bytes
nonempty [] = []
nonempty ([] ∷ ms) = nonempty ms
nonempty ((c ∷ m) ∷ ms) = (c ∷ m) ∷ nonempty ms

-- One line.
abbrev pub IsLine : Bytes → Type 0
IsLine m = All (λ d. d ≢ b'\n') m

-- A line is longer in bytes than is allowed, where there is a limit.
abbrev pub exceeds : ℤ → Bytes → Bool
exceeds limit m = not (int_leb limit (pos 0)) && not (int_leb (pos (length m)) limit)

-- The lines before the first that is too long.
abbrev pub up_to_long : ℤ → List Bytes → List Bytes
up_to_long limit [] = []
up_to_long limit (m ∷ ms) = if exceeds limit m then [] else m ∷ up_to_long limit ms

abbrev pub any_long : ℤ → List Bytes → Bool
any_long limit [] = false
any_long limit (m ∷ ms) = exceeds limit m || any_long limit ms

read_bytes-line :
    (m rest : Bytes)
    → IsLine m
    → read_bytes b'\n' (m ++ (b'\n' ∷ rest)) ≡ some (m ++ (b'\n' ∷ []), rest)
unfolding read_bytes succ_message
read_bytes-line [] rest h = refl
read_bytes-line (d ∷ m) rest (ne, h) = ground (arith, ne, read_bytes-line m rest h)

read_bytes-no_line : (t : Bytes) → IsLine t → read_bytes b'\n' t ≡ none
unfolding read_bytes succ_message
read_bytes-no_line [] h = refl
read_bytes-no_line (d ∷ t) (ne, h) = ground (arith, ne, read_bytes-no_line t h)

trim_right_byte-line : (m : Bytes) → IsLine m → trim_right_byte b'\n' (m ++ (b'\n' ∷ [])) ≡ m
unfolding trim_right_byte bytes_beq
trim_right_byte-line [] h = refl
trim_right_byte-line (d ∷ m) (ne, h) = ground (arith, ne, trim_right_byte-line m h)

empty_short : (limit : ℤ) → exceeds limit [] ≡ false
unfolding int_leb
empty_short (pos n) = ground arith
empty_short (negsuc n) = ground arith

module _ (max_msg_len : ℤ) where
  abbrev loop : ℕ → Bytes → List Bytes × Ending
  loop n input = listen_loop b'\n' max_msg_len n input

  loop-read :
      (n : ℕ) (m rest : Bytes)
      → IsLine m
      → loop (suc n) (m ++ (b'\n' ∷ rest)) ≡ (
          if nat_beq (length (m ++ (b'\n' ∷ []))) 1
          then loop n rest
          else if is_too_long max_msg_len (m ++ (b'\n' ∷ []))
          then ([], too_long)
          else (m ∷ (loop n rest).0, (loop n rest).1))
  unfolding listen_loop
  loop-read n m rest h = rw (read_bytes-line m rest h, trim_right_byte-line m h, listen_loop) refl

  is_too_long-line :
      (m : Bytes) → is_too_long max_msg_len (m ++ (b'\n' ∷ [])) ≡ exceeds max_msg_len m
  unfolding is_too_long
  is_too_long-line m =
      ap (λ n. not (int_leb max_msg_len (pos 0)) && not (int_leb (pos n) max_msg_len)) one_less
    where
      one_less : length (m ++ (b'\n' ∷ [])) - 1 ≡ length m
      one_less = omega (arith, length-append m (b'\n' ∷ []))

  abbrev pub received_of : List Bytes → List Bytes × Ending
  received_of ms = (
    nonempty (up_to_long max_msg_len ms),
    if any_long max_msg_len ms then too_long else read_failed,
  )

  received_of-short :
      (m : Bytes) (ms : List Bytes)
      → exceeds max_msg_len m ≡ false
      → received_of (m ∷ ms) ≡ (
        nonempty (m ∷ up_to_long max_msg_len ms),
        if any_long max_msg_len ms then too_long else read_failed,
      )
  received_of-short m ms f = rw f refl

  loop-partial : (k : ℕ) (tail : Bytes) → IsLine tail → loop k tail ≡ ([], read_failed)
  unfolding listen_loop
  loop-partial zero tail h = refl
  loop-partial (suc k) tail h = rw (read_bytes-no_line tail h, listen_loop) refl

  loop-line :
      (n : ℕ) (m : Bytes) (ms : List Bytes) (rest : Bytes)
      → IsLine m
      → loop n rest ≡ received_of ms
      → loop (suc n) (m ++ (b'\n' ∷ rest)) ≡ received_of (m ∷ ms)
  loop-line n [] ms rest h e = loop-read n [] rest tt ∙ e ∙ sym (received_of-short [] ms never_long)
    where
      never_long : exceeds max_msg_len [] ≡ false
      never_long = empty_short max_msg_len
  loop-line n (c ∷ m) ms rest h e =
      loop-read n (c ∷ m) rest h
      ∙ rw (longer, is_too_long-line (c ∷ m), e)
          (elim (Bool-cases (exceeds max_msg_len (c ∷ m))) [
            | inl f ↦ rw f refl
            | inr f ↦ rw f refl
          ])
    where
      longer : nat_beq (length ((c ∷ m) ++ (b'\n' ∷ []))) 1 ≡ false
      longer = ground (arith, length-append m (b'\n' ∷ []))

  -- Lines, and what follows the last line feed.
  loop-stream :
      (k : ℕ) (ms : List Bytes) (unfinished : Bytes)
      → All IsLine ms
      → IsLine unfinished
      → loop (length ms + k) (stream ms ++ unfinished) ≡ received_of ms
  loop-stream k [] unfinished h u = loop-partial (zero + k) unfinished u
  loop-stream k (m ∷ ms) unfinished (v, h) u =
      ap (λ n. loop n (stream (m ∷ ms) ++ unfinished)) (suc-add (length ms) k)
      ∙ ap (loop (suc (length ms + k))) (append_assoc m (b'\n' ∷ stream ms) unfinished)
      ∙ loop-line (length ms + k) m ms (stream ms ++ unfinished) v (loop-stream k ms unfinished h u)

stream-le : (ms : List Bytes) → length ms ≤ length (stream ms)
stream-le [] = omega arith
stream-le (m ∷ ms) = omega (arith, stream-le ms, length-append m (b'\n' ∷ stream ms))

-- Of the lines that arrive, `MessageReceived` gets exactly the nonempty ones before the first that is
-- longer in bytes than is allowed, in order and without their line feeds, and nothing of an unfinished line at
-- the end; a line that is too long ends the client, and without one the loop ends when reading fails.
pub listen-stream :
    (max_msg_len : ℤ) (ms : List Bytes) (unfinished : Bytes)
    → All IsLine ms
    → IsLine unfinished
    → listen b'\n' max_msg_len (stream ms ++ unfinished) ≡ received_of max_msg_len ms
unfolding listen
listen-stream max_msg_len ms unfinished h u =
    ap (λ n. loop max_msg_len n (stream ms ++ unfinished)) enough
    ∙ loop-stream max_msg_len ((length (stream ms) - length ms) + length unfinished) ms unfinished h
        u
  where
    enough :
        length (stream ms ++ unfinished)
        ≡ length ms + ((length (stream ms) - length ms) + length unfinished)
    enough = omega (arith, stream-le ms, length-append (stream ms) unfinished)
