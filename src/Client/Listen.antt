-- ===== src/Client/Listen.antt =====
-- The reading loop of `listen` in server/client.go: the bytes of the connection are cut into messages.
use nvda_remote_server.Common.{
  ℕ, zero, suc, ◌-◌, Bool, not, ◌&&◌, Option, none, some, List, [], ◌∷◌, Bytes, length, nat_beq,
  bytes_eq, ◌==◌, if◌then◌else◌,
}
use nvda_remote_server.Common.Int.{ℤ, pos, int_leb}

unfoldable pub succ_message : ℕ → Option (Bytes × Bytes) → Option (Bytes × Bytes)
succ_message b none = none
succ_message b (some (message, rest)) = some (b ∷ message, rest)

-- reader.ReadBytes(delim), over the bytes that arrive until there is an error: a message up to its
-- terminator and what follows it, or `none` if the error comes first.
unfoldable pub read_bytes : ℕ → Bytes → Option (Bytes × Bytes)
unfolding succ_message
read_bytes delim [] = none
read_bytes delim (b ∷ input) =
    let rest = read_bytes delim input in
    if nat_beq b delim then some (b ∷ [], input) else succ_message b rest

-- bytes.TrimRight(s, cutset) with a cutset of one byte
unfoldable pub trim_right_byte : ℕ → Bytes → Bytes
trim_right_byte c [] = []
trim_right_byte c (d ∷ s) =
    let rest = trim_right_byte c s in if nat_beq d c && (rest == []) then [] else d ∷ rest

-- maxMsgLen > 0 && len(message)-1 > maxMsgLen
unfoldable pub is_too_long : ℤ → Bytes → Bool
is_too_long max_msg_len message =
    not (int_leb max_msg_len (pos 0)) && not (int_leb (pos (length message - 1)) max_msg_len)

-- How the loop ends.
pub data Ending : Type 0 where
  -- reading failed, or the loop has not ended yet
  read_failed : Ending
  -- a message was too long, and the client is closed
  too_long : Ending

-- The calls of `MessageReceived`, each with its message, and how the loop ends. There are no more rounds
-- than bytes.
unfoldable pub listen_loop : ℕ → ℤ → ℕ → Bytes → List Bytes × Ending
listen_loop end_message max_msg_len zero input = ([], read_failed)
listen_loop end_message max_msg_len (suc n) input = elim (read_bytes end_message input) [
  | none ↦ ([], read_failed)
  | some (message, rest) ↦
      let (received, ending) = listen_loop end_message max_msg_len n rest in
      if nat_beq (length message) 1
      then (received, ending)
      else if is_too_long max_msg_len message
      then ([], too_long)
      else (trim_right_byte b'\n' message ∷ received, ending)
]

unfoldable pub listen : ℕ → ℤ → Bytes → List Bytes × Ending
unfolding listen_loop
listen end_message max_msg_len input = listen_loop end_message max_msg_len (length input) input
