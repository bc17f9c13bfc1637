-- ===== src/Writer/Order.antt =====
-- What a client is sent is a beginning of the messages that were taken off its queue, in order.
use nvda_remote_server.Common.{
  ℕ, zero, suc, ◌-◌, ◌≡◌, refl, sym, ap, ◌∙◌, Bool, true, false, List, [], ◌∷◌, ◌++◌, Bytes, length,
  take, drop, leb, bytes_beq_iff, bytes_eq, ◌==◌, append_assoc, append-nil, Option-cases, inl, inr,
  either_branch, subst, not,
}
use nvda_remote_server.Writer.{
  Writer, WriterEvent, message, elapsed, queue_closed, buffer_size, conn_write, flush, write_rest,
  write, push_byte, write_byte, stop, after_message, end_message,
}

-- The text of an event: a message with the terminator behind it, and nothing for the sentinel.
abbrev pub frame : ℕ → WriterEvent → Bytes
frame terminator (message [] more) = []
frame terminator (message (x ∷ b) more) = (x ∷ b) ++ (terminator ∷ [])
frame terminator elapsed = []
frame terminator queue_closed = []

abbrev pub framed : ℕ → List WriterEvent → Bytes
framed terminator [] = []
framed terminator (e ∷ es) = frame terminator e ++ framed terminator es

-- Of `text` the writer has sent a beginning, and holds the rest, if there was no error.
pub record HasTaken (text : Bytes) (w : Writer) : Type 0 where
  pub rest : Bytes
  pub whole : w.sent ++ rest ≡ text
  pub held : w.failed ≡ false → w.buffered ≡ rest

split_at : (n : ℕ) (b : Bytes) → take n b ++ drop n b ≡ b
split_at zero b = refl
split_at (suc n) [] = refl
split_at (suc n) (x ∷ b) = ap (λ r. x ∷ r) (split_at n b)

-- A write of `p` past an empty buffer.
conn_write-HasTaken :
    (text p : Bytes) (w : Writer)
    → w.sent ≡ text
    → w.buffered ≡ []
    → HasTaken (text ++ p) (conn_write p w)
unfolding conn_write
conn_write-HasTaken text p w e empty = elim (Option-cases (w.answers 0)) [
  | inl a ↦
      rw (a, conn_write)
        (record { rest = []; whole = append-nil _ ∙ ap (λ s. s ++ p) e; held = λ _. empty })
  | inr (k, a) ↦
      rw (a, conn_write)
        (record {
          rest = drop k p;
          whole =
              append_assoc w.sent _ _ ∙ ap (λ r. w.sent ++ r) (split_at k p) ∙ ap (λ s. s ++ p) e;
          held = λ h. cc;
        })
]

flush_buffered :
    (text : Bytes) (w : Writer)
    → w.failed ≡ false
    → HasTaken text w
    → HasTaken text (record (conn_write w.buffered w) { buffered = [] })
unfolding conn_write
flush_buffered text w good v = elim (Option-cases (w.answers 0)) [
  | inl a ↦
      rw (a, conn_write)
        (record {
          rest = [];
          whole = append-nil _ ∙ ap (λ r. w.sent ++ r) (v.held good) ∙ v.whole;
          held = λ _. refl;
        })
  | inr (k, a) ↦
      rw (a, conn_write)
        (record {
          rest = drop k w.buffered;
          whole =
              append_assoc w.sent _ _
              ∙ ap (λ r. w.sent ++ r) (split_at k w.buffered ∙ v.held good)
              ∙ v.whole;
          held = λ h. cc;
        })
]

pub flush-HasTaken : (text : Bytes) (w : Writer) → HasTaken text w → HasTaken text (flush w)
unfolding flush
flush-HasTaken text w v =
    either_branch (HasTaken text) w.failed (λ _. v)
      (λ good.
        either_branch (HasTaken text) (w.buffered == []) (λ _. v)
          (λ _. flush_buffered text w good v))

-- The buffer is empty behind a flush without an error.
abbrev pub IsFlushed : Writer → Type 0
IsFlushed w = w.failed ≡ false → w.buffered ≡ []

pub flush-IsFlushed : (w : Writer) → IsFlushed (flush w)
unfolding flush
flush-IsFlushed w =
    either_branch IsFlushed w.failed (λ bad good. absurd (clash (sym bad ∙ good)))
      (λ _.
        either_branch IsFlushed (w.buffered == []) (λ e _. (bytes_beq_iff w.buffered []).0 e)
          (λ _ _. refl))
  where
    clash : true ≡ false → ⊥
    clash e = cc

-- A writer with an error takes no more.
failed_more :
    (text p : Bytes) (w : Writer) → w.failed ≡ true → HasTaken text w → HasTaken (text ++ p) w
failed_more text p w bad v = record {
  rest = v.rest ++ p;
  whole = sym (append_assoc w.sent v.rest p) ∙ ap (λ t. t ++ p) v.whole;
  held = λ h. cc;
}

held_more :
    (text p : Bytes) (w : Writer)
    → w.failed ≡ false
    → HasTaken text w
    → HasTaken (text ++ p) (record w { buffered = w.buffered ++ p })
held_more text p w good v = record {
  rest = w.buffered ++ p;
  whole =
      sym (append_assoc w.sent w.buffered p)
      ∙ ap (λ r. (w.sent ++ r) ++ p) (v.held good)
      ∙ ap (λ t. t ++ p) v.whole;
  held = λ _. refl;
}

write_rest-HasTaken :
    (text p : Bytes) (w : Writer)
    → HasTaken text w
    → IsFlushed w
    → HasTaken (text ++ p) (write_rest p w)
unfolding write_rest
write_rest-HasTaken text p w v empty =
    either_branch (HasTaken (text ++ p)) w.failed (λ bad. failed_more text p w bad v)
      (λ good.
        either_branch (HasTaken (text ++ p)) (leb (length p) buffer_size)
          (λ _. record { rest = p; whole = ap (λ t. t ++ p) (all_sent good); held = λ _. refl })
          (λ _. conn_write-HasTaken text p w (all_sent good) (empty good)))
  where
    all_sent : w.failed ≡ false → w.sent ≡ text
    all_sent good =
        sym (append-nil w.sent) ∙ ap (λ r. w.sent ++ r) (sym (empty good) ∙ v.held good) ∙ v.whole

pub write-HasTaken :
    (text p : Bytes) (w : Writer) → HasTaken text w → HasTaken (text ++ p) (write p w)
unfolding write
write-HasTaken text p w v =
    let room = buffer_size - length w.buffered in
    either_branch (HasTaken (text ++ p)) w.failed (λ bad. failed_more text p w bad v)
      (λ good.
        either_branch (HasTaken (text ++ p)) (leb (length p) room) (λ _. held_more text p w good v)
          (λ _.
            either_branch (HasTaken (text ++ p)) (w.buffered == [])
              (λ e.
                let empty : w.buffered ≡ [] = (bytes_beq_iff w.buffered []).0 e in
                conn_write-HasTaken text p w
                  (sym (append-nil w.sent)
                    ∙ ap (λ r. w.sent ++ r) (sym empty ∙ v.held good)
                    ∙ v.whole)
                  empty)
              (λ _.
                subst
                  (λ t. HasTaken t (
                    write_rest (drop room p)
                      (flush (record w { buffered = w.buffered ++ take room p }))))
                  (append_assoc text (take room p) (drop room p)
                    ∙ ap (λ r. text ++ r) (split_at room p))
                  (write_rest-HasTaken (text ++ take room p) (drop room p) _
                    (flush-HasTaken (text ++ take room p) _ (held_more text (take room p) w good v))
                    (flush-IsFlushed (record w { buffered = w.buffered ++ take room p }))))))

push_byte-HasTaken :
    (text : Bytes) (c : ℕ) (w : Writer)
    → HasTaken text w
    → HasTaken (text ++ (c ∷ [])) (push_byte c w)
unfolding push_byte
push_byte-HasTaken text c w v =
    either_branch (HasTaken (text ++ (c ∷ []))) w.failed (λ bad. failed_more text (c ∷ []) w bad v)
      (λ good. held_more text (c ∷ []) w good v)

pub write_byte-HasTaken :
    (text : Bytes) (c : ℕ) (w : Writer)
    → HasTaken text w
    → HasTaken (text ++ (c ∷ [])) (write_byte c w)
unfolding write_byte
write_byte-HasTaken text c w v = push_byte-HasTaken text c _ (
    either_branch (HasTaken text) (leb buffer_size (length w.buffered))
      (λ _. flush-HasTaken text w v) (λ _. v))

pub stop-HasTaken : (text : Bytes) (w : Writer) → HasTaken text w → HasTaken text (stop w)
stop-HasTaken text w v = record { rest = v.rest; whole = v.whole; held = v.held }

pub timed-HasTaken :
    (text : Bytes) (b : Bool) (w : Writer)
    → HasTaken text w
    → HasTaken text (record w { armed = b })
timed-HasTaken text b w v = record { rest = v.rest; whole = v.whole; held = v.held }

after_message-HasTaken :
    (text : Bytes) (more : Bool) (w : Writer)
    → HasTaken text w
    → HasTaken text (after_message more w)
unfolding after_message
after_message-HasTaken text true w v = timed-HasTaken text (not w.armed) w v
after_message-HasTaken text false w v =
    let flushed = flush-HasTaken text w v in
    either_branch (HasTaken text) (flush w).failed (λ _. stop-HasTaken text (flush w) flushed)
      (λ _. timed-HasTaken text false (flush w) flushed)

pub end_message-HasTaken :
    (text : Bytes) (terminator : ℕ) (more : Bool) (w : Writer)
    → HasTaken text w
    → HasTaken (text ++ (terminator ∷ [])) (end_message terminator more w)
unfolding end_message
end_message-HasTaken text terminator more w v =
    either_branch (HasTaken (text ++ (terminator ∷ []))) w.failed
      (λ bad. stop-HasTaken _ w (failed_more text (terminator ∷ []) w bad v))
      (λ _. after_message-HasTaken _ more _ (write_byte-HasTaken text terminator w v))
