-- ===== src/Writer/Delivery.antt =====
-- What a whole run of the writer goroutine delivers (server/client.go).
use nvda_remote_server.Common.{
  ℕ, ◌≡◌, refl, sym, ap, ◌∙◌, Bool, true, false, Option, List, [], ◌∷◌, ◌++◌, Bytes, append_assoc,
  append-nil, either_branch, subst, if◌then◌else◌,
}
use nvda_remote_server.Writer.{
  Writer, WriterEvent, message, elapsed, queue_closed, flush, take_next, elapse, write_event,
  write_all, new_writer,
}
use nvda_remote_server.Writer.Order.{
  frame, framed, HasTaken, flush-HasTaken, IsFlushed, flush-IsFlushed, write-HasTaken,
  stop-HasTaken, timed-HasTaken, end_message-HasTaken,
}

same_text : (text : Bytes) (w : Writer) → HasTaken text w → HasTaken (text ++ []) w
same_text text w v = rw (append-nil text) v

write_event-HasTaken :
    (text : Bytes) (terminator : ℕ) (e : WriterEvent) (w : Writer)
    → HasTaken text w
    → HasTaken (text ++ frame terminator e) (write_event terminator e w)
unfolding write_event take_next elapse
write_event-HasTaken text terminator (message [] more) w v =
    same_text text _ (stop-HasTaken text _ (flush-HasTaken text w v))
write_event-HasTaken text terminator (message (x ∷ b) more) w v =
    subst (λ t. HasTaken t (take_next terminator (x ∷ b) more w))
      (append_assoc text (x ∷ b) (terminator ∷ []))
      (end_message-HasTaken (text ++ (x ∷ b)) terminator more _ (write-HasTaken text (x ∷ b) w v))
write_event-HasTaken text terminator elapsed w v =
    let flushed =
      flush-HasTaken text (record w { armed = false }) (timed-HasTaken text false w v) in
    same_text text _ (
      either_branch (HasTaken text) w.armed
        (λ _.
          either_branch (HasTaken text) (flush (record w { armed = false })).failed
            (λ _. stop-HasTaken text _ flushed) (λ _. flushed))
        (λ _. v))
write_event-HasTaken text terminator queue_closed w v = same_text text _ (stop-HasTaken text w v)

-- What was sent is a beginning of the text.
abbrev pub IsBegun : Bytes → Writer → Type 0
IsBegun text w = (rest : Bytes) × (w.sent ++ rest ≡ text)

IsBegun-more : (text p : Bytes) (w : Writer) → IsBegun text w → IsBegun (text ++ p) w
IsBegun-more text p w (rest, e) = (rest ++ p, sym (append_assoc w.sent rest p) ∙ ap (λ t. t ++ p) e)

-- A writer that runs has taken the text, and one that has ended has sent a beginning of it.
record HasFollowed (text : Bytes) (w : Writer) : Type 0 where
  begun : IsBegun text w
  taken : w.running ≡ true → HasTaken text w

round-HasFollowed :
    (text : Bytes) (terminator : ℕ) (e : WriterEvent) (w : Writer)
    → HasFollowed text w
    → HasFollowed (text ++ frame terminator e) (if w.running then write_event terminator e w else w)
round-HasFollowed text terminator e w v =
    either_branch (HasFollowed (text ++ frame terminator e)) w.running
      (λ on.
        let after = write_event-HasTaken text terminator e w (v.taken on) in
        record { begun = (after.rest, after.whole); taken = λ _. after })
      (λ off. record {
        begun = IsBegun-more text _ w v.begun;
        taken = λ on. absurd (clash (sym on ∙ off));
      })
  where
    clash : true ≡ false → ⊥
    clash e = cc

-- One turn of the loop.
unfoldable pub turn : ℕ → WriterEvent → Writer → Writer
turn terminator e w = if w.running then write_event terminator e w else w

turn-HasFollowed :
    (text : Bytes) (terminator : ℕ) (e : WriterEvent) (w : Writer)
    → HasFollowed text w
    → HasFollowed (text ++ frame terminator e) (turn terminator e w)
unfolding turn
turn-HasFollowed text terminator e w v = round-HasFollowed text terminator e w v

pub write_all-nil : (terminator : ℕ) (w : Writer) → write_all terminator [] w ≡ w
unfolding write_all
write_all-nil terminator w = refl

pub write_all-cons :
    (terminator : ℕ) (e : WriterEvent) (es : List WriterEvent) (w : Writer)
    → write_all terminator (e ∷ es) w ≡ write_all terminator es (turn terminator e w)
unfolding write_all turn
write_all-cons terminator e es w = refl

write_all-HasFollowed :
    (text : Bytes) (terminator : ℕ) (es : List WriterEvent) (w : Writer)
    → HasFollowed text w
    → HasFollowed (text ++ framed terminator es) (write_all terminator es w)
write_all-HasFollowed text terminator [] w v = rw (write_all-nil, append-nil text) v
write_all-HasFollowed text terminator (e ∷ es) w v =
    subst (λ t. HasFollowed t (write_all terminator (e ∷ es) w))
      (append_assoc text (frame terminator e) (framed terminator es))
      (subst (HasFollowed ((text ++ frame terminator e) ++ framed terminator es))
        (sym (write_all-cons terminator e es w))
        (write_all-HasFollowed (text ++ frame terminator e) terminator es (turn terminator e w)
          (turn-HasFollowed text terminator e w v)))

new_writer-HasTaken : (answers : ℕ → Option ℕ) → HasTaken [] (new_writer answers)
new_writer-HasTaken answers = record { rest = []; whole = refl; held = λ _. refl }

new_writer-HasFollowed : (answers : ℕ → Option ℕ) → HasFollowed [] (new_writer answers)
new_writer-HasFollowed answers = record {
  begun = ([], refl);
  taken = λ _. new_writer-HasTaken answers;
}

-- Whatever the connection answers to the writes, and whenever the timer fires, what a client has been
-- sent is a beginning of the messages that were taken off its queue, in order, each with the
-- terminator behind it.
pub write_all-IsBegun :
    (terminator : ℕ) (es : List WriterEvent) (answers : ℕ → Option ℕ)
    → IsBegun (framed terminator es) (write_all terminator es (new_writer answers))
write_all-IsBegun terminator es answers =
    (write_all-HasFollowed [] terminator es (new_writer answers)
      (new_writer-HasFollowed answers)).begun

flushed_whole :
    (text : Bytes) (w : Writer) → HasTaken text w → IsFlushed w → w.failed ≡ false → w.sent ≡ text
flushed_whole text w v empty good =
    sym (append-nil w.sent) ∙ ap (λ r. w.sent ++ r) (sym (empty good) ∙ v.held good) ∙ v.whole

-- A close that `CloseGracefully` asks for ends a running writer, and if no write has failed then the
-- client has been sent every message that was taken before it, whole and in order.
pub write_all-sentinel :
    (terminator : ℕ) (es : List WriterEvent) (more : Bool) (answers : ℕ → Option ℕ) (w : Writer)
    → write_all terminator es (new_writer answers) ≡ w
    → w.running ≡ true
    → (write_event terminator (message [] more) w).failed ≡ false
    → ((write_event terminator (message [] more) w).sent ≡ framed terminator es)
      × ((write_event terminator (message [] more) w).running ≡ false)
unfolding write_event take_next
write_all-sentinel terminator es more answers w e on good = (
  flushed_whole (framed terminator es) (flush w) (flush-HasTaken _ w taken) (flush-IsFlushed w)
      good,
  refl,
)
  where
    followed : HasFollowed (framed terminator es) w
    followed = subst (HasFollowed (framed terminator es)) e (
        write_all-HasFollowed [] terminator es (new_writer answers)
          (new_writer-HasFollowed answers))

    taken : HasTaken (framed terminator es) w
    taken = followed.taken on
