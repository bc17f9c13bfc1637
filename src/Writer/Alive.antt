-- ===== src/Writer/Alive.antt =====
-- A writer whose connection takes every write keeps running until it is told to stop, and then has
-- sent everything (server/client.go).
use nvda_remote_server.Common.{
  ℕ, suc, ◌≡◌, ◌≢◌, refl, sym, ap, ◌∙◌, Bool, true, false, Option, none, List, [], ◌∷◌, ◌++◌, Bytes,
  All, length, drop, leb, ◌-◌, not, bytes_eq, ◌==◌, either_branch, subst, if◌then◌else◌,
}
use nvda_remote_server.Writer.{
  Writer, WriterEvent, message, elapsed, queue_closed, buffer_size, conn_write, flush, write_rest,
  write, push_byte, write_byte, after_message, end_message, take_next, elapse, write_event,
  write_all, new_writer,
}
use nvda_remote_server.Writer.Order.{framed}
use nvda_remote_server.Writer.Delivery.{turn, write_all-nil, write_all-cons, write_all-sentinel}

pub record IsAlive (w : Writer) : Type 0 where
  pub sound : w.failed ≡ false
  pub on : w.running ≡ true
  pub accepts : (k : ℕ) → w.answers k ≡ none

clash : true ≡ false → ⊥
clash e = cc

conn_write-IsAlive : (p : Bytes) (w : Writer) → IsAlive w → IsAlive (conn_write p w)
unfolding conn_write
conn_write-IsAlive p w v =
    rw (v.accepts 0, conn_write)
      (record { sound = v.sound; on = v.on; accepts = λ k. v.accepts (suc k) })

held-IsAlive : (b : Bytes) (w : Writer) → IsAlive w → IsAlive (record w { buffered = b })
held-IsAlive b w v = record { sound = v.sound; on = v.on; accepts = v.accepts }

timed-IsAlive : (b : Bool) (w : Writer) → IsAlive w → IsAlive (record w { armed = b })
timed-IsAlive b w v = record { sound = v.sound; on = v.on; accepts = v.accepts }

pub flush-IsAlive : (w : Writer) → IsAlive w → IsAlive (flush w)
unfolding flush
flush-IsAlive w v =
    either_branch IsAlive w.failed (λ _. v)
      (λ _.
        either_branch IsAlive (w.buffered == []) (λ _. v)
          (λ _. held-IsAlive [] (conn_write w.buffered w) (conn_write-IsAlive w.buffered w v)))

write_rest-IsAlive : (p : Bytes) (w : Writer) → IsAlive w → IsAlive (write_rest p w)
unfolding write_rest
write_rest-IsAlive p w v =
    either_branch IsAlive w.failed (λ _. v)
      (λ _.
        either_branch IsAlive (leb (length p) buffer_size) (λ _. held-IsAlive p w v)
          (λ _. conn_write-IsAlive p w v))

write-IsAlive : (p : Bytes) (w : Writer) → IsAlive w → IsAlive (write p w)
unfolding write
write-IsAlive p w v =
    let room = buffer_size - length w.buffered in
    either_branch IsAlive w.failed (λ _. v)
      (λ _.
        either_branch IsAlive (leb (length p) room) (λ _. held-IsAlive _ w v)
          (λ _.
            either_branch IsAlive (w.buffered == []) (λ _. conn_write-IsAlive p w v)
              (λ _. write_rest-IsAlive (drop room p) _ (flush-IsAlive _ (held-IsAlive _ w v)))))

write_byte-IsAlive : (c : ℕ) (w : Writer) → IsAlive w → IsAlive (write_byte c w)
unfolding write_byte push_byte
write_byte-IsAlive c w v =
    pushed _ (
      either_branch IsAlive (leb buffer_size (length w.buffered)) (λ _. flush-IsAlive w v) (λ _. v))
  where
    pushed : (w : Writer) → IsAlive w → IsAlive (push_byte c w)
    pushed w v = either_branch IsAlive w.failed (λ _. v) (λ _. held-IsAlive _ w v)

after_message-IsAlive : (more : Bool) (w : Writer) → IsAlive w → IsAlive (after_message more w)
unfolding after_message
after_message-IsAlive true w v = timed-IsAlive (not w.armed) w v
after_message-IsAlive false w v =
    let flushed = flush-IsAlive w v in
    either_branch IsAlive (flush w).failed (λ bad. absurd (clash (sym bad ∙ flushed.sound)))
      (λ _. timed-IsAlive false _ flushed)

end_message-IsAlive :
    (terminator : ℕ) (more : Bool) (w : Writer)
    → IsAlive w
    → IsAlive (end_message terminator more w)
unfolding end_message
end_message-IsAlive terminator more w v =
    either_branch IsAlive w.failed (λ bad. absurd (clash (sym bad ∙ v.sound)))
      (λ _. after_message-IsAlive more _ (write_byte-IsAlive terminator w v))

elapse-IsAlive : (w : Writer) → IsAlive w → IsAlive (elapse w)
unfolding elapse
elapse-IsAlive w v =
    let flushed = flush-IsAlive (record w { armed = false }) (timed-IsAlive false w v) in
    either_branch IsAlive w.armed
      (λ _.
        either_branch IsAlive (flush (record w { armed = false })).failed
          (λ bad. absurd (clash (sym bad ∙ flushed.sound))) (λ _. flushed))
      (λ _. v)

-- An event that does not end the writer: a message that is not the sentinel, or the timer.
abbrev pub IsOpen : WriterEvent → Type 0
IsOpen (message b more) = b ≢ []
IsOpen elapsed = Unit
IsOpen queue_closed = ⊥

write_event-IsAlive :
    (terminator : ℕ) (e : WriterEvent) (w : Writer)
    → IsOpen e
    → IsAlive w
    → IsAlive (write_event terminator e w)
unfolding write_event take_next
write_event-IsAlive terminator (message [] more) w h v = absurd (h refl)
write_event-IsAlive terminator (message (x ∷ b) more) w h v =
    end_message-IsAlive terminator more _ (write-IsAlive (x ∷ b) w v)
write_event-IsAlive terminator elapsed w h v = elapse-IsAlive w v
write_event-IsAlive terminator queue_closed w h v = absurd h

turn-IsAlive :
    (terminator : ℕ) (e : WriterEvent) (w : Writer)
    → IsOpen e
    → IsAlive w
    → IsAlive (turn terminator e w)
unfolding turn
turn-IsAlive terminator e w h v =
    either_branch IsAlive w.running (λ _. write_event-IsAlive terminator e w h v) (λ _. v)

write_all-IsAlive :
    (terminator : ℕ) (es : List WriterEvent) (w : Writer)
    → All IsOpen es
    → IsAlive w
    → IsAlive (write_all terminator es w)
write_all-IsAlive terminator [] w h v = rw (write_all-nil) v
write_all-IsAlive terminator (e ∷ es) w (here, h) v =
    subst IsAlive (sym (write_all-cons terminator e es w))
      (write_all-IsAlive terminator es (turn terminator e w) h (turn-IsAlive terminator e w here v))

write_all-append :
    (terminator : ℕ) (es : List WriterEvent) (e : WriterEvent) (w : Writer)
    → write_all terminator (es ++ (e ∷ [])) w ≡ turn terminator e (write_all terminator es w)
write_all-append terminator [] e w =
    write_all-cons terminator e [] w
    ∙ write_all-nil terminator _
    ∙ ap (turn terminator e) (sym (write_all-nil terminator w))
write_all-append terminator (d ∷ es) e w =
    write_all-cons terminator d (es ++ (e ∷ [])) w
    ∙ write_all-append terminator es e (turn terminator d w)
    ∙ ap (turn terminator e) (sym (write_all-cons terminator d es w))

turn_on :
    (terminator : ℕ) (e : WriterEvent) (w : Writer)
    → w.running ≡ true
    → turn terminator e w ≡ write_event terminator e w
unfolding turn
turn_on terminator e w on = ap (λ b. if b then write_event terminator e w else w) on

sentinel-failed :
    (terminator : ℕ) (more : Bool) (w : Writer)
    → IsAlive w
    → (write_event terminator (message [] more) w).failed ≡ false
unfolding write_event take_next
sentinel-failed terminator more w v = (flush-IsAlive w v).sound

-- If the connection takes every write, then messages that are followed by a close that
-- `CloseGracefully` asks for are all sent, whole and in order, and the writer ends. No bytes are left
-- in its buffer, whenever the timer fires.
pub write_all_delivers :
    (terminator : ℕ) (es : List WriterEvent) (more : Bool) (answers : ℕ → Option ℕ)
    → ((k : ℕ) → answers k ≡ none)
    → All IsOpen es
    → ((write_all terminator (es ++ (message [] more ∷ [])) (new_writer answers)).sent
        ≡ framed terminator es)
      × ((write_all terminator (es ++ (message [] more ∷ [])) (new_writer answers)).running ≡ false)
write_all_delivers terminator es more answers accepts h =
    let w = write_all terminator es (new_writer answers) in
    let alive : IsAlive w =
      write_all-IsAlive terminator es (new_writer answers) h
        (record { sound = refl; on = refl; accepts = accepts }) in
    subst (λ (u : Writer). (u.sent ≡ framed terminator es) × (u.running ≡ false))
      (sym (
        write_all-append terminator es (message [] more) (new_writer answers)
        ∙ turn_on terminator (message [] more) w alive.on))
      (write_all-sentinel terminator es more answers w refl alive.on
        (sentinel-failed terminator more w alive))
