-- ===== src/Writer.antt =====
-- The writer goroutine of server/client.go: it takes messages off `c.sd`, writes them through a
-- `bufio.Writer` of 16 KB, and flushes that when the queue is empty, when its timer fires, and before
-- it closes the connection. What the connection answers to each write is a part of the state.
pub mod Wire
pub mod Order
pub mod Delivery
pub mod Alive
use nvda_remote_server.Common.{
  ℕ, zero, suc, ◌+◌, ◌-◌, Bool, true, false, not, Option, none, some, List, [], ◌∷◌, ◌++◌, Bytes,
  length, take, drop, leb, bytes_eq, ◌==◌, if◌then◌else◌,
}

abbrev pub buffer_size : ℕ
buffer_size = 16384

-- `sent` is what the connection took, and `failed` the error that the `bufio.Writer` keeps. An answer is
-- `none` for a write that succeeds, and the number of bytes taken before an error otherwise. `armed`
-- says that the timer runs or has fired and was not received from. `running` ends with the goroutine,
-- which is also where it calls `c.Close`, but for a closed queue.
pub record Writer : Type 0 where
  pub sent : Bytes
  pub buffered : Bytes
  pub failed : Bool
  pub armed : Bool
  pub running : Bool
  pub answers : ℕ → Option ℕ

unfoldable pub conn_write : Bytes → Writer → Writer
conn_write p w =
    let w' = record w { answers = λ n. w.answers (suc n) } in
    elim (w.answers 0) [
      | none ↦ record w' { sent = w.sent ++ p }
      | some k ↦ record w' { sent = w.sent ++ take k p; failed = true }
    ]

-- bw.Flush(): what an error leaves in the buffer is never written, since the error is kept.
unfoldable pub flush : Writer → Writer
unfolding conn_write
flush w =
    if w.failed
    then w
    else if w.buffered == []
    then w
    else record (conn_write w.buffered w) { buffered = [] }

-- The rest of a write whose first part filled the buffer.
unfoldable pub write_rest : Bytes → Writer → Writer
unfolding conn_write
write_rest p w =
    if w.failed
    then w
    else if leb (length p) buffer_size
    then record w { buffered = p }
    else conn_write p w

-- bw.Write(b)
unfoldable pub write : Bytes → Writer → Writer
unfolding flush write_rest conn_write
write p w =
    let room = buffer_size - length w.buffered in
    if w.failed
    then w
    else if leb (length p) room
    then record w { buffered = w.buffered ++ p }
    else if w.buffered == []
    then conn_write p w
    else write_rest (drop room p) (flush (record w { buffered = w.buffered ++ take room p }))

-- bw.WriteByte(c)
unfoldable pub push_byte : ℕ → Writer → Writer
push_byte c w = if w.failed then w else record w { buffered = w.buffered ++ (c ∷ []) }

unfoldable pub write_byte : ℕ → Writer → Writer
unfolding flush push_byte
write_byte c w = push_byte c (if leb buffer_size (length w.buffered) then flush w else w)

abbrev pub stop : Writer → Writer
stop w = record w { running = false }

-- Behind a message: the queue is empty, and the buffer is flushed and the timer stopped, or it is not,
-- and a timer that was not armed is.
unfoldable pub after_message : Bool → Writer → Writer
unfolding flush
after_message true w = record w { armed = not w.armed }
after_message false w =
    let w' = flush w in if w'.failed then stop w' else record w' { armed = false }

unfoldable pub end_message : ℕ → Bool → Writer → Writer
unfolding write_byte after_message
end_message terminator more w =
    if w.failed then stop w else after_message more (write_byte terminator w)

-- The case of a message; `more` says that the queue is not empty behind it. The empty message is the
-- sentinel of `CloseGracefully`.
unfoldable pub take_next : ℕ → Bytes → Bool → Writer → Writer
unfolding flush write end_message
take_next terminator [] more w = stop (flush w)
take_next terminator (x ∷ b) more w = end_message terminator more (write (x ∷ b) w)

-- The case of the timer.
unfoldable pub elapse : Writer → Writer
unfolding flush
elapse w =
    let w' = flush (record w { armed = false }) in
    if w.armed then (if w'.failed then stop w' else w') else w

pub data WriterEvent : Type 0 where
  message : Bytes → Bool → WriterEvent
  elapsed queue_closed : WriterEvent

unfoldable pub write_event : ℕ → WriterEvent → Writer → Writer
unfolding take_next elapse
write_event terminator (message b more) w = take_next terminator b more w
write_event terminator elapsed w = elapse w
write_event terminator queue_closed w = stop w

-- The loop of the goroutine, until it returns.
unfoldable pub write_all : ℕ → List WriterEvent → Writer → Writer
unfolding write_event
write_all terminator [] w = w
write_all terminator (e ∷ es) w =
    write_all terminator es (if w.running then write_event terminator e w else w)

-- The goroutine's start.
abbrev pub new_writer : (ℕ → Option ℕ) → Writer
new_writer answers = record {
  sent = [];
  buffered = [];
  failed = false;
  armed = false;
  running = true;
  answers = answers;
}
