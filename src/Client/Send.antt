-- ===== src/Client/Send.antt =====
-- What `Send` and `CloseGracefully` of server/client.go do to the queue of a client.
use nvda_remote_server.Common.{
  ◌^◌, ◌≤◌, ◌<◌, ◌≡◌, ◌≢◌, refl, ◌⊎◌, inl, true, false, [], ◌∷◌, ◌++◌, Bytes, length, length-append,
  arith, ok, panic,
}
use nvda_remote_server.Client.{Outbox, send, select_send, close_gracefully, sd_capacity}

-- The invariant of an outbox: the queue is within its capacity, the drop counter fits its type, and
-- the queue is closed only after the client's context is done.
pub record IsValid (o : Outbox) : Type 0 where
  pub within : length o.sd ≤ sd_capacity
  pub counted : o.dropped < 2 ^ 32
  pub ordered : o.closed ≡ true → o.cancelled ≡ true

select_send-IsValid : (b : Bytes) (o : Outbox) → IsValid o → IsValid (select_send b o)
unfolding select_send
select_send-IsValid b o v = record {
  within = ground (arith, length-append o.sd (b ∷ []));
  counted = ground arith;
  ordered = λ h. ground arith;
}

-- A send keeps the outbox valid: the queue within its capacity, the drop counter within 32 bits, and
-- the queue closed only after the context is done.
pub send-IsValid : (b : Bytes) (o : Outbox) → IsValid o → IsValid (send b o)
unfolding send
send-IsValid [] o v = v
send-IsValid (x ∷ b) o v = select_send-IsValid (x ∷ b) o v

-- A message to a live client whose queue has room is the last of the queue, and nothing else changes.
pub send_room :
    (b : Bytes) (o : Outbox)
    → b ≢ []
    → o.cancelled ≡ false
    → o.closed ≡ false
    → length o.sd < sd_capacity
    → send b o ≡ record o { sd = o.sd ++ b ∷ [] }
unfolding send
send_room [] o ne live open_ room = absurd (ne refl)
send_room (x ∷ b) o ne live open_ room = ground arith

-- Whatever `Send` does, the queue keeps what it held, in order, and gains at most the message.
pub send_fifo : (b : Bytes) (o : Outbox) → ((send b o).sd ≡ o.sd) ⊎ ((send b o).sd ≡ o.sd ++ b ∷ [])
unfolding send
send_fifo [] o = inl refl
send_fifo (x ∷ b) o = unfold select_send in ground arith

-- A client that is shutting down stays so.
pub send-cancelled : (b : Bytes) (o : Outbox) → o.cancelled ≡ true → (send b o).cancelled ≡ true
unfolding send
send-cancelled [] o h = h
send-cancelled (x ∷ b) o h = unfold select_send in ground arith

-- `Send` never closes the queue itself.
pub send-closed : (b : Bytes) (o : Outbox) → (send b o).closed ≡ o.closed
unfolding send
send-closed [] o = refl
send-closed (x ∷ b) o = unfold select_send in ground arith

-- With an open queue `CloseGracefully` does not panic. With a closed one it does, where the runtime
-- picks the send.
pub close_gracefully_open : (o : Outbox) → o.closed ≡ false → close_gracefully o ≢ panic
unfolding close_gracefully
close_gracefully_open o h e = ground arith

pub close_gracefully_room :
    (o : Outbox)
    → o.cancelled ≡ false
    → o.closed ≡ false
    → length o.sd < sd_capacity
    → close_gracefully o ≡ ok (record o { sd = o.sd ++ [] ∷ [] })
unfolding close_gracefully
close_gracefully_room o live open_ room = ground arith
