-- ===== src/Client.antt =====
-- server/client.go: the `Client` object and its outgoing queue `c.sd`, with `Send` and
-- `CloseGracefully`. The fields that a send touches are the client's `Outbox`, and the others its
-- `Client` record; the setters of client.go are record updates of the latter.
pub mod Send
pub mod Overflow
pub mod Listen
pub mod Framing
use nvda_remote_server.Common.{
  ℕ, suc, ◌+◌, ◌%◌, ◌^◌, Bool, true, false, ◌||◌, Option, none, List, [], ◌∷◌, ◌++◌, Bytes, codes,
  length, ltb, nat_beq, if◌then◌else◌, Outcome, ok, panic,
}
use nvda_remote_server.Common.Int.{ℤ}

abbrev pub ping_msg : Bytes
ping_msg = codes "{\"type\":\"ping\"}"

abbrev pub not_connected_msg : Bytes
not_connected_msg = codes "{\"type\":\"nvda_not_connected\"}"

abbrev pub drop_kick_interval : ℕ
drop_kick_interval = 500

-- The capacity of `c.sd = make(chan []byte, 100)`.
abbrev pub sd_capacity : ℕ
sd_capacity = 100

-- `channel` is the pointer `c.c`, an address in the heap of channels.
pub record Client : Type 0 where
  pub connection_type : Bytes
  pub id : ℤ
  pub version : ℤ
  pub ip : Bytes
  pub channel : Option ℕ
  pub auth : Bool

-- `cancelled` says that `c.ctx` is done, and `closed` that `c.sd` is closed. Where more than one
-- case of a `select` is ready Go picks one at random: `picks` holds the picks to come, `true` for
-- the send on `c.sd`.
pub record Outbox : Type 0 where
  pub sd : List Bytes
  pub dropped : ℕ
  pub cancelled : Bool
  pub closed : Bool
  pub picks : ℕ → Bool

-- c.Close(), the cancel function of the client's context.
unfoldable pub close : Outbox → Outbox
close o = record o { cancelled = true }

-- The case `<-c.ctx.Done()` or `c.sd <- b` was picked: the next `select` has the next pick.
unfoldable pub picked : Outbox → Outbox
picked o = record o { picks = λ n. o.picks (suc n) }

-- `c.sd <- b` can proceed: there is room, or the channel is closed and the send panics.
unfoldable pub can_send : Outbox → Bool
can_send o = o.closed || ltb (length o.sd) sd_capacity

-- `c.sd <- b` in `Send`, with the deferred recover that turns its panic into a close.
unfoldable pub enqueue : Bytes → Outbox → Outbox
unfolding close
enqueue b o = if o.closed then close o else record o { sd = o.sd ++ b ∷ [] }

-- The `default` case of `Send`: the queue is full. `dropped` is an atomic.Uint32.
unfoldable pub drop_message : Outbox → Outbox
unfolding close
drop_message o =
    let n = (o.dropped + 1) % 2 ^ 32 in
    let counted = record o { dropped = n } in
    if nat_beq (n % drop_kick_interval) 0 then close counted else counted

-- The `select` of `Send`.
unfoldable pub select_send : Bytes → Outbox → Outbox
unfolding can_send enqueue drop_message picked
select_send b o =
    if can_send o
    then (if o.cancelled
        then (if o.picks 0 then enqueue b (picked o) else picked o)
        else enqueue b o)
    else if o.cancelled
    then o
    else drop_message o

unfoldable pub send : Bytes → Outbox → Outbox
unfolding select_send
send [] o = o
send (x ∷ b) o = select_send (x ∷ b) o

-- `c.sd <- []byte{}` in `CloseGracefully`, which does not recover.
unfoldable pub enqueue_sentinel : Outbox → Outcome Outbox
enqueue_sentinel o = if o.closed then panic else ok (record o { sd = o.sd ++ [] ∷ [] })

unfoldable pub close_gracefully : Outbox → Outcome Outbox
unfolding can_send enqueue_sentinel close picked
close_gracefully o =
    if can_send o
    then (if o.cancelled
        then (if o.picks 0 then enqueue_sentinel (picked o) else ok (picked o))
        else enqueue_sentinel o)
    else if o.cancelled
    then ok o
    else ok (close o)

-- The teardown goroutine, once `c.ctx` is done: it closes `c.sd`.
unfoldable pub teardown : Outbox → Outbox
teardown o = if o.cancelled then record o { closed = true } else o

-- The pinger's tick.
unfoldable pub ping : Outbox → Outbox
unfolding send
ping o = send ping_msg o
