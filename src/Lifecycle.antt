-- ===== src/Lifecycle.antt =====
-- The goroutines of one `Server` of server/connection.go and its `sync.WaitGroup`: `Listen`, `accept`,
-- the goroutine that stops the server, the clients' `listen` with its deferred `Done`, and `Wait` in
-- nvdaRemoteServer.go. Each constructor of `ServerStep` is one action of one goroutine, so that a
-- `Reachable` state is one that some interleaving leads to.
pub mod Shutdown
use nvda_remote_server.Common.{ℕ, zero, suc, ◌≡◌, Bool, true, false, Outcome, ok, panic, ◌>>=◌}

pub record Running : Type 0 where
  -- `s.ctx` is done
  pub cancelled : Bool
  -- the listener is open
  pub listening : Bool
  -- the goroutine that waits for `s.ctx` has not ended
  pub stopper : Bool
  -- the loop of `accept` has not ended, and it holds a connection that is no client yet
  pub accepting : Bool
  pub pending : Bool
  -- the goroutines of the clients
  pub clients : ℕ
  -- the counter of the WaitGroup, and whether `Wait` has returned
  pub counter : ℕ
  pub waited : Bool

-- `s.Add(1)`, and `s.Done()`, which panics below 0.
unfoldable pub wg_add : ℕ → ℕ
wg_add n = suc n

unfoldable pub wg_done : ℕ → Outcome ℕ
wg_done zero = panic
wg_done (suc n) = ok n

-- After `Listen` has succeeded.
unfoldable pub listened : Running
unfolding wg_add
listened = record {
  cancelled = false;
  listening = true;
  stopper = true;
  accepting = true;
  pending = false;
  clients = 0;
  counter = wg_add 0;
  waited = false;
}

pub data ServerStep : Running → Outcome Running → Type 0 where
  -- a signal, `StopServers` or `s.Stop`
  cancels : {s : Running} → ServerStep s (ok (record s { cancelled = true }))
  -- `listener.Close()` behind `<-s.ctx.Done()`
  closes :
      {s : Running}
      → s.stopper ≡ true
      → s.cancelled ≡ true
      → ServerStep s (ok (record s { listening = false }))
  -- and the `s.Done()` that follows it
  stops :
      {s : Running}
      → s.stopper ≡ true
      → s.listening ≡ false
      → ServerStep s (wg_done s.counter >>= λ n. ok (record s { stopper = false; counter = n }))
  -- `listener.Accept()` returns a connection
  accepts :
      {s : Running}
      → s.accepting ≡ true
      → s.pending ≡ false
      → s.listening ≡ true
      → ServerStep s (ok (record s { pending = true }))
  -- the rest of the loop's body: `s.Add(1)` and `go client.listen()`
  adds :
      {s : Running}
      → s.pending ≡ true
      → ServerStep s
          (ok (record s { pending = false; clients = suc s.clients; counter = wg_add s.counter }))
  -- `listener.Accept()` returns an error
  fails :
      {s : Running}
      → s.accepting ≡ true
      → s.pending ≡ false
      → ServerStep s (ok (record s { cancelled = true; accepting = false }))
  -- a client's `listen` returns
  leaves :
      {s : Running} {n : ℕ}
      → s.clients ≡ suc n
      → ServerStep s (wg_done s.counter >>= λ c. ok (record s { clients = n; counter = c }))
  -- `sv.Wait()` returns
  waits : {s : Running} → s.counter ≡ 0 → ServerStep s (ok (record s { waited = true }))

-- The states that the server comes to.
pub data Reachable : Running → Type 0 where
  here : Reachable listened
  after : {s s' : Running} → Reachable s → ServerStep s (ok s') → Reachable s'
