-- ===== src/Lifecycle/Shutdown.antt =====
-- The WaitGroup of server/connection.go counts the goroutines, and what `Wait` has waited for.
use nvda_remote_server.Common.{
  ℕ, suc, ◌+◌, ◌≤◌, ◌≡◌, ◌≢◌, refl, sym, ◌∙◌, subst, Bool, true, false, Outcome, ok, panic, ◌>>=◌,
  arith, if◌then◌else◌,
}
use nvda_remote_server.Lifecycle.{
  Running, wg_add, wg_done, listened, ServerStep, cancels, closes, stops, accepts, adds, fails,
  leaves, waits, Reachable, here, after,
}

abbrev pub one_if : Bool → ℕ
one_if b = if b then 1 else 0

pub record IsCounted (s : Running) : Type 0 where
  -- the counter is that of the goroutines
  pub counts : s.counter ≡ s.clients + one_if s.stopper
  -- the stopper closes the listener before it ends
  pub closed : s.stopper ≡ false → s.listening ≡ false
  -- after `Wait` at most the connection that was accepted before comes to be a client
  pub finished : s.waited ≡ true → s.stopper ≡ false
  pub late : s.waited ≡ true → s.clients + one_if s.pending ≤ 1

listened-IsCounted : IsCounted listened
unfolding listened wg_add
listened-IsCounted = record { counts = refl; closed = λ e. cc; finished = λ e. cc; late = λ e. cc }

-- What a step comes to, if it does not panic.
abbrev Counted : Outcome Running → Type 0
Counted o = (o ≢ panic) × ((s' : Running) → o ≡ ok s' → IsCounted s')

ok-Counted : (s : Running) → IsCounted s → Counted (ok s)
ok-Counted s v = ((λ e. cc), λ s' e. subst IsCounted (same s' e) v)
  where
    same : (s' : Running) → ok s ≡ ok s' → s ≡ s'
    same s' e = cc

done-Counted :
    (c n : ℕ) (f : ℕ → Running)
    → c ≡ suc n
    → IsCounted (f n)
    → Counted (wg_done c >>= λ n. ok (f n))
unfolding wg_done
done-Counted c n f e v =
    subst (λ (c : ℕ). Counted (wg_done c >>= λ n. ok (f n))) (sym e) (ok-Counted (f n) v)

step-Counted : (s : Running) (o : Outcome Running) → IsCounted s → ServerStep s o → Counted o
unfolding wg_add wg_done
step-Counted s _ v cancels =
    ok-Counted _
      (record { counts = v.counts; closed = v.closed; finished = v.finished; late = v.late })
step-Counted s _ v (closes a b) =
    ok-Counted _
      (record { counts = v.counts; closed = λ e. refl; finished = v.finished; late = v.late })
step-Counted s _ v (accepts a b c) = ok-Counted _ (record {
  counts = v.counts;
  closed = v.closed;
  finished = v.finished;
  late = λ e. absurd (true_ne_false (sym c ∙ v.closed (v.finished e)));
})
  where
    true_ne_false : true ≢ false
    true_ne_false e = cc
step-Counted s _ v (adds a) = ok-Counted _ (record {
  counts = ground (arith, v.counts);
  closed = v.closed;
  finished = v.finished;
  late = λ e. ground (arith, a, v.late e);
})
step-Counted s _ v (fails a b) =
    ok-Counted _
      (record { counts = v.counts; closed = v.closed; finished = v.finished; late = v.late })
step-Counted s _ v (waits a) = ok-Counted _ (record {
  counts = v.counts;
  closed = v.closed;
  finished = λ _. ground (arith, a, v.counts);
  late = λ e. ground (arith, a, v.counts);
})
step-Counted s _ v (stops a b) =
    done-Counted s.counter s.clients (λ n. record s { stopper = false; counter = n })
      (ground (arith, a, v.counts))
      (record { counts = omega arith; closed = λ _. b; finished = λ _. refl; late = v.late })
step-Counted s _ v (leaves {n = n} a) =
    done-Counted s.counter (n + one_if s.stopper) (λ c. record s { clients = n; counter = c })
      (ground (arith, a, v.counts))
      (record {
        counts = refl;
        closed = v.closed;
        finished = v.finished;
        late = λ e. ground (arith, a, v.late e);
      })

reached-IsCounted : (s : Running) → Reachable s → IsCounted s
reached-IsCounted _ here = listened-IsCounted
reached-IsCounted s' (after {s = s} r e) =
    (step-Counted s (ok s') (reached-IsCounted s r) e).1 s' refl

-- Whatever the order in which the goroutines of a server act: no `Done` makes the counter negative;
-- the counter is the number of clients and of the goroutine that stops the server, and once `Wait` has
-- returned, the listener is closed and there is at most one client, which is a connection that had been
-- accepted before.
pub step-IsCounted :
    (s : Running) (o : Outcome Running)
    → Reachable s
    → ServerStep s o
    → (o ≢ panic) × ((s' : Running) → o ≡ ok s' → IsCounted s')
step-IsCounted s o r e = step-Counted s o (reached-IsCounted s r) e
