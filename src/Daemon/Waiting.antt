-- ===== src/Daemon/Waiting.antt =====
-- `waitForProcess` of daemon_unix.go, and what the commands stop and kill come to.
use nvda_remote_server.Common.{
  Option, ℕ, zero, suc, ◌+◌, ◌<◌, ◌≡◌, ◌≢◌, ◌↔◌, ◌⊎◌, inl, inr, refl, sym, ap, ◌∙◌, subst, Bool,
  true, false, not, none, some, List, Bytes, codes, bytes_eq, bytes_beq_iff, if◌then◌else◌,
  Bool-cases, arith, either_branch,
}
use nvda_remote_server.Common.Int.{ℤ, pos, int_leb}
use nvda_remote_server.Daemon.{
  Signal, sigterm, sigkill, Host, Console, println, eprintln, with_pid, send_signal, find_pid_file,
  read_pid, remove_file, pid_alive, max_attempts, wait_loop, wait_for_process, end_process,
  DaemonCommand, start_command, stop_command, restart_command, kill_command, status_command,
  daemon_case, daemon_cmd,
}
use nvda_remote_server.Daemon.Signals.{daemon_cmd_read, pid_alive-positive}

module _ (host : Host) (pid : ℤ) where
  -- One of the next `n` probes of the process finds it dead.
  abbrev pub DiesWithin : ℕ → ℕ → Type 0
  DiesWithin n probes = (i : ℕ) × (i < n) × (host.alive (probes + i) pid ≡ false)

  pid_alive_lem :
      (s : Console)
      → int_leb pid (pos 0) ≡ false
      → pid_alive host pid s ≡ (host.alive s.probes pid, record s { probes = suc s.probes })
  unfolding pid_alive
  pid_alive_lem s h = rw (h, pid_alive) refl

  wait_loop-zero : (s : Console) → (wait_loop host pid 0 s).0 ≡ false
  unfolding wait_loop
  wait_loop-zero s = refl

  wait_loop-suc :
      (n : ℕ) (s : Console)
      → int_leb pid (pos 0) ≡ false
      → wait_loop host pid (suc n) s ≡ (
          if not (host.alive s.probes pid)
          then (true, record s { probes = suc s.probes })
          else wait_loop host pid n (record s { probes = suc s.probes }))
  unfolding wait_loop
  wait_loop-suc n s h = rw (pid_alive_lem s h, wait_loop) refl

  same_probe : (a b : ℕ) → a ≡ b → host.alive a pid ≡ host.alive b pid
  same_probe a b e = ap (λ k. host.alive k pid) e

  dies_now : (n p : ℕ) → host.alive p pid ≡ false → DiesWithin (suc n) p
  dies_now n p e = (0, omega arith, same_probe (p + 0) p (omega arith) ∙ e)

  dies_later : (n p : ℕ) → DiesWithin n (suc p) → DiesWithin (suc n) p
  dies_later n p (i, low, e) =
      (suc i, omega (arith, low), same_probe (p + suc i) (suc p + i) (omega arith) ∙ e)

  dies_not_now : (n p : ℕ) → host.alive p pid ≡ true → DiesWithin (suc n) p → DiesWithin n (suc p)
  dies_not_now n p f (zero, low, e) =
      absurd (clash (sym f ∙ same_probe p (p + 0) (omega arith) ∙ e))
    where
      clash : true ≡ false → ⊥
      clash g = cc
  dies_not_now n p f (suc i, low, e) =
      (i, omega (arith, low), same_probe (suc p + i) (p + suc i) (omega arith) ∙ e)

  wait_loop_iff :
      (n : ℕ) (s : Console)
      → int_leb pid (pos 0) ≡ false
      → ((wait_loop host pid n s).0 ≡ true) ↔ DiesWithin n s.probes
  wait_loop_iff zero s h =
      (λ e. clash (sym (wait_loop-zero s) ∙ e), λ (i, low, e). absurd (omega (arith, low)))
    where
      clash : {P : Type 0} → false ≡ true → P
      clash e = cc
  wait_loop_iff (suc n) s h = elim (Bool-cases (host.alive s.probes pid)) [
    | inr e ↦ (λ _. dies_now n s.probes e, λ _. rw (wait_loop-suc n s h, e) refl)
    | inl e ↦
        let (only, back) = wait_loop_iff n (record s { probes = suc s.probes }) h in
        let goes_on : wait_loop host pid (suc n) s
            ≡ wait_loop host pid n (record s { probes = suc s.probes }) =
          wait_loop-suc n s h ∙ (rw e refl) in
        (
          λ f. dies_later n s.probes (only (ap (λ (r : Bool × Console). r.0) (sym goes_on) ∙ f)),
          λ d. ap (λ (r : Bool × Console). r.0) goes_on ∙ back (dies_not_now n s.probes e d),
        )
  ]

  wait_loop-files : (n : ℕ) (s : Console) → (wait_loop host pid n s).1.files ≡ s.files
  unfolding wait_loop pid_alive
  wait_loop-files zero s = refl
  wait_loop-files (suc n) s = ground (arith, wait_loop-files n (pid_alive host pid s).1)

module _ (host : Host) (pidfile : Bytes) (pid : ℤ) (s : Console) where
  remove_file-files :
      (t : Console)
      → t.files ≡ s.files
      → (remove_file host pidfile t).files pidfile
        ≡ (if host.removable pidfile then none else s.files pidfile)
  unfolding remove_file
  remove_file-files t e =
      ground (arith, bytes_beq_iff pidfile pidfile, ap (λ (f : Bytes → Option Bytes). f pidfile) e)

  -- What a command that ends the process comes to: with 0 the process was found dead and the pid file is
  -- removed, and with 1 it was not and every file is as it was.
  abbrev pub IsEnded : ℕ × Console → Type 0
  IsEnded r =
      ((r.0 ≡ 0)
        × DiesWithin host pid max_attempts s.probes
        × (r.1.files pidfile ≡ (if host.removable pidfile then none else s.files pidfile)))
      ⊎ ((r.0 ≡ 1) × (DiesWithin host pid max_attempts s.probes → ⊥) × (r.1.files ≡ s.files))

  end_process-IsEnded :
      int_leb pid (pos 0) ≡ false
      → (sig : Signal) (doing did failing : Bytes)
      → IsEnded (end_process sig doing did failing host pidfile pid true s)
  unfolding end_process send_signal wait_for_process
  end_process-IsEnded above_zero sig doing did failing =
      either_branch {x = (0, remove_file host pidfile (println did waited.1))}
        {y = (1, eprintln failing waited.1)} IsEnded waited.0
        (λ e. inl (
          refl,
          (wait_loop_iff host pid max_attempts asked above_zero).0 e,
          remove_file-files (println did waited.1) (wait_loop-files host pid max_attempts asked),
        ))
        (λ e. inr (
          refl,
          (λ d. false_ne_true (sym e ∙ (wait_loop_iff host pid max_attempts asked above_zero).1 d)),
          wait_loop-files host pid max_attempts asked,
        ))
    where
      asked : Console
      asked = send_signal sig pid (println (with_pid doing pid (codes "...")) s)

      waited : Bool × Console
      waited = wait_loop host pid max_attempts asked

      false_ne_true : false ≢ true
      false_ne_true f = cc

-- The stop and kill commands of a server that runs under the number in its pid file: either they exit
-- with 0, one of the 50 probes after their signal finds the process dead, and the pid file is gone if
-- the system can remove it; or they exit with 1, none of the probes does, and every file is as it was.
pub daemon_cmd-IsEnded :
    (host : Host) (cmd : DaemonCommand) (rest : List Bytes) (s : Console) (pid : ℤ)
    → (cmd ≡ stop_command) ⊎ (cmd ≡ kill_command)
    → read_pid (find_pid_file host.default_pid_file rest) s ≡ some pid
    → (pid_alive host pid s).0 ≡ true
    → IsEnded host
        (find_pid_file host.default_pid_file rest)
        pid
        (pid_alive host pid s).1
        (daemon_cmd host cmd rest s)
unfolding daemon_case
daemon_cmd-IsEnded host cmd rest s pid which e alive =
    subst (IsEnded host pidfile pid t)
      (sym (
        daemon_cmd_read host cmd rest s pid e
        ∙ ap (λ b. daemon_case host cmd rest pidfile pid b t) alive))
      (by_command cmd which)
  where
    pidfile : Bytes
    pidfile = find_pid_file host.default_pid_file rest

    t : Console
    t = (pid_alive host pid s).1

    above_zero : int_leb pid (pos 0) ≡ false
    above_zero = pid_alive-positive host pid s alive

    by_command :
        (cmd : DaemonCommand)
        → (cmd ≡ stop_command) ⊎ (cmd ≡ kill_command)
        → IsEnded host pidfile pid t (daemon_case host cmd rest pidfile pid true t)
    by_command stop_command w = end_process-IsEnded host pidfile pid t above_zero sigterm _ _ _
    by_command kill_command w = end_process-IsEnded host pidfile pid t above_zero sigkill _ _ _
    by_command start_command (inl f) = cc
    by_command start_command (inr f) = cc
    by_command restart_command (inl f) = cc
    by_command restart_command (inr f) = cc
    by_command status_command (inl f) = cc
    by_command status_command (inr f) = cc
