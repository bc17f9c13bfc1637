-- ===== src/Daemon/Signals.antt =====
-- Which processes the commands of daemon_unix.go signal, and how long they wait.
use nvda_remote_server.Common.{
  ℕ, ◌≡◌, ◌⊎◌, inl, inr, refl, sym, ap, ◌∙◌, subst, true, false, none, some, List, Bytes, codes,
  bytes_eq, Bool-cases, Option-cases, arith, either_branch,
}
use nvda_remote_server.Common.Int.{ℤ, pos, int_leb}
use nvda_remote_server.Daemon.{
  Signal, sigterm, sigkill, Host, Console, println, eprintln, with_pid, send_signal, find_pid_file,
  read_pid, pid_alive, daemon_status, max_attempts, wait_for_process, end_process, stop_or_kill,
  DaemonCommand, start_command, stop_command, restart_command, kill_command, status_command,
  daemon_case, daemon_cmd,
}
use nvda_remote_server.Daemon.Sending.{
  SignalsOnly, SignalsOnly-none, SignalsOnly-trans, send_signal-SignalsOnly, pid_alive-signals,
  wait_loop-signals, remove_file-signals, daemon_start-signals,
}

module _ (host : Host) (pidfile : Bytes) (pid : ℤ) (s : Console)
    (positive : int_leb pid (pos 0) ≡ false) where
  waited-SignalsOnly :
      (sig : Signal) (text : Bytes)
      → SignalsOnly pid s (wait_for_process host pid (send_signal sig pid (println text s))).1
  unfolding wait_for_process
  waited-SignalsOnly sig text =
      SignalsOnly-trans pid s (send_signal sig pid (println text s)) _
        (send_signal-SignalsOnly sig pid s (println text s) refl positive)
        (SignalsOnly-none pid _ _ (wait_loop-signals host pid max_attempts _))

  end_process-SignalsOnly :
      (sig : Signal) (doing did failing : Bytes)
      → SignalsOnly pid s (end_process sig doing did failing host pidfile pid true s).1
  unfolding end_process
  end_process-SignalsOnly sig doing did failing =
      either_branch (λ (r : ℕ × Console). SignalsOnly pid s r.1)
        (wait_for_process host pid
          (send_signal sig pid (println (with_pid doing pid (codes "...")) s))).0
        (λ _.
          SignalsOnly-trans pid s _ _ (waited-SignalsOnly sig (with_pid doing pid (codes "...")))
            (SignalsOnly-none pid _ _ (remove_file-signals host pidfile _)))
        (λ _.
          SignalsOnly-trans pid s _ _ (waited-SignalsOnly sig (with_pid doing pid (codes "...")))
            (SignalsOnly-none pid _ (eprintln failing _) refl))

  stop_or_kill-SignalsOnly : SignalsOnly pid s (stop_or_kill host pidfile pid s)
  unfolding stop_or_kill
  stop_or_kill-SignalsOnly =
      SignalsOnly-trans pid s _ _
        (either_branch (SignalsOnly pid s) (wait_for_process host pid asked).0
          (λ _. waited-SignalsOnly sigterm stopping)
          (λ _.
            SignalsOnly-trans pid s _ _ (waited-SignalsOnly sigterm stopping)
              (send_signal-SignalsOnly sigkill pid _ _ refl positive)))
        (SignalsOnly-none pid _ _ (remove_file-signals host pidfile _))
    where
      stopping : Bytes
      stopping = with_pid (codes "Stopping server with pid ") pid (codes "...")

      asked : Console
      asked = send_signal sigterm pid (println stopping s)

module _ (host : Host) (rest : List Bytes) (pidfile : Bytes) (pid : ℤ) (s : Console) where
  daemon_case_idle :
      (cmd : DaemonCommand) → (daemon_case host cmd rest pidfile pid false s).1.signals ≡ s.signals
  unfolding daemon_case end_process
  daemon_case_idle status_command = refl
  daemon_case_idle stop_command = refl
  daemon_case_idle kill_command = refl
  daemon_case_idle restart_command = daemon_start-signals host rest pidfile s
  daemon_case_idle start_command = daemon_start-signals host rest pidfile s

  daemon_case_running :
      (cmd : DaemonCommand)
      → int_leb pid (pos 0) ≡ false
      → SignalsOnly pid s (daemon_case host cmd rest pidfile pid true s).1
  unfolding daemon_case
  daemon_case_running status_command h = SignalsOnly-none pid _ _ refl
  daemon_case_running stop_command h = end_process-SignalsOnly host pidfile pid s h sigterm _ _ _
  daemon_case_running kill_command h = end_process-SignalsOnly host pidfile pid s h sigkill _ _ _
  daemon_case_running restart_command h =
      SignalsOnly-trans pid s _ _ (stop_or_kill-SignalsOnly host pidfile pid s h)
        (SignalsOnly-none pid _ _ (daemon_start-signals host rest pidfile _))
  daemon_case_running start_command h = SignalsOnly-none pid _ _ refl

pub pid_alive-positive :
    (host : Host) (pid : ℤ) (s : Console)
    → (pid_alive host pid s).0 ≡ true
    → int_leb pid (pos 0) ≡ false
unfolding pid_alive
pid_alive-positive host pid s e = ground (arith, e)

module _ (host : Host) (cmd : DaemonCommand) (rest : List Bytes) (s : Console) where
  abbrev pub found_file : Bytes
  found_file = find_pid_file host.default_pid_file rest

  pub daemon_cmd_unread :
      read_pid found_file s ≡ none
      → daemon_cmd host cmd rest s ≡ daemon_case host cmd rest found_file (pos 0) false s
  unfolding daemon_cmd daemon_status
  daemon_cmd_unread e = rw (e, daemon_cmd, daemon_status) refl

  pub daemon_cmd_read :
      (pid : ℤ)
      → read_pid found_file s ≡ some pid
      → daemon_cmd host cmd rest s
        ≡ daemon_case host cmd rest found_file pid (pid_alive host pid s).0 (pid_alive host pid s).1
  unfolding daemon_cmd daemon_status
  daemon_cmd_read pid e = rw (e, daemon_cmd, daemon_status) refl

-- Whatever the command, the arguments, the files and the answers of the system are: if the pid file
-- cannot be read as a number then no signal is sent, and otherwise every signal goes to the process
-- with that number, and only if it is positive, so that none goes to a group of processes.
pub daemon_cmd-SignalsOnly :
    (host : Host) (cmd : DaemonCommand) (rest : List Bytes) (s : Console)
    → ((read_pid (find_pid_file host.default_pid_file rest) s ≡ none)
        × ((daemon_cmd host cmd rest s).1.signals ≡ s.signals))
      ⊎ ((pid : ℤ) × (read_pid (find_pid_file host.default_pid_file rest) s ≡ some pid)
          × SignalsOnly pid s (daemon_cmd host cmd rest s).1)
daemon_cmd-SignalsOnly host cmd rest s = elim (Option-cases (read_pid pidfile s)) [
  | inl e ↦ inl (
    e,
    ap (λ (r : ℕ × Console). r.1.signals) (daemon_cmd_unread host cmd rest s e)
        ∙ daemon_case_idle host rest pidfile (pos 0) s cmd,
  )
  | inr (pid, e) ↦ inr (
    pid,
    e,
    subst (λ (r : ℕ × Console). SignalsOnly pid s r.1) (sym (daemon_cmd_read host cmd rest s pid e))
        (by_status pid),
  )
]
  where
    pidfile : Bytes
    pidfile = find_pid_file host.default_pid_file rest

    by_status :
        (pid : ℤ)
        → SignalsOnly pid s
            (daemon_case host cmd rest pidfile pid
              (pid_alive host pid s).0
              (pid_alive host pid s).1).1
    by_status pid =
        SignalsOnly-trans pid s (pid_alive host pid s).1 _
          (SignalsOnly-none pid _ _ (pid_alive-signals host pid s))
          (elim (Bool-cases (pid_alive host pid s).0) [
            | inl f ↦
                subst
                  (λ b.
                    SignalsOnly pid (pid_alive host pid s).1
                      (daemon_case host cmd rest pidfile pid b (pid_alive host pid s).1).1)
                  (sym f)
                  (daemon_case_running host rest pidfile pid (pid_alive host pid s).1 cmd
                    (pid_alive-positive host pid s f))
            | inr f ↦
                subst
                  (λ b.
                    SignalsOnly pid (pid_alive host pid s).1
                      (daemon_case host cmd rest pidfile pid b (pid_alive host pid s).1).1)
                  (sym f)
                  (SignalsOnly-none pid _ _
                    (daemon_case_idle host rest pidfile pid (pid_alive host pid s).1 cmd))
          ])
