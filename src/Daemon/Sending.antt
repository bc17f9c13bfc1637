-- ===== src/Daemon/Sending.antt =====
-- What the operations of daemon_unix.go send to processes.
use nvda_remote_server.Common.{
  ℕ, zero, suc, ◌≡◌, inl, inr, refl, sym, ap, ◌∙◌, false, List, [], ◌∷◌, ◌++◌, Bytes, bytes_eq, All,
  arith, append-nil, append_assoc,
}
use nvda_remote_server.Common.Int.{ℤ, pos, int_leb}
use nvda_remote_server.Config.Ready.{Fallible-cases}
use nvda_remote_server.Daemon.{
  Signal, Host, Console, send_signal, remove_file, write_file, pid_alive, wait_loop, daemon_start,
}

-- The signals of `s'` are those of `s` and further ones to the process `pid`, which is positive.
pub record SignalsOnly (pid : ℤ) (s s' : Console) : Type 0 where
  pub sent : List (Signal × ℤ)
  pub further : s'.signals ≡ s.signals ++ sent
  pub to_pid : All (λ (p : Signal × ℤ). (p.1 ≡ pid) × (int_leb pid (pos 0) ≡ false)) sent

pub SignalsOnly-none : (pid : ℤ) (s s' : Console) → s'.signals ≡ s.signals → SignalsOnly pid s s'
SignalsOnly-none pid s s' e = record {
  sent = [];
  further = e ∙ sym (append-nil s.signals);
  to_pid = tt;
}

pub SignalsOnly-trans :
    (pid : ℤ) (s t u : Console) → SignalsOnly pid s t → SignalsOnly pid t u → SignalsOnly pid s u
SignalsOnly-trans pid s t u a b = record {
  sent = a.sent ++ b.sent;
  further = b.further ∙ ap (λ x. x ++ b.sent) a.further ∙ append_assoc s.signals a.sent b.sent;
  to_pid = All-both a.sent b.sent a.to_pid b.to_pid;
}
  where
    P : Signal × ℤ → Type 0
    P p = (p.1 ≡ pid) × (int_leb pid (pos 0) ≡ false)

    All-both : (a b : List (Signal × ℤ)) → All P a → All P b → All P (a ++ b)
    All-both [] b h k = k
    All-both (p ∷ a) b (x, h) k = (x, All-both a b h k)

pub send_signal-SignalsOnly :
    (sig : Signal) (pid : ℤ) (s t : Console)
    → t.signals ≡ s.signals
    → int_leb pid (pos 0) ≡ false
    → SignalsOnly pid s (send_signal sig pid t)
unfolding send_signal
send_signal-SignalsOnly sig pid s t e h = record {
  sent = (sig, pid) ∷ [];
  further = ap (λ x. x ++ ((sig, pid) ∷ [])) e;
  to_pid = ((refl, h), tt);
}

pub pid_alive-signals :
    (host : Host) (pid : ℤ) (s : Console) → (pid_alive host pid s).1.signals ≡ s.signals
unfolding pid_alive
pid_alive-signals host pid s = ground arith

pub wait_loop-signals :
    (host : Host) (pid : ℤ) (n : ℕ) (s : Console) → (wait_loop host pid n s).1.signals ≡ s.signals
unfolding wait_loop
wait_loop-signals host pid zero s = refl
wait_loop-signals host pid (suc n) s =
    ground
      (arith, pid_alive-signals host pid s, wait_loop-signals host pid n (pid_alive host pid s).1)

pub remove_file-signals :
    (host : Host) (path : Bytes) (s : Console) → (remove_file host path s).signals ≡ s.signals
unfolding remove_file
remove_file-signals host path s = ground arith

pub write_file-signals :
    (host : Host) (path d : Bytes) (s : Console) → (write_file host path d s).signals ≡ s.signals
unfolding write_file
write_file-signals host path d s = ground arith

pub daemon_start-signals :
    (host : Host) (rest : List Bytes) (pidfile : Bytes) (s : Console)
    → (daemon_start host rest pidfile s).1.signals ≡ s.signals
unfolding daemon_start
daemon_start-signals host rest pidfile s = elim (Fallible-cases host.executable) [
  | inl (e, f) ↦ rw (f, daemon_start) refl
  | inr (exe, f) ↦ (elim (Fallible-cases host.spawns) [
    | inl (e, g) ↦ rw (f, g, daemon_start) refl
    | inr (pid, g) ↦ rw (f, g, daemon_start) (write_file-signals host pidfile _ _)
  ])
]
