-- ===== src/Daemon/Pidfiles.antt =====
-- The pid file of a server that daemon_unix.go starts: the command, its child and later commands agree
-- on it.
use nvda_remote_server.Common.{
  suc, ◌≡◌, refl, ap, ◌∙◌, Bool, true, false, ◌||◌, some, List, [], ◌∷◌, ◌++◌, Bytes, bytes_eq,
  bytes_beq, bytes_beq_iff, ◌==◌, All, Bool-cases, inl, inr, arith,
}
use nvda_remote_server.Common.Int.{ℤ, pos, negsuc}
use nvda_remote_server.Json.Decimal.{append_int, digits, IsDigit, digits-IsDigit}
use nvda_remote_server.Strings.{has_prefix}
use nvda_remote_server.Strings.Space.{IsVisible}
use nvda_remote_server.Strings.Trimming.{trim_space_keeps}
use nvda_remote_server.Config.Atoi.{atoi}
use nvda_remote_server.Config.Numbers.{IsInt64, atoi-append_int}
use nvda_remote_server.Config.File.{returned}
use nvda_remote_server.Daemon.{
  Host, Console, find_pid_file, pidfile_flag, pidfile_equals, has_pid_file, child_args, read_pid,
  write_file, daemon_start,
}

digits-IsVisible : (s : Bytes) → All IsDigit s → All IsVisible s
digits-IsVisible [] h = tt
digits-IsVisible (c ∷ s) ((low, high), h) =
    ((omega (arith, low), omega (arith, high)), digits-IsVisible s h)

append_int-IsVisible : (n : ℤ) → All IsVisible (append_int [] n)
unfolding append_int
append_int-IsVisible (pos n) = digits-IsVisible (digits n) (digits-IsDigit n)
append_int-IsVisible (negsuc n) =
    ((omega arith, omega arith), digits-IsVisible (digits (suc n)) (digits-IsDigit (suc n)))

all_false : (x y z : Bool) → ((x || y) || z) ≡ false → (x ≡ false) × (y ≡ false) × (z ≡ false)
all_false false false z h = (refl, refl, h)
all_false false true z h = cc
all_false true y z h = cc

module _ (default : Bytes) where
  -- An argument that is no flag of a pid file is passed over.
  pub find_pid_file-skip :
      (a : Bytes) (args : List Bytes)
      → (a == pidfile_flag) ≡ false
      → has_prefix a pidfile_equals ≡ false
      → find_pid_file default (a ∷ args) ≡ find_pid_file default args
  unfolding find_pid_file
  find_pid_file-skip a [] e f = rw (f, find_pid_file) refl
  find_pid_file-skip a (b ∷ args) e f = rw (e, f, find_pid_file) refl

  flag_found : (pidfile : Bytes) → find_pid_file default (pidfile_flag ∷ pidfile ∷ []) ≡ pidfile
  unfolding find_pid_file bytes_beq
  flag_found pidfile = refl

  -- A further flag is found behind arguments that hold none.
  find_pid_file-append :
      (pidfile : Bytes) (rest : List Bytes)
      → has_pid_file rest ≡ false
      → find_pid_file default (rest ++ (pidfile_flag ∷ pidfile ∷ [])) ≡ pidfile
  unfolding has_pid_file
  find_pid_file-append pidfile [] h = flag_found pidfile
  find_pid_file-append pidfile (a ∷ rest) h =
      let (e, f, g) =
        all_false (a == pidfile_flag) (has_prefix a pidfile_equals) (has_pid_file rest) h in
      find_pid_file-skip a (rest ++ (pidfile_flag ∷ pidfile ∷ [])) e f
      ∙ find_pid_file-append pidfile rest g

-- The child is given arguments in which the same pid file is found.
find_pid_file-child_args :
    (default : Bytes) (rest : List Bytes)
    → find_pid_file default (child_args rest (find_pid_file default rest))
      ≡ find_pid_file default rest
unfolding child_args
find_pid_file-child_args default rest = elim (Bool-cases (has_pid_file rest)) [
  | inl e ↦ rw (e, child_args) refl
  | inr e ↦ rw (e, child_args) (find_pid_file-append default (find_pid_file default rest) rest e)
]

read_pid-write_file :
    (host : Host) (path : Bytes) (pid : ℤ) (s : Console)
    → host.writable path ≡ true
    → IsInt64 pid
    → read_pid path (write_file host path (append_int [] pid) s) ≡ some pid
unfolding read_pid
read_pid-write_file host path pid s w h =
    rw (written, read_pid)
      (ap atoi (trim_space_keeps (append_int [] pid) (append_int-IsVisible pid))
        ∙ atoi-append_int pid h)
  where
    written : (write_file host path (append_int [] pid) s).files path ≡ some (append_int [] pid)
    written = unfold write_file in ground (arith, w, bytes_beq_iff path path)

-- If the system can start a process, whose number is in the range of a 64-bit `int`, and write the pid
-- file, then `daemonStart` exits with 0 and starts one process, from whose arguments `findPidFile` gets
-- the same pid file as from the command's own, whatever those are; and what is then read from that file
-- is the number of the process.
pub daemon_start-read_pid :
    (host : Host) (rest : List Bytes) (s : Console) (exe : Bytes) (pid : ℤ)
    → host.executable ≡ returned exe
    → host.spawns ≡ returned pid
    → host.writable (find_pid_file host.default_pid_file rest) ≡ true
    → IsInt64 pid
    → ((daemon_start host rest (find_pid_file host.default_pid_file rest) s).0 ≡ 0)
      × ((args : List Bytes) × ((daemon_start host rest
              (find_pid_file host.default_pid_file rest)
              s).1.started
            ≡ s.started ++ ((exe ∷ args) ∷ []))
          × (find_pid_file host.default_pid_file args ≡ find_pid_file host.default_pid_file rest))
      × (read_pid
            (find_pid_file host.default_pid_file rest)
            (daemon_start host rest (find_pid_file host.default_pid_file rest) s).1
          ≡ some pid)
unfolding daemon_start read_pid
daemon_start-read_pid host rest s exe pid e f w h =
    rw (e, f, daemon_start)
      (
        refl,
        (
          child_args rest pidfile,
          write_file-started spawned,
          find_pid_file-child_args host.default_pid_file rest,
        ),
        read_pid-write_file host pidfile pid spawned w h,
      )
  where
    pidfile : Bytes
    pidfile = find_pid_file host.default_pid_file rest

    spawned : Console
    spawned = record s { started = s.started ++ ((exe ∷ child_args rest pidfile) ∷ []) }

    write_file-started :
        (t : Console) → (write_file host pidfile (append_int [] pid) t).started ≡ t.started
    write_file-started t = unfold write_file in ground arith
