-- ===== src/Process/Outcomes.antt =====
-- What a run of the process does to its pid file (`main`, server/pid.go).
use nvda_remote_server.Common.{
  ℕ, ◌≡◌, ◌≢◌, ◌⊎◌, Bool, true, false, none, some, List, [], Bytes, bytes_eq, ◌==◌, if◌then◌else◌,
  All, Option, Outcome, ok, panic,
}
use nvda_remote_server.Config.File.{Fallible, failed, returned}
use nvda_remote_server.Process.{Disk, Process, full_path}

module _ {Server : Type 0} (listens : Server → Bool) where
  -- No server can listen.
  abbrev pub Refused : List Server → Type 0
  Refused servers = All (λ s. listens s ≡ false) servers

-- How the process ends, by its exit code and what a file, which held `before`, holds while the process
-- serves and at the end.
pub data Ends {Server : Type 0} (configured : Outcome (Fallible (List Server)))
    (listens : Server → Bool) (Served : Option Bytes → Option Bytes → Type 0)
    (before : Option Bytes) : ℕ → Option Bytes → Option Bytes → Type 0 where
  panicked : configured ≡ panic → Ends configured listens Served before 2 before before
  not_configured :
      (e : Bytes)
      → configured ≡ ok (failed e)
      → Ends configured listens Served before 1 before before
  none_listened :
      (made : List Server)
      → configured ≡ ok (returned made)
      → Refused listens made
      → Ends configured listens Served before 1 before before
  served :
      (made : List Server) (serving final : Option Bytes)
      → configured ≡ ok (returned made)
      → (Refused listens made → ⊥)
      → Served serving final
      → Ends configured listens Served before 0 serving final

module _ (disk : Disk) (pid_str : Bytes) where
  -- What serving does to a file `f`, which held `before`.
  pub data Serves (pidfile f : Bytes) (before : Option Bytes)
      : Option Bytes → Option Bytes → Type 0 where
    written :
        pidfile ≢ []
        → f ≡ disk.place pidfile
        → disk.writable (full_path disk pidfile) ≡ true
        → Serves pidfile f before
            (some pid_str)
            (if disk.removable pidfile then none else some pid_str)
    not_written :
        pidfile ≢ []
        → f ≡ disk.place pidfile
        → disk.writable (full_path disk pidfile) ≡ false
        → Serves pidfile f before (disk.left pid_str before) (disk.left pid_str before)
    left_alone : (pidfile ≡ []) ⊎ (f ≢ disk.place pidfile) → Serves pidfile f before before before

  -- The file is not the log file.
  abbrev pub IsOther : Bytes → Bytes → Type 0
  IsOther logfile f = (logfile ≡ []) ⊎ (f ≢ disk.place (full_path disk logfile))

  -- What a file holds behind `file_rewrite`.
  rewritten : Process → Bytes → Option Bytes
  rewritten p f =
      if f == disk.place (full_path disk p.pidfile)
      then (if disk.writable (full_path disk p.pidfile)
          then some pid_str
          else disk.left pid_str (p.files f))
      else p.files f
