-- ===== src/Examples/Processes.antt =====
-- A host with a running server, and what the theorems on the daemon commands say there.
use nvda_remote_server.Common.{
  ℕ, ◌≡◌, ◌⊎◌, inl, refl, true, none, some, List, [], ◌∷◌, ◌++◌, Bytes, codes, ltb, nat_beq, arith,
  bytes_beq, Outcome, ok, false,
}
use nvda_remote_server.Common.Int.{ℤ, pos, int_leb}
use nvda_remote_server.Strings.{has_prefix}
use nvda_remote_server.Strings.Space.{trim_space}
use nvda_remote_server.Config.Atoi.{atoi}
use nvda_remote_server.Config.File.{Fallible, failed, returned}
use nvda_remote_server.Process.{Disk, Process, Ended, clean_path, full_path, main, start_each}
use nvda_remote_server.Daemon.{
  Host, Console, find_pid_file, read_pid, pid_alive, stop_command, daemon_cmd, daemon_start,
}
use nvda_remote_server.Daemon.Sending.{SignalsOnly}
use nvda_remote_server.Daemon.Signals.{daemon_cmd-SignalsOnly}
use nvda_remote_server.Daemon.Waiting.{IsEnded, daemon_cmd-IsEnded}
use nvda_remote_server.Daemon.Pidfiles.{daemon_start-read_pid}

-- Every process dies before the fourth probe.
abbrev host : Host
host = record {
  default_pid_file = codes "/run/pid";
  alive = λ n pid. ltb n 3;
  executable = returned (codes "exe");
  spawns = returned (pos 42);
  writable = λ path. true;
  removable = λ path. true;
}

abbrev console : Console
console = record {
  files = λ path. some (codes " 41\n");
  probes = 0;
  signals = [];
  started = [];
  output = [];
  errors = [];
}

abbrev given : List Bytes
given = codes "-port" ∷ codes "6000" ∷ codes "-pidfile=/tmp/pid" ∷ []

running :
    (read_pid (find_pid_file host.default_pid_file given) console ≡ some (pos 41))
    × ((pid_alive host (pos 41) console).0 ≡ true)
unfolding read_pid pid_alive trim_space atoi int_leb has_prefix
running = (refl, refl)

daemon_cmd-SignalsOnly_example :
    ((read_pid (find_pid_file host.default_pid_file given) console ≡ none)
      × ((daemon_cmd host stop_command given console).1.signals ≡ console.signals))
    ⊎ ((pid : ℤ) × (read_pid (find_pid_file host.default_pid_file given) console ≡ some pid)
        × SignalsOnly pid console (daemon_cmd host stop_command given console).1)
daemon_cmd-SignalsOnly_example = daemon_cmd-SignalsOnly host stop_command given console

daemon_cmd-IsEnded_example :
    IsEnded host
      (find_pid_file host.default_pid_file given)
      (pos 41)
      (pid_alive host (pos 41) console).1
      (daemon_cmd host stop_command given console)
daemon_cmd-IsEnded_example =
    daemon_cmd-IsEnded host stop_command given console (pos 41) (inl refl) running.0 running.1

daemon_start-read_pid_example :
    ((daemon_start host given (find_pid_file host.default_pid_file given) console).0 ≡ 0)
    × ((args : List Bytes) × ((daemon_start host given
            (find_pid_file host.default_pid_file given)
            console).1.started
          ≡ console.started ++ ((codes "exe" ∷ args) ∷ []))
        × (find_pid_file host.default_pid_file args ≡ find_pid_file host.default_pid_file given))
    × (read_pid
          (find_pid_file host.default_pid_file given)
          (daemon_start host given (find_pid_file host.default_pid_file given) console).1
        ≡ some (pos 42))
daemon_start-read_pid_example =
    daemon_start-read_pid host given console (codes "exe") (pos 42) refl refl refl (omega arith)

-- Two dashes make a flag too, but `findPidFile` does not see it: the command looks at the default file.
two_dashes :
    find_pid_file host.default_pid_file (codes "--pidfile" ∷ codes "/tmp/pid" ∷ [])
    ≡ codes "/run/pid"
unfolding find_pid_file has_prefix bytes_beq
two_dashes = refl

abbrev disk : Disk
disk = record {
  abs = λ path. returned path;
  eval_symlinks = λ path. failed (codes "missing");
  writable = λ path. true;
  removable = λ path. true;
  left = λ text before. some [];
  log_opens = λ path. true;
  place = λ path. path;
}

abbrev process : Process
process = record { files = λ path. none; pidfile = codes "/run/pid" }

-- Two servers, of which the second can listen.
abbrev made_two : Outcome (Fallible (List ℕ))
made_two = ok (returned (1 ∷ 2 ∷ []))

abbrev log_file : Bytes
log_file = codes "/log"

abbrev ended : Ended ℕ
ended = main disk (codes "7") log_file made_two (nat_beq 2) process

-- While it serves, and at the end; and where the pid file cannot be written, which leaves it empty.
pid_file_held :
    (ended.serving.files process.pidfile ≡ some (codes "7"))
    × (ended.final.files process.pidfile ≡ none)
unfolding main full_path clean_path bytes_beq start_each
pid_file_held = (refl, refl)

pid_file_torn :
    (main
        (record disk { writable = λ path. false })
        (codes "7")
        log_file
        made_two
        (nat_beq 2)
        (record process { files = λ path. some (codes "6") })).final.files
      process.pidfile
    ≡ some []
unfolding main full_path clean_path bytes_beq start_each
pid_file_torn = refl

odd_slashes : clean_path (codes "a///b") ≡ codes "a//b"
unfolding clean_path bytes_beq
odd_slashes = refl
