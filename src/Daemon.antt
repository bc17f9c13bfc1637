-- ===== src/Daemon.antt =====
-- The commands start, stop, restart, kill and status of daemon_unix.go, and the dispatch of
-- nvdaRemoteServer.go. What the system answers is a parameter; the files, the signals that were sent,
-- the processes that were started and the output are the state.
pub mod Sending
pub mod Signals
pub mod Waiting
pub mod Pidfiles
use nvda_remote_server.Common.{
  ℕ, zero, suc, ◌+◌, ◌≡◌, Bool, true, false, not, ◌&&◌, ◌||◌, Option, none, some, List, [], ◌∷◌,
  ◌++◌, Bytes, codes, bytes_eq, ◌==◌, if◌then◌else◌, drop, length,
}
use nvda_remote_server.Common.Int.{ℤ, pos, int_leb}
use nvda_remote_server.Json.Decimal.{append_int}
use nvda_remote_server.Strings.{has_prefix}
use nvda_remote_server.Strings.Space.{trim_space}
use nvda_remote_server.Config.Atoi.{atoi}
use nvda_remote_server.Config.File.{Fallible, failed, returned}

pub data Signal : Type 0 where
  sigterm sigkill : Signal

-- `alive n pid` answers the n-th `Kill(pid, 0)`: it may depend on all that happened before.
pub record Host : Type 0 where
  pub default_pid_file : Bytes
  pub alive : ℕ → ℤ → Bool
  pub executable : Fallible Bytes
  -- `cmd.Start`, with the new process's id
  pub spawns : Fallible ℤ
  -- whether os.WriteFile and os.Remove succeed
  pub writable : Bytes → Bool
  pub removable : Bytes → Bool

pub record Console : Type 0 where
  pub files : Bytes → Option Bytes
  pub probes : ℕ
  pub signals : List (Signal × ℤ)
  pub started : List (List Bytes)
  pub output : Bytes
  pub errors : Bytes

abbrev pub println : Bytes → Console → Console
println text s = record s { output = s.output ++ (text ++ codes "\n") }

abbrev pub eprintln : Bytes → Console → Console
eprintln text s = record s { errors = s.errors ++ (text ++ codes "\n") }

-- "… with pid %d<end>"
abbrev pub with_pid : Bytes → ℤ → Bytes → Bytes
with_pid text pid end = text ++ (append_int [] pid ++ end)

-- syscall.Kill(pid, sig)
unfoldable pub send_signal : Signal → ℤ → Console → Console
send_signal sig pid s = record s { signals = s.signals ++ ((sig, pid) ∷ []) }

-- args == "-pidfile" or one with its value
abbrev pub pidfile_flag : Bytes
pidfile_flag = codes "-pidfile"

abbrev pub pidfile_equals : Bytes
pidfile_equals = codes "-pidfile="

-- The loop of `findPidFile`, and what it returns at its end.
unfoldable pub find_pid_file : Bytes → List Bytes → Bytes
find_pid_file default [] = default
find_pid_file default (a ∷ []) =
    if has_prefix a pidfile_equals then drop (length pidfile_equals) a else default
find_pid_file default (a ∷ b ∷ args) =
    let rest = find_pid_file default (b ∷ args) in
    if a == pidfile_flag
    then b
    else if has_prefix a pidfile_equals
    then drop (length pidfile_equals) a
    else rest

unfoldable pub read_pid : Bytes → Console → Option ℤ
read_pid path s = elim (s.files path) [ none ↦ none | some d ↦ atoi (trim_space d) ]

-- os.Remove(path)
unfoldable pub remove_file : Host → Bytes → Console → Console
remove_file host path s =
    if host.removable path
    then record s { files = λ p. if p == path then none else s.files p }
    else s

-- os.WriteFile(path, data)
unfoldable pub write_file : Host → Bytes → Bytes → Console → Console
write_file host path d s =
    if host.writable path
    then record s { files = λ p. if p == path then some d else s.files p }
    else s

unfoldable pub pid_alive : Host → ℤ → Console → Bool × Console
pid_alive host pid s =
    if int_leb pid (pos 0)
    then (false, s)
    else (host.alive s.probes pid, record s { probes = suc s.probes })

-- The pid, if it can be read, and whether its process is alive.
unfoldable pub daemon_status : Host → Bytes → Console → (ℤ × Bool) × Console
daemon_status host pidfile s = elim (read_pid pidfile s) [
  | none ↦ ((pos 0, false), s)
  | some pid ↦ let (running, s') = pid_alive host pid s in ((pid, running), s')
]

abbrev pub max_attempts : ℕ
max_attempts = 50

-- The loop of `waitForProcess` with the attempts that are left. It sleeps after each one.
unfoldable pub wait_loop : Host → ℤ → ℕ → Console → Bool × Console
wait_loop host pid zero s = (false, s)
wait_loop host pid (suc n) s =
    let (running, s') = pid_alive host pid s in
    let rest = wait_loop host pid n s' in if not running then (true, s') else rest

unfoldable pub wait_for_process : Host → ℤ → Console → Bool × Console
wait_for_process host pid s = wait_loop host pid max_attempts s

-- a == "-pidfile" || strings.HasPrefix(a, "-pidfile=")
unfoldable pub has_pid_file : List Bytes → Bool
has_pid_file [] = false
has_pid_file (a ∷ args) = (a == pidfile_flag || has_prefix a pidfile_equals) || has_pid_file args

unfoldable pub child_args : List Bytes → Bytes → List Bytes
unfolding has_pid_file
child_args rest pidfile = if has_pid_file rest then rest else rest ++ (pidfile_flag ∷ pidfile ∷ [])

-- With the code that the process exits with.
unfoldable pub daemon_start : Host → List Bytes → Bytes → Console → ℕ × Console
daemon_start host rest pidfile s = elim host.executable [
  | failed e ↦ (1, eprintln (codes "Unable to determine executable path: " ++ e) s)
  | returned exe ↦ (elim host.spawns [
    | failed e ↦ (1, eprintln (codes "Unable to start the server: " ++ e) s)
    | returned pid ↦
        let spawned = record s { started = s.started ++ ((exe ∷ child_args rest pidfile) ∷ []) } in
        let written = write_file host pidfile (append_int [] pid) spawned in
        (0, println (with_pid (codes "Server started with pid ") pid (codes ".")) written)
  ])
]

-- The cases "stop" and "kill", which differ in their signal and their texts.
unfoldable pub end_process :
    Signal → Bytes → Bytes → Bytes → Host → Bytes → ℤ → Bool → Console → ℕ × Console
end_process sig doing did failing host pidfile pid running s =
    if not running
    then (0, println (codes "Server is not running.") s)
    else (let asked = send_signal sig pid (println (with_pid doing pid (codes "...")) s) in
        let (stopped, s') = wait_for_process host pid asked in
        if stopped
        then (0, remove_file host pidfile (println did s'))
        else (1, eprintln failing s'))

-- The case "restart" for a server that runs: it is killed if it does not stop.
unfoldable pub stop_or_kill : Host → Bytes → ℤ → Console → Console
stop_or_kill host pidfile pid s =
    let asked =
      send_signal sigterm pid
        (println (with_pid (codes "Stopping server with pid ") pid (codes "...")) s) in
    let (stopped, s') = wait_for_process host pid asked in
    remove_file host pidfile (if stopped then s' else send_signal sigkill pid s')

pub data DaemonCommand : Type 0 where
  start_command stop_command restart_command kill_command status_command : DaemonCommand

-- `daemonCmd` after the status is known.
unfoldable pub daemon_case :
    Host → DaemonCommand → List Bytes → Bytes → ℤ → Bool → Console → ℕ × Console
daemon_case host status_command rest pidfile pid running s = (
  0,
  println
      (if running
        then with_pid (codes "Server is running with pid ") pid (codes ".")
        else codes "Server is not running.")
      s,
)
daemon_case host stop_command rest pidfile pid running s =
    end_process sigterm (codes "Stopping server with pid ") (codes "Server stopped.")
      (codes "Server did not stop in time. Use the kill command to force it.") host pidfile pid
      running s
daemon_case host kill_command rest pidfile pid running s =
    end_process sigkill (codes "Killing server with pid ") (codes "Server killed.")
      (codes "Server could not be killed.") host pidfile pid running s
daemon_case host restart_command rest pidfile pid running s =
    daemon_start host rest pidfile (if running then stop_or_kill host pidfile pid s else s)
daemon_case host start_command rest pidfile pid running s =
    if running
    then (1, eprintln (with_pid (codes "Server is already running with pid ") pid (codes ".")) s)
    else daemon_start host rest pidfile s

unfoldable pub daemon_cmd : Host → DaemonCommand → List Bytes → Console → ℕ × Console
daemon_cmd host cmd rest s =
    let pidfile = find_pid_file host.default_pid_file rest in
    let (found, s') = daemon_status host pidfile s in
    daemon_case host cmd rest pidfile found.0 found.1 s'

-- The cases of `args` that call `daemonCmd`.
unfoldable pub daemon_command : Bytes → Option DaemonCommand
daemon_command name =
    if name == codes "start"
    then some start_command
    else if name == codes "stop"
    then some stop_command
    else if name == codes "restart"
    then some restart_command
    else if name == codes "kill"
    then some kill_command
    else if name == codes "status"
    then some status_command
    else none

-- `args` of nvdaRemoteServer.go: with the exit code, or `none` if the server is to start.
unfoldable pub args : Host → Bytes → Bytes → List Bytes → Console → Option (ℕ × Console)
args host version build_info [] s = none
args host version build_info (program ∷ []) s = none
args host version build_info (program ∷ name ∷ rest) s =
    if name == codes "version"
    then some (0, println version s)
    else if name == codes "buildinfo"
    then some (0, println build_info s)
    else elim (daemon_command name) [ none ↦ none | some cmd ↦ some (daemon_cmd host cmd rest s) ]
