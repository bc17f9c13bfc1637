-- ===== src/Process.antt =====
-- The life of the process: `main` of nvdaRemoteServer.go behind `args`, `Start` of server/configure.go,
-- `Shutdown` of server/shutdown.go and the pid file (server/pid.go, server/file.go). What the file
-- system and the listeners answer is a parameter.
pub mod Outcomes
use nvda_remote_server.Common.{
  ℕ, zero, suc, ◌+◌, Bool, true, false, Option, none, some, List, [], ◌∷◌, Bytes, codes, bytes_eq,
  ◌==◌, nat_beq, if◌then◌else◌, length, drop, Outcome, ok, panic,
}
use nvda_remote_server.Strings.{has_prefix}
use nvda_remote_server.Config.File.{Fallible, failed, returned}

-- `place` is the file that a path names, and `left` what a failed os.WriteFile leaves of a file: it opens
-- with O_TRUNC and then writes, so this can be the file as it was, or nothing, or a part of the text.
-- `log_opens` is whether os.OpenFile opens the log file.
pub record Disk : Type 0 where
  pub abs : Bytes → Fallible Bytes
  pub eval_symlinks : Bytes → Fallible Bytes
  pub writable : Bytes → Bool
  pub removable : Bytes → Bool
  pub left : Bytes → Option Bytes → Option Bytes
  pub log_opens : Bytes → Bool
  pub place : Bytes → Bytes

-- `cleanPath` with the separator `/`: strings.ReplaceAll(p, "//", "/")
unfoldable pub clean_path : Bytes → Bytes
clean_path [] = []
clean_path (c ∷ []) = c ∷ []
clean_path (c ∷ d ∷ p) =
    let behind = clean_path p in
    let next = clean_path (d ∷ p) in if (c ∷ d ∷ []) == codes "//" then b'/' ∷ behind else c ∷ next

unfoldable pub full_path : Disk → Bytes → Bytes
full_path disk path = elim (disk.abs path) [
  | failed e ↦ clean_path path
  | returned absolute ↦ (elim (disk.eval_symlinks absolute) [
    | failed e ↦ clean_path absolute
    | returned resolved ↦ clean_path resolved
  ])
]

abbrev pub Files : Type 0
Files = Bytes → Option Bytes

-- The files, and the variable `pidfile`.
pub record Process : Type 0 where
  pub files : Files
  pub pidfile : Bytes

-- `file_rewrite`: whether it succeeds, and the files behind it.
unfoldable pub file_rewrite : Disk → Bytes → Bytes → Files → Bool × Files
file_rewrite disk file text files =
    let target = full_path disk file in
    (
      disk.writable target,
      λ f.
          if f == disk.place target
          then (if disk.writable target then some text else disk.left text (files f))
          else files f,
    )

unfoldable pub pidfile_set : Disk → Bytes → Process → Process
unfolding file_rewrite
pidfile_set disk pid_str p =
    if p.pidfile == []
    then p
    else let (success, files) = file_rewrite disk p.pidfile pid_str p.files in
      record p { files = files; pidfile = if success then p.pidfile else [] }

unfoldable pub pidfile_clear : Disk → Process → Process
pidfile_clear disk p = if p.pidfile == [] then p else record p {
  pidfile = [];
  files =
      if disk.removable p.pidfile
      then (λ f. if f == disk.place p.pidfile then none else p.files f)
      else p.files;
}

-- What `log_init` does to the files: it creates the log file if there is none. The messages that the
-- process then appends to it are left out.
unfoldable pub open_log : Disk → Bytes → Files → Files
open_log disk logfile files =
    if logfile == []
    then files
    else let target = full_path disk logfile in
      if disk.log_opens target
      then (λ f. if f == disk.place target then created (files f) else files f)
      else files
  where
    created : Option Bytes → Option Bytes
    created none = some []
    created (some text) = some text

-- How the process ends: with its exit code, with the servers it started, and with its state while it
-- serves and at the end.
pub record Ended (Server : Type 0) : Type 0 where
  pub code : ℕ
  pub servers : List (Option Server)
  pub serving : Process
  pub final : Process

module _ {Server : Type 0} where
  -- `Start`: the servers that listen stay, and their number.
  unfoldable pub start_each : (Server → Bool) → List Server → List (Option Server) × ℕ
  start_each listens [] = ([], 0)
  start_each listens (s ∷ servers) =
      let (started, num) = start_each listens servers in
      if listens s then (some s ∷ started, suc num) else (none ∷ started, num)

  unfoldable pub start_servers : (Server → Bool) → List Server → List (Option Server) × ℕ
  start_servers listens servers =
      let (started, num) = start_each listens servers in
      if nat_beq num 0 then ([], 0) else (started, num)

  -- `main` with the log file that `Configure` opens and with how it ends behind that: with a result, or
  -- with a panic that ends the process. It serves from `PidfileSet` until `wait` returns.
  unfoldable pub main :
      Disk
      → Bytes
      → Bytes
      → Outcome (Fallible (List Server))
      → (Server → Bool)
      → Process
      → Ended Server
  unfolding open_log pidfile_set pidfile_clear start_servers
  main disk pid_str logfile configured listens p =
      let logging = record p { files = open_log disk logfile p.files } in
      elim configured [
        | panic ↦ record { code = 2; servers = []; serving = logging; final = logging }
        | ok (failed e) ↦ record { code = 1; servers = []; serving = logging; final = logging }
        | ok (returned made) ↦
            let (servers, num) = start_servers listens made in
            let serving = pidfile_set disk pid_str logging in
            if nat_beq num 0
            then record { code = 1; servers = servers; serving = logging; final = logging }
            else record {
              code = 0;
              servers = servers;
              serving = serving;
              final = pidfile_clear disk serving;
            }
      ]
