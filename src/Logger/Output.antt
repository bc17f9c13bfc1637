-- ===== src/Logger/Output.antt =====
-- server/logger.go: where the log goes (`log_init`), and its end (`LogClose`). Opening a file is a
-- parameter, and what becomes of the text is left out.
use nvda_remote_server.Common.{
  Option, none, some, List, [], ◌∷◌, Bytes, bytes_eq, ◌==◌, if◌then◌else◌, ◌≡◌, refl, sym, ap, ◌⊎◌,
  inl, inr, bytes_beq_iff, either_branch,
}
use nvda_remote_server.Common.Int.{ℤ}
use nvda_remote_server.Config.File.{Fallible, failed, returned}
use nvda_remote_server.Logger.{to_slog_level}
use nvda_remote_server.Process.{Disk, full_path}

-- The variables `logLevel`, the file of `logger`'s handler behind os.Stdout, and `log_file`; with the
-- errors that were logged and the files that were closed. A file stands for its handle.
pub record Logging : Type 0 where
  pub log_level : ℤ
  pub handler_file : Option Bytes
  pub log_file : Option Bytes
  pub errors : List Bytes
  pub closed : List Bytes

unfoldable pub log_init_console : ℤ → Logging → Logging
unfolding to_slog_level
log_init_console loglevel l = record l { log_level = to_slog_level loglevel; handler_file = none }

-- `open_file` is os.OpenFile with its flags.
unfoldable pub log_init : Disk → (Bytes → Fallible Bytes) → ℤ → Bytes → Logging → Logging
unfolding log_init_console full_path
log_init disk open_file loglevel file l =
    if file == [] then log_init_console loglevel l else elim (open_file (full_path disk file)) [
      | failed e ↦
          let console = log_init_console loglevel l in
          record console { errors = e ∷ console.errors }
      | returned f ↦ record l {
        log_level = to_slog_level loglevel;
        handler_file = some f;
        log_file = some f;
      }
    ]

unfoldable pub log_close : Logging → Logging
log_close l = elim l.log_file [
  | none ↦ l
  | some f ↦ record l { closed = f ∷ l.closed; log_file = none }
]

-- The file that is written to is the one that `LogClose` closes, and there is one exactly where a file is
-- named and can be opened; otherwise the log goes to the console alone, with an error behind a file that
-- cannot be opened.
record IsOpened (disk : Disk) (open_file : Bytes → Fallible Bytes) (file : Bytes) (l l' : Logging)
    : Type 0 where
  kept : l'.handler_file ≡ l'.log_file
  console :
      (l'.handler_file ≡ none)
      → (file ≡ [])
        ⊎ ((e : Bytes) × (open_file (full_path disk file) ≡ failed e) × (l'.errors ≡ e ∷ l.errors))
  closed :
      (f : Bytes)
      → l'.handler_file ≡ some f
      → ((log_close l').closed ≡ f ∷ l'.closed) × ((log_close l').log_file ≡ none)

log_init-IsOpened :
    (disk : Disk) (open_file : Bytes → Fallible Bytes) (loglevel : ℤ) (file : Bytes) (l : Logging)
    → l.log_file ≡ none
    → IsOpened disk open_file file l (log_init disk open_file loglevel file l)
unfolding log_init log_init_console
log_init-IsOpened disk open_file loglevel file l unopened =
    either_branch {x = log_init_console loglevel l} {y = opened (open_file (full_path disk file))}
      (IsOpened disk open_file file l) (file == [])
      (λ e. record {
        kept = sym unopened;
        console = λ _. inl ((bytes_beq_iff file []).0 e);
        closed = λ f h. absurd (clash h);
      })
      (λ _. by_open (open_file (full_path disk file)) refl)
  where
    opened : Fallible Bytes → Logging
    opened r = elim r [
      | failed e ↦ record (log_init_console loglevel l) { errors = e ∷ l.errors }
      | returned f ↦ record l {
        log_level = to_slog_level loglevel;
        handler_file = some f;
        log_file = some f;
      }
    ]

    clash : {f : Bytes} → none ≡ some f → ⊥
    clash e = cc

    clash_some : {f : Bytes} → some f ≡ none → ⊥
    clash_some e = cc

    same : {f g : Bytes} → some f ≡ some g → f ≡ g
    same e = cc

    by_open :
        (r : Fallible Bytes)
        → open_file (full_path disk file) ≡ r
        → IsOpened disk open_file file l (opened r)
    by_open (failed e) h = record {
      kept = sym unopened;
      console = λ _. inr (e, h, refl);
      closed = λ f k. absurd (clash k);
    }
    by_open (returned f) h = record {
      kept = refl;
      console = λ k. absurd (clash_some k);
      closed = λ g k. unfold log_close in (ap (λ x. x ∷ l.closed) (same k), refl);
    }
