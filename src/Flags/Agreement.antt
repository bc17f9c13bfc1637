-- ===== src/Flags/Agreement.antt =====
-- A command of daemon_unix.go and the server that it starts agree on the pid file: `findPidFile` and
-- `daemonStart` on one side, the flags of server/configure.go on the other.
use nvda_remote_server.Common.{
  ◌≤◌, ◌≡◌, refl, sym, ap, ◌∙◌, append_assoc, true, false, not, Option, List, [], ◌∷◌, ◌++◌, Bytes,
  bytes_eq, bytes_beq, nat_beq, if◌then◌else◌, All, arith, Bool-cases, inl, inr, either_branch,
}
use nvda_remote_server.Json.Decimal.{All-append}
use nvda_remote_server.Daemon.{find_pid_file, child_args}
use nvda_remote_server.Flags.{finished, FlagSet, parse}
use nvda_remote_server.Flags.Printed.{Given, print, IsGiven, arguments, parse-print}
use nvda_remote_server.Flags.Registered.{Variables, register_flags}
use nvda_remote_server.Flags.Child.{
  pidfile_name, first_pidfile, last_pidfile, pidfiles, pidfile-valued, assigned-last_pidfile,
}
use nvda_remote_server.Flags.Found.{IsPlain, find_pid_file-print, has_pid_file-print}

abbrev pub named_pidfile : Bytes → Given
named_pidfile p = record { double = false; joined = false; name = pidfile_name; value = p }

-- The flags of the child.
abbrev pub child : List Given → Bytes → List Given
child gs p = if not (nat_beq (pidfiles gs) 0) then gs else gs ++ (named_pidfile p ∷ [])

print-append : (gs hs : List Given) → print (gs ++ hs) ≡ print gs ++ print hs
print-append [] hs = refl
print-append (g ∷ gs) hs =
    ap (λ rest. arguments g ++ rest) (print-append gs hs)
    ∙ sym (append_assoc (arguments g) (print gs) (print hs))

pub child_args-print :
    (gs : List Given) (p : Bytes) → All IsPlain gs → child_args (print gs) p ≡ print (child gs p)
unfolding child_args
child_args-print gs p h = elim (Bool-cases (not (nat_beq (pidfiles gs) 0))) [
  | inl e ↦ rw (has_pid_file-print gs h, e, child_args) refl
  | inr e ↦
      rw (has_pid_file-print gs h, e, child_args) (sym (print-append gs (named_pidfile p ∷ [])))
]

last-none : (d : Bytes) (gs : List Given) → pidfiles gs ≡ 0 → last_pidfile d gs ≡ d
last-none d [] h = refl
last-none d (g ∷ gs) h = elim (Bool-cases (bytes_beq g.name pidfile_name)) [
  | inl e ↦ absurd (omega (arith, rw e at h))
  | inr e ↦ rw e (last-none d gs (rw e at h))
]

last-first :
    (d : Bytes) (gs : List Given) → pidfiles gs ≤ 1 → last_pidfile d gs ≡ first_pidfile d gs
last-first d [] h = refl
last-first d (g ∷ gs) h = elim (Bool-cases (bytes_beq g.name pidfile_name)) [
  | inl e ↦ rw e (last-none g.value gs (omega (arith, rw e at h)))
  | inr e ↦ rw e (last-first d gs (rw e at h))
]

last-append :
    (p : Bytes) (gs : List Given) (d : Bytes) → last_pidfile d (gs ++ (named_pidfile p ∷ [])) ≡ p
last-append p [] d = unfold bytes_beq in refl
last-append p (g ∷ gs) d = last-append p gs _

-- The child's flags set what the command's first flag says, or else the default.
last-child :
    (d : Bytes) (gs : List Given)
    → pidfiles gs ≤ 1
    → last_pidfile d (child gs (first_pidfile d gs)) ≡ first_pidfile d gs
last-child d gs h =
    either_branch (λ l. last_pidfile d l ≡ first_pidfile d gs) (not (nat_beq (pidfiles gs) 0))
      (λ _. last-first d gs h) (λ _. last-append (first_pidfile d gs) gs d)

module _ {Float : Type 0} (parse_float : Bytes → Option Float) where
  named_pidfile-IsGiven : (p : Bytes) → IsGiven (register_flags parse_float) (named_pidfile p)
  named_pidfile-IsGiven p = record {
    name = ground arith;
    separate = λ f e b. absurd (clash (sym b ∙ pidfile-valued parse_float f e));
  }
    where
      clash : true ≡ false → ⊥
      clash e = cc

  pub child-IsGiven :
      (gs : List Given) (p : Bytes)
      → All (IsGiven (register_flags parse_float)) gs
      → All (IsGiven (register_flags parse_float)) (child gs p)
  child-IsGiven gs p h =
      either_branch (All (IsGiven (register_flags parse_float))) (not (nat_beq (pidfiles gs) 0))
        (λ _. h) (λ _. All-append _ gs (named_pidfile p ∷ []) h (named_pidfile-IsGiven p, tt))

  -- Where a command such as `start` is given flags with their values, each behind one dash and a pid
  -- file at most once, and its child's flags are all accepted: the pid file that the child's command
  -- line sets is the one that `findPidFile` finds for the command, given that both have one default.
  -- A value that is an argument of its own must not look like a flag of a pid file.
  pub child_args-pidfile :
      (gs : List Given) (vars : Variables Float) (l : FlagSet (Variables Float))
      → All IsPlain gs
      → All (IsGiven (register_flags parse_float)) gs
      → pidfiles gs ≤ 1
      → parse
          (register_flags parse_float)
          (child_args (print gs) (find_pid_file vars.config.pidfile (print gs)))
          vars
        ≡ finished l
      → l.vars.config.pidfile ≡ find_pid_file vars.config.pidfile (print gs)
  child_args-pidfile gs vars l plain given once e =
      let d = vars.config.pidfile in
      let found = find_pid_file-print d gs plain in
      let p = first_pidfile d gs in
      assigned-last_pidfile parse_float (child gs p) (record { vars = vars; visited = [] }) l
        (sym (parse-print (register_flags parse_float) (child gs p) vars (child-IsGiven gs p given))
          ∙ ap (λ args. parse (register_flags parse_float) args vars)
              (sym (ap (child_args (print gs)) found ∙ child_args-print gs p plain))
          ∙ e)
      ∙ last-child d gs once
      ∙ sym found
