-- ===== src/Flags/Launch.antt =====
-- `Configure` of server/configure.go from the command line on, and the server that `daemonStart` of
-- daemon_unix.go starts.
use nvda_remote_server.Common.{
  ℕ, ◌≤◌, ◌≡◌, refl, sym, ap, ◌∙◌, Bool, true, false, not, ◌||◌, ◌&&◌, Option, some, List, [], ◌∷◌,
  ◌++◌, Bytes, bytes_eq, bytes_beq, nat_beq, ◌==◌, All, arith, Bool-cases, inl, inr, either_branch,
  Outcome, ok, panic,
}
use nvda_remote_server.Config.{
  Config, Options, CliSet, from_file, apply_string_opt, apply_strings, apply_numbers, apply_floats,
  conf_apply, validate_settings, warn_protocol, reset_display, handle_motd, log_protocol,
}
use nvda_remote_server.Common.Int.{int_eq}
use nvda_remote_server.Config.File.{
  Fallible, failed, returned, conf_read_python, conf_print_missing,
}
use nvda_remote_server.Config.Startup.{Machine, Listener, apply_config_file, settled, configure}
use nvda_remote_server.Config.Ready.{configure-settled}
use nvda_remote_server.Daemon.{find_pid_file, child_args}
use nvda_remote_server.Flags.{FlagSet, Parsed, exits, finished, parse}
use nvda_remote_server.Flags.Printed.{Given, print, IsGiven, assigned, assigned-cons, parse-print}
use nvda_remote_server.Flags.Registered.{
  Variables, register_flags, defaults, default_config, default_pid_file,
}
use nvda_remote_server.Flags.Child.{pidfile_name, pidfiles}
use nvda_remote_server.Flags.Found.{IsPlain}
use nvda_remote_server.Flags.Agreement.{
  child, named_pidfile, child_args-print, child-IsGiven, child_args-pidfile,
}

-- cliSet[name] behind flag.Visit
unfoldable pub is_visited : List Bytes → Bytes → Bool
is_visited [] name = false
is_visited (n ∷ ns) name = n == name || is_visited ns name

-- How `Configure` ends: the process exits while it reads the flags, there is a result, or it panics.
pub data Launched (A : Type 0) : Type 0 where
  exited : ℕ → Launched A
  configured : Fallible A → Launched A
  crashed : Launched A

unfoldable pub launched_by : {A : Type 0} → Outcome (Fallible A) → Launched A
launched_by (ok result) = configured result
launched_by panic = crashed

abbrev named_in : Bytes → List Given → Bool
named_in name [] = false
named_in name (g ∷ gs) = g.name == name || named_in name gs

module _ {Float Certificate : Type 0} (m : Machine Float Certificate) where
  -- Behind the flags.
  unfoldable pub configure_line :
      Parsed (Variables Float) → Launched (Config Float × List (Listener Certificate))
  unfolding configure is_visited launched_by
  configure_line (exits code) = exited code
  configure_line (finished l) =
      launched_by (configure m (is_visited l.visited) l.vars.conf_file l.vars.config)

  unfoldable pub configure_args : List Bytes → Launched (Config Float × List (Listener Certificate))
  unfolding configure_line parse defaults
  configure_args given_args =
      configure_line
        (parse (register_flags m.parse_float) given_args (defaults m.platform m.default_timeout))

  -- An option from the command line stays.
  given_stays :
      (opts : Options) (cli_set : CliSet) (name target : Bytes)
      → cli_set name ≡ true
      → apply_string_opt opts cli_set name target ≡ target
  unfolding apply_string_opt from_file
  given_stays opts cli_set name target h = rw (h, apply_string_opt, from_file) refl

  conf_apply-pidfile :
      (parse_float : Bytes → Option Float) (opts : Options) (cli_set : CliSet) (c : Config Float)
      → cli_set pidfile_name ≡ true
      → (conf_apply parse_float opts cli_set c).pidfile ≡ c.pidfile
  unfolding conf_apply apply_strings apply_numbers apply_floats
  conf_apply-pidfile parse_float opts cli_set c h =
      given_stays opts cli_set pidfile_name c.pidfile h

  apply_config_file-pidfile :
      (cli_set : CliSet) (conf_file : Bytes) (c : Config Float)
      → cli_set pidfile_name ≡ true
      → (apply_config_file m cli_set conf_file c).0.pidfile ≡ c.pidfile
  unfolding apply_config_file
  apply_config_file-pidfile cli_set conf_file c h = elim (Bool-cases (not (conf_file == []))) [
    | inr e ↦ rw (e, apply_config_file) refl
    | inl e ↦ rw (e, apply_config_file) (by_reading (conf_read_python m.read_file conf_file) refl)
  ]
    where
      by_reading :
          (r : Fallible Options)
          → conf_read_python m.read_file conf_file ≡ r
          → (elim (conf_read_python m.read_file conf_file) as (λ _. Config Float × Bytes) [
            | failed e ↦ (c, conf_print_missing conf_file (some e))
            | returned opts ↦ (conf_apply m.parse_float opts cli_set c, [])
          ]).0.pidfile
            ≡ c.pidfile
      by_reading (failed e) f = rw f refl
      by_reading (returned opts) f = rw f (conf_apply-pidfile m.parse_float opts cli_set c h)

  handle_motd-pidfile : (c : Config Float) → (handle_motd c).pidfile ≡ c.pidfile
  unfolding handle_motd warn_protocol reset_display
  handle_motd-pidfile c = kept (warn_protocol c) ∙ warned
    where
      kept : (d : Config Float) → (reset_display d).pidfile ≡ d.pidfile
      kept d =
          either_branch (λ (e : Config Float). e.pidfile ≡ d.pidfile)
            (d.motd == [] && not d.motd_always_display) (λ _. refl) (λ _. refl)

      warned : (warn_protocol c).pidfile ≡ c.pidfile
      warned =
          either_branch (λ (e : Config Float). e.pidfile ≡ c.pidfile) (c.loglevel == log_protocol)
            (λ _. refl) (λ _. refl)

  settled-pidfile :
      (cli_set : CliSet) (conf_file : Bytes) (c : Config Float)
      → cli_set pidfile_name ≡ true
      → (settled m cli_set conf_file c).pidfile ≡ c.pidfile
  unfolding settled validate_settings
  settled-pidfile cli_set conf_file c h =
      handle_motd-pidfile _ ∙ apply_config_file-pidfile cli_set conf_file c h

  configure-pidfile :
      (cli_set : CliSet) (conf_file : Bytes) (flags c : Config Float)
      (servers : List (Listener Certificate))
      → cli_set pidfile_name ≡ true
      → configure m cli_set conf_file flags ≡ ok (returned (c, servers))
      → c.pidfile ≡ flags.pidfile
  configure-pidfile cli_set conf_file flags c servers h e =
      ap (λ (d : Config Float). d.pidfile)
        (sym (configure-settled m cli_set conf_file flags c servers e))
      ∙ settled-pidfile cli_set conf_file flags h

  assigned-is_visited :
      (name : Bytes) (gs : List Given) (l l' : FlagSet (Variables Float))
      → assigned (register_flags m.parse_float) gs l ≡ finished l'
      → (is_visited l.visited name || named_in name gs) ≡ true
      → is_visited l'.visited name ≡ true
  unfolding is_visited
  assigned-is_visited name [] l l' e h = ground arith
  assigned-is_visited name (g ∷ gs) l l' e h =
      let (f, vars, n, s, rest) = assigned-cons (register_flags m.parse_float) g gs l l' e in
      assigned-is_visited name gs (record { vars = vars; visited = g.name ∷ l.visited }) l' rest
        (ground (arith, h))

  -- The child's command line names a pid file.
  named_in-child : (gs : List Given) (p : Bytes) → named_in pidfile_name (child gs p) ≡ true
  named_in-child gs p =
      either_branch {x = gs} {y = gs ++ (named_pidfile p ∷ [])}
        (λ l. named_in pidfile_name l ≡ true) (not (nat_beq (pidfiles gs) 0)) (λ e. some_named gs e)
        (λ _. last_named gs)
    where
      some_named :
          (gs : List Given) → not (nat_beq (pidfiles gs) 0) ≡ true → named_in pidfile_name gs ≡ true
      some_named [] e = cc
      some_named (g ∷ gs) e = ground (arith, some_named gs)

      last_named : (gs : List Given) → named_in pidfile_name (gs ++ (named_pidfile p ∷ [])) ≡ true
      last_named [] = unfold bytes_beq in refl
      last_named (g ∷ gs) = ground (arith, last_named gs)

  -- What the child reads of its command line.
  child_line :
      (gs : List Given) (p : Bytes) (vars : Variables Float) (l : FlagSet (Variables Float))
      → All IsPlain gs
      → All (IsGiven (register_flags m.parse_float)) gs
      → parse (register_flags m.parse_float) (child_args (print gs) p) vars ≡ finished l
      → is_visited l.visited pidfile_name ≡ true
  child_line gs p vars l plain given e =
      assigned-is_visited pidfile_name (child gs p) (record { vars = vars; visited = [] }) l
        (sym (
            parse-print (register_flags m.parse_float) (child gs p) vars
              (child-IsGiven m.parse_float gs p given))
          ∙ ap (λ given_args. parse (register_flags m.parse_float) given_args vars)
              (sym (child_args-print gs p plain))
          ∙ e)
        (unfold is_visited in named_in-child gs p)

  -- Where a command such as `start` is given flags with their values, each behind one dash and a pid
  -- file at most once: if the server that `daemonStart` starts can be configured, then the pid file of
  -- its settings is the one that `findPidFile` finds for the command, and so for `stop`, `status`,
  -- `kill` and `restart` with the same flags, whatever the configuration file says. A value that is an
  -- argument of its own must not look like a flag of a pid file.
  pub configure_args-pidfile :
      (gs : List Given) (c : Config Float) (servers : List (Listener Certificate))
      → All IsPlain gs
      → All (IsGiven (register_flags m.parse_float)) gs
      → pidfiles gs ≤ 1
      → configure_args
          (child_args (print gs) (find_pid_file (default_pid_file m.platform) (print gs)))
        ≡ configured (returned (c, servers))
      → c.pidfile ≡ find_pid_file (default_pid_file m.platform) (print gs)
  unfolding configure_args configure_line defaults default_config
  configure_args-pidfile gs c servers plain given once e =
      by_line (parse (register_flags m.parse_float) arguments_of_child vars) refl e
    where
      vars : Variables Float
      vars = defaults m.platform m.default_timeout

      p : Bytes
      p = find_pid_file (default_pid_file m.platform) (print gs)

      arguments_of_child : List Bytes
      arguments_of_child = child_args (print gs) p

      same :
          (o : Outcome (Fallible (Config Float × List (Listener Certificate))))
          {b : Fallible (Config Float × List (Listener Certificate))}
          → launched_by o ≡ configured b
          → o ≡ ok b
      same (ok a) e = unfold launched_by in cc
      same panic e = unfold launched_by in cc

      clash :
          {P : Type 0} {code : ℕ} {a : Fallible (Config Float × List (Listener Certificate))}
          → exited code ≡ configured a
          → P
      clash e = cc

      by_line :
          (r : Parsed (Variables Float))
          → parse (register_flags m.parse_float) arguments_of_child vars ≡ r
          → configure_line r ≡ configured (returned (c, servers))
          → c.pidfile ≡ p
      by_line (exits code) f h = clash h
      by_line (finished l) f h =
          configure-pidfile (is_visited l.visited) l.vars.conf_file l.vars.config c servers
            (child_line gs p vars l plain given f) (same _ h)
          ∙ child_args-pidfile m.parse_float gs vars l plain given once f
