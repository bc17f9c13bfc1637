-- ===== src/Config/Precedence.antt =====
-- The command line comes before the configuration file (server/conf.go).
use nvda_remote_server.Common.{
  ◌≡◌, sym, ap, codes, Bool-cases, inl, inr, bytes_beq, bytes_beq_iff, Bool, false, Option, none,
  some, [], ◌∷◌, Bytes, arith, bytes_eq, if◌then◌else◌,
}
use nvda_remote_server.Common.Int.{ℤ}
use nvda_remote_server.GoMap.{get}
use nvda_remote_server.Config.{
  Config, Options, CliSet, from_file, conf_apply, apply_string_opt, apply_int_opt,
  apply_force_display, apply_float_opt, apply_strings, apply_numbers, apply_floats,
}

-- The options of a file that were not given on the command line.
abbrev pub not_set : CliSet → Options → Options
not_set cli_set [] = []
not_set cli_set ((name, v) ∷ opts) =
    let rest = not_set cli_set opts in if cli_set name then rest else (name, v) ∷ rest

get-not_set :
    (opts : Options) (cli_set : CliSet) (name : Bytes)
    → get name (not_set cli_set opts) ≡ (if cli_set name then none else get name opts)
unfolding get
get-not_set [] cli_set name = ground arith
get-not_set ((n, v) ∷ opts) cli_set name = elim (Bool-cases (bytes_beq n name)) [
  | inl e ↦
      rw ((bytes_beq_iff n name).0 e)
        (ground (arith, get-not_set opts cli_set name, bytes_beq_iff name name))
  | inr e ↦ ground (arith, get-not_set opts cli_set name)
]

from_file-not_set :
    (opts : Options) (cli_set : CliSet) (name : Bytes)
    → from_file opts cli_set name ≡ from_file (not_set cli_set opts) (λ _. false) name
unfolding from_file
from_file-not_set opts cli_set name = sym (get-not_set opts cli_set name)

module _ (opts : Options) (cli_set : CliSet) where
  -- One option, of each type.
  apply_string_opt-not_set :
      (name target : Bytes)
      → apply_string_opt opts cli_set name target
        ≡ apply_string_opt (not_set cli_set opts) (λ _. false) name target
  unfolding apply_string_opt
  apply_string_opt-not_set name target =
      ap (λ (o : Option Bytes). elim o [ none ↦ target | some v ↦ v ])
        (from_file-not_set opts cli_set name)

  apply_int_opt-not_set :
      (name : Bytes) (target : ℤ)
      → apply_int_opt opts cli_set name target
        ≡ apply_int_opt (not_set cli_set opts) (λ _. false) name target
  unfolding apply_int_opt
  apply_int_opt-not_set name target = rw (apply_int_opt, from_file-not_set opts cli_set name)

  apply_force_display-not_set :
      (target : Bool)
      → apply_force_display opts cli_set target
        ≡ apply_force_display (not_set cli_set opts) (λ _. false) target
  unfolding apply_force_display
  apply_force_display-not_set target =
      rw (apply_force_display, from_file-not_set opts cli_set (codes "motd_force_display"))

  module _ {Float : Type 0} (parse_float : Bytes → Option Float) where
    apply_float_opt-not_set :
        (target : Float)
        → apply_float_opt parse_float opts cli_set target
          ≡ apply_float_opt parse_float (not_set cli_set opts) (λ _. false) target
    unfolding apply_float_opt
    apply_float_opt-not_set target =
        rw (apply_float_opt, from_file-not_set opts cli_set (codes "timeout"))

    -- A file has the same effect as the file without the options that were given on the command line.
    pub conf_apply-not_set :
        (c : Config Float)
        → conf_apply parse_float opts cli_set c
          ≡ conf_apply parse_float (not_set cli_set opts) (λ _. false) c
    unfolding conf_apply apply_strings apply_numbers apply_floats
    conf_apply-not_set c = λ i. record c {
      iface = apply_string_opt-not_set (codes "interface") c.iface i;
      iface6 = apply_string_opt-not_set (codes "interface6") c.iface6 i;
      logfile = apply_string_opt-not_set (codes "logfile") c.logfile i;
      pidfile = apply_string_opt-not_set (codes "pidfile") c.pidfile i;
      keyfile = apply_string_opt-not_set (codes "keyfile") c.keyfile i;
      certfile = apply_string_opt-not_set (codes "certfile") c.certfile i;
      domain = apply_string_opt-not_set (codes "domain") c.domain i;
      acme_email = apply_string_opt-not_set (codes "acme_email") c.acme_email i;
      acme_ca = apply_string_opt-not_set (codes "acme_ca") c.acme_ca i;
      motd = apply_string_opt-not_set (codes "motd") c.motd i;
      motd_always_display = apply_force_display-not_set c.motd_always_display i;
      port = apply_int_opt-not_set (codes "port") c.port i;
      port6 = apply_int_opt-not_set (codes "port6") c.port6 i;
      loglevel = apply_int_opt-not_set (codes "loglevel") c.loglevel i;
      max_msg_len = apply_int_opt-not_set (codes "allowedMessageLength") c.max_msg_len i;
      ping_time = apply_int_opt-not_set (codes "ping_time") c.ping_time i;
      timeout_secs = apply_float_opt-not_set c.timeout_secs i;
    }
