-- ===== src/Config.antt =====
-- The settings of the process: the global variables of server/configure.go with the defaults of
-- server/defaults.go, the values of a configuration file (server/conf.go, `conf_apply`), and the
-- checks of server/configure.go (`validateSettings`, `handleMotd`). A floating point number is of a
-- type `Float` that is a parameter, with what the code uses of it.
pub mod Atoi
pub mod Precedence
pub mod Limits
pub mod Numbers
pub mod File
pub mod Startup
pub mod Ready
pub mod Addresses
pub mod Lines
use nvda_remote_server.Common.{
  ℕ, Bool, true, false, not, ◌&&◌, ◌||◌, Option, none, some, [], ◌∷◌, ◌++◌, Bytes, codes, bytes_eq,
  ◌==◌, if◌then◌else◌,
}
use nvda_remote_server.Common.Int.{ℤ, pos, negsuc, int_leb, int_eq}
use nvda_remote_server.GoMap.{Map, get}
use Atoi.{atoi}

pub record Config (Float : Type 0) : Type 0 where
  pub iface : Bytes
  pub iface6 : Bytes
  pub logfile : Bytes
  pub pidfile : Bytes
  pub keyfile : Bytes
  pub certfile : Bytes
  pub domain : Bytes
  pub acme_email : Bytes
  pub acme_ca : Bytes
  pub motd : Bytes
  pub motd_always_display : Bool
  pub port : ℤ
  pub port6 : ℤ
  pub loglevel : ℤ
  pub max_msg_len : ℤ
  pub ping_time : ℤ
  pub timeout_secs : Float

-- The options of a file, and the flags that were given on the command line.
abbrev pub Options : Type 0
Options = Map Bytes Bytes

abbrev pub CliSet : Type 0
CliSet = Bytes → Bool

-- `v, ok := opts[name]; ok && !cliSet[name]`
unfoldable pub from_file : Options → CliSet → Bytes → Option Bytes
from_file opts cli_set name = if cli_set name then none else get name opts

-- The value of a string option, whose variable holds `target`.
unfoldable pub apply_string_opt : Options → CliSet → Bytes → Bytes → Bytes
unfolding from_file
apply_string_opt opts cli_set name target = elim (from_file opts cli_set name) [
  | none ↦ target
  | some v ↦ v
]

unfoldable pub apply_int_opt : Options → CliSet → Bytes → ℤ → ℤ
unfolding from_file
apply_int_opt opts cli_set name target = elim (from_file opts cli_set name) [
  | none ↦ target
  | some v ↦ (elim (atoi v) [ none ↦ target | some n ↦ n ])
]

-- motdAlwaysDisplay = n != 0
unfoldable pub apply_force_display : Options → CliSet → Bool → Bool
unfolding from_file
apply_force_display opts cli_set target =
    elim (from_file opts cli_set (codes "motd_force_display")) [
      | none ↦ target
      | some v ↦ (elim (atoi v) [ none ↦ target | some n ↦ not (n == pos 0) ])
    ]

abbrev pub default_ping_time : ℤ
default_ping_time = pos 300

abbrev pub default_port : ℤ
default_port = pos 6837

abbrev pub log_silent : ℤ
log_silent = negsuc 0

abbrev pub log_protocol : ℤ
log_protocol = pos 4

abbrev pub protocol_motd : Bytes
protocol_motd =
    codes
      "WARNING!\nAll server information is being logged, including the protocol being used. This server is running in an insecure mode for production."

-- a < b
abbrev pub int_ltb : ℤ → ℤ → Bool
int_ltb a b = not (int_leb b a)

-- port < 1 || port > 65535
unfoldable pub is_bad_port : ℤ → Bool
is_bad_port p = int_ltb p (pos 1) || int_ltb (pos 65535) p

module _ {Float : Type 0} where
  -- `parse_float` is strconv.ParseFloat.
  unfoldable pub apply_float_opt : (Bytes → Option Float) → Options → CliSet → Float → Float
  unfolding from_file
  apply_float_opt parse_float opts cli_set target =
      elim (from_file opts cli_set (codes "timeout")) [
        | none ↦ target
        | some v ↦ (elim (parse_float v) [ none ↦ target | some f ↦ f ])
      ]

  unfoldable pub apply_strings : Options → CliSet → Config Float → Config Float
  unfolding apply_string_opt apply_force_display
  apply_strings opts cli_set c = record c {
    iface = apply_string_opt opts cli_set (codes "interface") c.iface;
    iface6 = apply_string_opt opts cli_set (codes "interface6") c.iface6;
    logfile = apply_string_opt opts cli_set (codes "logfile") c.logfile;
    pidfile = apply_string_opt opts cli_set (codes "pidfile") c.pidfile;
    keyfile = apply_string_opt opts cli_set (codes "keyfile") c.keyfile;
    certfile = apply_string_opt opts cli_set (codes "certfile") c.certfile;
    domain = apply_string_opt opts cli_set (codes "domain") c.domain;
    acme_email = apply_string_opt opts cli_set (codes "acme_email") c.acme_email;
    acme_ca = apply_string_opt opts cli_set (codes "acme_ca") c.acme_ca;
    motd = apply_string_opt opts cli_set (codes "motd") c.motd;
    motd_always_display = apply_force_display opts cli_set c.motd_always_display;
  }

  unfoldable pub apply_numbers : Options → CliSet → Config Float → Config Float
  unfolding apply_int_opt
  apply_numbers opts cli_set c = record c {
    port = apply_int_opt opts cli_set (codes "port") c.port;
    port6 = apply_int_opt opts cli_set (codes "port6") c.port6;
    loglevel = apply_int_opt opts cli_set (codes "loglevel") c.loglevel;
    max_msg_len = apply_int_opt opts cli_set (codes "allowedMessageLength") c.max_msg_len;
    ping_time = apply_int_opt opts cli_set (codes "ping_time") c.ping_time;
  }

  unfoldable pub apply_floats :
      (Bytes → Option Float) → Options → CliSet → Config Float → Config Float
  unfolding apply_float_opt
  apply_floats parse_float opts cli_set c = record c {
    timeout_secs = apply_float_opt parse_float opts cli_set c.timeout_secs;
  }

  unfoldable pub conf_apply :
      (Bytes → Option Float) → Options → CliSet → Config Float → Config Float
  unfolding apply_strings apply_numbers apply_floats
  conf_apply parse_float opts cli_set c =
      apply_floats parse_float opts cli_set
        (apply_numbers opts cli_set (apply_strings opts cli_set c))

  -- `below_one` is `timeoutSecs < 1.0`, and `default_timeout` 5.0.
  unfoldable pub validate_settings : (Float → Bool) → Float → Config Float → Config Float
  unfolding is_bad_port
  validate_settings below_one default_timeout c =
      let port = if is_bad_port c.port then default_port else c.port in
      let level = if int_ltb c.loglevel log_silent then log_silent else c.loglevel in
      record c {
        timeout_secs = if below_one c.timeout_secs then default_timeout else c.timeout_secs;
        ping_time = if int_ltb c.ping_time (pos 30) then default_ping_time else c.ping_time;
        port = port;
        port6 = if is_bad_port c.port6 then port else c.port6;
        loglevel = if int_ltb log_protocol level then log_protocol else level;
      }

  -- The first `if` of `handleMotd`.
  unfoldable pub warn_protocol : Config Float → Config Float
  warn_protocol c =
      if c.loglevel == log_protocol
      then record c {
        motd = if c.motd == [] then protocol_motd else protocol_motd ++ (codes "\n" ++ c.motd);
        motd_always_display = true;
      }
      else c

  -- `motd == defaultMotd && motdAlwaysDisplay == defaultMotdAlwaysDisplay`, where the defaults are the
  -- empty text and `false`.
  unfoldable pub reset_display : Config Float → Config Float
  reset_display c =
      if c.motd == [] && not c.motd_always_display
      then record c { motd_always_display = false }
      else c

  unfoldable pub handle_motd : Config Float → Config Float
  unfolding warn_protocol reset_display
  handle_motd c = reset_display (warn_protocol c)
