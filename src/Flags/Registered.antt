-- ===== src/Flags/Registered.antt =====
-- `registerFlags` of server/configure.go, with the defaults of server/defaults.go.
use nvda_remote_server.Common.{
  Bool, true, false, Option, none, some, [], ◌∷◌, Bytes, codes, bytes_eq,
}
use nvda_remote_server.Common.Int.{ℤ, pos}
use nvda_remote_server.GoMap.{Map}
use nvda_remote_server.Config.{Config, default_ping_time, default_port}
use nvda_remote_server.Config.Startup.{
  Platform, linux, darwin, other, default_cert_file, default_key_file,
}
use nvda_remote_server.Flags.{Flag}
use nvda_remote_server.Flags.Values.{parse_int, parse_bool}

-- The variables of the flags.
pub record Variables (Float : Type 0) : Type 0 where
  pub conf_file : Bytes
  pub config : Config Float
  pub include_tracebacks : Bool

unfoldable pub default_conf_file : Platform → Bytes
default_conf_file other = []
default_conf_file _ = codes "/etc/NVDARemoteServer.conf"

unfoldable pub default_log_file : Platform → Bytes
default_log_file other = []
default_log_file _ = codes "/var/log/NVDARemoteServer/NVDARemoteServer.log"

unfoldable pub default_pid_file : Platform → Bytes
default_pid_file linux = codes "/run/NVDARemoteServer/NVDARemoteServer.pid"
default_pid_file darwin = codes "/var/run/NVDARemoteServer.pid"
default_pid_file other = []

abbrev pub log_channel : ℤ
log_channel = pos 2

module _ {Float : Type 0} where
  unfoldable pub default_config : Platform → Float → Config Float
  unfolding default_cert_file default_log_file default_pid_file
  default_config p default_timeout = record {
    iface = [];
    iface6 = [];
    logfile = default_log_file p;
    pidfile = default_pid_file p;
    keyfile = default_key_file;
    certfile = default_cert_file p;
    domain = [];
    acme_email = [];
    acme_ca = [];
    motd = [];
    motd_always_display = false;
    port = default_port;
    port6 = default_port;
    loglevel = log_channel;
    max_msg_len = pos 0;
    ping_time = default_ping_time;
    timeout_secs = default_timeout;
  }

  unfoldable pub defaults : Platform → Float → Variables Float
  unfolding default_config default_conf_file
  defaults p default_timeout = record {
    conf_file = default_conf_file p;
    config = default_config p default_timeout;
    include_tracebacks = false;
  }

  -- A variable of `Config` of each type.
  abbrev pub string_var : (Bytes → Config Float → Config Float) → Flag (Variables Float)
  string_var assign = record {
    is_bool = false;
    set = λ s v. some (record v { config = assign s v.config });
  }

  abbrev pub int_var : (ℤ → Config Float → Config Float) → Flag (Variables Float)
  int_var assign = record {
    is_bool = false;
    set = λ s v. elim (parse_int s) [
      | none ↦ none
      | some n ↦ some (record v { config = assign n v.config })
    ];
  }

  abbrev pub float_var :
      (Bytes → Option Float) → (Float → Config Float → Config Float) → Flag (Variables Float)
  float_var parse_float assign = record {
    is_bool = false;
    set = λ s v. elim (parse_float s) [
      | none ↦ none
      | some x ↦ some (record v { config = assign x v.config })
    ];
  }

  abbrev pub bool_var : (Bool → Variables Float → Variables Float) → Flag (Variables Float)
  bool_var assign = record {
    is_bool = true;
    set = λ s v. elim (parse_bool s) [ none ↦ none | some b ↦ some (assign b v) ];
  }

  abbrev pub conf_file_var : Flag (Variables Float)
  conf_file_var = record { is_bool = false; set = λ s v. some (record v { conf_file = s }) }

  -- `parse_float` is strconv.ParseFloat.
  abbrev pub register_flags : (Bytes → Option Float) → Map Bytes (Flag (Variables Float))
  register_flags parse_float =
      (codes "configfile", conf_file_var)
      ∷ (codes "certfile", string_var (λ s c. record c { certfile = s }))
      ∷ (codes "keyfile", string_var (λ s c. record c { keyfile = s }))
      ∷ (codes "domain", string_var (λ s c. record c { domain = s }))
      ∷ (codes "acme_email", string_var (λ s c. record c { acme_email = s }))
      ∷ (codes "acme_ca", string_var (λ s c. record c { acme_ca = s }))
      ∷ (codes "pidfile", string_var (λ s c. record c { pidfile = s }))
      ∷ (codes "loglevel", int_var (λ n c. record c { loglevel = n }))
      ∷ (codes "logfile", string_var (λ s c. record c { logfile = s }))
      ∷ (codes "motd", string_var (λ s c. record c { motd = s }))
      ∷ (
        codes "motd_force_display",
        bool_var (λ b v. record v { config = record v.config { motd_always_display = b } }),
      )
      ∷ (codes "includeTracebacks", bool_var (λ b v. record v { include_tracebacks = b }))
      ∷ (codes "timeout", float_var parse_float (λ x c. record c { timeout_secs = x }))
      ∷ (codes "ping_time", int_var (λ n c. record c { ping_time = n }))
      ∷ (codes "allowedMessageLength", int_var (λ n c. record c { max_msg_len = n }))
      ∷ (codes "interface", string_var (λ s c. record c { iface = s }))
      ∷ (codes "interface6", string_var (λ s c. record c { iface6 = s }))
      ∷ (codes "port", int_var (λ n c. record c { port = n }))
      ∷ (codes "port6", int_var (λ n c. record c { port6 = n }))
      ∷ []
