-- ===== src/Examples/Services.antt =====
-- Settings, logging and writing at concrete inputs, and what the theorems on them say there.
use nvda_remote_server.Common.{
  ℕ, zero, suc, ◌*◌, ◌≡◌, Bool, true, false, ◌&&◌, Option, none, some, List, [], ◌∷◌, Bytes, codes,
  arith, nat_beq, leb, bytes_beq,
}
use nvda_remote_server.Common.Int.{pos, negsuc}
use nvda_remote_server.Config.{Config, Options, CliSet, conf_apply, log_silent}
use nvda_remote_server.Config.Precedence.{not_set, conf_apply-not_set}
use nvda_remote_server.Logger.{is_logged}
use nvda_remote_server.Logger.Filter.{is_logged_lem}
use nvda_remote_server.Writer.{WriterEvent, message, elapsed}

-- Whole seconds stand for the floating point numbers.
abbrev pub below_one : ℕ → Bool
below_one n = nat_beq n 0

abbrev pub odd_config : Config ℕ
odd_config = record {
  iface = [];
  iface6 = [];
  logfile = [];
  pidfile = [];
  keyfile = [];
  certfile = [];
  domain = [];
  acme_email = [];
  acme_ca = [];
  motd = [];
  motd_always_display = true;
  port = pos 70000;
  port6 = negsuc 4;
  loglevel = pos 9;
  max_msg_len = pos 0;
  ping_time = pos 3;
  timeout_secs = 0;
}

abbrev options : Options
options = (codes "port", codes "6000") ∷ (codes "timeout", codes "7") ∷ []

abbrev port_given : CliSet
port_given name = bytes_beq name (codes "port")

abbrev pub parse_none : Bytes → Option ℕ
parse_none _ = none

conf_apply-not_set_example :
    conf_apply parse_none options port_given odd_config
    ≡ conf_apply parse_none (not_set port_given options) (λ _. false) odd_config
conf_apply-not_set_example = conf_apply-not_set options port_given parse_none odd_config

is_logged_lem_example :
    (is_logged (pos 2) (pos 4) ≡ (leb 2 4 && leb 4 (2 * 2)))
    × (is_logged log_silent (pos 4) ≡ nat_beq 4 4)
is_logged_lem_example = is_logged_lem 2 4 (omega arith) (omega arith)

abbrev two_messages : List WriterEvent
two_messages = message (codes "a") true ∷ elapsed ∷ message (codes "b") false ∷ []

abbrev breaks_second : ℕ → Option ℕ
breaks_second zero = none
breaks_second (suc n) = some 1
