-- ===== src/Examples/Flags.antt =====
-- Command lines, and what the theorems on flags say of them.
use nvda_remote_server.Common.{
  ℕ, ◌≡◌, refl, sym, ap, ◌∙◌, Bool, true, false, Option, none, some, List, [], ◌∷◌, Bytes, codes,
  bytes_beq, All, arith, bytes_eq,
}
use nvda_remote_server.Common.Int.{int_beq, int_leb, pos}
use nvda_remote_server.GoMap.{get, put}
use nvda_remote_server.Strings.{has_prefix, index}
use nvda_remote_server.Strings.Split.{trim_suffix, cut}
use nvda_remote_server.Config.{Config}
use nvda_remote_server.Config.File.{returned}
use nvda_remote_server.Config.Startup.{tls_source, Listener, linux}
use nvda_remote_server.Daemon.{find_pid_file, child_args}
use nvda_remote_server.Flags.{Flag, parse, exits, finished}
use nvda_remote_server.Flags.Values.{parse_int, parse_bool}
use nvda_remote_server.Flags.Printed.{Given, IsGiven, print}
use nvda_remote_server.Flags.Registered.{Variables, register_flags, defaults, default_pid_file}
use nvda_remote_server.Flags.Options.{
  Setting, port_is, pidfile_is, display_is, AreFor, made, parse_settings,
}
use nvda_remote_server.Flags.Found.{IsPlain}
use nvda_remote_server.Flags.Launch.{Launched, configured, configure_args, configure_args-pidfile}
use nvda_remote_server.Examples.Services.{odd_config, parse_none}
use nvda_remote_server.Examples.Startup.{machine}

abbrev flag_port : Given
flag_port = record { double = false; joined = false; name = codes "port"; value = codes "0x1F_90" }

abbrev flag_pidfile : Given
flag_pidfile = record {
  double = false;
  joined = true;
  name = codes "pidfile";
  value = codes "/tmp/x=y";
}

abbrev flag_display : Given
flag_display = record {
  double = false;
  joined = true;
  name = codes "motd_force_display";
  value = codes "T";
}

abbrev given_flags : List Given
given_flags = flag_port ∷ flag_pidfile ∷ flag_display ∷ []

bool_of : Option (Flag (Variables ℕ)) → Bool
bool_of none = false
bool_of (some g) = g.is_bool

flag_port-IsGiven : IsGiven (register_flags parse_none) flag_port
unfolding get bytes_beq bool_of
flag_port-IsGiven = record {
  name = ground arith;
  separate = λ f e b. clash (sym b ∙ sym (ap bool_of e));
}
  where
    clash : {P : Type 0} → true ≡ false → P
    clash e = cc

given_flags-IsGiven : All (IsGiven (register_flags parse_none)) given_flags
given_flags-IsGiven = (
  flag_port-IsGiven,
  (
    record { name = ground arith; separate = λ f e b. refl },
    (record { name = ground arith; separate = λ f e b. refl }, tt),
  ),
)

numbers : parse_int (codes "0x1F_90") ≡ some (pos 8080)
unfolding parse_int
numbers = refl

abbrev assigned_demo : Variables ℕ
assigned_demo = defaults linux 5

abbrev given_settings : List (Setting ℕ)
given_settings = port_is (pos 8080) ∷ pidfile_is (codes "/tmp/x=y") ∷ display_is true ∷ []

given_settings-AreFor : AreFor parse_none given_settings given_flags
unfolding parse_int parse_bool bytes_beq
given_settings-AreFor = (
  record { named = refl; spelled = numbers; switched = λ e. cc },
  (
    record { named = refl; spelled = refl; switched = λ e. refl },
    (record { named = refl; spelled = refl; switched = λ e. refl }, tt),
  ),
)

parse_settings_example :
    parse (register_flags parse_none) (print given_flags) assigned_demo
    ≡ finished (made parse_none given_settings (record { vars = assigned_demo; visited = [] }))
parse_settings_example =
    parse_settings parse_none given_settings given_flags assigned_demo given_settings-AreFor

-- An unknown flag ends the process with 2, and a request for help with 0.
unknown : parse (register_flags parse_none) (codes "-prot" ∷ codes "1" ∷ []) assigned_demo ≡ exits 2
unfolding parse cut index has_prefix get bytes_beq
unknown = refl

help : parse (register_flags parse_none) (codes "--help" ∷ []) assigned_demo ≡ exits 0
unfolding parse cut index has_prefix get bytes_beq
help = refl

given_flags-IsPlain : All IsPlain given_flags
unfolding bytes_beq has_prefix
given_flags-IsPlain = (
  record { single = refl; name = ground arith; other_value = λ _. (refl, refl) },
  (
    record { single = refl; name = ground arith; other_value = λ e. clash e },
    (record { single = refl; name = ground arith; other_value = λ e. clash e }, tt),
  ),
)
  where
    clash : {P : Type 0} → true ≡ false → P
    clash e = cc

abbrev started_args : List Bytes
started_args =
    child_args (print given_flags) (find_pid_file (default_pid_file linux) (print given_flags))

abbrev launched : Launched (Config ℕ × List (Listener Bytes))
launched = configure_args machine started_args

abbrev obtained_from :
    Launched (Config ℕ × List (Listener Bytes)) → Config ℕ × List (Listener Bytes)
obtained_from (configured (returned made)) = made
obtained_from _ = (odd_config, [])

launched_well : launched ≡ configured (returned (obtained_from launched))
unfolding configure_args tls_source bytes_beq int_beq int_leb get trim_suffix has_prefix cut put
    index child_args find_pid_file parse_int parse_bool
launched_well = refl

configure_args-pidfile_example :
    (obtained_from launched).0.pidfile ≡ find_pid_file (default_pid_file linux) (print given_flags)
configure_args-pidfile_example =
    configure_args-pidfile machine given_flags (obtained_from launched).0 (obtained_from launched).1
      given_flags-IsPlain given_flags-IsGiven (unfold bytes_beq in omega arith) launched_well

abbrev two_pid_files : List Bytes
two_pid_files = codes "-pidfile" ∷ codes "a" ∷ codes "-pidfile" ∷ codes "b" ∷ []

-- With two flags of a pid file the command bool_of the first and the server the last.
first_of_two :
    find_pid_file [] (child_args two_pid_files (find_pid_file [] two_pid_files)) ≡ codes "a"
unfolding find_pid_file child_args bytes_beq
first_of_two = refl

last_of_two :
    (obtained_from (configure_args machine (child_args two_pid_files (codes "a")))).0.pidfile
    ≡ codes "b"
unfolding configure_args tls_source bytes_beq int_beq int_leb get trim_suffix has_prefix cut put
    index child_args
last_of_two = refl
