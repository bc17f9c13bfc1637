-- ===== src/Examples/Startup.antt =====
-- A machine with a configuration file, and what the theorems on the start of the server say there.
use nvda_remote_server.Common.{
  ℕ, ◌≡◌, ◌≢◌, ◌↔◌, ◌⊎◌, refl, true, false, List, [], ◌∷◌, Bytes, codes, bytes_beq, map, All,
  length, arith, Outcome, ok, panic,
}
use nvda_remote_server.Common.Int.{int_beq, int_leb}
use nvda_remote_server.GoMap.{get, put}
use nvda_remote_server.Json.Decimal.{append_int}
use nvda_remote_server.Strings.{has_prefix}
use nvda_remote_server.Strings.Space.{strip, trim_left, trim_space}
use nvda_remote_server.Strings.Split.{split, trim_suffix, cut}
use nvda_remote_server.Config.{Config}
use nvda_remote_server.Config.Limits.{IsInRange}
use nvda_remote_server.Config.File.{Fallible, failed, returned, conf_read_python}
use nvda_remote_server.Config.Lines.{
  Line, setting, remark, IsLine, file_text, named_by, conf_read_python-file_text,
}
use nvda_remote_server.Config.Addresses.{
  has_byte, build_addresses, join_host_port, build_addresses_once,
}
use nvda_remote_server.Config.Startup.{
  Machine, found, unreadable, managed, linux, loaded, self_signed, tls_source, configure, generates,
  Listener,
}
use nvda_remote_server.RemoteAddress.{get_ip}
use nvda_remote_server.RemoteAddress.Joined.{get_ip-join_host_port}
use nvda_remote_server.Config.Ready.{
  NamesFiles, HidesFile, IsListener, tls_source_choice, configure-IsReady,
}
use nvda_remote_server.Examples.Services.{odd_config, below_one, parse_none}

abbrev conf_lines : List Line
conf_lines =
    remark (codes "# a comment")
    ∷ setting (codes " port ") (codes "6000")
    ∷ remark []
    ∷ setting (codes "motd") (codes "a = b")
    ∷ setting (codes "port") (codes "70000")
    ∷ []

avoids : (c : ℕ) (s : Bytes) → has_byte c s ≡ false → All (λ d. d ≢ c) s
unfolding has_byte
avoids c [] h = tt
avoids c (d ∷ s) h = (λ e. ground (arith, e, h), avoids c s (ground (arith, h)))

conf_lines-IsLine : All IsLine conf_lines
unfolding trim_suffix has_prefix strip trim_left trim_space has_byte
conf_lines-IsLine = (
  ((avoids b'\n' (codes "# a comment") refl, refl), refl),
  (
    (
      avoids b'=' (codes " port ") refl,
      avoids b'\n' (codes " port ") refl,
      refl,
      (avoids b'\n' (codes "6000") refl, refl),
    ),
    (
      ((tt, refl), refl),
      (
        (
          avoids b'=' (codes "motd") refl,
          avoids b'\n' (codes "motd") refl,
          refl,
          (avoids b'\n' (codes "a = b") refl, refl),
        ),
        (
          (
            avoids b'=' (codes "port") refl,
            avoids b'\n' (codes "port") refl,
            refl,
            (avoids b'\n' (codes "70000") refl, refl),
          ),
          tt,
        ),
      ),
    ),
  ),
)

abbrev pub machine : Machine ℕ Bytes
machine = record {
  platform = linux;
  read_file = λ path. returned (file_text true conf_lines);
  stat = λ path. found false;
  default_acme = record { email = []; agreed = false; ca = codes "ca" };
  manage_sync = λ acme domains. failed (codes "offline");
  gen_cert = returned (codes "own");
  load_key_pair = λ cert key. returned cert;
  parse_float = parse_none;
  below_one = below_one;
  default_timeout = 5;
}

conf_read_python-file_text_example :
    conf_read_python (λ path. returned (file_text true conf_lines)) (codes "conf")
    ≡ returned (named_by [] conf_lines)
conf_read_python-file_text_example =
    conf_read_python-file_text (λ path. returned (file_text true conf_lines)) (codes "conf") true
      conf_lines conf_lines-IsLine refl

-- The names are trimmed, and the last `port` wins.
named_lines :
    named_by [] conf_lines ≡ (codes "port", codes "70000") ∷ (codes "motd", codes "a = b") ∷ []
unfolding put bytes_beq has_prefix strip trim_left trim_space
named_lines = refl

build_addresses_once_example :
    ((length (build_addresses odd_config) ≡ 1)
      ↔ ((odd_config.iface ≡ odd_config.iface6) × (odd_config.port ≡ odd_config.port6)))
    × ((length (build_addresses odd_config) ≡ 1)
        ⊎ (build_addresses odd_config
            ≡ join_host_port odd_config.iface (append_int [] odd_config.port)
              ∷ join_host_port odd_config.iface6 (append_int [] odd_config.port6)
              ∷ []))
build_addresses_once_example = build_addresses_once odd_config

-- The certificate and the key of README.MD, in the default file of the system.
abbrev readme_config : Config ℕ
readme_config = record odd_config {
  certfile = codes "/usr/share/NVDARemoteServer/server.pem";
  keyfile = codes "/usr/share/NVDARemoteServer/server.pem";
}

tls_source_choice_example :
    ((tls_source machine readme_config ≡ panic) ↔ HidesFile machine readme_config)
    × ((tls_source machine readme_config ≡ ok (loaded readme_config.certfile readme_config.keyfile))
        ↔ ((readme_config.domain ≡ []) × NamesFiles machine readme_config))
    × ((tls_source machine readme_config ≡ ok self_signed) ↔ (
        (readme_config.domain ≡ [])
        × (HidesFile machine readme_config → ⊥)
        × (NamesFiles machine readme_config → ⊥)))
    × ((tls_source machine readme_config
          ≡ ok (managed (map trim_space (split b',' readme_config.domain))))
        ↔ ((readme_config.domain ≢ []) × (HidesFile machine readme_config → ⊥)))
tls_source_choice_example = tls_source_choice machine readme_config

readme_source : tls_source machine readme_config ≡ ok self_signed
unfolding tls_source bytes_beq generates
readme_source = refl

-- A key that may not be looked at, with a domain.
hidden_key :
    tls_source
      (record machine { stat = λ path. unreadable })
      (record readme_config { domain = codes "example.org" })
    ≡ panic
unfolding tls_source bytes_beq generates
hidden_key = refl

abbrev configured : Outcome (Fallible (Config ℕ × List (Listener Bytes)))
configured = configure machine (λ name. false) (codes "conf") odd_config

abbrev obtained :
    Outcome (Fallible (Config ℕ × List (Listener Bytes))) → Config ℕ × List (Listener Bytes)
obtained (ok (returned made)) = made
obtained _ = (odd_config, [])

configured_well : configured ≡ ok (returned (obtained configured))
unfolding configure tls_source bytes_beq int_beq int_leb get trim_suffix has_prefix cut put
configured_well = refl

configure-IsReady_example :
    IsInRange below_one (obtained configured).0
    × (map (λ (l : Listener Bytes). l.address) (obtained configured).1
        ≡ build_addresses (obtained configured).0)
    × All (IsListener machine) (obtained configured).1
configure-IsReady_example =
    configure-IsReady machine (λ name. false) (codes "conf") odd_config (obtained configured).0
      (obtained configured).1 refl configured_well

-- An IPv6 address with its zone.
get_ip-join_host_port_example :
    get_ip (join_host_port (codes "fe80::1%eth0") (codes "6837")) ≡ codes "fe80::1%eth0"
get_ip-join_host_port_example =
    get_ip-join_host_port (codes "fe80::1%eth0") (codes "6837")
      (unfold has_byte in record { opening = refl; closing = refl })
      (unfold has_byte in record { opening = refl; closing = refl }) (unfold has_byte in refl)
