-- ===== src/Config/Startup.antt =====
-- `Configure` of server/configure.go: the configuration file, the checks, the choice of a certificate
-- and the servers to start, from the values of the flags on. The file system and the certificates'
-- libraries are parameters.
use nvda_remote_server.Common.{
  ℕ, Bool, true, not, ◌||◌, Option, none, some, List, [], ◌∷◌, ◌++◌, Bytes, codes, bytes_eq, false,
  ◌==◌, if◌then◌else◌, map, Outcome, ok, panic, ◌>>=◌,
}
use nvda_remote_server.Strings.Space.{trim_space}
use nvda_remote_server.Strings.Split.{split}
use nvda_remote_server.Config.{Config, CliSet, conf_apply, validate_settings, handle_motd}
use nvda_remote_server.Config.File.{
  Fallible, failed, returned, conf_read_python, conf_print_missing,
}
use nvda_remote_server.Config.Addresses.{build_addresses}

-- runtime.GOOS
pub data Platform : Type 0 where
  linux darwin other : Platform

-- The defaults of `init` in server/defaults.go; that of the key file is empty on every system.
unfoldable pub default_cert_file : Platform → Bytes
default_cert_file other = []
default_cert_file _ = codes "/usr/share/NVDARemoteServer/server.pem"

abbrev pub default_key_file : Bytes
default_key_file = []

-- Where the certificate comes from.
pub data Source : Type 0 where
  -- CertMagic, for these domains
  managed : List Bytes → Source
  self_signed : Source
  -- the certificate and the key file
  loaded : Bytes → Bytes → Source

-- tls.VersionTLS12
abbrev pub version_tls12 : ℕ
version_tls12 = 771

pub record TlsConfig (Certificate : Type 0) : Type 0 where
  pub certificate : Certificate
  pub min_version : ℕ

-- What `NewWithTLSConfig` makes: an address, the terminator of messages and the configuration.
pub record Listener (Certificate : Type 0) : Type 0 where
  pub address : Bytes
  pub message_terminator : ℕ
  pub config : TlsConfig Certificate

-- certmagic.DefaultACME
pub record Acme : Type 0 where
  pub email : Bytes
  pub agreed : Bool
  pub ca : Bytes

-- What os.Stat says of a path: what is there is a directory or not, nothing is there (os.ErrNotExist),
-- or another error.
pub data Stat : Type 0 where
  found : Bool → Stat
  missing unreadable : Stat

-- What the code calls: os.ReadFile, os.Stat, CertMagic, `gen_cert`,
-- tls.LoadX509KeyPair and strconv.ParseFloat, with `below_one` for `timeoutSecs < 1.0` and
-- `default_acme` for CertMagic's own settings.
pub record Machine (Float Certificate : Type 0) : Type 0 where
  pub platform : Platform
  pub read_file : Bytes → Fallible Bytes
  pub stat : Bytes → Stat
  pub default_acme : Acme
  pub manage_sync : Acme → List Bytes → Fallible Certificate
  pub gen_cert : Fallible Certificate
  pub load_key_pair : Bytes → Bytes → Fallible Certificate
  pub parse_float : Bytes → Option Float
  pub below_one : Float → Bool
  pub default_timeout : Float

-- strings.Join(parts, sep)
unfoldable pub join_parts : Bytes → List Bytes → Bytes
join_parts sep [] = []
join_parts sep (p ∷ []) = p
join_parts sep (p ∷ q ∷ parts) = p ++ (sep ++ join_parts sep (q ∷ parts))

module _ {Float Certificate : Type 0} (m : Machine Float Certificate) where
  -- The settings with what is printed.
  unfoldable pub apply_config_file : CliSet → Bytes → Config Float → Config Float × Bytes
  unfolding conf_read_python conf_print_missing conf_apply
  apply_config_file cli_set conf_file c =
      if not (conf_file == [])
      then (elim (conf_read_python m.read_file conf_file) [
        | failed e ↦ (c, conf_print_missing conf_file (some e))
        | returned opts ↦ (conf_apply m.parse_float opts cli_set c, [])
      ])
      else (c, conf_print_missing [] none)

  -- `fileExists`: an error other than os.ErrNotExist comes with a nil FileInfo, and `info.IsDir()`
  -- panics.
  unfoldable pub file_exists : Bytes → Outcome Bool
  file_exists file = elim (m.stat file) [
    | found is_dir ↦ ok (not is_dir)
    | missing ↦ ok false
    | unreadable ↦ panic
  ]

  -- `file != defaultFile && !fileExists(file)`
  unfoldable pub is_gone : Bytes → Bytes → Outcome Bool
  unfolding file_exists
  is_gone default_file file =
      if file == default_file then ok false else (file_exists file >>= λ there. ok (not there))

  -- The value of `generate` in `buildTLSConfig`.
  unfoldable pub generates : Config Float → Outcome Bool
  unfolding default_cert_file is_gone
  generates c = do
    no_cert ← is_gone (default_cert_file m.platform) c.certfile
    no_key ← is_gone default_key_file c.keyfile
    ok (
        no_cert
        || no_key
        || (c.certfile == default_cert_file m.platform || c.keyfile == default_key_file))

  -- Both files are looked for before the domain is.
  unfoldable pub tls_source : Config Float → Outcome Source
  unfolding generates split trim_space
  tls_source c = do
    generate ← generates c
    ok (
        if not (c.domain == [])
        then managed (map trim_space (split b',' c.domain))
        else if generate
        then self_signed
        else loaded c.certfile c.keyfile)

  unfoldable pub acme_settings : Config Float → Acme
  acme_settings c = record {
    email = if not (c.acme_email == []) then c.acme_email else m.default_acme.email;
    agreed = true;
    ca = if not (c.acme_ca == []) then c.acme_ca else m.default_acme.ca;
  }

  -- A certificate becomes a configuration, and an error is wrapped.
  unfoldable pub with_certificate :
      (Bytes → Bytes) → Fallible Certificate → Fallible (TlsConfig Certificate)
  with_certificate wrap (failed e) = failed (wrap e)
  with_certificate wrap (returned cert) =
      returned (record { certificate = cert; min_version = version_tls12 })

  unfoldable pub config_from : Config Float → Source → Fallible (TlsConfig Certificate)
  unfolding acme_settings with_certificate join_parts
  config_from c (managed domains) =
      with_certificate
        (λ e.
          codes "certmagic ManageSync for "
          ++ (join_parts (codes ",") domains ++ (codes ": " ++ e)))
        (m.manage_sync (acme_settings c) domains)
  config_from c self_signed = with_certificate (λ e. e) m.gen_cert
  config_from c (loaded cert key) =
      with_certificate
        (λ e.
          codes "loading X509 key pair (" ++ (cert ++ (codes ", " ++ (key ++ (codes "): " ++ e)))))
        (m.load_key_pair cert key)

  unfoldable pub build_tls_config : Config Float → Outcome (Fallible (TlsConfig Certificate))
  unfolding tls_source config_from
  build_tls_config c = do source ← tls_source c; ok (config_from c source)

  -- New, NewWithTLSConfig
  unfoldable pub new_with_tls_config : TlsConfig Certificate → Bytes → Listener Certificate
  new_with_tls_config config address = record {
    address = address;
    message_terminator = b'\n';
    config = config;
  }

  -- The settings in force after the file and the checks.
  unfoldable pub settled : CliSet → Bytes → Config Float → Config Float
  unfolding apply_config_file validate_settings handle_motd
  settled cli_set conf_file c =
      handle_motd
        (validate_settings m.below_one m.default_timeout (apply_config_file cli_set conf_file c).0)

  -- `Servers`, unless there is an error.
  unfoldable pub with_servers :
      Config Float
      → Fallible (TlsConfig Certificate)
      → Fallible (Config Float × List (Listener Certificate))
  unfolding new_with_tls_config build_addresses
  with_servers c (failed e) = failed e
  with_servers c (returned config) =
      returned (c, map (new_with_tls_config config) (build_addresses c))

  -- `Configure`, from the settings that the flags leave, to the settings and `Servers`.
  unfoldable pub configure :
      CliSet
      → Bytes
      → Config Float
      → Outcome (Fallible (Config Float × List (Listener Certificate)))
  unfolding settled build_tls_config with_servers
  configure cli_set conf_file flags =
      let c = settled cli_set conf_file flags in
      build_tls_config c >>= λ config. ok (with_servers c config)
