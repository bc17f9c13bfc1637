-- ===== src/Config/Ready.antt =====
-- What `Configure` of server/configure.go leaves to `Start`, and which certificate `buildTLSConfig`
-- chooses.
use nvda_remote_server.Common.{
  ◌≡◌, ◌≢◌, ◌↔◌, ◌⊎◌, refl, sym, ap, ◌∙◌, subst, true, false, List, [], ◌∷◌, Bytes, bytes_eq,
  bytes_beq, bytes_beq_iff, map, All, inl, inr, Bool-cases, arith, Outcome, ok, panic, ◌>>=◌,
}
use nvda_remote_server.Config.{Config, CliSet}
use nvda_remote_server.Config.Limits.{IsInRange, validate_settings-IsInRange, handle_motd-IsInRange}
use nvda_remote_server.Config.File.{Fallible, failed, returned}
use nvda_remote_server.Config.Addresses.{build_addresses}
use nvda_remote_server.Strings.Space.{trim_space}
use nvda_remote_server.Strings.Split.{split}
use nvda_remote_server.Config.Startup.{
  Machine, Stat, found, missing, unreadable, file_exists, is_gone, with_servers, config_from,
  Source, managed, self_signed, loaded, TlsConfig, Listener, default_cert_file, version_tls12,
  generates, tls_source, build_tls_config, with_certificate, new_with_tls_config, settled,
  configure,
}

pub Fallible-cases :
    {A : Type 0} (o : Fallible A) → ((e : Bytes) × (o ≡ failed e)) ⊎ ((a : A) × (o ≡ returned a))
Fallible-cases (failed e) = inl (e, refl)
Fallible-cases (returned a) = inr (a, refl)

always : {P Q : Type 0} → P → Q → P ↔ Q
always p q = (λ _. q, λ _. p)

never : {P Q : Type 0} → (P → ⊥) → (Q → ⊥) → P ↔ Q
never n o = (λ p. absurd (n p), λ q. absurd (o q))

module _ {Float Certificate : Type 0} (m : Machine Float Certificate) where
  -- A file other than the default one that is there and is no directory.
  abbrev pub IsNamed : Bytes → Bytes → Type 0
  IsNamed default_file file = (file ≢ default_file) × (m.stat file ≡ found false)

  -- A file other than the default one that cannot be looked at.
  abbrev pub IsHidden : Bytes → Bytes → Type 0
  IsHidden default_file file = (file ≢ default_file) × (m.stat file ≡ unreadable)

  -- The settings name a certificate and a key that are there.
  abbrev pub NamesFiles : Config Float → Type 0
  NamesFiles c = IsNamed (default_cert_file m.platform) c.certfile × IsNamed [] c.keyfile

  -- A file that the settings name cannot be looked at.
  abbrev pub HidesFile : Config Float → Type 0
  HidesFile c = IsHidden (default_cert_file m.platform) c.certfile ⊎ IsHidden [] c.keyfile

  false_ne_true : false ≢ true
  false_ne_true f = cc

  Stat-cases :
      (s : Stat) → (s ≡ found true) ⊎ ((s ≡ found false) ⊎ ((s ≡ missing) ⊎ (s ≡ unreadable)))
  Stat-cases (found true) = inl refl
  Stat-cases (found false) = inr (inl refl)
  Stat-cases missing = inr (inr (inl refl))
  Stat-cases unreadable = inr (inr (inr refl))

  -- What the test of one file says.
  is_gone-cases :
      (d file : Bytes)
      → ((is_gone m d file ≡ panic) × IsHidden d file × (IsNamed d file → ⊥))
        ⊎ (((is_gone m d file ≡ ok true) × (IsHidden d file → ⊥) × (IsNamed d file → ⊥))
            ⊎ (((is_gone m d file ≡ ok false)
                  × (IsHidden d file → ⊥)
                  × (IsNamed d file → ⊥)
                  × (bytes_beq file d ≡ true))
                ⊎ ((is_gone m d file ≡ ok false)
                    × (IsHidden d file → ⊥)
                    × IsNamed d file
                    × (bytes_beq file d ≡ false))))
  unfolding is_gone file_exists
  is_gone-cases d file = elim (Bool-cases (bytes_beq file d)) [
    | inl e ↦ inr (
        inr (
          inl (
            rw (e, is_gone) refl,
            (λ h. h.0 ((bytes_beq_iff file d).0 e)),
            (λ h. h.0 ((bytes_beq_iff file d).0 e)),
            e,
          )))
    | inr e ↦ (elim (Stat-cases (m.stat file)) [
      | inl f ↦ inr (
          inl (
            rw (e, is_gone, f, file_exists) refl,
            λ h. ground (arith, f, h.1),
            λ h. ground (arith, f, h.1),
          ))
      | inr (inl f) ↦ inr (
          inr (
            inr (
              rw (e, is_gone, f, file_exists) refl,
              λ h. ground (arith, f, h.1),
              (differs e, f),
              e,
            )))
      | inr (inr (inl f)) ↦ inr (
          inl (
            rw (e, is_gone, f, file_exists) refl,
            λ h. ground (arith, f, h.1),
            λ h. ground (arith, f, h.1),
          ))
      | inr (inr (inr f)) ↦
          inl (rw (e, is_gone, f, file_exists) refl, (differs e, f), λ h. ground (arith, f, h.1))
    ])
  ]
    where
      differs : bytes_beq file d ≡ false → file ≢ d
      differs e h = false_ne_true (sym e ∙ (bytes_beq_iff file d).1 h)

  -- What the test of both files says.
  generates-cases :
      (c : Config Float)
      → ((generates m c ≡ panic) × HidesFile c × (NamesFiles c → ⊥))
        ⊎ (((generates m c ≡ ok true) × (HidesFile c → ⊥) × (NamesFiles c → ⊥))
            ⊎ ((generates m c ≡ ok false) × (HidesFile c → ⊥) × NamesFiles c))
  unfolding generates
  generates-cases c = elim (is_gone-cases (default_cert_file m.platform) c.certfile) [
    | inl (e, h, n) ↦ inl (rw (e, generates) refl, inl h, λ v. n v.0)
    | inr (inl (e, h, n)) ↦ (elim (is_gone-cases [] c.keyfile) [
      | inl (f, k, o) ↦ inl (rw (e, f, generates) refl, inr k, λ v. o v.1)
      | inr (inl (f, k, o)) ↦ inr (inl (rw (e, f, generates) refl, neither h k, λ v. o v.1))
      | inr (inr (inl (f, k, o, b))) ↦
          inr (inl (rw (e, f, generates) refl, neither h k, λ v. o v.1))
      | inr (inr (inr (f, k, o, b))) ↦
          inr (inl (rw (e, f, generates) refl, neither h k, λ v. n v.0))
    ])
    | inr (inr (inl (e, h, n, a))) ↦ (elim (is_gone-cases [] c.keyfile) [
      | inl (f, k, o) ↦ inl (rw (e, f, generates) refl, inr k, λ v. o v.1)
      | inr (inl (f, k, o)) ↦ inr (inl (rw (e, f, generates) refl, neither h k, λ v. o v.1))
      | inr (inr (inl (f, k, o, b))) ↦
          inr (inl (rw (e, f, a, generates) refl, neither h k, λ v. o v.1))
      | inr (inr (inr (f, k, o, b))) ↦
          inr (inl (rw (e, f, a, generates) refl, neither h k, λ v. n v.0))
    ])
    | inr (inr (inr (e, h, n, a))) ↦ (elim (is_gone-cases [] c.keyfile) [
      | inl (f, k, o) ↦ inl (rw (e, f, generates) refl, inr k, λ v. o v.1)
      | inr (inl (f, k, o)) ↦ inr (inl (rw (e, f, generates) refl, neither h k, λ v. o v.1))
      | inr (inr (inl (f, k, o, b))) ↦
          inr (inl (rw (e, f, a, b, generates) refl, neither h k, λ v. o v.1))
      | inr (inr (inr (f, k, o, b))) ↦
          inr (inr (rw (e, f, a, b, generates) refl, neither h k, (n, o)))
    ])
  ]
    where
      neither : {P Q : Type 0} → (P → ⊥) → (Q → ⊥) → (P ⊎ Q) → ⊥
      neither h k (inl p) = h p
      neither h k (inr q) = k q

  -- `Configure` panics exactly if one of the two files that the settings name, other than the defaults,
  -- cannot be looked at for another reason than that it does not exist, and this with a domain too.
  -- Otherwise the certificate is managed if there is a domain. Without one, the server loads the
  -- certificate and key that the settings name exactly if both are files, and not directories, the key
  -- file has a name and the certificate file is not the default one of the system, and makes its own
  -- certificate otherwise: a certificate in the default file is never used.
  pub tls_source_choice :
      (c : Config Float)
      → ((tls_source m c ≡ panic) ↔ HidesFile c)
        × ((tls_source m c ≡ ok (loaded c.certfile c.keyfile)) ↔ ((c.domain ≡ []) × NamesFiles c))
        × ((tls_source m c ≡ ok self_signed)
            ↔ ((c.domain ≡ []) × (HidesFile c → ⊥) × (NamesFiles c → ⊥)))
        × ((tls_source m c ≡ ok (managed (map trim_space (split b',' c.domain))))
            ↔ ((c.domain ≢ []) × (HidesFile c → ⊥)))
  unfolding tls_source
  tls_source_choice c = elim (generates-cases c) [
    | inl (e, h, n) ↦
        rw (e, tls_source)
          (
            always refl h,
            never (λ g. cc) (λ v. n v.1),
            never (λ g. cc) (λ v. v.1 h),
            never (λ g. cc) (λ v. v.1 h),
          )
    | inr (inl (e, h, n)) ↦ (elim (Bool-cases (bytes_beq c.domain [])) [
      | inl f ↦
          rw (e, f, tls_source)
            (
              never (λ g. cc) h,
              never (λ g. cc) (λ v. n v.1),
              always refl (none_given f, h, n),
              never (λ g. cc) (λ v. v.0 (none_given f)),
            )
      | inr f ↦
          rw (e, f, tls_source)
            (
              never (λ g. cc) h,
              never (λ g. cc) (λ v. n v.1),
              never (λ g. cc) (λ v. given f v.0),
              always refl (given f, h),
            )
    ])
    | inr (inr (e, h, n)) ↦ (elim (Bool-cases (bytes_beq c.domain [])) [
      | inl f ↦
          rw (e, f, tls_source)
            (
              never (λ g. cc) h,
              always refl (none_given f, n),
              never (λ g. cc) (λ v. v.2 n),
              never (λ g. cc) (λ v. v.0 (none_given f)),
            )
      | inr f ↦
          rw (e, f, tls_source)
            (
              never (λ g. cc) h,
              never (λ g. cc) (λ v. given f v.0),
              never (λ g. cc) (λ v. v.2 n),
              always refl (given f, h),
            )
    ])
  ]
    where
      none_given : bytes_beq c.domain [] ≡ true → c.domain ≡ []
      none_given = (bytes_beq_iff c.domain []).0

      given : bytes_beq c.domain [] ≡ false → c.domain ≢ []
      given f d = false_ne_true (sym f ∙ (bytes_beq_iff c.domain []).1 d)

  ok_returned : {A : Type 0} {a b : A} → ok (returned a) ≡ ok (returned b) → a ≡ b
  ok_returned e = cc

  with_certificate-min_version :
      (wrap : Bytes → Bytes) (o : Fallible Certificate) (t : TlsConfig Certificate)
      → with_certificate m wrap o ≡ returned t
      → t.min_version ≡ version_tls12
  unfolding with_certificate
  with_certificate-min_version wrap (failed e) t f = cc
  with_certificate-min_version wrap (returned cert) t f = cc

  config_from-min_version :
      (c : Config Float) (source : Source) (t : TlsConfig Certificate)
      → config_from m c source ≡ returned t
      → t.min_version ≡ version_tls12
  unfolding config_from
  config_from-min_version c (managed domains) t h = with_certificate-min_version _ _ t h
  config_from-min_version c self_signed t h = with_certificate-min_version _ m.gen_cert t h
  config_from-min_version c (loaded cert key) t h = with_certificate-min_version _ _ t h

  -- A result of `Configure` has the servers of a configuration that was built.
  configure-built :
      (cli_set : CliSet) (conf_file : Bytes) (flags c : Config Float)
      (servers : List (Listener Certificate))
      → configure m cli_set conf_file flags ≡ ok (returned (c, servers))
      → (t : TlsConfig Certificate) × (t.min_version ≡ version_tls12)
        × (◌≡◌ {A = Config Float × List (Listener Certificate)}
            (
              settled m cli_set conf_file flags,
              map (new_with_tls_config m t) (build_addresses (settled m cli_set conf_file flags)),
            )
            (c, servers))
  unfolding configure build_tls_config
  configure-built cli_set conf_file flags c servers e =
      by_source (tls_source m (settled m cli_set conf_file flags)) refl e
    where
      s : Config Float
      s = settled m cli_set conf_file flags

      by_config :
          (source : Source) (o : Fallible (TlsConfig Certificate))
          → config_from m s source ≡ o
          → ok (with_servers m s o) ≡ ok (returned (c, servers))
          → (t : TlsConfig Certificate) × (t.min_version ≡ version_tls12)
            × (◌≡◌ {A = Config Float × List (Listener Certificate)}
                (s, map (new_with_tls_config m t) (build_addresses s))
                (c, servers))
      by_config source (failed err) f g = cc
      by_config source (returned t) f g =
          (t, config_from-min_version s source t f, unfold with_servers in ok_returned g)

      by_source :
          (o : Outcome Source)
          → tls_source m s ≡ o
          → ((o >>= λ source. ok (config_from m s source)) >>= λ config.
              ok (with_servers m s config))
            ≡ ok (returned (c, servers))
          → (t : TlsConfig Certificate) × (t.min_version ≡ version_tls12)
            × (◌≡◌ {A = Config Float × List (Listener Certificate)}
                (s, map (new_with_tls_config m t) (build_addresses s))
                (c, servers))
      by_source panic f g = cc
      by_source (ok source) f g = by_config source _ refl g

  -- A server that `Configure` made.
  abbrev pub IsListener : Listener Certificate → Type 0
  IsListener l = (l.message_terminator ≡ b'\n') × (l.config.min_version ≡ version_tls12)

  made-IsListener :
      (t : TlsConfig Certificate) (addresses : List Bytes)
      → t.min_version ≡ version_tls12
      → All IsListener (map (new_with_tls_config m t) addresses)
  unfolding new_with_tls_config
  made-IsListener t [] e = tt
  made-IsListener t (a ∷ addresses) e = ((refl, e), made-IsListener t addresses e)

  addresses_made :
      (t : TlsConfig Certificate) (addresses : List Bytes)
      → map (λ (l : Listener Certificate). l.address) (map (new_with_tls_config m t) addresses)
        ≡ addresses
  unfolding new_with_tls_config
  addresses_made t [] = refl
  addresses_made t (a ∷ addresses) = ap (λ l. a ∷ l) (addresses_made t addresses)

  -- `Configure` returns the settings in force.
  pub configure-settled :
      (cli_set : CliSet) (conf_file : Bytes) (flags c : Config Float)
      (servers : List (Listener Certificate))
      → configure m cli_set conf_file flags ≡ ok (returned (c, servers))
      → settled m cli_set conf_file flags ≡ c
  configure-settled cli_set conf_file flags c servers e =
      let (t, v, same) = configure-built cli_set conf_file flags c servers e in
      ap (λ (p : Config Float × List (Listener Certificate)). p.0) same

  -- If `Configure` succeeds, whatever the flags and the configuration file hold, then the ports, the
  -- log level and the time between pings of the settings are in their ranges, and the timeout is not
  -- below one second as the code compares it, which a NaN is not either; the servers have the addresses
  -- of those settings in their order, and each of them ends messages with a line feed and asks for TLS
  -- 1.2 at least, wherever the certificate comes from. The default timeout is taken not to be below one
  -- second. The length of messages is not checked.
  pub configure-IsReady :
      (cli_set : CliSet) (conf_file : Bytes) (flags c : Config Float)
      (servers : List (Listener Certificate))
      → m.below_one m.default_timeout ≡ false
      → configure m cli_set conf_file flags ≡ ok (returned (c, servers))
      → IsInRange m.below_one c
        × (map (λ (l : Listener Certificate). l.address) servers ≡ build_addresses c)
        × All IsListener servers
  unfolding settled
  configure-IsReady cli_set conf_file flags c servers h e =
      let (t, v, same) = configure-built cli_set conf_file flags c servers e in
      subst (λ (p : Config Float × List (Listener Certificate)). Ready p.0 p.1) same
        (
          handle_motd-IsInRange m.below_one _
              (validate_settings-IsInRange m.below_one m.default_timeout _ h),
          addresses_made t (build_addresses s),
          made-IsListener t (build_addresses s) v,
        )
    where
      s : Config Float
      s = settled m cli_set conf_file flags

      Ready : Config Float → List (Listener Certificate) → Type 0
      Ready c servers =
          IsInRange m.below_one c
          × (map (λ (l : Listener Certificate). l.address) servers ≡ build_addresses c)
          × All IsListener servers
