-- ===== src/Flags/Kept.antt =====
-- No other flag of server/configure.go than `pidfile` changes the name of the pid file.
use nvda_remote_server.Common.{
  ◌≡◌, ◌≢◌, refl, sym, ap, ◌∙◌, Bool, Option, none, some, Bytes, codes, bytes_eq, All, Option-cases,
  inl, inr,
}
use nvda_remote_server.Common.Int.{ℤ}
use nvda_remote_server.Config.{Config}
use nvda_remote_server.Flags.{Flag}
use nvda_remote_server.Flags.Values.{parse_int, parse_bool}
use nvda_remote_server.Flags.Registered.{
  Variables, string_var, int_var, float_var, bool_var, register_flags,
}

abbrev pub pidfile_name : Bytes
pidfile_name = codes "pidfile"

same_some : {A : Type 0} → {a b : A} → some a ≡ some b → a ≡ b
same_some e = cc

no_some : {A P : Type 0} → {a : A} → none ≡ some a → P
no_some e = cc

module _ {Float : Type 0} where
  -- A flag that is not that of the pid file leaves the pid file as it was.
  abbrev pub KeepsPidfile : Bytes × Flag (Variables Float) → Type 0
  KeepsPidfile (name, f) =
      (value : Bytes) (v v' : Variables Float)
      → name ≢ pidfile_name
      → f.set value v ≡ some v'
      → v'.config.pidfile ≡ v.config.pidfile

  module _ (name : Bytes) where
    string_var-KeepsPidfile :
        (assign : Bytes → Config Float → Config Float)
        → ((s : Bytes) (c : Config Float) → (assign s c).pidfile ≡ c.pidfile)
        → KeepsPidfile (name, string_var assign)
    string_var-KeepsPidfile assign keeps value v v' ne e =
        ap (λ (u : Variables Float). u.config.pidfile) (sym (same_some e)) ∙ keeps value v.config

    int_var-KeepsPidfile :
        (assign : ℤ → Config Float → Config Float)
        → ((n : ℤ) (c : Config Float) → (assign n c).pidfile ≡ c.pidfile)
        → KeepsPidfile (name, int_var assign)
    int_var-KeepsPidfile assign keeps value v v' ne e = elim (Option-cases (parse_int value)) [
      | inl p ↦ no_some (rw (p, int_var) at e)
      | inr (n, p) ↦
          ap (λ (u : Variables Float). u.config.pidfile) (sym (same_some (rw (p, int_var) at e)))
          ∙ keeps n v.config
    ]

    bool_var-KeepsPidfile :
        (assign : Bool → Variables Float → Variables Float)
        → ((b : Bool) (u : Variables Float) → (assign b u).config.pidfile ≡ u.config.pidfile)
        → KeepsPidfile (name, bool_var assign)
    bool_var-KeepsPidfile assign keeps value v v' ne e = elim (Option-cases (parse_bool value)) [
      | inl p ↦ no_some (rw (p, bool_var) at e)
      | inr (b, p) ↦
          ap (λ (u : Variables Float). u.config.pidfile) (sym (same_some (rw (p, bool_var) at e)))
          ∙ keeps b v
    ]

    float_var-KeepsPidfile :
        (parse_float : Bytes → Option Float) (assign : Float → Config Float → Config Float)
        → ((x : Float) (c : Config Float) → (assign x c).pidfile ≡ c.pidfile)
        → KeepsPidfile (name, float_var parse_float assign)
    float_var-KeepsPidfile parse_float assign keeps value v v' ne e =
        elim (Option-cases (parse_float value)) [
          | inl p ↦ no_some (rw p at e)
          | inr (x, p) ↦
              ap (λ (u : Variables Float). u.config.pidfile) (sym (same_some (rw p at e)))
              ∙ keeps x v.config
        ]

  pub register_flags-KeepsPidfile :
      (parse_float : Bytes → Option Float) → All KeepsPidfile (register_flags parse_float)
  register_flags-KeepsPidfile parse_float = (
    λ value v v' ne e. ap (λ (u : Variables Float). u.config.pidfile) (sym (same_some e)),
    (
      string_var-KeepsPidfile _ _ (λ s c. refl),
      (
        string_var-KeepsPidfile _ _ (λ s c. refl),
        (
          string_var-KeepsPidfile _ _ (λ s c. refl),
          (
            string_var-KeepsPidfile _ _ (λ s c. refl),
            (
              string_var-KeepsPidfile _ _ (λ s c. refl),
              (
                λ value v v' ne e. absurd (ne refl),
                (
                  int_var-KeepsPidfile _ _ (λ n c. refl),
                  (
                    string_var-KeepsPidfile _ _ (λ s c. refl),
                    (
                      string_var-KeepsPidfile _ _ (λ s c. refl),
                      (
                        bool_var-KeepsPidfile _ _ (λ b u. refl),
                        (
                          bool_var-KeepsPidfile _ _ (λ b u. refl),
                          (
                            float_var-KeepsPidfile _ _ _ (λ x c. refl),
                            (
                              int_var-KeepsPidfile _ _ (λ n c. refl),
                              (
                                int_var-KeepsPidfile _ _ (λ n c. refl),
                                (
                                  string_var-KeepsPidfile _ _ (λ s c. refl),
                                  (
                                    string_var-KeepsPidfile _ _ (λ s c. refl),
                                    (
                                      int_var-KeepsPidfile _ _ (λ n c. refl),
                                      (int_var-KeepsPidfile _ _ (λ n c. refl), tt),
                                    ),
                                  ),
                                ),
                              ),
                            ),
                          ),
                        ),
                      ),
                    ),
                  ),
                ),
              ),
            ),
          ),
        ),
      ),
    ),
  )
