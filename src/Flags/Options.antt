-- ===== src/Flags/Options.antt =====
-- The options of README.MD: a command line of them is read as the settings that it spells
-- (`registerFlags` and `flag.Parse` in `Configure`, server/configure.go).
use nvda_remote_server.Common.{
  ◌≡◌, refl, sym, ap, ◌∙◌, Bool, true, false, Option, some, List, [], ◌∷◌, Bytes, codes, bytes_eq,
  bytes_beq, All, arith, subst,
}
use nvda_remote_server.Common.Int.{ℤ}
use nvda_remote_server.GoMap.{get}
use nvda_remote_server.Flags.{Flag, FlagSet, finished, parse}
use nvda_remote_server.Flags.Values.{parse_int, parse_bool}
use nvda_remote_server.Flags.Dashed.{IsName}
use nvda_remote_server.Flags.Printed.{Given, print, IsGiven, assigned, parse-print}
use nvda_remote_server.Flags.Registered.{Variables, int_var, float_var, bool_var, register_flags}

-- A setting that an option makes, by the variable that it is about.
pub data Setting (Float : Type 0) : Type 0 where
  certfile_is keyfile_is domain_is acme_email_is acme_ca_is pidfile_is logfile_is motd_is iface_is
        iface6_is conf_file_is :
      Bytes → Setting Float
  loglevel_is ping_time_is max_msg_len_is port_is port6_is : ℤ → Setting Float
  timeout_is : Float → Setting Float
  display_is tracebacks_is : Bool → Setting Float

module _ {Float : Type 0} (parse_float : Bytes → Option Float) where
  -- The name of the option in README.MD.
  abbrev pub option : Setting Float → Bytes
  option (certfile_is v) = codes "certfile"
  option (keyfile_is v) = codes "keyfile"
  option (domain_is v) = codes "domain"
  option (acme_email_is v) = codes "acme_email"
  option (acme_ca_is v) = codes "acme_ca"
  option (pidfile_is v) = codes "pidfile"
  option (logfile_is v) = codes "logfile"
  option (motd_is v) = codes "motd"
  option (iface_is v) = codes "interface"
  option (iface6_is v) = codes "interface6"
  option (loglevel_is v) = codes "loglevel"
  option (ping_time_is v) = codes "ping_time"
  option (max_msg_len_is v) = codes "allowedMessageLength"
  option (port_is v) = codes "port"
  option (port6_is v) = codes "port6"
  option (conf_file_is v) = codes "configfile"
  option (timeout_is v) = codes "timeout"
  option (display_is v) = codes "motd_force_display"
  option (tracebacks_is v) = codes "includeTracebacks"

  -- The variables with the setting made.
  abbrev pub stored : Setting Float → Variables Float → Variables Float
  stored (certfile_is v) vars = record vars { config = record vars.config { certfile = v } }
  stored (keyfile_is v) vars = record vars { config = record vars.config { keyfile = v } }
  stored (domain_is v) vars = record vars { config = record vars.config { domain = v } }
  stored (acme_email_is v) vars = record vars { config = record vars.config { acme_email = v } }
  stored (acme_ca_is v) vars = record vars { config = record vars.config { acme_ca = v } }
  stored (pidfile_is v) vars = record vars { config = record vars.config { pidfile = v } }
  stored (logfile_is v) vars = record vars { config = record vars.config { logfile = v } }
  stored (motd_is v) vars = record vars { config = record vars.config { motd = v } }
  stored (iface_is v) vars = record vars { config = record vars.config { iface = v } }
  stored (iface6_is v) vars = record vars { config = record vars.config { iface6 = v } }
  stored (loglevel_is v) vars = record vars { config = record vars.config { loglevel = v } }
  stored (ping_time_is v) vars = record vars { config = record vars.config { ping_time = v } }
  stored (max_msg_len_is v) vars = record vars { config = record vars.config { max_msg_len = v } }
  stored (port_is v) vars = record vars { config = record vars.config { port = v } }
  stored (port6_is v) vars = record vars { config = record vars.config { port6 = v } }
  stored (conf_file_is v) vars = record vars { conf_file = v }
  stored (timeout_is v) vars = record vars { config = record vars.config { timeout_secs = v } }
  stored (display_is v) vars = record vars {
    config = record vars.config { motd_always_display = v };
  }
  stored (tracebacks_is v) vars = record vars { include_tracebacks = v }

  -- What the text of a value means.
  abbrev pub Spells : Setting Float → Bytes → Type 0
  Spells (certfile_is v) text = text ≡ v
  Spells (keyfile_is v) text = text ≡ v
  Spells (domain_is v) text = text ≡ v
  Spells (acme_email_is v) text = text ≡ v
  Spells (acme_ca_is v) text = text ≡ v
  Spells (pidfile_is v) text = text ≡ v
  Spells (logfile_is v) text = text ≡ v
  Spells (motd_is v) text = text ≡ v
  Spells (iface_is v) text = text ≡ v
  Spells (iface6_is v) text = text ≡ v
  Spells (conf_file_is v) text = text ≡ v
  Spells (loglevel_is v) text = parse_int text ≡ some v
  Spells (ping_time_is v) text = parse_int text ≡ some v
  Spells (max_msg_len_is v) text = parse_int text ≡ some v
  Spells (port_is v) text = parse_int text ≡ some v
  Spells (port6_is v) text = parse_int text ≡ some v
  Spells (timeout_is v) text = parse_float text ≡ some v
  Spells (display_is v) text = parse_bool text ≡ some v
  Spells (tracebacks_is v) text = parse_bool text ≡ some v

  -- A switch has its value joined to it.
  abbrev pub is_switch : Setting Float → Bool
  is_switch (display_is v) = true
  is_switch (tracebacks_is v) = true
  is_switch _ = false

  -- A flag that is given for a setting.
  pub record IsFor (s : Setting Float) (g : Given) : Type 0 where
    pub named : g.name ≡ option s
    pub spelled : Spells s g.value
    pub switched : is_switch s ≡ true → g.joined ≡ true

  -- Flags that are given for settings, one for each.
  abbrev pub AreFor : List (Setting Float) → List Given → Type 0
  AreFor [] [] = Unit {0}
  AreFor [] (g ∷ gs) = ⊥
  AreFor (s ∷ ss) [] = ⊥
  AreFor (s ∷ ss) (g ∷ gs) = IsFor s g × AreFor ss gs

  -- The settings are made one after the other.
  abbrev pub made : List (Setting Float) → FlagSet (Variables Float) → FlagSet (Variables Float)
  made [] l = l
  made (s ∷ ss) l = made ss (record { vars = stored s l.vars; visited = option s ∷ l.visited })

  option-IsName : (s : Setting Float) → IsName (option s)
  option-IsName (certfile_is v) = ground arith
  option-IsName (keyfile_is v) = ground arith
  option-IsName (domain_is v) = ground arith
  option-IsName (acme_email_is v) = ground arith
  option-IsName (acme_ca_is v) = ground arith
  option-IsName (pidfile_is v) = ground arith
  option-IsName (logfile_is v) = ground arith
  option-IsName (motd_is v) = ground arith
  option-IsName (iface_is v) = ground arith
  option-IsName (iface6_is v) = ground arith
  option-IsName (loglevel_is v) = ground arith
  option-IsName (ping_time_is v) = ground arith
  option-IsName (max_msg_len_is v) = ground arith
  option-IsName (port_is v) = ground arith
  option-IsName (port6_is v) = ground arith
  option-IsName (conf_file_is v) = ground arith
  option-IsName (timeout_is v) = ground arith
  option-IsName (display_is v) = ground arith
  option-IsName (tracebacks_is v) = ground arith

  -- The flag that is registered for a setting makes it.
  registered :
      (s : Setting Float) (text : Bytes)
      → Spells s text
      → (f : Flag (Variables Float)) × (get (option s) (register_flags parse_float) ≡ some f)
        × ((vars : Variables Float) → f.set text vars ≡ some (stored s vars))
        × (f.is_bool ≡ is_switch s)
  unfolding get bytes_beq
  registered (certfile_is v) text e = (
    _,
    refl,
    (λ vars. ap (λ t. some (record vars { config = record vars.config { certfile = t } })) e),
    refl,
  )
  registered (keyfile_is v) text e = (
    _,
    refl,
    (λ vars. ap (λ t. some (record vars { config = record vars.config { keyfile = t } })) e),
    refl,
  )
  registered (domain_is v) text e = (
    _,
    refl,
    (λ vars. ap (λ t. some (record vars { config = record vars.config { domain = t } })) e),
    refl,
  )
  registered (acme_email_is v) text e = (
    _,
    refl,
    (λ vars. ap (λ t. some (record vars { config = record vars.config { acme_email = t } })) e),
    refl,
  )
  registered (acme_ca_is v) text e = (
    _,
    refl,
    (λ vars. ap (λ t. some (record vars { config = record vars.config { acme_ca = t } })) e),
    refl,
  )
  registered (pidfile_is v) text e = (
    _,
    refl,
    (λ vars. ap (λ t. some (record vars { config = record vars.config { pidfile = t } })) e),
    refl,
  )
  registered (logfile_is v) text e = (
    _,
    refl,
    (λ vars. ap (λ t. some (record vars { config = record vars.config { logfile = t } })) e),
    refl,
  )
  registered (motd_is v) text e = (
    _,
    refl,
    (λ vars. ap (λ t. some (record vars { config = record vars.config { motd = t } })) e),
    refl,
  )
  registered (iface_is v) text e = (
    _,
    refl,
    (λ vars. ap (λ t. some (record vars { config = record vars.config { iface = t } })) e),
    refl,
  )
  registered (iface6_is v) text e = (
    _,
    refl,
    (λ vars. ap (λ t. some (record vars { config = record vars.config { iface6 = t } })) e),
    refl,
  )
  registered (conf_file_is v) text e =
      (_, refl, (λ vars. ap (λ t. some (record vars { conf_file = t })) e), refl)
  registered (loglevel_is v) text e = (_, refl, (λ vars. rw (e, int_var) refl), refl)
  registered (ping_time_is v) text e = (_, refl, (λ vars. rw (e, int_var) refl), refl)
  registered (max_msg_len_is v) text e = (_, refl, (λ vars. rw (e, int_var) refl), refl)
  registered (port_is v) text e = (_, refl, (λ vars. rw (e, int_var) refl), refl)
  registered (port6_is v) text e = (_, refl, (λ vars. rw (e, int_var) refl), refl)
  registered (timeout_is v) text e = (_, refl, (λ vars. rw (e, float_var) refl), refl)
  registered (display_is v) text e = (_, refl, (λ vars. rw (e, bool_var) refl), refl)
  registered (tracebacks_is v) text e = (_, refl, (λ vars. rw (e, bool_var) refl), refl)

  for-IsGiven : (s : Setting Float) (g : Given) → IsFor s g → IsGiven (register_flags parse_float) g
  for-IsGiven s g h = record {
    name = subst IsName (sym h.named) (option-IsName s);
    separate = λ f e b.
        let (f', found, sets, switch) = registered s g.value h.spelled in
        h.switched (
          sym switch
          ∙ ap (λ (x : Flag (Variables Float)). x.is_bool)
              (same (sym found ∙ ap (λ n. get n (register_flags parse_float)) (sym h.named) ∙ e))
          ∙ b);
  }
    where
      same : {a b : Flag (Variables Float)} → some a ≡ some b → a ≡ b
      same e = cc

  assigned-made :
      (ss : List (Setting Float)) (gs : List Given) (l : FlagSet (Variables Float))
      → AreFor ss gs
      → assigned (register_flags parse_float) gs l ≡ finished (made ss l)
  assigned-made [] [] l h = refl
  assigned-made [] (g ∷ gs) l h = absurd h
  assigned-made (s ∷ ss) [] l h = absurd h
  assigned-made (s ∷ ss) (g ∷ gs) l (h, hs) =
      let (f, found, sets, b) = registered s g.value h.spelled in
      rw (h.named, assigned, found, sets l.vars)
        (rw h.named (
          assigned-made ss gs (record { vars = stored s l.vars; visited = option s ∷ l.visited })
            hs))

  AreFor-IsGiven :
      (ss : List (Setting Float)) (gs : List Given)
      → AreFor ss gs
      → All (IsGiven (register_flags parse_float)) gs
  AreFor-IsGiven [] [] h = tt
  AreFor-IsGiven [] (g ∷ gs) h = absurd h
  AreFor-IsGiven (s ∷ ss) [] h = absurd h
  AreFor-IsGiven (s ∷ ss) (g ∷ gs) (h, hs) = (for-IsGiven s g h, AreFor-IsGiven ss gs hs)

  -- A command line of the options, each with a value that spells a setting of its type, behind one dash
  -- or two and joined by "=" or as two arguments (but joined for the two switches), is read without an
  -- error: every setting is made in the variable of its option, one after the other, so that the last
  -- of two for one variable stays, no other variable is changed, and the options are noted as given.
  pub parse_settings :
      (ss : List (Setting Float)) (gs : List Given) (vars : Variables Float)
      → AreFor ss gs
      → parse (register_flags parse_float) (print gs) vars
        ≡ finished (made ss (record { vars = vars; visited = [] }))
  parse_settings ss gs vars h =
      parse-print (register_flags parse_float) gs vars (AreFor-IsGiven ss gs h)
      ∙ assigned-made ss gs (record { vars = vars; visited = [] }) h
