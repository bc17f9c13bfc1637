-- ===== src/Flags/Child.antt =====
-- The pid file of the process that `daemonStart` of daemon_unix.go starts: what its command line sets,
-- against what `findPidFile` finds there.
use nvda_remote_server.Common.{
  ℕ, suc, ◌≡◌, sym, ap, ◌∙◌, Bool, true, false, Option, none, some, List, [], ◌∷◌, Bytes, codes,
  bytes_eq, bytes_beq, bytes_beq_iff, ◌==◌, if◌then◌else◌, All, Bool-cases, inl, inr, subst,
}
use nvda_remote_server.GoMap.{Map, get}
use nvda_remote_server.Flags.{Flag, FlagSet, finished}
use nvda_remote_server.Flags.Printed.{Given, assigned, assigned-cons}
use nvda_remote_server.Flags.Registered.{Variables, string_var, register_flags}
use nvda_remote_server.Flags.Kept.{KeepsPidfile, register_flags-KeepsPidfile}

abbrev pub pidfile_name : Bytes
pidfile_name = codes "pidfile"

-- The value of the last flag of a pid file, and of the first.
abbrev pub last_pidfile : Bytes → List Given → Bytes
last_pidfile d [] = d
last_pidfile d (g ∷ gs) = last_pidfile (if g.name == pidfile_name then g.value else d) gs

abbrev pub first_pidfile : Bytes → List Given → Bytes
first_pidfile d [] = d
first_pidfile d (g ∷ gs) =
    let rest = first_pidfile d gs in if g.name == pidfile_name then g.value else rest

-- How many there are.
abbrev pub pidfiles : List Given → ℕ
pidfiles [] = 0
pidfiles (g ∷ gs) = let n = pidfiles gs in if g.name == pidfile_name then suc n else n

module _ {Float : Type 0} (parse_float : Bytes → Option Float) where
  get-KeepsPidfile :
      (m : Map Bytes (Flag (Variables Float))) (name : Bytes) (f : Flag (Variables Float))
      → All KeepsPidfile m
      → get name m ≡ some f
      → KeepsPidfile (name, f)
  unfolding get
  get-KeepsPidfile [] name f h e = absurd (clash e)
    where
      clash : none ≡ some f → ⊥
      clash e = cc
  get-KeepsPidfile ((n, g) ∷ m) name f (k, h) e = elim (Bool-cases (bytes_beq n name)) [
    | inl b ↦
        subst (λ (p : Bytes × Flag (Variables Float)). KeepsPidfile p)
          (λ i. ((bytes_beq_iff n name).0 b i, same (rw (b, get) at e) i)) k
    | inr b ↦ get-KeepsPidfile m name f h (rw (b, get) at e)
  ]
    where
      same : some g ≡ some f → g ≡ f
      same e = cc

  registered_pidfile :
      (f : Flag (Variables Float)) (value : Bytes) (v v' : Variables Float)
      → get pidfile_name (register_flags parse_float) ≡ some f
      → f.set value v ≡ some v'
      → v'.config.pidfile ≡ value
  unfolding get bytes_beq
  registered_pidfile f value v v' e h =
      ap (λ (u : Variables Float). u.config.pidfile)
        (same_vars (sym h ∙ ap (λ g. g.set value v) (sym (same_flag e))))
    where
      same_flag :
          some (string_var (λ s c. record c { pidfile = s })) ≡ some f
          → string_var (λ s c. record c { pidfile = s }) ≡ f
      same_flag e = cc

      same_vars :
          some v' ≡ some (record v { config = record v.config { pidfile = value } })
          → v' ≡ record v { config = record v.config { pidfile = value } }
      same_vars e = cc

  -- The flag bool_of its value.
  pub pidfile-valued :
      (f : Flag (Variables Float))
      → get pidfile_name (register_flags parse_float) ≡ some f
      → f.is_bool ≡ false
  unfolding get bytes_beq
  pidfile-valued f e = ap (λ (o : Option (Flag (Variables Float))). bool_of o) (sym e)
    where
      bool_of : Option (Flag (Variables Float)) → Bool
      bool_of none = false
      bool_of (some g) = g.is_bool

  abbrev pub pidfile_of : FlagSet (Variables Float) → Bytes
  pidfile_of l = l.vars.config.pidfile

  -- One flag that is set.
  set_pidfile :
      (g : Given) (f : Flag (Variables Float)) (v v' : Variables Float)
      → get g.name (register_flags parse_float) ≡ some f
      → f.set g.value v ≡ some v'
      → v'.config.pidfile ≡ (if g.name == pidfile_name then g.value else v.config.pidfile)
  set_pidfile g f v v' e h = elim (Bool-cases (bytes_beq g.name pidfile_name)) [
    | inl b ↦ rw b (
        registered_pidfile f g.value v v'
          (ap (λ n. get n (register_flags parse_float))
              (sym ((bytes_beq_iff g.name pidfile_name).0 b))
            ∙ e)
          h)
    | inr b ↦ rw b (
        get-KeepsPidfile (register_flags parse_float) g.name f
          (register_flags-KeepsPidfile parse_float) e g.value v v'
          (λ same. other (sym b ∙ (bytes_beq_iff g.name pidfile_name).1 same)) h)
  ]
    where
      other : false ≡ true → ⊥
      other e = cc

  -- The pid file that a command line sets is that of its last flag.
  pub assigned-last_pidfile :
      (gs : List Given) (l l' : FlagSet (Variables Float))
      → assigned (register_flags parse_float) gs l ≡ finished l'
      → pidfile_of l' ≡ last_pidfile (pidfile_of l) gs
  assigned-last_pidfile [] l l' e = ap pidfile_of (sym (same e))
    where
      same : finished l ≡ finished l' → l ≡ l'
      same e = cc
  assigned-last_pidfile (g ∷ gs) l l' e =
      let (f, vars, n, s, rest) = assigned-cons (register_flags parse_float) g gs l l' e in
      assigned-last_pidfile gs (record { vars = vars; visited = g.name ∷ l.visited }) l' rest
      ∙ ap (λ d. last_pidfile d gs) (set_pidfile g f l.vars vars n s)
