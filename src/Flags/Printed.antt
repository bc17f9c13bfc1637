-- ===== src/Flags/Printed.antt =====
-- What `flag.Parse` makes of a command line of flags with their values, in each way to write them.
use nvda_remote_server.Common.{
  ℕ, zero, suc, ◌≤◌, ◌≡◌, refl, sym, ap, ◌∙◌, append-nil, Bool, true, false, ◌||◌, Option, none,
  some, List, [], ◌∷◌, ◌++◌, Bytes, codes, bytes_eq, ◌==◌, if◌then◌else◌, length, All, arith,
  Bool-cases, Option-cases, inl, inr,
}
use nvda_remote_server.GoMap.{Map, get}
use nvda_remote_server.Flags.Dashed.{
  dashed, IsName, flag_shape-name, flag_shape-value, shape-dashed,
}
use nvda_remote_server.Flags.{
  Flag, named, flag_shape, shape, FlagSet, Round, stops, ends, goes_on, Parsed, exits, finished,
  set_to, set_next, set_flag, named_flag, parse_one, parse_loop, parse,
}

-- A flag with its value, behind one dash or two, joined by "=" or as two arguments.
pub record Given : Type 0 where
  pub double : Bool
  pub joined : Bool
  pub name : Bytes
  pub value : Bytes

abbrev pub arguments : Given → List Bytes
arguments g =
    if g.joined
    then dashed g.double (g.name ++ (b'=' ∷ g.value)) ∷ []
    else dashed g.double g.name ∷ g.value ∷ []

abbrev pub print : List Given → List Bytes
print [] = []
print (g ∷ gs) = arguments g ++ print gs

module _ {S : Type 0} (registered : Map Bytes (Flag S)) where
  -- A flag of a command line: a Boolean one has its value joined to it.
  pub record IsGiven (g : Given) : Type 0 where
    pub name : IsName g.name
    pub separate :
        (f : Flag S) → get g.name registered ≡ some f → f.is_bool ≡ true → g.joined ≡ true

  -- The flags are set one after the other, until one is not registered or refuses its value.
  abbrev pub assigned : List Given → FlagSet S → Parsed S
  assigned [] l = finished l
  assigned (g ∷ gs) l = elim (get g.name registered) [
    | none ↦ exits (if g.name == codes "help" || g.name == codes "h" then 0 else 2)
    | some f ↦ (elim (f.set g.value l.vars) [
      | none ↦ exits 2
      | some vars ↦ assigned gs (record { vars = vars; visited = g.name ∷ l.visited })
    ])
  ]

  -- A first flag that does not end the process was set.
  pub assigned-cons :
      (g : Given) (gs : List Given) (l l' : FlagSet S)
      → assigned (g ∷ gs) l ≡ finished l'
      → (f : Flag S) × (vars : S) × (get g.name registered ≡ some f)
        × (f.set g.value l.vars ≡ some vars)
        × (assigned gs (record { vars = vars; visited = g.name ∷ l.visited }) ≡ finished l')
  assigned-cons g gs l l' e = elim (Option-cases (get g.name registered)) [
    | inl n ↦ stopped (rw (n, assigned) at e)
    | inr (f, n) ↦ (elim (Option-cases (f.set g.value l.vars)) [
      | inl s ↦ stopped (rw s at (rw (n, assigned) at e))
      | inr (vars, s) ↦ (f, vars, n, s, rw s at (rw (n, assigned) at e))
    ])
  ]
    where
      stopped : {P : Type 0} → {code : ℕ} → exits code ≡ finished l' → P
      stopped e = cc

  abbrev value_round : Given → List Bytes → FlagSet S → Round S
  value_round g rest l = elim (get g.name registered) [
    | none ↦ stops (if g.name == codes "help" || g.name == codes "h" then 0 else 2)
    | some f ↦ set_to registered g.name f g.value rest l
  ]

  named_flag-joined :
      (g : Given) (rest : List Bytes) (l : FlagSet S)
      → named_flag registered g.name (some g.value) rest l ≡ value_round g rest l
  unfolding named_flag set_flag
  named_flag-joined g rest l = elim (Option-cases (get g.name registered)) [
    | inl e ↦ rw (e, named_flag, value_round) refl
    | inr (f, e) ↦ rw (e, named_flag, value_round) refl
  ]

  named_flag-separate :
      (g : Given) (rest : List Bytes) (l : FlagSet S)
      → IsGiven g
      → g.joined ≡ false
      → named_flag registered g.name none (g.value ∷ rest) l ≡ value_round g rest l
  unfolding named_flag set_flag set_next
  named_flag-separate g rest l h apart = elim (Option-cases (get g.name registered)) [
    | inl e ↦ rw (e, named_flag, value_round) refl
    | inr (f, e) ↦
        rw (e, named_flag, value_round)
          (elim (Bool-cases f.is_bool) [
            | inl b ↦ clash (sym (h.separate f e b) ∙ apart)
            | inr b ↦ rw b refl
          ])
  ]
    where
      clash : {P : Type 0} → true ≡ false → P
      clash e = cc

  shaped :
      (a : Bytes) (name : Bytes) (value : Option Bytes) (args : List Bytes) (l : FlagSet S)
      → shape a ≡ named name value
      → parse_one registered a args l ≡ named_flag registered name value args l
  unfolding parse_one
  shaped a name value args l e = rw (e, parse_one) refl

  abbrev continued : ℕ → FlagSet S → Round S → Parsed S
  continued fuel l r = elim r [
    | stops code ↦ exits code
    | ends ↦ finished l
    | goes_on rest l' ↦ parse_loop registered fuel rest l'
  ]

  parse_loop-round :
      (fuel : ℕ) (a : Bytes) (args : List Bytes) (l : FlagSet S)
      → parse_loop registered (suc fuel) (a ∷ args) l
        ≡ continued fuel l (parse_one registered a args l)
  unfolding parse_loop
  parse_loop-round fuel a args l = refl

  -- One flag, in whichever way it is written.
  parse_loop-given :
      (fuel : ℕ) (g : Given) (rest : List Bytes) (l : FlagSet S)
      → IsGiven g
      → parse_loop registered (suc fuel) (arguments g ++ rest) l
        ≡ continued fuel l (value_round g rest l)
  parse_loop-given fuel g rest l h = by_way g.joined refl
    where
      by_way :
          (j : Bool)
          → g.joined ≡ j
          → parse_loop registered (suc fuel) (arguments g ++ rest) l
            ≡ continued fuel l (value_round g rest l)
      by_way true j = rw j (
          parse_loop-round fuel (dashed g.double (g.name ++ (b'=' ∷ g.value))) rest l
          ∙ ap (continued fuel l) (
              shaped _ g.name (some g.value) rest l (
                shape-dashed g.double g.name (b'=' ∷ g.value) h.name
                ∙ flag_shape-value g.name g.value h.name)
              ∙ named_flag-joined g rest l))
      by_way false j = rw j (
          parse_loop-round fuel (dashed g.double g.name) (g.value ∷ rest) l
          ∙ ap (continued fuel l) (
              shaped _ g.name none (g.value ∷ rest) l (
                ap (λ t. shape (dashed g.double t)) (sym (append-nil g.name))
                ∙ shape-dashed g.double g.name [] h.name
                ∙ ap flag_shape (append-nil g.name)
                ∙ flag_shape-name g.name h.name)
              ∙ named_flag-separate g rest l h j))

  shorter :
      (g : Given) (rest : List Bytes) (fuel : ℕ)
      → length (arguments g ++ rest) ≤ fuel
      → (k : ℕ) × (fuel ≡ suc k) × (length rest ≤ k)
  shorter g rest zero h = absurd (ground arith)
  shorter g rest (suc k) h = (k, refl, ground arith)

  continued-value :
      (fuel : ℕ) (g : Given) (gs : List Given) (l : FlagSet S)
      → ((l' : FlagSet S) → parse_loop registered fuel (print gs) l' ≡ assigned gs l')
      → continued fuel l (value_round g (print gs) l) ≡ assigned (g ∷ gs) l
  continued-value fuel g gs l more = elim (Option-cases (get g.name registered)) [
    | inl e ↦ rw (e, continued, value_round, assigned) refl
    | inr (f, e) ↦
        rw (e, continued, value_round, assigned)
          (elim (Option-cases (f.set g.value l.vars)) [
            | inl s ↦ unfold set_to in rw (s, set_to) refl
            | inr (vars, s) ↦ unfold set_to in rw (s, set_to) (more _)
          ])
  ]

  parse_loop-print :
      (gs : List Given) (fuel : ℕ) (l : FlagSet S)
      → All IsGiven gs
      → length (print gs) ≤ fuel
      → parse_loop registered fuel (print gs) l ≡ assigned gs l
  unfolding parse_loop
  parse_loop-print [] fuel l h enough = refl
  parse_loop-print (g ∷ gs) fuel l (hg, h) enough =
      let (k, e, less) = shorter g (print gs) fuel enough in
      ap (λ n. parse_loop registered n (arguments g ++ print gs) l) e
      ∙ parse_loop-given k g (print gs) l hg
      ∙ continued-value k g gs l (λ l'. parse_loop-print gs k l' h less)

  -- A command line of flags with their values is read in the same way however each is written, with
  -- one dash or two, with "=" or as two arguments: the flags are set one after the other, and the
  -- first that is not registered or refuses its value ends the process.
  pub parse-print :
      (gs : List Given) (vars : S)
      → All IsGiven gs
      → parse registered (print gs) vars ≡ assigned gs (record { vars = vars; visited = [] })
  unfolding parse
  parse-print gs vars h = parse_loop-print gs (length (print gs)) _ h (omega arith)
