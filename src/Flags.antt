-- ===== src/Flags.antt =====
-- The command line: `flag.Parse` of Go's standard library, which `Configure` of server/configure.go
-- calls behind `registerFlags`. The flags that are registered are a parameter here; those of the server
-- are in Flags/Registered.antt.
pub mod Options
pub mod Values
pub mod Registered
pub mod Dashed
pub mod Printed
pub mod Kept
pub mod Child
pub mod Found
pub mod Agreement
pub mod Launch
use nvda_remote_server.Common.{
  ℕ, zero, suc, Bool, true, false, ◌||◌, Option, none, some, List, [], ◌∷◌, Bytes, codes, bytes_eq,
  ◌==◌, if◌then◌else◌, length, nat_beq,
}
use nvda_remote_server.GoMap.{Map, get}
use nvda_remote_server.Strings.Split.{cut}

-- flag.Flag over the variables `S`: `set` is `Value.Set`, and `none` its error.
pub record Flag (S : Type 0) : Type 0 where
  pub is_bool : Bool
  pub set : Bytes → S → Option S

-- What an argument is.
pub data Shape : Type 0 where
  operand terminator malformed : Shape
  named : Bytes → Option Bytes → Shape

-- The text behind the dashes. A name does not begin with "=".
unfoldable pub flag_shape : Bytes → Shape
flag_shape [] = malformed
flag_shape (c ∷ s) =
    if nat_beq c b'-' || nat_beq c b'=' then malformed else elim (cut (c ∷ s) (codes "=")) [
      | none ↦ named (c ∷ s) none
      | some (name, value) ↦ named name (some value)
    ]

unfoldable pub shape : Bytes → Shape
unfolding flag_shape
shape [] = operand
shape (c ∷ []) = operand
shape (c ∷ d ∷ s) =
    if nat_beq c b'-'
    then if nat_beq d b'-'
      then (elim s [ [] ↦ terminator | x ∷ t ↦ flag_shape (x ∷ t) ])
      else flag_shape (d ∷ s)
    else operand

-- The variables, and the names that `flag.Visit` goes over.
pub record FlagSet (S : Type 0) : Type 0 where
  pub vars : S
  pub visited : List Bytes

-- `parseOne`: an exit of the process with its code, the end of the flags, or the arguments that are left.
pub data Round (S : Type 0) : Type 0 where
  stops : ℕ → Round S
  ends : Round S
  goes_on : List Bytes → FlagSet S → Round S

-- `flag.Parse`, whose errors end the process.
pub data Parsed (S : Type 0) : Type 0 where
  exits : ℕ → Parsed S
  finished : FlagSet S → Parsed S

module _ {S : Type 0} (registered : Map Bytes (Flag S)) where
  unfoldable pub set_to : Bytes → Flag S → Bytes → List Bytes → FlagSet S → Round S
  set_to name f value args l = elim (f.set value l.vars) [
    | none ↦ stops 2
    | some vars ↦ goes_on args (record { vars = vars; visited = name ∷ l.visited })
  ]

  -- The value is the next argument.
  unfoldable pub set_next : Bytes → Flag S → List Bytes → FlagSet S → Round S
  unfolding set_to
  set_next name f [] l = stops 2
  set_next name f (value ∷ args) l = set_to name f value args l

  unfoldable pub set_flag : Bytes → Flag S → Option Bytes → List Bytes → FlagSet S → Round S
  unfolding set_to set_next
  set_flag name f (some value) args l = set_to name f value args l
  set_flag name f none args l =
      if f.is_bool then set_to name f (codes "true") args l else set_next name f args l

  unfoldable pub named_flag : Bytes → Option Bytes → List Bytes → FlagSet S → Round S
  unfolding set_flag
  named_flag name value args l = elim (get name registered) [
    | none ↦ stops (if name == codes "help" || name == codes "h" then 0 else 2)
    | some f ↦ set_flag name f value args l
  ]

  unfoldable pub parse_one : Bytes → List Bytes → FlagSet S → Round S
  unfolding shape named_flag
  parse_one a args l = elim (shape a) [
    | operand ↦ ends
    | terminator ↦ ends
    | malformed ↦ stops 2
    | named name value ↦ named_flag name value args l
  ]

  -- Each round takes an argument at least, so that there are at most as many rounds.
  unfoldable pub parse_loop : ℕ → List Bytes → FlagSet S → Parsed S
  unfolding parse_one
  parse_loop fuel [] l = finished l
  parse_loop zero (a ∷ args) l = finished l
  parse_loop (suc fuel) (a ∷ args) l = elim (parse_one a args l) [
    | stops code ↦ exits code
    | ends ↦ finished l
    | goes_on rest l' ↦ parse_loop fuel rest l'
  ]

  unfoldable pub parse : List Bytes → S → Parsed S
  unfolding parse_loop
  parse args vars = parse_loop (length args) args (record { vars = vars; visited = [] })
