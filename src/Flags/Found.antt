-- ===== src/Flags/Found.antt =====
-- What `findPidFile` and `daemonStart` of daemon_unix.go find on a command line of flags with one dash.
use nvda_remote_server.Common.{
  ◌≡◌, ◌≢◌, refl, ap, ◌∙◌, Bool, true, false, ◌||◌, ◌&&◌, not, List, [], ◌∷◌, ◌++◌, Bytes, bytes_eq,
  bytes_beq, bytes_beq_iff, nat_beq, drop, ◌==◌, if◌then◌else◌, All, arith, Bool-cases, inl, inr,
}
use nvda_remote_server.Strings.{has_prefix}
use nvda_remote_server.Daemon.{find_pid_file, has_pid_file, pidfile_flag, pidfile_equals}
use nvda_remote_server.Daemon.Pidfiles.{find_pid_file-skip}
use nvda_remote_server.Flags.Printed.{Given, arguments, print}
use nvda_remote_server.Flags.Dashed.{IsName}
use nvda_remote_server.Flags.Child.{pidfile_name, first_pidfile, pidfiles}

-- A flag with one dash, whose value, where it is an argument of its own, is not like a flag of a pid file.
pub record IsPlain (g : Given) : Type 0 where
  pub single : g.double ≡ false
  pub name : IsName g.name
  pub other_value :
      g.joined ≡ false
      → ((g.value == pidfile_flag) ≡ false) × (has_prefix g.value pidfile_equals ≡ false)

abbrev NoMark : Bytes → Type 0
NoMark s = All (λ d. d ≢ b'=') s

name-NoMark : (n : Bytes) → IsName n → NoMark n
name-NoMark [] h = absurd h
name-NoMark (c ∷ s) (no_dash, h) = h

has_prefix-mark :
    (n p v : Bytes)
    → NoMark n
    → NoMark p
    → has_prefix (n ++ (b'=' ∷ v)) (p ++ (b'=' ∷ [])) ≡ bytes_beq n p
unfolding has_prefix bytes_beq
has_prefix-mark [] [] v h k = refl
has_prefix-mark [] (c ∷ p) v h (ne, k) = ground (arith, ne)
has_prefix-mark (d ∷ n) [] v (ne, h) k = ground (arith, ne)
has_prefix-mark (d ∷ n) (c ∷ p) v (_, h) (_, k) =
    ap (λ b. nat_beq d c && b) (has_prefix-mark n p v h k)

has_prefix-NoMark : (n p : Bytes) → NoMark n → has_prefix n (p ++ (b'=' ∷ [])) ≡ false
unfolding has_prefix
has_prefix-NoMark [] [] h = refl
has_prefix-NoMark [] (c ∷ p) h = refl
has_prefix-NoMark (d ∷ n) [] (ne, h) = ground (arith, ne)
has_prefix-NoMark (d ∷ n) (c ∷ p) (_, h) = ground (arith, has_prefix-NoMark n p h)

beq-mark : (n p v : Bytes) → NoMark p → bytes_beq (n ++ (b'=' ∷ v)) p ≡ false
unfolding bytes_beq
beq-mark [] [] v h = refl
beq-mark (d ∷ n) [] v h = refl
beq-mark [] (c ∷ p) v (ne, h) = ground (arith, ne)
beq-mark (d ∷ n) (c ∷ p) v (_, h) = ground (arith, beq-mark n p v h)

pidfile_name-NoMark : NoMark pidfile_name
pidfile_name-NoMark = ground arith

-- The argument of a joined flag, and the first one of a separate flag.
joined_flag : (n v : Bytes) → ((b'-' ∷ (n ++ (b'=' ∷ v))) == pidfile_flag) ≡ false
unfolding bytes_beq
joined_flag n v = beq-mark n pidfile_name v pidfile_name-NoMark

joined_equals :
    (n v : Bytes)
    → IsName n
    → has_prefix (b'-' ∷ (n ++ (b'=' ∷ v))) pidfile_equals ≡ (n == pidfile_name)
unfolding has_prefix
joined_equals n v h = has_prefix-mark n pidfile_name v (name-NoMark n h) pidfile_name-NoMark

separate_flag : (n : Bytes) → ((b'-' ∷ n) == pidfile_flag) ≡ (n == pidfile_name)
unfolding bytes_beq
separate_flag n = refl

separate_equals : (n : Bytes) → IsName n → has_prefix (b'-' ∷ n) pidfile_equals ≡ false
unfolding has_prefix
separate_equals n h = has_prefix-NoMark n pidfile_name (name-NoMark n h)

module _ (default : Bytes) where
  find_pid_file-equals :
      (a : Bytes) (rest : List Bytes)
      → (a == pidfile_flag) ≡ false
      → has_prefix a pidfile_equals ≡ true
      → find_pid_file default (a ∷ rest) ≡ drop 9 a
  unfolding find_pid_file
  find_pid_file-equals a [] e f = rw (f, find_pid_file) refl
  find_pid_file-equals a (b ∷ rest) e f = rw (e, f, find_pid_file) refl

  find_pid_file-next :
      (a b : Bytes) (rest : List Bytes)
      → (a == pidfile_flag) ≡ true
      → find_pid_file default (a ∷ b ∷ rest) ≡ b
  unfolding find_pid_file
  find_pid_file-next a b rest e = rw (e, find_pid_file) refl

  find_pid_file-arguments :
      (g : Given) (rest : List Bytes)
      → IsPlain g
      → find_pid_file default (arguments g ++ rest)
        ≡ (if g.name == pidfile_name then g.value else find_pid_file default rest)
  find_pid_file-arguments g rest h = by_way g.joined refl
    where
      value_of :
          (n : Bytes)
          → bytes_beq n pidfile_name ≡ true
          → drop 9 (b'-' ∷ (n ++ (b'=' ∷ g.value))) ≡ g.value
      value_of n e =
          ap (λ m. drop 9 (b'-' ∷ (m ++ (b'=' ∷ g.value)))) ((bytes_beq_iff n pidfile_name).0 e)

      by_way :
          (j : Bool)
          → g.joined ≡ j
          → find_pid_file default (arguments g ++ rest)
            ≡ (if g.name == pidfile_name then g.value else find_pid_file default rest)
      by_way true j =
          rw (j, h.single)
            (elim (Bool-cases (bytes_beq g.name pidfile_name)) [
              | inl e ↦ rw e (
                  find_pid_file-equals _ rest (joined_flag g.name g.value)
                    (joined_equals g.name g.value h.name ∙ e)
                  ∙ value_of g.name e)
              | inr e ↦ rw e (
                  find_pid_file-skip default _ rest (joined_flag g.name g.value)
                    (joined_equals g.name g.value h.name ∙ e))
            ])
      by_way false j =
          rw (j, h.single)
            (elim (Bool-cases (bytes_beq g.name pidfile_name)) [
              | inl e ↦
                  rw e (find_pid_file-next (b'-' ∷ g.name) g.value rest (separate_flag g.name ∙ e))
              | inr e ↦ rw e (
                  find_pid_file-skip default (b'-' ∷ g.name) (g.value ∷ rest)
                    (separate_flag g.name ∙ e) (separate_equals g.name h.name)
                  ∙ find_pid_file-skip default g.value rest (h.other_value j).0 (h.other_value j).1)
            ])

  -- `findPidFile` finds the first flag of a pid file.
  pub find_pid_file-print :
      (gs : List Given)
      → All IsPlain gs
      → find_pid_file default (print gs) ≡ first_pidfile default gs
  find_pid_file-print [] h = unfold find_pid_file in refl
  find_pid_file-print (g ∷ gs) (hg, h) =
      find_pid_file-arguments g (print gs) hg
      ∙ ap (λ rest. if g.name == pidfile_name then g.value else rest) (find_pid_file-print gs h)

has_pid_file-arguments :
    (g : Given) (rest : List Bytes)
    → IsPlain g
    → has_pid_file (arguments g ++ rest) ≡ (g.name == pidfile_name || has_pid_file rest)
unfolding has_pid_file
has_pid_file-arguments g rest h = by_way g.joined refl
  where
    by_way :
        (j : Bool)
        → g.joined ≡ j
        → has_pid_file (arguments g ++ rest) ≡ (g.name == pidfile_name || has_pid_file rest)
    by_way true j =
        rw (j, h.single, joined_flag g.name g.value, joined_equals g.name g.value h.name) refl
    by_way false j =
        let (other, unlike) = h.other_value j in
        rw (j, h.single, separate_flag g.name, separate_equals g.name h.name, other, unlike)
          (elim (Bool-cases (bytes_beq g.name pidfile_name)) [
            | inl e ↦ rw e refl
            | inr e ↦ rw e refl
          ])

-- `daemonStart` sees whether there is one.
pub has_pid_file-print :
    (gs : List Given) → All IsPlain gs → has_pid_file (print gs) ≡ not (nat_beq (pidfiles gs) 0)
has_pid_file-print [] h = unfold has_pid_file in refl
has_pid_file-print (g ∷ gs) (hg, h) =
    has_pid_file-arguments g (print gs) hg
    ∙ ap (λ rest. g.name == pidfile_name || rest) (has_pid_file-print gs h)
    ∙ ground arith
