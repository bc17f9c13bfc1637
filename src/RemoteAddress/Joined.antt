-- ===== src/RemoteAddress/Joined.antt =====
-- `getIP` of server/connection.go gives the host of an address that `net.JoinHostPort` made.
use nvda_remote_server.Common.{
  ℕ, suc, ◌+◌, ◌≡◌, ◌≢◌, refl, sym, ap, ◌∙◌, true, false, none, some, [], ◌∷◌, ◌++◌, Bytes, codes,
  nat_beq, drop, length, length-append, bytes_eq, All, append_assoc, arith, Bool-cases, inl, inr,
}
use nvda_remote_server.Strings.{index, has_prefix}
use nvda_remote_server.Strings.Split.{index-byte, take_all, drop_past}
use nvda_remote_server.Config.Addresses.{
  has_byte, join_host_port, has_byte-append, join_host_port-brackets, join_host_port-plain,
}
use nvda_remote_server.RemoteAddress.{
  last_index, without_brackets, split_bracketed, split_host_port, trim_left_brackets,
  trim_right_brackets, trim_brackets, get_ip,
}

last_index-none : (c : ℕ) (p : Bytes) → has_byte c p ≡ false → last_index c p ≡ none
unfolding last_index has_byte
last_index-none c [] h = refl
last_index-none c (d ∷ p) h = ground (arith, h, last_index-none c p)

last_index-append :
    (c : ℕ) (a p : Bytes) → has_byte c p ≡ false → last_index c (a ++ (c ∷ p)) ≡ some (length a)
unfolding last_index
last_index-append c [] p h = rw (last_index-none c p h, last_index) (ground arith)
last_index-append c (d ∷ a) p h = rw (last_index-append c a p h, last_index) refl

-- Neither bracket.
pub record NoBracket (s : Bytes) : Type 0 where
  pub opening : has_byte b'[' s ≡ false
  pub closing : has_byte b']' s ≡ false

trim_left-NoBracket : (s : Bytes) → NoBracket s → trim_left_brackets s ≡ s
unfolding trim_left_brackets has_byte
trim_left-NoBracket [] h = refl
trim_left-NoBracket (c ∷ s) h = ground (arith, h.opening, h.closing)

trim_right-NoBracket : (s : Bytes) → NoBracket s → trim_right_brackets s ≡ s
unfolding trim_right_brackets has_byte
trim_right-NoBracket [] h = refl
trim_right-NoBracket (c ∷ s) h = ground (
  arith,
  h.opening,
  h.closing,
  trim_right-NoBracket s
      (record { opening = ground (arith, h.opening); closing = ground (arith, h.closing) }),
)

trim_brackets-NoBracket : (s : Bytes) → NoBracket s → trim_brackets s ≡ s
unfolding trim_brackets
trim_brackets-NoBracket s h =
    ap trim_right_brackets (trim_left-NoBracket s h) ∙ trim_right-NoBracket s h

not_in : (c : ℕ) (s : Bytes) → has_byte c s ≡ false → All (λ d. d ≢ c) s
unfolding has_byte
not_in c [] h = tt
not_in c (d ∷ s) h = ((λ e. ground (arith, h, e)), not_in c s (ground (arith, h)))

without_brackets-none :
    (j k : ℕ) (host port : Bytes) (i : ℕ) (s : Bytes)
    → has_byte b'[' (drop j s) ≡ false
    → has_byte b']' (drop k s) ≡ false
    → drop (i + 1) s ≡ port
    → without_brackets j k host i s ≡ some (host, port)
unfolding without_brackets
without_brackets-none j k host port i s e f g = rw (e, f, g, without_brackets) refl

has_byte-both :
    (c : ℕ) (a b : Bytes)
    → has_byte c a ≡ false
    → has_byte c b ≡ false
    → has_byte c (a ++ b) ≡ false
has_byte-both c a b e f = has_byte-append c a b ∙ ground (arith, e, f)

no_opening :
    (host rest : Bytes)
    → has_byte b'[' host ≡ false
    → has_prefix (host ++ (b':' ∷ rest)) (codes "[") ≡ false
unfolding has_byte has_prefix
no_opening [] rest h = refl
no_opening (c ∷ host) rest h = ground (arith, h)

module _ (host port : Bytes) (h : NoBracket host) (p : NoBracket port)
    (n : has_byte b':' port ≡ false) where
  plain_split :
      has_byte b':' host ≡ false → split_host_port (host ++ (b':' ∷ port)) ≡ some (host, port)
  unfolding split_host_port
  plain_split c =
      rw
        (
          last_index-append b':' host port n,
          split_host_port,
          no_opening host port h.opening,
          take_all host (b':' ∷ port),
          c,
        )
        (without_brackets-none 0 0 host port (length host) (host ++ (b':' ∷ port))
          (has_byte-both b'[' host (b':' ∷ port) h.opening (unfold has_byte in p.opening))
          (has_byte-both b']' host (b':' ∷ port) h.closing (unfold has_byte in p.closing))
          (drop_past b':' host port))

  abbrev text : Bytes
  text = b'[' ∷ (host ++ (b']' ∷ b':' ∷ port))

  last_colon_of : last_index b':' text ≡ some (length host + 2)
  last_colon_of =
      ap (last_index b':') (sym (append_assoc (b'[' ∷ host) (codes "]") (b':' ∷ port)))
      ∙ last_index-append b':' (b'[' ∷ (host ++ codes "]")) port n
      ∙ ap some (omega (arith, length-append host (codes "]")))

  closing_of : index text (codes "]") ≡ some (suc (length host))
  closing_of =
      index-byte b']' (b'[' ∷ host) (b':' ∷ port)
        ((λ e. omega (arith, e)), not_in b']' host h.closing)

  bracketed_split : split_host_port text ≡ some (host, port)
  unfolding split_host_port split_bracketed has_prefix
  bracketed_split =
      rw
        (
          last_colon_of,
          split_host_port,
          split_bracketed,
          closing_of,
          same_place,
          take_all host (b']' ∷ b':' ∷ port),
        )
        (without_brackets-none 1 (suc (length host) + 1) host port (length host + 2) text
          (has_byte-both b'[' host (b']' ∷ b':' ∷ port) h.opening (unfold has_byte in p.opening))
          (ap (has_byte b']') (drop_past b']' (b'[' ∷ host) (b':' ∷ port))
            ∙ (unfold has_byte in p.closing))
          behind_colon)
    where
      same_place : nat_beq (suc (length host) + 1) (length host + 2) ≡ true
      same_place = ground arith

      behind_colon : drop ((length host + 2) + 1) text ≡ port
      behind_colon =
          ap (λ i. drop (i + 1) text) (omega (arith, length-append host (codes "]")))
          ∙ ap (drop (length (b'[' ∷ (host ++ codes "]")) + 1))
              (sym (append_assoc (b'[' ∷ host) (codes "]") (b':' ∷ port)))
          ∙ drop_past b':' (b'[' ∷ (host ++ codes "]")) port

  split_host_port-join_host_port : split_host_port (join_host_port host port) ≡ some (host, port)
  split_host_port-join_host_port = elim (Bool-cases (has_byte b':' host)) [
    | inl c ↦
        ap split_host_port (
          join_host_port-brackets host port c
          ∙ append_assoc (b'[' ∷ host) (codes "]") (b':' ∷ port))
        ∙ bracketed_split
    | inr c ↦ ap split_host_port (join_host_port-plain host port c) ∙ plain_split c
  ]

  -- `getIP` gives the host of a remote address, an IPv4 address as well as an IPv6 address, which stands
  -- in brackets there, with its zone: where neither the host nor the port has a bracket in it and the
  -- port has no colon.
  pub get_ip-join_host_port : get_ip (join_host_port host port) ≡ host
  unfolding get_ip
  get_ip-join_host_port =
      rw (split_host_port-join_host_port, get_ip) (trim_brackets-NoBracket host h)
