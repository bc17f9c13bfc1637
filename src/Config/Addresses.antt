-- ===== src/Config/Addresses.antt =====
-- `build_addresses` of server/configure.go: the addresses to listen on.
use nvda_remote_server.Common.{
  ℕ, suc, ◌≡◌, ◌≢◌, ◌↔◌, ◌⊎◌, inl, inr, refl, sym, ap, ◌∙◌, Bool, true, false, ◌||◌, List, [], ◌∷◌,
  ◌++◌, Bytes, codes, bytes_eq, bytes_beq_iff, ◌==◌, if◌then◌else◌, nat_beq, All, Bool-cases, arith,
  append_assoc, length,
}
use nvda_remote_server.Common.Int.{ℤ, pos, negsuc}
use nvda_remote_server.Json.Decimal.{
  append_int, digits, value, digits-value, IsDigit, digits-IsDigit,
}
use nvda_remote_server.Config.{Config}

-- strings.IndexByte(s, c) >= 0
unfoldable pub has_byte : ℕ → Bytes → Bool
has_byte c [] = false
has_byte c (d ∷ s) = nat_beq d c || has_byte c s

-- net.JoinHostPort: a host with colons is put in brackets.
unfoldable pub join_host_port : Bytes → Bytes → Bytes
unfolding has_byte
join_host_port host port =
    if has_byte b':' host then b'[' ∷ (host ++ (codes "]:" ++ port)) else host ++ (b':' ∷ port)

unfoldable pub build_addresses : {Float : Type 0} → Config Float → List Bytes
unfolding join_host_port append_int
build_addresses c =
    let v4 = join_host_port c.iface (append_int [] c.port) in
    let v6 = join_host_port c.iface6 (append_int [] c.port6) in
    if v4 == v6 then v4 ∷ [] else v4 ∷ v6 ∷ []

colon_inside : (b q p : Bytes) → has_byte b':' p ≡ false → p ≢ b ++ (b':' ∷ q)
unfolding has_byte
colon_inside [] q p f e = ground arith
colon_inside (d ∷ b) q [] f e = cc
colon_inside (d ∷ b) q (x ∷ p) f e = colon_inside b q p (ground arith) cc

-- The last colon ends the host.
last_colon :
    (a b p q : Bytes)
    → has_byte b':' p ≡ false
    → has_byte b':' q ≡ false
    → a ++ (b':' ∷ p) ≡ b ++ (b':' ∷ q)
    → (a ≡ b) × (p ≡ q)
last_colon [] [] p q f g e = (refl, cc)
last_colon [] (d ∷ b) p q f g e = absurd (colon_inside b q p f cc)
last_colon (c ∷ a) [] p q f g e = absurd (colon_inside a p q g cc)
last_colon (c ∷ a) (d ∷ b) p q f g e =
    let (same, ports) = last_colon a b p q f g cc in (cc (same), ports)

pub has_byte-append : (c : ℕ) (a b : Bytes) → has_byte c (a ++ b) ≡ (has_byte c a || has_byte c b)
unfolding has_byte
has_byte-append c [] b = refl
has_byte-append c (d ∷ a) b = ground (arith, has_byte-append c a b)

digits-no_colon : (s : Bytes) → All IsDigit s → has_byte b':' s ≡ false
unfolding has_byte
digits-no_colon [] h = refl
digits-no_colon (c ∷ s) ((low, high), h) = ground (arith, digits-no_colon s h)

append_int-no_colon : (n : ℤ) → has_byte b':' (append_int [] n) ≡ false
unfolding append_int has_byte
append_int-no_colon (pos n) = digits-no_colon (digits n) (digits-IsDigit n)
append_int-no_colon (negsuc n) = digits-no_colon (digits (suc n)) (digits-IsDigit (suc n))

digits-injective : (n m : ℕ) → digits n ≡ digits m → n ≡ m
digits-injective n m e = sym (digits-value n) ∙ ap (value 0) e ∙ digits-value m

minus-no_digits : (s t : Bytes) → All IsDigit s → s ≢ b'-' ∷ t
minus-no_digits [] t h e = cc
minus-no_digits (c ∷ s) t ((low, high), h) e = ground (arith, e)

append_int-injective : (n m : ℤ) → append_int [] n ≡ append_int [] m → n ≡ m
unfolding append_int
append_int-injective (pos n) (pos m) e = ap pos (digits-injective n m e)
append_int-injective (pos n) (negsuc m) e =
    absurd (minus-no_digits (digits n) (digits (suc m)) (digits-IsDigit n) e)
append_int-injective (negsuc n) (pos m) e =
    absurd (minus-no_digits (digits m) (digits (suc n)) (digits-IsDigit m) (sym e))
append_int-injective (negsuc n) (negsuc m) e =
    ap negsuc (succ (digits-injective (suc n) (suc m) cc))
  where
    succ : suc n ≡ suc m → n ≡ m
    succ f = omega (arith, f)

abbrev bracketed : Bytes → Bytes
bracketed host = b'[' ∷ (host ++ codes "]")

pub join_host_port-brackets :
    (host port : Bytes)
    → has_byte b':' host ≡ true
    → join_host_port host port ≡ bracketed host ++ (b':' ∷ port)
unfolding join_host_port
join_host_port-brackets host port h =
    rw (h, join_host_port) (ap (λ x. b'[' ∷ x) (sym (append_assoc host (codes "]") (b':' ∷ port))))

pub join_host_port-plain :
    (host port : Bytes)
    → has_byte b':' host ≡ false
    → join_host_port host port ≡ host ++ (b':' ∷ port)
unfolding join_host_port
join_host_port-plain host port h = rw (h, join_host_port) refl

brackets_injective : (a b : Bytes) → a ++ codes "]" ≡ b ++ codes "]" → a ≡ b
brackets_injective [] [] e = refl
brackets_injective [] (d ∷ []) e = cc
brackets_injective [] (d ∷ f ∷ b) e = cc
brackets_injective (c ∷ []) [] e = cc
brackets_injective (c ∷ f ∷ a) [] e = cc
brackets_injective (c ∷ a) (d ∷ b) e = cc (brackets_injective a b cc)

bracketed_has_colon :
    (a b : Bytes) → has_byte b':' a ≡ true → has_byte b':' b ≡ false → bracketed a ≢ b
unfolding has_byte
bracketed_has_colon a b h g e =
    clash
      (sym (ap (has_byte b':') e ∙ g) ∙ (has_byte-append b':' a (codes "]")) ∙ (ground (arith, h)))
  where
    clash : false ≡ true → ⊥
    clash e = cc

-- Different hosts or ports have different addresses.
join_host_port-injective :
    (a b p q : Bytes)
    → has_byte b':' p ≡ false
    → has_byte b':' q ≡ false
    → join_host_port a p ≡ join_host_port b q
    → (a ≡ b) × (p ≡ q)
join_host_port-injective a b p q f g e = elim (Bool-cases (has_byte b':' a)) [
  | inl h ↦ (elim (Bool-cases (has_byte b':' b)) [
    | inl k ↦
        let (hosts, ports) =
          last_colon (bracketed a) (bracketed b) p q f g
            (sym (join_host_port-brackets a p h) ∙ e ∙ join_host_port-brackets b q k) in
        (brackets_injective a b cc, ports)
    | inr k ↦ absurd (
        bracketed_has_colon a b h k
          (last_colon (bracketed a) b p q f g
            (sym (join_host_port-brackets a p h) ∙ e ∙ join_host_port-plain b q k)).0)
  ])
  | inr h ↦ (elim (Bool-cases (has_byte b':' b)) [
    | inl k ↦ absurd (
        bracketed_has_colon b a k h (
          sym
            (last_colon a (bracketed b) p q f g
              (sym (join_host_port-plain a p h) ∙ e ∙ join_host_port-brackets b q k)).0))
    | inr k ↦
        last_colon a b p q f g (sym (join_host_port-plain a p h) ∙ e ∙ join_host_port-plain b q k)
  ])
]

-- There is one address to listen on if and only if both interfaces and both ports are the same, and
-- otherwise there are two, the IPv4 one first.
pub build_addresses_once :
    {Float : Type 0} (c : Config Float)
    → ((length (build_addresses c) ≡ 1) ↔ ((c.iface ≡ c.iface6) × (c.port ≡ c.port6)))
      × ((length (build_addresses c) ≡ 1)
          ⊎ (build_addresses c
              ≡ join_host_port c.iface (append_int [] c.port)
                ∷ join_host_port c.iface6 (append_int [] c.port6)
                ∷ []))
unfolding build_addresses
build_addresses_once c = elim (Bool-cases (v4 == v6)) [
  | inl e ↦
      let (hosts, ports) = same_address ((bytes_beq_iff v4 v6).0 e) in
      rw (e, build_addresses) ((λ _. (hosts, ports), λ _. refl), inl refl)
  | inr e ↦ rw (e, build_addresses) ((λ f. clash (f), λ same. differs e same), inr refl)
]
  where
    v4 : Bytes
    v4 = join_host_port c.iface (append_int [] c.port)

    v6 : Bytes
    v6 = join_host_port c.iface6 (append_int [] c.port6)

    same_address : v4 ≡ v6 → (c.iface ≡ c.iface6) × (c.port ≡ c.port6)
    same_address e =
        let (hosts, ports) =
          join_host_port-injective c.iface c.iface6 (append_int [] c.port) (append_int [] c.port6)
            (append_int-no_colon c.port) (append_int-no_colon c.port6) e in
        (hosts, append_int-injective c.port c.port6 ports)

    clash : {P : Type 0} → length (v4 ∷ v6 ∷ []) ≡ 1 → P
    clash f = absurd (omega (arith, f))

    false_true : false ≡ true → ⊥
    false_true f = cc

    differs :
        (v4 == v6) ≡ false → (c.iface ≡ c.iface6) × (c.port ≡ c.port6) → length (v4 ∷ v6 ∷ []) ≡ 1
    differs e (i, p) = absurd (false_true (sym e ∙ (bytes_beq_iff v4 v6).1 (cc (i, p))))
