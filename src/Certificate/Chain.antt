-- ===== src/Certificate/Chain.antt =====
-- What `gen_cert` of server/genCert.go returns: a certificate that the server signs with its own key, or
-- the error of the first step that failed.
use nvda_remote_server.Common.{
  ℕ, ◌^◌, ◌<◌, ◌*◌, ◌≡◌, refl, ◌⊎◌, inl, inr, true, List, [], ◌∷◌, ◌++◌, Bytes, codes,
}
use nvda_remote_server.Common.Int.{ℤ, pos, negsuc, int_leb}
use nvda_remote_server.Config.File.{Fallible, failed, returned}
use nvda_remote_server.Certificate.{
  Crypto, Template, cert_sign, digital_signature, server_auth, ◌>>=◌, wrapped, template, gen_cert,
}
use nvda_remote_server.Certificate.Serial.{template-serial}

-- An element of a list.
abbrev Includes : {A : Type 0} → A → List A → Type 0
Includes a [] = ⊥
Includes a (b ∷ l) = (b ≡ a) ⊎ Includes a l

-- What holds of each way that a step can end holds of the step with what follows it.
step_cases :
    {A B : Type 0}
    → (P : Fallible B → Type 0) (doing : Bytes) (o : Fallible A) (f : A → Fallible B)
    → ((err : Bytes) → o ≡ failed err → P (failed (doing ++ (codes ": " ++ err))))
    → ((a : A) → o ≡ returned a → P (f a))
    → P (wrapped doing o >>= f)
unfolding wrapped
step_cases P doing (failed err) f bad good = bad err refl
step_cases P doing (returned a) f bad good = good a refl

-- The last step.
last_step_cases :
    {B : Type 0}
    → (P : Fallible B → Type 0) (doing : Bytes) (o : Fallible B)
    → ((err : Bytes) → o ≡ failed err → P (failed (doing ++ (codes ": " ++ err))))
    → ((b : B) → o ≡ returned b → P (returned b))
    → P (wrapped doing o)
unfolding wrapped
last_step_cases P doing (failed err) bad good = bad err refl
last_step_cases P doing (returned b) bad good = good b refl

module _ {Key PublicKey Certificate : Type 0} (c : Crypto Key PublicKey Certificate) where
  -- What the code relies on: random numbers are below their limit, the clock tells a time since 1970 in
  -- 63 bits, some seconds before a time is not behind it, and years have at least 365 days.
  pub record Relies : Type 0 where
    pub below : (limit k : ℕ) → c.rand_int limit ≡ returned k → k < limit
    pub time : ℕ
    pub clock : c.now ≡ pos time
    pub short : time < 2 ^ 63
    pub earlier : (t : ℤ) (n : ℕ) → int_leb (c.add_seconds t (negsuc n)) t ≡ true
    pub later :
        (t : ℤ) (years : ℕ)
        → int_leb (c.add_seconds t (pos (years * 31536000))) (c.add_date t years 0 0) ≡ true

  -- What a certificate needs to be the authority of its own signature and to serve TLS on this host: it
  -- may sign certificates, is good for servers, names the host, is valid now and for ten years, and has
  -- a serial number of 128 bits at most.
  pub record IsAuthority (t : Template) : Type 0 where
    pub is_authority : (t.is_ca ≡ true) × (t.basic_constraints_valid ≡ true)
    pub may_sign : Includes cert_sign t.key_usage × Includes digital_signature t.key_usage
    pub may_serve : Includes server_auth t.ext_key_usage
    pub local :
        Includes (codes "localhost") t.dns_names × Includes (codes "127.0.0.1") t.ip_addresses
    pub begun : int_leb t.not_before c.now ≡ true
    pub lasts : int_leb (c.add_seconds c.now (pos 315360000)) t.not_after ≡ true
    pub numbered : (k : ℕ) × (t.serial_number ≡ pos k) × (k < 2 ^ 128)

  template-IsAuthority : Relies → IsAuthority (template c)
  unfolding template
  template-IsAuthority r = record {
    is_authority = (refl, refl);
    may_sign = (inl refl, inr (inr (inl refl)));
    may_serve = inr (inl refl);
    local = (inl refl, inl refl);
    begun = r.earlier c.now 9;
    lasts = r.later c.now 10;
    numbered = template-serial c r.time r.below r.clock r.short;
  }

  -- `der` is a certificate that is issued by itself, for the public key of the key that signs it.
  pub record IsSigned (key : Key) (der : Bytes) : Type 0 where
    pub ca : Template
    pub authority : IsAuthority ca
    pub generated : c.generate_key ≡ returned key
    pub signed : c.create_certificate ca ca (c.public_key key) key ≡ returned der

  -- Both are encoded, and the certificate is the pair of them.
  pub record IsSelfSigned (cert : Certificate) : Type 0 where
    pub key : Key
    pub der : Bytes
    pub key_der : Bytes
    pub cert_pem : Bytes
    pub key_pem : Bytes
    pub issued : IsSigned key der
    pub cert_encoded : c.pem_encode (codes "CERTIFICATE") der ≡ returned cert_pem
    pub marshaled : c.marshal_key key ≡ returned key_der
    pub key_encoded : c.pem_encode (codes "PRIVATE KEY") key_der ≡ returned key_pem
    pub paired : c.key_pair cert_pem key_pem ≡ returned cert

  -- The error of a step behind steps that succeeded: what was being done, and the error of the library.
  pub data IsStepError : Bytes → Type 0 where
    no_key :
        (err : Bytes)
        → c.generate_key ≡ failed err
        → IsStepError (codes "generating ECDSA P-521 key" ++ (codes ": " ++ err))
    not_signed :
        (err : Bytes) (key : Key) (t : Template)
        → c.generate_key ≡ returned key
        → IsAuthority t
        → c.create_certificate t t (c.public_key key) key ≡ failed err
        → IsStepError (codes "creating X.509 certificate" ++ (codes ": " ++ err))
    not_encoded :
        (err : Bytes) (key : Key) (der : Bytes)
        → IsSigned key der
        → c.pem_encode (codes "CERTIFICATE") der ≡ failed err
        → IsStepError (codes "encoding certificate PEM" ++ (codes ": " ++ err))
    not_marshaled :
        (err : Bytes) (key : Key) (der cert_pem : Bytes)
        → IsSigned key der
        → c.pem_encode (codes "CERTIFICATE") der ≡ returned cert_pem
        → c.marshal_key key ≡ failed err
        → IsStepError (codes "marshaling PKCS8 private key" ++ (codes ": " ++ err))
    key_not_encoded :
        (err : Bytes) (key : Key) (der cert_pem key_der : Bytes)
        → IsSigned key der
        → c.pem_encode (codes "CERTIFICATE") der ≡ returned cert_pem
        → c.marshal_key key ≡ returned key_der
        → c.pem_encode (codes "PRIVATE KEY") key_der ≡ failed err
        → IsStepError (codes "encoding private key PEM" ++ (codes ": " ++ err))
    not_paired :
        (err : Bytes) (key : Key) (der cert_pem key_der key_pem : Bytes)
        → IsSigned key der
        → c.pem_encode (codes "CERTIFICATE") der ≡ returned cert_pem
        → c.marshal_key key ≡ returned key_der
        → c.pem_encode (codes "PRIVATE KEY") key_der ≡ returned key_pem
        → c.key_pair cert_pem key_pem ≡ failed err
        → IsStepError (codes "parsing X509 key pair" ++ (codes ": " ++ err))

  -- How it can end.
  pub data Issued : Fallible Certificate → Type 0 where
    stopped : (e : Bytes) → IsStepError e → Issued (failed e)
    made : (cert : Certificate) → IsSelfSigned cert → Issued (returned cert)

  from_template :
      (key : Key) (der : Bytes)
      → Relies
      → c.generate_key ≡ returned key
      → c.create_certificate (template c) (template c) (c.public_key key) key ≡ returned der
      → IsSigned key der
  from_template key der r g s = record {
    ca = template c;
    authority = template-IsAuthority r;
    generated = g;
    signed = s;
  }

  -- `gen_cert` returns the pair of a certificate and the key that signed it, where the certificate is
  -- issued by itself for that key, may sign certificates and serve TLS on this host, is valid now and
  -- for ten years, and has a serial number of at most 128 bits; or else the error of the first step
  -- that failed, behind a text that says which, and every step before it succeeded on what the steps
  -- before that made. Random numbers are taken to be below their limit, the clock to tell a time since
  -- 1970 in 63 bits and to count with seconds and years in order.
  pub gen_cert-Issued : Relies → Issued (gen_cert c)
  unfolding gen_cert
  gen_cert-Issued r =
      step_cases Issued (codes "generating ECDSA P-521 key") c.generate_key _
        (λ err e. stopped _ (no_key err e))
        (λ key g.
          step_cases Issued (codes "creating X.509 certificate")
            (c.create_certificate (template c) (template c) (c.public_key key) key) _
            (λ err e. stopped _ (not_signed err key (template c) g (template-IsAuthority r) e))
            (λ der s. encoded key der (from_template key der r g s)))
    where
      encoded :
          (key : Key) (der : Bytes)
          → IsSigned key der
          → Issued (
              wrapped (codes "encoding certificate PEM") (c.pem_encode (codes "CERTIFICATE") der)
              >>= λ cert_pem.
                  wrapped (codes "marshaling PKCS8 private key") (c.marshal_key key) >>= λ tmpk.
                  wrapped
                    (codes "encoding private key PEM")
                    (c.pem_encode (codes "PRIVATE KEY") tmpk)
                  >>= λ key_pem.
                      wrapped (codes "parsing X509 key pair") (c.key_pair cert_pem key_pem))
      encoded key der signed =
          step_cases Issued (codes "encoding certificate PEM")
            (c.pem_encode (codes "CERTIFICATE") der) _
            (λ err e. stopped _ (not_encoded err key der signed e))
            (λ cert_pem ce.
              step_cases Issued (codes "marshaling PKCS8 private key") (c.marshal_key key) _
                (λ err e. stopped _ (not_marshaled err key der cert_pem signed ce e))
                (λ key_der m.
                  step_cases Issued (codes "encoding private key PEM")
                    (c.pem_encode (codes "PRIVATE KEY") key_der) _
                    (λ err e.
                      stopped _ (key_not_encoded err key der cert_pem key_der signed ce m e))
                    (λ key_pem ke.
                      last_step_cases Issued (codes "parsing X509 key pair")
                        (c.key_pair cert_pem key_pem)
                        (λ err e.
                          stopped _
                            (not_paired err key der cert_pem key_der key_pem signed ce m ke e))
                        (λ cert pair. made cert (record {
                          key = key;
                          der = der;
                          key_der = key_der;
                          cert_pem = cert_pem;
                          key_pem = key_pem;
                          issued = signed;
                          cert_encoded = ce;
                          marshaled = m;
                          key_encoded = ke;
                          paired = pair;
                        })))))
