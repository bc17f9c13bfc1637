-- ===== src/Certificate.antt =====
-- server/genCert.go: the certificate that the server signs itself, if it is given none. The libraries
-- for keys, certificates and PEM are parameters, and so are the clock and the random numbers.
pub mod Chain
pub mod Serial
use nvda_remote_server.Common.{
  ℕ, ◌^◌, ◌<◌, ◌≤◌, ◌≡◌, refl, ◌⊎◌, inl, inr, Bool, true, List, [], ◌∷◌, ◌++◌, Bytes, codes, arith,
}
use nvda_remote_server.Common.Int.{ℤ, pos, negsuc, int_leb}
use nvda_remote_server.Config.File.{Fallible, failed, returned}

-- x509.KeyUsage, a set of bits, and x509.ExtKeyUsage
pub data KeyUsage : Type 0 where
  cert_sign crl_sign digital_signature : KeyUsage

pub data ExtKeyUsage : Type 0 where
  client_auth server_auth : ExtKeyUsage

-- The fields of x509.Certificate that are set. Times are in nanoseconds.
pub record Template : Type 0 where
  pub serial_number : ℤ
  pub country : List Bytes
  pub organization : List Bytes
  pub common_name : Bytes
  pub dns_names : List Bytes
  pub ip_addresses : List Bytes
  pub not_before : ℤ
  pub not_after : ℤ
  pub key_usage : List KeyUsage
  pub ext_key_usage : List ExtKeyUsage
  pub basic_constraints_valid : Bool
  pub is_ca : Bool

-- What the code calls: rand.Int(rand.Reader, limit), the clock with `Add` and `AddDate` of time.Time,
-- ecdsa.GenerateKey for P-521, x509.CreateCertificate, pem.Encode into a buffer,
-- x509.MarshalPKCS8PrivateKey and tls.X509KeyPair.
pub record Crypto (Key PublicKey Certificate : Type 0) : Type 0 where
  pub rand_int : ℕ → Fallible ℕ
  pub now : ℤ
  pub add_seconds : ℤ → ℤ → ℤ
  pub add_date : ℤ → ℕ → ℕ → ℕ → ℤ
  pub generate_key : Fallible Key
  pub public_key : Key → PublicKey
  pub create_certificate : Template → Template → PublicKey → Key → Fallible Bytes
  pub pem_encode : Bytes → Bytes → Fallible Bytes
  pub marshal_key : Key → Fallible Bytes
  pub key_pair : Bytes → Bytes → Fallible Certificate

infixl 5 ◌>>=◌
-- `if err != nil { return nil, err }`
abbrev ◌>>=◌ {ℓ κ} : {A : Type ℓ} {B : Type κ} → Fallible A → (A → Fallible B) → Fallible B
failed e >>= f = failed e
returned a >>= f = f a

-- fmt.Errorf("<doing>: %w", err)
unfoldable pub wrapped {ℓ} : {A : Type ℓ} → Bytes → Fallible A → Fallible A
wrapped doing (failed e) = failed (doing ++ (codes ": " ++ e))
wrapped doing (returned a) = returned a

module _ {Key PublicKey Certificate : Type 0} (c : Crypto Key PublicKey Certificate) where
  unfoldable pub serial_number : ℤ
  serial_number = elim (c.rand_int (2 ^ 128)) [ failed e ↦ c.now | returned n ↦ pos n ]

  unfoldable pub template : Template
  unfolding serial_number
  template = record {
    serial_number = serial_number;
    country = codes "US" ∷ [];
    organization = codes "NVDARemote Server" ∷ [];
    common_name = codes "Root CA";
    dns_names = codes "localhost" ∷ [];
    ip_addresses = codes "127.0.0.1" ∷ [];
    not_before = c.add_seconds c.now (negsuc 9);
    not_after = c.add_date c.now 10 0 0;
    key_usage = cert_sign ∷ crl_sign ∷ digital_signature ∷ [];
    ext_key_usage = client_auth ∷ server_auth ∷ [];
    basic_constraints_valid = true;
    is_ca = true;
  }

  unfoldable pub gen_cert : Fallible Certificate
  unfolding template wrapped
  gen_cert = do
    priv ← wrapped (codes "generating ECDSA P-521 key") c.generate_key
    ca_bytes ←
        wrapped (codes "creating X.509 certificate")
          (c.create_certificate template template (c.public_key priv) priv)
    cert_pem ←
        wrapped (codes "encoding certificate PEM") (c.pem_encode (codes "CERTIFICATE") ca_bytes)
    tmpk ← wrapped (codes "marshaling PKCS8 private key") (c.marshal_key priv)
    key_pem ← wrapped (codes "encoding private key PEM") (c.pem_encode (codes "PRIVATE KEY") tmpk)
    wrapped (codes "parsing X509 key pair") (c.key_pair cert_pem key_pem)
