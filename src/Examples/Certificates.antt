-- ===== src/Examples/Certificates.antt =====
-- A library of certificates in which each step wraps what it is given, and one that cannot sign.
use nvda_remote_server.Common.{
  ℕ, zero, suc, ◌+◌, ◌-◌, ◌*◌, ◌<◌, true, arith, ◌≡◌, refl, ◌++◌, Bytes, codes,
}
use nvda_remote_server.Common.Int.{ℤ, pos, negsuc, int_leb}
use nvda_remote_server.Config.File.{Fallible, failed, returned}
use nvda_remote_server.Certificate.{Crypto, gen_cert}
use nvda_remote_server.Certificate.Chain.{Relies, Issued, gen_cert-Issued}

abbrev largest : ℕ → Fallible ℕ
largest zero = failed (codes "no limit")
largest (suc n) = returned n

-- A clock in nanoseconds, with years of 366 days.
abbrev add_seconds : ℤ → ℤ → ℤ
add_seconds (pos t) (pos s) = pos (t + s * 1000000000)
add_seconds (pos t) (negsuc n) = pos (t - suc n * 1000000000)
add_seconds (negsuc t) s = negsuc t

abbrev add_years : ℤ → ℕ → ℤ
add_years (pos t) years = pos (t + years * 31622400 * 1000000000)
add_years (negsuc t) years = negsuc t

abbrev crypto : Crypto Bytes Bytes (Bytes × Bytes)
crypto = record {
  rand_int = largest;
  now = pos 1700000000;
  add_seconds = add_seconds;
  add_date = λ t years months days. add_years t years;
  generate_key = returned (codes "key");
  public_key = λ k. codes "public " ++ k;
  create_certificate = λ t parent public key. returned (public ++ key);
  pem_encode = λ name text. returned (name ++ text);
  marshal_key = λ k. returned k;
  key_pair = λ cert key. returned (cert, key);
}

abbrev unsigning : Crypto Bytes Bytes (Bytes × Bytes)
unsigning = record crypto { create_certificate = λ t parent public key. failed (codes "no") }

made_pair : gen_cert crypto ≡ returned (codes "CERTIFICATEpublic keykey", codes "PRIVATE KEYkey")
unfolding gen_cert
made_pair = refl

unsigned_error : gen_cert unsigning ≡ failed (codes "creating X.509 certificate: no")
unfolding gen_cert
unsigned_error = refl

largest-below : (limit k : ℕ) → largest limit ≡ returned k → k < limit
largest-below zero k e = cc
largest-below (suc n) k e = ground (arith, returned_same e)
  where
    returned_same : returned n ≡ returned k → n ≡ k
    returned_same e = cc

earlier : (t : ℤ) (n : ℕ) → int_leb (add_seconds t (negsuc n)) t ≡ true
unfolding int_leb
earlier (pos t) n = ground arith
earlier (negsuc t) n = ground arith

later :
    (t : ℤ) (years : ℕ)
    → int_leb (add_seconds t (pos (years * 31536000))) (add_years t years) ≡ true
unfolding int_leb
later (pos t) years = ground arith
later (negsuc t) years = ground arith

unsigning-Relies : Relies unsigning
unsigning-Relies = record {
  below = largest-below;
  time = 1700000000;
  clock = refl;
  short = omega arith;
  earlier = earlier;
  later = later;
}

gen_cert-Issued_example : Issued unsigning (gen_cert unsigning)
gen_cert-Issued_example = gen_cert-Issued unsigning unsigning-Relies
