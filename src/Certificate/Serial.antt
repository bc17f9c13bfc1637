-- ===== src/Certificate/Serial.antt =====
-- The serial number of the certificate (server/genCert.go).
use nvda_remote_server.Common.{ℕ, ◌^◌, ◌<◌, ◌≡◌, refl, arith}
use nvda_remote_server.Common.Int.{pos}
use nvda_remote_server.Config.File.{Fallible, failed, returned}
use nvda_remote_server.Certificate.{Crypto, serial_number, template}

-- The serial number of the template is a natural number of at most 128 bits, whether there are random
-- numbers or the clock takes their place. `rand.Int` returns a number below its limit, and the clock
-- a time since 1970 in 63 bits.
pub template-serial :
    {Key PublicKey Certificate : Type 0}
    → (c : Crypto Key PublicKey Certificate) (time : ℕ)
    → ((limit k : ℕ) → c.rand_int limit ≡ returned k → k < limit)
    → c.now ≡ pos time
    → time < 2 ^ 63
    → (k : ℕ) × ((template c).serial_number ≡ pos k) × (k < 2 ^ 128)
unfolding template serial_number
template-serial c time below clock short = by_random (c.rand_int (2 ^ 128)) refl
  where
    by_random :
        (r : Fallible ℕ)
        → c.rand_int (2 ^ 128) ≡ r
        → (k : ℕ) × ((template c).serial_number ≡ pos k) × (k < 2 ^ 128)
    by_random (failed e) f = (time, rw (f, template, serial_number) clock, omega (arith, short))
    by_random (returned k) f = (k, rw (f, template, serial_number) refl, below (2 ^ 128) k f)
