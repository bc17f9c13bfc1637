-- ===== src/Examples.antt =====
-- A small server for the tests: its codec, its settings and a history of it.
pub mod Histories
pub mod Messages
pub mod Services
pub mod Startup
pub mod Wire
pub mod Certificates
pub mod Flags
pub mod Processes
pub mod Sessions
use nvda_remote_server.Common.{
  ℕ, ◌≡◌, ◌≢◌, refl, Bool, true, false, Option, none, some, List, [], ◌∷◌, Bytes, codes, Outcome,
  ok, panic, bytes_beq,
}
use nvda_remote_server.Protocol.{Data, zero_data, Codec}
use nvda_remote_server.World.{World, Settings, start, add_client}
use nvda_remote_server.Server.{Event, connects, sends, disconnects, ends, closes, run}

-- A codec that keeps a message's type only, and reads `j…` as a join of the channel `…`, by a slave.
abbrev pub demo_decode : Bytes → Option Data
demo_decode [] = none
demo_decode (c ∷ rest) =
    some (record zero_data { type = codes "join"; channel = rest; connection_type = codes "slave" })

pub demo_encode-ne-nil : (d : Data) (b : Bytes) → some (b'{' ∷ d.type) ≡ some b → b ≢ []
demo_encode-ne-nil d [] e = cc
demo_encode-ne-nil d (c ∷ b) e = λ f. cc

abbrev pub demo_codec : Codec
demo_codec = record {
  encode = λ d. some (b'{' ∷ d.type);
  decode = demo_decode;
  encode-ne-nil = demo_encode-ne-nil;
}

abbrev pub demo : Settings
demo = record { codec = demo_codec; motd = codes "hi"; motd_always_display = false }

abbrev pub result : Outcome World → World
result (ok w) = w
result panic = start

abbrev pub always : ℕ → Bool
always _ = true

-- Two clients connect and join the channel `a`.
abbrev pub history : List Event
history =
    connects (codes "1") always
    ∷ connects (codes "2") always
    ∷ sends 0 (codes "ja") []
    ∷ sends 1 (codes "ja") []
    ∷ []

abbrev pub after_history : World
after_history = result (run demo history start)

-- The first of the two clients joins the channel.
abbrev pub first_join : List Event
first_join =
    connects (codes "1") always ∷ connects (codes "2") always ∷ sends 0 (codes "ja") [] ∷ []

abbrev pub after_first_join : World
after_first_join = result (run demo first_join start)

-- The second one joins too, and leaves.
abbrev pub after_second : World
after_second = result (run demo (sends 1 (codes "ja") [] ∷ disconnects 1 ∷ []) after_first_join)

abbrev pub two_connected : World
two_connected = add_client (codes "2") always (add_client (codes "1") always start)

-- A client whose queue was closed.
abbrev pub closing : List Event
closing = connects (codes "1") always ∷ ends 0 ∷ closes 0 ∷ []

abbrev pub one_closing : World
one_closing = result (run demo closing start)
