-- ===== src/Examples/Messages.antt =====
-- Messages, keys and queues at concrete inputs, and what the theorems on them say there.
use nvda_remote_server.Common.{
  ℕ, zero, suc, ◌-◌, ◌≡◌, ◌≢◌, ◌↔◌, refl, true, false, not, Option, none, some, List, [], ◌∷◌, ◌++◌,
  Bytes, codes, All, length, take, arith, ◌==◌, bytes_eq, if◌then◌else◌, bytes_beq,
}
use nvda_remote_server.Common.Int.{ℤ, pos}
use nvda_remote_server.GoMap.{Map}
use nvda_remote_server.World.{Registry, start, new_outbox}
use nvda_remote_server.Client.{Outbox}
use nvda_remote_server.Client.Send.{IsValid}
use nvda_remote_server.Client.Overflow.{send_row, IsIdle, send_row_keeps, send_row_disconnects}
use nvda_remote_server.Channel.{
  ClientChannel, get_channel_params, lmotd, authorizes, conn_type_slave, conn_type_master,
}
use nvda_remote_server.Channel.Params.{Spells, get_channel_params-Spells}
use nvda_remote_server.Channel.Lmotd.{header, slave_text, master_text, lmotd-authorizes}
use nvda_remote_server.Json.{json_add_origin, is_space}
use nvda_remote_server.Json.Decimal.{IsDigit}
use nvda_remote_server.Json.Origin.{
  IsSpace, IsObject, with_origin, json_add_origin_object, json_add_origin-none,
}
use nvda_remote_server.Keys.{random_digits, gen_key, generated, channel_key_taken}
use nvda_remote_server.Keys.Fresh.{IsFree, gen_key_sound, gen_key_first_free, AllTaken, Draws}
use nvda_remote_server.Relay.Delivery.{holds, Apart}

one_blank : All IsSpace (codes " ")
unfolding is_space
one_blank = (refl, tt)

json_add_origin_object_example :
    json_add_origin (codes " " ++ (b'{' ∷ codes "\"type\":\"key\"}")) (pos 7)
    ≡ some (codes " " ++ (b'{' ∷ with_origin (pos 7) (codes "\"type\":\"key\"}")))
json_add_origin_object_example =
    json_add_origin_object (codes " ") (codes "\"type\":\"key\"}") (pos 7) one_blank

json_add_origin-none_example :
    (json_add_origin (codes "raw") (pos 7) ≡ none) ↔ (¬ IsObject (codes "raw"))
json_add_origin-none_example = json_add_origin-none (codes "raw") (pos 7)

get_channel_params-Spells_example :
    Spells (get_channel_params (codes "lock_a__password__b")) (codes "lock_a__password__b")
get_channel_params-Spells_example = get_channel_params-Spells (codes "lock_a__password__b")

abbrev locked_channel : ClientChannel
locked_channel = record {
  name = codes "a";
  password = codes "b";
  locked = true;
  clients_all = some [];
}

lmotd-authorizes_example : lmotd locked_channel (codes "slave") (codes "a") (codes "b") ≡ (
    if not true
    then []
    else if codes "slave" == conn_type_slave
    then header (codes "a")
      ++ slave_text (not (codes "b" == [])) (authorizes locked_channel (codes "b"))
    else if codes "slave" == conn_type_master
    then header (codes "a") ++ master_text (authorizes locked_channel (codes "b"))
    else header (codes "a"))
lmotd-authorizes_example = lmotd-authorizes locked_channel (codes "slave") (codes "a") (codes "b")

copies : ℕ → Bytes → List Bytes
copies zero b = []
copies (suc n) b = b ∷ copies n b

length-copies : (n : ℕ) (b : Bytes) → length (copies n b) ≡ n
unfolding copies
length-copies zero b = refl
length-copies (suc n) b = omega (arith, length-copies n b)

copies-ne-nil : (n : ℕ) → All (λ b. b ≢ []) (copies n (codes "x"))
unfolding copies
copies-ne-nil zero = tt
copies-ne-nil (suc n) = (λ e. cc, copies-ne-nil n)

abbrev idle : Outbox
idle = new_outbox (λ _. true)

idle-IsIdle : IsIdle idle
idle-IsIdle = record { empty = refl; none_dropped = refl; live = refl; opened = refl }

send_row_keeps_example : send_row (copies 150 (codes "x")) idle ≡ record idle {
  sd = take 100 (copies 150 (codes "x"));
  dropped = length (copies 150 (codes "x")) - 100;
}
send_row_keeps_example =
    send_row_keeps (copies 150 (codes "x")) idle (copies-ne-nil 150) idle-IsIdle
      (omega (arith, length-copies 150 (codes "x")))

send_row_disconnects_example : (send_row (copies 600 (codes "x")) idle).cancelled ≡ true
send_row_disconnects_example =
    send_row_disconnects (copies 600 (codes "x")) idle (copies-ne-nil 600) idle-IsIdle
      (omega (arith, length-copies 600 (codes "x")))

idle-IsValid : IsValid idle
idle-IsValid = record { within = omega arith; counted = omega arith; ordered = λ e. cc }

abbrev draw : Option Bytes
draw = some (1 ∷ 0 ∷ [])

drawn :
    (gen_key start.registry (draw ∷ []) ≡ generated (codes "000000256"))
    × (random_digits 9 (some (1 ∷ 0 ∷ [])) [] ≡ some (codes "000000256"))
unfolding gen_key random_digits channel_key_taken
drawn = (refl, refl)

gen_key_sound_example :
    (length (codes "000000256") ≡ 9)
    × All IsDigit (codes "000000256")
    × IsFree start.registry (codes "000000256")
gen_key_sound_example = gen_key_sound start.registry (draw ∷ []) (codes "000000256") drawn.0

-- A server with the channel `000000256`.
abbrev taken_registry : Registry
taken_registry = record start.registry { channels = (codes "000000256", 0) ∷ [] }

two-Draws :
    AllTaken taken_registry (draw ∷ [])
    × Draws (2 ∷ []) (codes "000000002")
    × (channel_key_taken taken_registry (codes "000000002") ≡ false)
unfolding random_digits channel_key_taken bytes_beq
two-Draws = (((codes "000000256", refl, refl), tt), refl, refl)

gen_key_first_free_example :
    gen_key taken_registry ((draw ∷ []) ++ (some (2 ∷ []) ∷ [])) ≡ generated (codes "000000002")
gen_key_first_free_example =
    gen_key_first_free taken_registry (draw ∷ []) [] (2 ∷ []) (codes "000000002") two-Draws.0
      two-Draws.1 two-Draws.2

abbrev one_then_two : Map ℤ ℕ
one_then_two = (pos 1, 0) ∷ (pos 2, 1) ∷ []

abbrev two_then_one : Map ℤ ℕ
two_then_one = (pos 2, 1) ∷ (pos 1, 0) ∷ []

same_members :
    Apart one_then_two
    × Apart two_then_one
    × ((r : ℕ) → holds one_then_two r ≡ holds two_then_one r)
unfolding holds
same_members = ((refl, (refl, tt)), (refl, (refl, tt)), λ r. ground arith)
