-- ===== src/Examples/Histories.antt =====
-- Runs of the small server, and what the theorems on histories say of them.
use nvda_remote_server.Common.{
  ℕ, ◌≡◌, ◌≢◌, refl, sym, ap, ◌∙◌, subst, true, false, none, some, [], ◌∷◌, codes, ok, panic,
  bytes_beq, bytes_eq, nat_eq, ◌>>=◌,
}
use nvda_remote_server.Common.Int.{int_beq, int32, int_eq}
use nvda_remote_server.GoMap.{get, put, delete}
use nvda_remote_server.Protocol.{Data, zero_data}
use nvda_remote_server.World.{
  World, start, add_client, find_client, find_channel, set_connection_type,
}
use nvda_remote_server.Client.{close, teardown}
use nvda_remote_server.Server.{run, step, message_received, relay, disconnect, sends, disconnects}
use nvda_remote_server.Channel.{ChannelParams, members, get_channel_params, authorizes}
use nvda_remote_server.Membership.{
  add, add_channel, announce, enter, authorize, remove, remove_client, leave,
}
use nvda_remote_server.Commands.{cmd_exec, command, exec, exec_join, exec_join_free, enter_channel}
use nvda_remote_server.Keys.{gen_key, generated, random_digits, channel_key_taken}
use nvda_remote_server.Strings.{index}
use nvda_remote_server.Invariant.{IsWellFormed}
use nvda_remote_server.Invariant.History.{run-IsWellFormed}
use nvda_remote_server.Invariant.Removing.{rest_of}
use nvda_remote_server.Queues.Valid.{AllValid, run-AllValid}
use nvda_remote_server.Isolation.{relay_outbox, relayed}
use nvda_remote_server.Joins.{exec_join_enters, HasEntered, IsNewIn}
use nvda_remote_server.Rooms.{rooms, RoomRun}
use nvda_remote_server.Rooms.Refinement.{run-RoomRun, run_stays_in_room}
use nvda_remote_server.Races.{join_race_panics, join_race_splits}
use nvda_remote_server.Panics.{message_received-ne-panic, generate_key_panics}
use nvda_remote_server.Examples.{
  demo, history, first_join, after_second, after_history, after_first_join, two_connected,
  one_closing,
}

-- Both clients are in the channel `a`.
joined_both :
    (run demo history start ≡ ok after_history)
    × ((after_history.client_at 0).channel ≡ some 0)
    × ((after_history.client_at 1).channel ≡ some 0)
unfolding run message_received cmd_exec exec exec_join exec_join_free enter_channel find_client
    find_channel get put get_channel_params index add add_channel members command bytes_beq int_beq
    set_connection_type announce enter authorize authorizes int32
joined_both = (refl, refl, refl)

IsWellFormed-both : IsWellFormed after_history.registry
IsWellFormed-both = run-IsWellFormed demo history after_history joined_both.0

run-RoomRun_example : RoomRun demo history (λ x. none) (rooms after_history.registry)
run-RoomRun_example = run-RoomRun demo history after_history joined_both.0

-- The first client is alone in the channel `a`, and the second one in none.
joined_one :
    (run demo first_join start ≡ ok after_first_join)
    × ((after_first_join.client_at 0).channel ≡ some 0)
    × ((after_first_join.client_at 1).channel ≡ none)
    × (find_channel (codes "a") after_first_join ≡ some 0)
    × (members (after_first_join.channel_at 0) ≡ ((after_first_join.client_at 0).id, 0) ∷ [])
    × (get (after_first_join.client_at 1).id (members (after_first_join.channel_at 0)) ≡ none)
    × ((after_first_join.outbox 1).closed ≡ false)
    × (rest_of 0 0 after_first_join.registry ≡ [])
unfolding run message_received cmd_exec exec exec_join exec_join_free enter_channel find_client
    find_channel get put delete leave get_channel_params index add add_channel members command
    bytes_beq int_beq set_connection_type announce enter authorize authorizes int32
joined_one = (refl, refl, refl, refl, refl, refl, refl, refl)

IsWellFormed-one : IsWellFormed after_first_join.registry
IsWellFormed-one = run-IsWellFormed demo first_join after_first_join joined_one.0

-- Both clients are connected, and there is no channel.
connected :
    (IsWellFormed two_connected.registry → IsWellFormed two_connected.registry)
    × (find_channel (codes "a") two_connected ≡ none)
unfolding add_client find_channel get
connected = (λ v. v, refl)

-- The queue of the one client is closed.
closed_one :
    ((one_closing.outbox 0).cancelled ≡ true)
    × ((one_closing.outbox 0).closed ≡ true)
    × ((one_closing.outbox 0).picks 1 ≡ true)
    × (gen_key one_closing.registry (some (1 ∷ 0 ∷ []) ∷ []) ≡ generated (codes "000000256"))
unfolding run step add_client close teardown gen_key random_digits channel_key_taken
closed_one = (refl, refl, refl, refl)

after_history-IsWellFormed : IsWellFormed after_history.registry
after_history-IsWellFormed = run-IsWellFormed demo history after_history joined_both.0

relay_outbox_example :
    (relay 0 0 (codes "{}") after_history).outbox 1 ≡ relayed after_history 0 0 (codes "{}") 1
relay_outbox_example = relay_outbox after_history 0 0 (codes "{}") 1 IsWellFormed-both joined_both.1

message_received_example : message_received demo 1 (codes "ja") [] after_first_join ≢ panic
message_received_example =
    message_received-ne-panic demo 1 (codes "ja") [] after_first_join IsWellFormed-one joined_one.6

abbrev join_a : Data
join_a = record zero_data {
  type = codes "join";
  channel = codes "a";
  connection_type = codes "slave";
}

abbrev params_a : ChannelParams
params_a = get_channel_params (codes "a")

named_a : params_a ≡ record { name = codes "a"; password = []; locked = false }
unfolding get_channel_params index
named_a = refl

named_a-ne-nil : params_a.name ≢ []
unfolding get_channel_params index
named_a-ne-nil = λ e. cc

found_first : (h : ℕ) → find_channel (codes "a") after_first_join ≡ some h → 0 ≡ h
found_first h e = same (sym joined_one.3 ∙ e)
  where
    same : some 0 ≡ some h → 0 ≡ h
    same f = cc

IsNewIn-a : IsNewIn params_a.name 1 after_first_join
IsNewIn-a h e =
    subst
      (λ k. get (after_first_join.client_at 1).id (members (after_first_join.channel_at k)) ≡ none)
      (found_first h
        (ap (λ (p : ChannelParams). find_channel p.name after_first_join) (sym named_a) ∙ e))
      joined_one.5

exec_join_enters_example :
    (w' : World) × (exec_join demo 1 join_a after_first_join ≡ ok w')
    × HasEntered params_a 1 after_first_join w'
exec_join_enters_example =
    exec_join_enters demo 1 join_a after_first_join IsWellFormed-one joined_one.2 named_a-ne-nil
      IsNewIn-a

join_race_panics_example : add demo 0 1 [] (remove_client demo 0 after_first_join) ≡ panic
join_race_panics_example =
    join_race_panics demo (codes "a") [] 0 1 0 after_first_join IsWellFormed-one joined_one.3
      joined_one.1 joined_one.4

join_race_splits_example :
    (w' : World) × ((add_channel demo (codes "a") [] false 0 two_connected
        >>= add_channel demo (codes "a") [] false 1)
      ≡ ok w')
    × ((w'.client_at 0).channel ≡ some 0)
    × ((w'.client_at 1).channel ≡ some 1)
    × ((w'.channel_at 0).name ≡ codes "a")
    × (find_channel (codes "a") w' ≡ some 1)
unfolding add_client
join_race_splits_example =
    join_race_splits demo (codes "a") [] false 0 1 two_connected (λ e. cc) connected.1

generate_key_panics_example :
    cmd_exec demo 0
      (record zero_data { type = codes "generate_key" })
      (some (1 ∷ 0 ∷ []) ∷ [])
      one_closing
    ≡ panic
generate_key_panics_example =
    generate_key_panics demo 0 (record zero_data { type = codes "generate_key" })
      (some (1 ∷ 0 ∷ []) ∷ []) one_closing (codes "000000256") (codes "{generate_key") refl
      closed_one.3 refl closed_one.0 closed_one.1 closed_one.2

after_history-AllValid : AllValid after_history.outbox
after_history-AllValid = run-AllValid demo history after_history joined_both.0

-- The first client's own room after the second one has joined and left again.
second_comes :
    (run demo (sends 1 (codes "ja") [] ∷ disconnects 1 ∷ []) after_first_join ≡ ok after_second)
    × (rooms after_first_join.registry 0 ≡ some (codes "a"))
unfolding run message_received cmd_exec exec exec_join exec_join_free enter_channel find_client
    find_channel get put delete leave get_channel_params index add add_channel members command
    bytes_beq int_beq set_connection_type announce enter authorize authorizes int32 remove_client
    remove disconnect
second_comes = (refl, refl)

run_stays_in_room_example : rooms after_second.registry 0 ≡ some (codes "a")
run_stays_in_room_example =
    run_stays_in_room demo (sends 1 (codes "ja") [] ∷ disconnects 1 ∷ []) after_first_join
      after_second 0 (codes "a") IsWellFormed-one second_comes.0 ((λ e. cc), ((λ e. cc), tt))
      second_comes.1
