-- ===== src/Examples/Wire.antt =====
-- Messages on their way through a queue and a connection, and what the theorems say of them.
use nvda_remote_server.Common.{
  Outcome, ℕ, ◌≡◌, ◌≢◌, refl, true, false, Option, none, some, List, [], ◌∷◌, Bytes, codes,
  bytes_beq, All, arith, ok, ◌++◌,
}
use nvda_remote_server.Common.Int.{pos, negsuc, int_beq, int_leb, int32}
use nvda_remote_server.GoMap.{get, put}
use nvda_remote_server.Protocol.{Data, zero_data}
use nvda_remote_server.World.{
  World, Settings, start, find_client, find_channel, set_connection_type,
}
use nvda_remote_server.Server.{relay, Event, sends, run, message_received}
use nvda_remote_server.Channel.{members, get_channel_params, authorizes}
use nvda_remote_server.Membership.{add, add_channel, announce, enter, authorize}
use nvda_remote_server.Commands.{cmd_exec, command, exec, exec_join, exec_join_free, enter_channel}
use nvda_remote_server.Strings.{index}
use nvda_remote_server.Client.Framing.{IsLine}
use nvda_remote_server.Client.Listen.{is_too_long, read_bytes, listen, read_failed}
use nvda_remote_server.Json.Encode.{encode}
use nvda_remote_server.Json.Quote.{quote}
use nvda_remote_server.Json.Decimal.{append_int}
use nvda_remote_server.Json.Unquote.{unquote, repaired_from}
use nvda_remote_server.Queues.History.{Sends}
use nvda_remote_server.Queues.Lines.{run-HoldsLines, HoldsLines}
use nvda_remote_server.Writer.{WriterEvent, message, elapsed, write_all, new_writer}
use nvda_remote_server.Writer.Wire.{
  messages, IsLineEvent, listen-write_all, IsBeginningOf, listen-IsBeginningOf,
}
use nvda_remote_server.Invariant.{IsWellFormed}
use nvda_remote_server.Invariant.History.{run-IsWellFormed}
use nvda_remote_server.Server.Session.{Conn, serve, IsGone, serve-IsGone}
use nvda_remote_server.Examples.{demo_decode, result, history}

abbrev left_message : Data
left_message = record zero_data {
  type = codes "client_left";
  id = negsuc 6;
  user_ids = pos 1 ∷ pos 2 ∷ [];
  client = some (record { id = pos 7; connection_type = codes "a\"\n<" });
  motd_always_display = true;
}

encoded_text :
    encode left_message
    ≡ some (
        codes
          "{\"type\":\"client_left\",\"user_id\":-7,\"user_ids\":[1,2],\"client\":{\"id\":7,\"connection_type\":\"a\\\"\\n\\u003c\"},\"force_display\":true}")
unfolding encode bytes_beq int_beq quote append_int
encoded_text = refl

encode-ne-nil : (d : Data) (b : Bytes) → encode d ≡ some b → b ≢ []
unfolding encode
encode-ne-nil d [] e = cc
encode-ne-nil d (c ∷ b) e = λ f. cc

abbrev json_settings : Settings
json_settings = record {
  codec = record { encode = encode; decode = demo_decode; encode-ne-nil = encode-ne-nil };
  motd = codes "two\nlines";
  motd_always_display = false;
}

-- The message of the day has a line feed in it, and the first client sends a message to the second.
abbrev relayed_history : List Event
relayed_history = history ++ (sends 0 (codes "{\"type\":\"key\"}") [] ∷ [])

abbrev after_relay : World
after_relay = result (run json_settings relayed_history start)

ran_well : run json_settings relayed_history start ≡ ok after_relay
unfolding run message_received cmd_exec exec exec_join exec_join_free enter_channel find_client
    find_channel get put get_channel_params index add add_channel members command bytes_beq int_beq
    set_connection_type announce enter authorize authorizes int32
ran_well = refl

relayed_history-IsLine : All (Sends IsLine) relayed_history
relayed_history-IsLine = (tt, (tt, (ground arith, (ground arith, (ground arith, tt)))))

run-HoldsLines_example : HoldsLines (after_relay.outbox 1)
run-HoldsLines_example =
    run-HoldsLines json_settings relayed_history after_relay 1 refl relayed_history-IsLine ran_well

abbrev taken : List WriterEvent
taken = message (codes "{\"a\":1}") true ∷ elapsed ∷ message (codes "{}") false ∷ []

taken-IsLineEvent : All IsLineEvent taken
taken-IsLineEvent = (ground arith, (tt, (ground arith, tt)))

listen-write_all_example :
    listen b'\n'
      (pos 0)
      (write_all b'\n' (taken ++ (message [] false ∷ [])) (new_writer (λ _. none))).sent
    ≡ (messages taken, read_failed)
listen-write_all_example =
    listen-write_all taken false (λ _. none) (λ k. refl) ((λ e. cc), (tt, ((λ e. cc), tt)))
      taken-IsLineEvent

-- The connection fails after three bytes of the first write.
abbrev broken : ℕ → Option ℕ
broken k = some 3

listen-IsBeginningOf_example :
    IsBeginningOf
      (messages taken)
      (listen b'\n' (pos 0) (write_all b'\n' taken (new_writer broken)).sent).0
listen-IsBeginningOf_example = listen-IsBeginningOf taken broken taken-IsLineEvent

-- A quote, a line feed, the line separator, and a byte that is of no character.
abbrev odd_string : Bytes
odd_string = codes "a\"\n" ++ (0xe2 ∷ 0x80 ∷ 0xa8 ∷ 0xff ∷ [])

read_back : unquote (quote odd_string) ≡ some (repaired_from 0 odd_string, [])
unfolding unquote quote repaired_from
read_back = refl

repaired :
    repaired_from 0 odd_string ≡ codes "a\"\n" ++ (0xe2 ∷ 0x80 ∷ 0xa8 ∷ 0xef ∷ 0xbf ∷ 0xbd ∷ [])
unfolding repaired_from
repaired = refl

-- The first of two clients joins, sends a line that is too long, and one more.
abbrev long_conn : Conn
long_conn = record {
  handshake_error = none;
  input = codes "ja\n{\"type\":\"key\"}\n{}\n";
  reads = λ k. [];
}

abbrev served : Outcome World
served = serve json_settings b'\n' (pos 5) 0 long_conn after_relay

served_well : served ≡ ok (result served)
unfolding serve run message_received cmd_exec exec exec_join exec_join_free enter_channel
    find_client find_channel get put get_channel_params index add add_channel members command
    bytes_beq int_beq set_connection_type announce enter authorize authorizes int32 listen
    read_bytes is_too_long int_leb relay
served_well = refl

serve-IsGone_example : IsWellFormed (result served).registry × IsGone 0 (result served)
serve-IsGone_example =
    serve-IsGone json_settings b'\n' (pos 5) 0 long_conn after_relay (result served)
      (run-IsWellFormed json_settings relayed_history after_relay ran_well) served_well
