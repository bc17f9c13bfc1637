-- ===== src/Queues.antt =====
-- What every operation on a client's queue (server/client.go) keeps, every handler of the server keeps:
-- here under the sends of server/clientChannel.go.
pub mod Channels
pub mod Handlers
pub mod History
pub mod Valid
pub mod Lines
use nvda_remote_server.Common.{
  ℕ, suc, ◌+◌, ◌%◌, ◌^◌, ◌≤◌, ◌<◌, ◌≡◌, ◌≢◌, refl, sym, ap, ◌∙◌, codes, subst, Bool, true, false,
  not, ◌||◌, ◌&&◌, Option, none, some, List, [], ◌∷◌, ◌++◌, Bytes, length, length-append, update,
  nat_beq, leb, arith, either_branch, if◌then◌else◌, ◌==◌, bytes_eq, nat_eq, Outcome, ok, panic,
  ◌>>=◌, Option-cases, Bool-cases, inl, inr,
}
use nvda_remote_server.Common.Int.{ℤ, int_eq, int_leb, pos}
use nvda_remote_server.GoMap.{Map, get, put, delete}
use nvda_remote_server.Protocol.{Data, Codec}
use nvda_remote_server.Client.{
  Outbox, send, close, close_gracefully, teardown, ping, sd_capacity, not_connected_msg, ping_msg,
}
use nvda_remote_server.Client.Send.{IsValid, send-IsValid}
use nvda_remote_server.Channel.{members, get_channel_params, ChannelParams}
use nvda_remote_server.World.{
  set_channel_at, set_connection_type, find_channel, find_client, World, Settings, Outboxes,
  new_outbox, start, add_client,
}
use nvda_remote_server.Relay.{
  send_to, is_excluded, send_all_locked, send_all, send_others, send_json, send_to_client,
  must_encode,
}
use nvda_remote_server.Channel.{lmotd, ClientChannel}
use nvda_remote_server.Membership.Announce.{joined_data, channel_joined_data, motd_data, left_data}
use nvda_remote_server.Membership.{
  enter, leave, add, add_channel, announce, store_member, remove, remove_client,
}
use nvda_remote_server.Commands.{
  Command, join, protocol_version, generate_key, close_client, send_error, enter_channel, exec_join,
  exec_join_free, exec_protocol_version, exec_generate_key, exec, cmd_exec, command, error_data,
  key_data,
}
use nvda_remote_server.Json.{json_add_origin}
use nvda_remote_server.Keys.{gen_key}
use nvda_remote_server.Server.{
  disconnect, relayed_by, relay, message_received, take_message, at_outbox, Event, connects, sends,
  disconnects, takes, pings, ends, closes, step, run,
}
use nvda_remote_server.Invariant.Steps.{Outcome-cases, GenKey-cases, exec_generate_key_lem, told}

-- A property of queues that the operations of server/client.go keep, where the messages that are sent
-- have a property of their own.
pub record QueueLaws : Type 1 where
  pub conf : Settings
  pub holds : Outbox → Type 0
  pub allows : Bytes → Type 0
  pub fresh : (picks : ℕ → Bool) → holds (new_outbox picks)
  pub sending : (b : Bytes) (o : Outbox) → allows b → holds o → holds (send b o)
  pub closing : (o : Outbox) → holds o → holds (close o)
  pub tearing : (o : Outbox) → holds o → holds (teardown o)
  pub taking : (o : Outbox) → holds o → holds (take_message o)
  pub ending : (o o' : Outbox) → holds o → close_gracefully o ≡ ok o' → holds o'
  -- the messages that the server sends
  pub silence : allows []
  pub pinging : allows ping_msg
  pub lonely : allows not_connected_msg
  pub encodes : (d : Data) (b : Bytes) → conf.codec.encode d ≡ some b → allows b
  pub relays :
      (pmsg : Bytes) (id : ℤ) (out : Bytes)
      → allows pmsg
      → json_add_origin pmsg id ≡ some out
      → allows out

abbrev pub AllKept : QueueLaws → Outboxes → Type 0
AllKept k o = (r : ℕ) → k.holds (o r)

module _ (k : QueueLaws) where
  pub update-AllKept :
      (o : Outboxes) (r : ℕ) (b : Outbox) → AllKept k o → k.holds b → AllKept k (update o r b)
  update-AllKept o r b v h x = either_branch k.holds (nat_beq r x) (λ _. h) (λ _. v x)

  pub send_to-AllKept :
      (r : ℕ) (msg : Bytes) (o : Outboxes)
      → k.allows msg
      → AllKept k o
      → AllKept k (send_to r msg o)
  unfolding send_to
  send_to-AllKept r msg o a v = update-AllKept o r _ v (k.sending msg (o r) a (v r))

  pub send_all_locked-AllKept :
      (m : Map ℤ ℕ) (msg : Bytes) (client : Option ℕ) (o : Outboxes)
      → k.allows msg
      → AllKept k o
      → AllKept k (send_all_locked m msg client o)
  unfolding send_all_locked
  send_all_locked-AllKept [] msg client o a v = v
  send_all_locked-AllKept ((id, r) ∷ m) msg client o a v =
      send_all_locked-AllKept m msg client _ a (
        either_branch (AllKept k) (is_excluded client r) (λ _. v)
          (λ _. send_to-AllKept r msg o a v))

  pub send_others-AllKept :
      (m : Map ℤ ℕ) (msg : Bytes) (client : ℕ) (o : Outboxes)
      → k.allows msg
      → AllKept k o
      → AllKept k (send_others m msg client o)
  unfolding send_others
  send_others-AllKept m msg client o a v =
      either_branch (AllKept k) (leb (length m) 1)
        (λ _. send_to-AllKept client not_connected_msg o k.lonely v)
        (λ _. send_all_locked-AllKept m msg (some client) o a v)

  pub send_to_client-AllKept :
      (client : ℕ) (d : Data) (o : Outboxes)
      → AllKept k o
      → AllKept k (send_to_client k.conf.codec client d o)
  unfolding send_to_client
  send_to_client-AllKept client d o v = elim (Option-cases (k.conf.codec.encode d)) [
    | inl e ↦ rw (e, send_to_client) v
    | inr (enc, e) ↦ rw (e, send_to_client) (send_to-AllKept client enc o (k.encodes d enc e) v)
  ]

  pub relayed_by-AllKept :
      (m : Map ℤ ℕ) (r : ℕ) (pmsg : Bytes) (o : Outboxes) (id : ℤ)
      → k.allows pmsg
      → AllKept k o
      → AllKept k (relayed_by m r pmsg o id)
  unfolding relayed_by send_all
  relayed_by-AllKept m r pmsg o id a v = elim (Option-cases (json_add_origin pmsg id)) [
    | inl e ↦ rw (e, relayed_by) (send_all_locked-AllKept m pmsg (some r) o a v)
    | inr (out, e) ↦ rw (e, relayed_by) (send_others-AllKept m out r o (k.relays pmsg id out a e) v)
  ]

  pub encoded : (d : Data) → k.allows (must_encode k.conf.codec d)
  unfolding must_encode
  encoded d = elim (Option-cases (k.conf.codec.encode d)) [
    | inl e ↦ rw (e, must_encode) k.silence
    | inr (enc, e) ↦ rw (e, must_encode) (k.encodes d enc e)
  ]

  pub announce-AllKept :
      (h r : ℕ) (password : Bytes) (w : World)
      → AllKept k w.outbox
      → AllKept k (announce k.conf h r password w).outbox
  unfolding announce send_json
  announce-AllKept h r password w v =
      let c = w.channel_at h in
      let client = w.client_at r in
      let told = send_json k.conf.codec (members c) (some r) (joined_data c client) w.outbox in
      let told_valid : AllKept k told =
        send_all_locked-AllKept (members c) (must_encode k.conf.codec (joined_data c client))
          (some r) w.outbox (encoded (joined_data c client)) v in
      let listed = send_to_client k.conf.codec r (channel_joined_data w.registry c client) told in
      let listed_valid : AllKept k listed =
        send_to_client-AllKept r (channel_joined_data w.registry c client) told told_valid in
      let text = lmotd c client.connection_type c.name password in
      either_branch {x = send_to_client k.conf.codec r (motd_data k.conf text) listed} {y = listed}
        (AllKept k) (not (k.conf.motd == []) || not (text == []))
        (λ _. send_to_client-AllKept r (motd_data k.conf text) listed listed_valid)
        (λ _. listed_valid)
