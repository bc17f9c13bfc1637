-- ===== src/Queues/Lines.antt =====
-- Every message on a queue of the server is one line, so that the line feed which the writer puts
-- behind it ends it (server/client.go).
use nvda_remote_server.Common.{
  ℕ, ◌≡◌, refl, ap, ◌∙◌, sym, List, [], ◌∷◌, ◌++◌, Bytes, arith, either_branch, subst, some, ok,
  All, inl, inr,
}
use nvda_remote_server.Protocol.{Data}
use nvda_remote_server.Client.{
  Outbox, send, close, close_gracefully, teardown, ping_msg, not_connected_msg,
}
use nvda_remote_server.Client.Framing.{IsLine}
use nvda_remote_server.Client.Send.{send_fifo}
use nvda_remote_server.World.{World, Settings, start}
use nvda_remote_server.Server.{take_message, Event, run}
use nvda_remote_server.Json.Decimal.{All-append}
use nvda_remote_server.Json.Encode.{encode}
use nvda_remote_server.Json.Line.{encode_shows, IsShown-line}
use nvda_remote_server.Json.Relayed.{json_add_origin-IsLine}
use nvda_remote_server.Queues.{QueueLaws}
use nvda_remote_server.Queues.History.{Sends, run-Served, start-AllKept}

abbrev pub HoldsLines : Outbox → Type 0
HoldsLines o = All IsLine o.sd

one_more : (ms : List Bytes) (b : Bytes) → All IsLine ms → IsLine b → All IsLine (ms ++ (b ∷ []))
one_more ms b h line = All-append IsLine ms (b ∷ []) h (line, tt)

send-HoldsLines : (b : Bytes) (o : Outbox) → IsLine b → HoldsLines o → HoldsLines (send b o)
send-HoldsLines b o line h = elim (send_fifo b o) [
  | inl e ↦ subst (All IsLine) (sym e) h
  | inr e ↦ subst (All IsLine) (sym e) (one_more o.sd b h line)
]

close-HoldsLines : (o : Outbox) → HoldsLines o → HoldsLines (close o)
unfolding close
close-HoldsLines o h = h

teardown-HoldsLines : (o : Outbox) → HoldsLines o → HoldsLines (teardown o)
unfolding teardown
teardown-HoldsLines o h = either_branch HoldsLines o.cancelled (λ _. h) (λ _. h)

take_message-HoldsLines : (o : Outbox) → HoldsLines o → HoldsLines (take_message o)
unfolding take_message
take_message-HoldsLines o h = go o.sd refl h
  where
    go :
        (l : List Bytes)
        → o.sd ≡ l
        → All IsLine l
        → HoldsLines (elim l [ [] ↦ o | b ∷ rest ↦ record o { sd = rest } ])
    go [] e k = h
    go (b ∷ rest) e (kb, k) = k

close_gracefully-HoldsLines :
    (o o' : Outbox) → HoldsLines o → close_gracefully o ≡ ok o' → HoldsLines o'
unfolding close_gracefully
close_gracefully-HoldsLines o o' h e = ground (arith, one_more o.sd [] h tt)

ping_msg-IsLine : IsLine ping_msg
ping_msg-IsLine = ground arith

not_connected_msg-IsLine : IsLine not_connected_msg
not_connected_msg-IsLine = ground arith

encode-IsLine : (d : Data) (b : Bytes) → encode d ≡ some b → IsLine b
encode-IsLine d b e =
    let (body, whole, shown) = encode_shows d in
    subst IsLine (same body (sym whole ∙ e)) (IsShown-line (b'{' ∷ body) shown)
  where
    same : (body : Bytes) → some (b'{' ∷ body) ≡ some b → (b'{' ∷ body) ≡ b
    same body e = cc

module _ (conf : Settings) (encodes : conf.codec.encode ≡ encode) where
  -- To hold lines only is a law of queues for messages that are lines.
  abbrev line_laws : QueueLaws
  line_laws = record {
    conf = conf;
    holds = HoldsLines;
    allows = IsLine;
    fresh = λ picks. tt;
    sending = send-HoldsLines;
    closing = close-HoldsLines;
    tearing = teardown-HoldsLines;
    taking = take_message-HoldsLines;
    ending = close_gracefully-HoldsLines;
    silence = tt;
    pinging = ping_msg-IsLine;
    lonely = not_connected_msg-IsLine;
    encodes = λ d b e. encode-IsLine d b (sym (ap (λ f. f d) encodes) ∙ e);
    relays = λ pmsg id out h e. json_add_origin-IsLine pmsg id out h e;
  }

-- Behind any history of the server from its start that does not panic, where each message that a client
-- sent is one line, as `listen` cuts it, and `Encode` is that of Go's standard library: every message on
-- every queue is one line.
pub run-HoldsLines :
    (conf : Settings) (es : List Event) (w : World) (r : ℕ)
    → conf.codec.encode ≡ encode
    → All (Sends IsLine) es
    → run conf es start ≡ ok w
    → HoldsLines (w.outbox r)
run-HoldsLines conf es w r encodes lines e =
    run-Served (line_laws conf encodes) es start lines (start-AllKept (line_laws conf encodes)) w e
      r
