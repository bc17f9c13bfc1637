-- ===== src/Queues/Valid.antt =====
-- The queues of the server stay valid: the bounds of server/client.go, in every history.
use nvda_remote_server.Common.{
  ℕ, ◌≡◌, refl, ap, Bool, List, [], ◌∷◌, Bytes, length, length-append, arith, either_branch,
  bytes_eq, nat_eq, ok, All,
}
use nvda_remote_server.Client.{Outbox, close, close_gracefully, teardown}
use nvda_remote_server.Client.Send.{IsValid, send-IsValid}
use nvda_remote_server.World.{World, Settings, Outboxes, new_outbox, start}
use nvda_remote_server.Server.{
  take_message, Event, connects, sends, disconnects, takes, pings, ends, closes, run,
}
use nvda_remote_server.Queues.{QueueLaws}
use nvda_remote_server.Queues.History.{Sends, run-Served, start-AllKept}

abbrev pub AllValid : Outboxes → Type 0
AllValid o = (r : ℕ) → IsValid (o r)

close-IsValid : (o : Outbox) → IsValid o → IsValid (close o)
unfolding close
close-IsValid o v = record { within = v.within; counted = v.counted; ordered = λ _. refl }

teardown-IsValid : (o : Outbox) → IsValid o → IsValid (teardown o)
unfolding teardown
teardown-IsValid o v =
    either_branch IsValid o.cancelled
      (λ e. record { within = v.within; counted = v.counted; ordered = λ _. e }) (λ _. v)

take_message-IsValid : (o : Outbox) → IsValid o → IsValid (take_message o)
unfolding take_message
take_message-IsValid o v = go o.sd refl
  where
    go :
        (l : List Bytes)
        → o.sd ≡ l
        → IsValid (elim l [ [] ↦ o | b ∷ rest ↦ record o { sd = rest } ])
    go [] e = v
    go (b ∷ rest) e = record {
      within = omega (arith, v.within, ap length e);
      counted = v.counted;
      ordered = v.ordered;
    }

close_gracefully-IsValid : (o o' : Outbox) → IsValid o → close_gracefully o ≡ ok o' → IsValid o'
unfolding close_gracefully
close_gracefully-IsValid o o' v e = record {
  within = ground (arith, v.within, length-append o.sd ([] ∷ []));
  counted = ground (arith, v.counted);
  ordered = λ h. ground (arith, v.ordered);
}

new_outbox-IsValid : (picks : ℕ → Bool) → IsValid (new_outbox picks)
new_outbox-IsValid picks = record { within = omega arith; counted = omega arith; ordered = λ e. cc }

-- Validity is a law of queues for messages of every kind.
abbrev valid_laws : Settings → QueueLaws
valid_laws conf = record {
  conf = conf;
  holds = IsValid;
  allows = λ _. Unit;
  fresh = new_outbox-IsValid;
  sending = λ b o _ v. send-IsValid b o v;
  closing = close-IsValid;
  tearing = teardown-IsValid;
  taking = take_message-IsValid;
  ending = close_gracefully-IsValid;
  silence = tt;
  pinging = tt;
  lonely = tt;
  encodes = λ _ _ _. tt;
  relays = λ _ _ _ _ _. tt;
}

sent : (conf : Settings) (e : Event) → Sends (valid_laws conf).allows e
sent conf (connects ip picks) = tt
sent conf (sends r pmsg reads) = tt
sent conf (disconnects r) = tt
sent conf (takes r) = tt
sent conf (pings r) = tt
sent conf (ends r) = tt
sent conf (closes r) = tt

sends_all : (conf : Settings) (es : List Event) → All (Sends (valid_laws conf).allows) es
sends_all conf [] = tt
sends_all conf (e ∷ es) = (sent conf e, sends_all conf es)

-- After any history of the server from its start that does not panic, every client's queue is valid:
-- within its capacity, with its drop counter within 32 bits, and closed only after the client's
-- context is done.
pub run-AllValid :
    (conf : Settings) (es : List Event) (w : World) → run conf es start ≡ ok w → AllValid w.outbox
run-AllValid conf es w e =
    run-Served (valid_laws conf) es start (sends_all conf es) (start-AllKept (valid_laws conf)) w e
