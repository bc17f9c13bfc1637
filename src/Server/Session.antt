-- ===== src/Server/Session.antt =====
-- `listen` of server/client.go from the handshake on: what one client does to the server while its
-- connection lasts, with nothing else in between. Deadlines are left out.
use nvda_remote_server.Common.{
  ℕ, suc, ◌≡◌, ◌≢◌, refl, sym, ◌∙◌, subst, false, Option, none, some, List, [], ◌∷◌, Bytes, Outcome,
  ok, ◌>>=◌, Option-cases, Bool-cases, inl, inr, if◌then◌else◌, nat_eq, arith,
}
use nvda_remote_server.Common.Int.{ℤ, int_eq}
use nvda_remote_server.GoMap.{get, delete, get-delete}
use nvda_remote_server.Channel.{members}
use nvda_remote_server.Client.Listen.{Ending, read_failed, too_long, listen}
use nvda_remote_server.World.{World, Settings, find_client}
use nvda_remote_server.Commands.{close_client}
use nvda_remote_server.Membership.{remove_client}
use nvda_remote_server.Server.{sends, disconnect, message_received, step}
use nvda_remote_server.Invariant.{IsWellFormed}
use nvda_remote_server.Invariant.Clients.{left_channel, remove_client-IsWellFormed}
use nvda_remote_server.Invariant.History.{step-IsWellFormed}
use nvda_remote_server.Invariant.Steps.{Outcome-cases}
use nvda_remote_server.Rooms.Refinement.{unknown-free}

-- What the connection of a client does: the error of its TLS handshake if there is one, the bytes that
-- arrive, and the random numbers that are read for each of its messages.
pub record Conn : Type 0 where
  pub handshake_error : Option Bytes
  pub input : Bytes
  pub reads : ℕ → List (Option Bytes)

-- A message that is too long closes the client.
unfoldable pub close_after : ℕ → Ending → World → World
close_after r read_failed w = w
close_after r too_long w = close_client r w

-- The loop of the reader with the deferred calls behind it. A message of a client that is not in the map
-- of clients makes the goroutine exit (runtime.Goexit), so that no further message is received.
unfoldable pub receive_all :
    Settings → ℕ → Ending → (ℕ → List (Option Bytes)) → List Bytes → World → Outcome World
unfolding close_after
receive_all conf r ending reads [] w = ok (disconnect conf r (close_after r ending w))
receive_all conf r ending reads (m ∷ ms) w = message_received conf r m (reads 0) w >>= λ w'.
    let rest = receive_all conf r ending (λ k. reads (suc k)) ms w' in
    if find_client r w then rest else ok w'

unfoldable pub serve : Settings → ℕ → ℤ → ℕ → Conn → World → Outcome World
unfolding receive_all
serve conf end_message max_msg_len r conn w =
    let (received, ending) = listen end_message max_msg_len conn.input in
    elim conn.handshake_error [
      | some e ↦ ok (disconnect conf r w)
      | none ↦ receive_all conf r ending conn.reads received w
    ]

-- The server knows nothing of the client: it is not connected, and no channel has it.
pub record IsGone (r : ℕ) (w : World) : Type 0 where
  pub unknown : find_client r w ≡ false
  pub free : (w.client_at r).channel ≡ none
  pub in_none : (h : ℕ) (id : ℤ) → get id (members (w.channel_at h)) ≢ some r

-- It is gone, and what is left is well formed.
abbrev IsLeft : ℕ → Outcome World → Type 0
IsLeft r o = (w : World) → o ≡ ok w → IsWellFormed w.registry × IsGone r w

-- The end of `RemoveClient`.
forgotten :
    (r : ℕ) (w : World)
    → find_client r (elim (get r w.clients) [
      | none ↦ w
      | some _ ↦ record w { registry = record w.registry { clients = delete r w.clients } }
    ])
      ≡ false
unfolding find_client
forgotten r w = elim (Option-cases (get r w.clients)) [
  | inl e ↦ rw (e, find_client) (rw e refl)
  | inr (u, e) ↦ rw (e, find_client) (ground (arith, get-delete r r w.clients))
]

removed_unknown :
    (conf : Settings) (r : ℕ) (w : World) → find_client r (remove_client conf r w) ≡ false
unfolding left_channel remove_client
removed_unknown conf r w = forgotten r (left_channel conf r w)

disconnect-IsLeft :
    (conf : Settings) (r : ℕ) (w : World)
    → IsWellFormed w.registry
    → IsLeft r (ok (disconnect conf r w))
unfolding disconnect close_client
disconnect-IsLeft conf r w v w' e =
    subst (λ x. IsWellFormed x.registry × IsGone r x) (injected e) (left, gone)
  where
    injected : {a b : World} → ok a ≡ ok b → a ≡ b
    injected e = cc

    none_ne_some : {h : ℕ} → none ≢ some h
    none_ne_some e = cc

    left : IsWellFormed (disconnect conf r w).registry
    left = remove_client-IsWellFormed conf r (close_client r w) v

    unknown : find_client r (disconnect conf r w) ≡ false
    unknown = removed_unknown conf r (close_client r w)

    free : ((disconnect conf r w).client_at r).channel ≡ none
    free = unknown-free r (disconnect conf r w) left unknown

    gone : IsGone r (disconnect conf r w)
    gone = record {
      unknown = unknown;
      free = free;
      in_none = λ h id e. none_ne_some (sym free ∙ left.linked.back h id r e);
    }

close_after-IsWellFormed :
    (r : ℕ) (ending : Ending) (w : World)
    → IsWellFormed w.registry
    → IsWellFormed (close_after r ending w).registry
unfolding close_after close_client
close_after-IsWellFormed r read_failed w v = v
close_after-IsWellFormed r too_long w v = v

-- A client that is not connected is disconnected by its message.
unknown_exits :
    (conf : Settings) (r : ℕ) (m : Bytes) (reads : List (Option Bytes)) (w : World)
    → find_client r w ≡ false
    → message_received conf r m reads w ≡ ok (disconnect conf r w)
unfolding message_received
unknown_exits conf r m reads w e = rw (e, message_received) refl

receive_all-IsLeft :
    (conf : Settings) (r : ℕ) (ending : Ending) (ms : List Bytes) (reads : ℕ → List (Option Bytes))
    (w : World)
    → IsWellFormed w.registry
    → IsLeft r (receive_all conf r ending reads ms w)
unfolding receive_all
receive_all-IsLeft conf r ending [] reads w v =
    disconnect-IsLeft conf r (close_after r ending w) (close_after-IsWellFormed r ending w v)
receive_all-IsLeft conf r ending (m ∷ ms) reads w v = elim (Bool-cases (find_client r w)) [
  | inr e ↦ rw (receive_all, unknown_exits conf r m (reads 0) w e, e) (disconnect-IsLeft conf r w v)
  | inl e ↦ (elim (Outcome-cases (message_received conf r m (reads 0) w)) [
    | inl f ↦ rw (receive_all, f) (λ w' g. cc)
    | inr (w', f) ↦
        rw (receive_all, f, e)
          (receive_all-IsLeft conf r ending ms (λ k. reads (suc k)) w'
            (step-IsWellFormed conf (sends r m (reads 0)) w v w' (unfold step in f)))
  ])
]

-- However the connection of a client goes, unless a panic ends the process: if its handshake fails or
-- its reads do, if a message is too long or if it is not connected any more, and whatever its messages
-- are, in the end it is not connected and in no channel, neither by its own pointer nor by the map of
-- a channel, and the maps and pointers are well formed. The server is taken to be well formed at first,
-- with nothing else in between.
pub serve-IsGone :
    (conf : Settings) (end_message : ℕ) (max_msg_len : ℤ) (r : ℕ) (conn : Conn) (w w' : World)
    → IsWellFormed w.registry
    → serve conf end_message max_msg_len r conn w ≡ ok w'
    → IsWellFormed w'.registry × IsGone r w'
unfolding serve
serve-IsGone conf end_message max_msg_len r conn w w' v e =
    elim (Option-cases conn.handshake_error) [
      | inr (err, h) ↦ disconnect-IsLeft conf r w v w' (rw (h, serve) at e)
      | inl h ↦
          receive_all-IsLeft conf r (listen end_message max_msg_len conn.input).1
            (listen end_message max_msg_len conn.input).0 conn.reads w v w' (rw (h, serve) at e)
    ]
