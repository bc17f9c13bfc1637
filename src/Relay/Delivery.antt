-- ===== src/Relay/Delivery.antt =====
-- Who gets a message that is relayed, and how often.
use nvda_remote_server.Common.{
  ℕ, ◌≡◌, refl, ◌∙◌, fun_ext, Bool, false, ◌||◌, Option, some, [], ◌∷◌, Bytes, nat_beq,
  if◌then◌else◌, arith, length, leb, Option-cases, Bool-cases, inl, inr, sym, ℕ_discrete, subst,
}
use nvda_remote_server.Common.Int.{ℤ}
use nvda_remote_server.GoMap.{Map}
use nvda_remote_server.Client.{send, not_connected_msg}
use nvda_remote_server.Client.Send.{send-closed}
use nvda_remote_server.Protocol.{Codec, Data}
use nvda_remote_server.World.{Outboxes}
use nvda_remote_server.Relay.{send_to_client, send_to, send_all_locked, send_others, is_excluded}

-- Some entry of the map is the client `r`.
unfoldable pub holds : Map ℤ ℕ → ℕ → Bool
holds [] r = false
holds ((id, s) ∷ m) r = nat_beq s r || holds m r

-- Every client has one entry.
abbrev pub Apart : Map ℤ ℕ → Type 0
Apart [] = Unit
Apart ((id, r) ∷ m) = (holds m r ≡ false) × Apart m

send_all_locked_out :
    (m : Map ℤ ℕ) (msg : Bytes) (client : Option ℕ) (o : Outboxes) (r : ℕ)
    → holds m r ≡ false
    → send_all_locked m msg client o r ≡ o r
unfolding send_all_locked holds
send_all_locked_out [] msg client o r h = refl
send_all_locked_out ((id, s) ∷ m) msg client o r h = ground (
  arith,
  send_all_locked_out m msg client (if is_excluded client s then o else send_to s msg o) r,
)

sent_round :
    (s r : ℕ) (msg : Bytes) (client : Option ℕ) (o : Outboxes)
    → (if is_excluded client s then o else send_to s msg o) r
      ≡ (if nat_beq s r then (if is_excluded client r then o r else send msg (o r)) else o r)
unfolding send_to
sent_round s r msg client o = elim (ℕ_discrete s r) [
  | yes e ↦ rw e (ground arith)
  | no ne ↦ ground arith
]

-- A message reaches each member of the channel once, but the one left out, and nobody else.
pub send_all_locked-at :
    (m : Map ℤ ℕ) (msg : Bytes) (client : Option ℕ) (o : Outboxes) (r : ℕ)
    → Apart m
    → send_all_locked m msg client o r
      ≡ (if holds m r then (if is_excluded client r then o r else send msg (o r)) else o r)
unfolding send_all_locked holds
send_all_locked-at [] msg client o r h = refl
send_all_locked-at ((id, s) ∷ m) msg client o r (new, h) = elim (ℕ_discrete s r) [
  | yes e ↦
      send_all_locked_out m msg client _ r (subst (λ x. holds m x ≡ false) e new)
      ∙ sent_round s r msg client o
      ∙ ground arith
  | no ne ↦ send_all_locked-at m msg client _ r h ∙ ground (arith, sent_round s r msg client o)
]

-- Over two listings of the same clients, each client once, the queues come out the same.
pub send_all_locked_order :
    (m n : Map ℤ ℕ) (msg : Bytes) (client : Option ℕ) (o : Outboxes)
    → Apart m
    → Apart n
    → ((r : ℕ) → holds m r ≡ holds n r)
    → send_all_locked m msg client o ≡ send_all_locked n msg client o
send_all_locked_order m n msg client o hm hn same = fun_ext λ r.
    send_all_locked-at m msg client o r hm
    ∙ rw (same r) (sym (send_all_locked-at n msg client o r hn))

-- A relayed message reaches every other member once; a client alone in its channel gets the
-- "not connected" notice instead; nobody outside the channel gets anything.
pub send_others-at :
    (m : Map ℤ ℕ) (msg : Bytes) (client : ℕ) (o : Outboxes) (r : ℕ)
    → Apart m
    → send_others m msg client o r ≡ (
        if leb (length m) 1
        then (if nat_beq client r then send not_connected_msg (o r) else o r)
        else if holds m r
        then (if nat_beq client r then o r else send msg (o r))
        else o r)
unfolding send_others is_excluded
send_others-at m msg client o r h = elim (Bool-cases (leb (length m) 1)) [
  | inl alone ↦ rw (alone, send_others) (ground arith)
  | inr more ↦ rw (more, send_others) (send_all_locked-at m msg (some client) o r h)
]

-- A send to a client leaves its queue open if it was.
pub send_to_client-closed :
    (codec : Codec) (client : ℕ) (d : Data) (o : Outboxes)
    → (send_to_client codec client d o client).closed ≡ (o client).closed
unfolding send_to_client
send_to_client-closed codec client d o = elim (Option-cases (codec.encode d)) [
  | inl e ↦ rw (e, send_to_client)
  | inr (enc, e) ↦ rw (e, send_to_client) (ground (arith, send-closed enc (o client)))
]
