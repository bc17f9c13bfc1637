-- ===== src/Client/Overflow.antt =====
-- The queue of a client that has stopped reading: what `Send` of server/client.go keeps, what it
-- drops, and when it disconnects the client.
use nvda_remote_server.Common.{
  ℕ, zero, suc, ◌+◌, ◌-◌, ◌≤◌, ◌<◌, ◌≡◌, ◌≢◌, refl, ap, ◌∙◌, true, false, List, [], ◌∷◌, ◌++◌,
  Bytes, All, length, length-append, take, drop, arith, append-nil, append_assoc, sym, ℕ_discrete,
  dec_le,
}
use nvda_remote_server.Client.{Outbox, send, select_send, sd_capacity}
use nvda_remote_server.Client.Send.{send_room, send-cancelled}

-- A row of messages, with nothing taken from the queue in between.
unfoldable pub send_row : List Bytes → Outbox → Outbox
send_row [] o = o
send_row (b ∷ bs) o = send_row bs (send b o)

send_full :
    (b : Bytes) (o : Outbox)
    → b ≢ []
    → o.cancelled ≡ false
    → o.closed ≡ false
    → length o.sd ≡ 100
    → o.dropped < 499
    → send b o ≡ record o { dropped = o.dropped + 1 }
unfolding send select_send
send_full [] o ne live opened full few = absurd (ne refl)
send_full (x ∷ b) o ne live opened full few = ground arith

send_kick :
    (b : Bytes) (o : Outbox)
    → b ≢ []
    → o.cancelled ≡ false
    → o.closed ≡ false
    → length o.sd ≡ 100
    → o.dropped ≡ 499
    → (send b o).cancelled ≡ true
unfolding send select_send
send_kick [] o ne live opened full few = absurd (ne refl)
send_kick (x ∷ b) o ne live opened full few = ground arith

send_row-cancelled :
    (bs : List Bytes) (o : Outbox) → o.cancelled ≡ true → (send_row bs o).cancelled ≡ true
unfolding send_row
send_row-cancelled [] o h = h
send_row-cancelled (b ∷ bs) o h = send_row-cancelled bs (send b o) (send-cancelled b o h)

send_row-append :
    (xs bs : List Bytes) (o : Outbox) → send_row (xs ++ bs) o ≡ send_row bs (send_row xs o)
unfolding send_row
send_row-append [] bs o = refl
send_row-append (x ∷ xs) bs o = send_row-append xs bs (send x o)

send_row_fill :
    (bs : List Bytes) (o : Outbox)
    → All (λ b. b ≢ []) bs
    → o.cancelled ≡ false
    → o.closed ≡ false
    → length o.sd + length bs ≤ sd_capacity
    → send_row bs o ≡ record o { sd = o.sd ++ bs }
unfolding send_row
send_row_fill [] o ne live opened fits = λ i. record o { sd = sym (append-nil o.sd) i }
send_row_fill (b ∷ bs) o (nb, ne) live opened fits =
    rw (send_room b o nb live opened (omega arith)) (
      send_row_fill bs _ ne live opened (omega (arith, length-append o.sd (b ∷ []))) ∙ λ i.
      record o { sd = append_assoc o.sd (b ∷ []) bs i })

send_row_drop :
    (bs : List Bytes) (o : Outbox)
    → All (λ b. b ≢ []) bs
    → o.cancelled ≡ false
    → o.closed ≡ false
    → length o.sd ≡ 100
    → o.dropped + length bs < 500
    → send_row bs o ≡ record o { dropped = o.dropped + length bs }
unfolding send_row
send_row_drop [] o ne live opened full few = ground arith
send_row_drop (b ∷ bs) o (nb, ne) live opened full few =
    rw (send_full b o nb live opened full (omega arith))
      (send_row_drop bs _ ne live opened full (omega arith) ∙ ground arith)

send_row_kick :
    (bs : List Bytes) (o : Outbox)
    → All (λ b. b ≢ []) bs
    → o.cancelled ≡ false
    → o.closed ≡ false
    → length o.sd ≡ 100
    → o.dropped < 500
    → 500 ≤ o.dropped + length bs
    → (send_row bs o).cancelled ≡ true
unfolding send_row
send_row_kick [] o ne live opened full few many = absurd (omega arith)
send_row_kick (b ∷ bs) o (nb, ne) live opened full few many = elim (ℕ_discrete o.dropped 499) [
  | yes last ↦ send_row-cancelled bs (send b o) (send_kick b o nb live opened full last)
  | no more ↦
      rw (send_full b o nb live opened full (omega arith), send_row)
        (send_row_kick bs _ ne live opened full (omega arith) (omega arith))
]

take-drop : (n : ℕ) (bs : List Bytes) → bs ≡ take n bs ++ drop n bs
take-drop zero bs = refl
take-drop (suc n) [] = refl
take-drop (suc n) (b ∷ bs) = ap (λ r. b ∷ r) (take-drop n bs)

length-take : (n : ℕ) (bs : List Bytes) → n ≤ length bs → length (take n bs) ≡ n
length-take zero bs h = refl
length-take (suc n) [] h = omega arith
length-take (suc n) (b ∷ bs) h = omega (arith, length-take n bs)

length-drop : (n : ℕ) (bs : List Bytes) → length (drop n bs) + n ≡ length bs + (n - length bs)
length-drop zero bs = omega arith
length-drop (suc n) [] = omega arith
length-drop (suc n) (b ∷ bs) = omega (arith, length-drop n bs)

All-take : (P : Bytes → Type 0) (n : ℕ) (bs : List Bytes) → All P bs → All P (take n bs)
All-take P zero bs h = tt
All-take P (suc n) [] h = tt
All-take P (suc n) (b ∷ bs) h = (h.0, All-take P n bs h.1)

All-drop : (P : Bytes → Type 0) (n : ℕ) (bs : List Bytes) → All P bs → All P (drop n bs)
All-drop P zero bs h = h
All-drop P (suc n) [] h = tt
All-drop P (suc n) (b ∷ bs) h = All-drop P n bs h.1

take_all : (n : ℕ) (bs : List Bytes) → length bs ≤ n → take n bs ≡ bs
take_all zero [] h = refl
take_all zero (b ∷ bs) h = absurd (omega arith)
take_all (suc n) [] h = refl
take_all (suc n) (b ∷ bs) h = ap (λ r. b ∷ r) (take_all n bs (omega arith))

-- A client is idle: its queue is empty, nothing was dropped, and it is not shutting down.
pub record IsIdle (o : Outbox) : Type 0 where
  pub empty : o.sd ≡ []
  pub none_dropped : o.dropped ≡ 0
  pub live : o.cancelled ≡ false
  pub opened : o.closed ≡ false

filled :
    (bs : List Bytes) (o : Outbox)
    → All (λ b. b ≢ []) bs
    → IsIdle o
    → 100 ≤ length bs
    → send_row bs o ≡ send_row (drop 100 bs) (record o { sd = take 100 bs })
filled bs o ne v many =
    ap (λ r. send_row r o) (take-drop 100 bs)
    ∙ send_row-append (take 100 bs) (drop 100 bs) o
    ∙ ap (send_row (drop 100 bs)) (
        send_row_fill (take 100 bs) o (All-take _ 100 bs ne) v.live v.opened
          (rw v.empty (omega (arith, length-take 100 bs many)))
        ∙ λ i. record o { sd = v.empty i ++ take 100 bs })

send_row_keeps_few :
    (bs : List Bytes) (o : Outbox)
    → All (λ b. b ≢ []) bs
    → IsIdle o
    → length bs < 100
    → send_row bs o ≡ record o { sd = take 100 bs; dropped = length bs - 100 }
send_row_keeps_few bs o ne v few =
    let e : o.sd ++ bs ≡ take 100 bs = rw v.empty (sym (take_all 100 bs (omega arith))) in
    let d : o.dropped ≡ length bs - 100 = omega (arith, v.none_dropped) in
    send_row_fill bs o ne v.live v.opened (rw v.empty (omega arith)) ∙ λ i. record o {
      sd = e i;
      dropped = d i;
    }

-- Of fewer than 600 messages to an idle client that reads nothing, none of them empty, the first
-- hundred wait in the queue, in order, the others are counted as dropped, and the client stays
-- connected.
pub send_row_keeps :
    (bs : List Bytes) (o : Outbox)
    → All (λ b. b ≢ []) bs
    → IsIdle o
    → length bs < 600
    → send_row bs o ≡ record o { sd = take 100 bs; dropped = length bs - 100 }
send_row_keeps bs o ne v few = elim (dec_le 100 (length bs)) [
  | yes many ↦
      filled bs o ne v many
      ∙ send_row_drop (drop 100 bs) _ (All-drop _ 100 bs ne) v.live v.opened
          (length-take 100 bs many) (rw v.none_dropped (omega (arith, length-drop 100 bs)))
      ∙ rw v.none_dropped (ground (arith, length-drop 100 bs))
  | no less ↦ send_row_keeps_few bs o ne v (omega arith)
]

-- A row of six hundred messages or more to an idle client that reads nothing, none of them empty,
-- disconnects it.
pub send_row_disconnects :
    (bs : List Bytes) (o : Outbox)
    → All (λ b. b ≢ []) bs
    → IsIdle o
    → 600 ≤ length bs
    → (send_row bs o).cancelled ≡ true
send_row_disconnects bs o ne v many = rw (filled bs o ne v (omega arith)) (
    send_row_kick (drop 100 bs) _ (All-drop _ 100 bs ne) v.live v.opened
      (length-take 100 bs (omega arith)) (rw v.none_dropped (omega arith))
      (rw v.none_dropped (omega (arith, length-drop 100 bs))))
