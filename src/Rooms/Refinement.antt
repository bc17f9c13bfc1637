-- ===== src/Rooms/Refinement.antt =====
-- The server refines the rooms: every event that does not panic is a step of them (`MessageReceived`,
-- `AddClient` and `RemoveClient` of server/server.go).
use nvda_remote_server.Common.{
  ℕ, ◌≡◌, refl, sym, ◌∙◌, Option, none, some, List, [], ◌∷◌, Bytes, true, false, arith,
  Option-cases, Bool-cases, inl, inr, nat_eq, nat_beq, bytes_eq, ok, All, ap, ◌≢◌,
}
use nvda_remote_server.World.{World, Settings, Registry, start, find_client}
use nvda_remote_server.Commands.{close_client}
use nvda_remote_server.Server.{
  disconnect, message_received, Event, connects, sends, disconnects, takes, pings, ends, closes,
  step, run,
}
use nvda_remote_server.Invariant.{IsWellFormed}
use nvda_remote_server.Invariant.Steps.{Outcome-cases}
use nvda_remote_server.Invariant.History.{step-IsWellFormed, start-IsWellFormed, relay_registry}
use nvda_remote_server.Rooms.{
  Rooms, rooms, placed, SameRooms, RoomStep, connected, stayed, entered, left, taken, pinged, ended,
  closed, RoomRun, done, next,
}
use nvda_remote_server.Rooms.Moves.{add_client-rooms, remove_client-rooms, no_room}
use nvda_remote_server.Rooms.Joining.{Moves, ok-Moves}
use nvda_remote_server.Rooms.Entering.{kept-Sent, same-Sent, cmd_exec-Moves}

close_client-registry : (r : ℕ) (w : World) → (close_client r w).registry ≡ w.registry
unfolding close_client
close_client-registry r w = refl

disconnect-rooms :
    (conf : Settings) (r : ℕ) (w : World)
    → IsWellFormed w.registry
    → SameRooms (placed r none (rooms w.registry)) (rooms (disconnect conf r w).registry)
unfolding disconnect close_client
disconnect-rooms conf r w v = remove_client-rooms conf r (close_client r w) v

-- A client that is not connected is in no room.
pub unknown-free :
    (r : ℕ) (w : World)
    → IsWellFormed w.registry
    → find_client r w ≡ false
    → (w.client_at r).channel ≡ none
unfolding find_client
unknown-free r w v e = elim (Option-cases (w.client_at r).channel) [
  | inl f ↦ f
  | inr (h, f) ↦ clash (rw (v.linked.known r h f, find_client) at e)
]
  where
    clash : {P : Type 0} → true ≡ false → P
    clash g = cc

placed_back :
    (r : ℕ) (g g' : Registry)
    → (g.client_at r).channel ≡ none
    → SameRooms (placed r none (rooms g)) (rooms g')
    → SameRooms (rooms g) (rooms g')
placed_back r g g' e f x = f x ∙ sym (no_room r g e x)

message_received-Moves :
    (conf : Settings) (r : ℕ) (pmsg : Bytes) (reads : List (Option Bytes)) (w : World)
    → IsWellFormed w.registry
    → Moves
        (RoomStep conf (sends r pmsg reads) (rooms w.registry))
        (message_received conf r pmsg reads w)
unfolding message_received
message_received-Moves conf r pmsg reads w v = elim (Bool-cases (find_client r w)) [
  | inr e ↦
      rw (e, message_received)
        (same-Sent conf r pmsg reads w v _ (
          placed_back r w.registry (disconnect conf r w).registry (unknown-free r w v e)
            (disconnect-rooms conf r w v)))
  | inl e ↦
      rw (e, message_received)
        (elim (Option-cases (w.client_at r).channel) [
          | inr (h, f) ↦
              rw f (same-Sent conf r pmsg reads w v _ (rw (relay_registry r h pmsg w) (λ x. refl)))
          | inl f ↦ rw f (elim (Option-cases (conf.decode pmsg)) [
            | inl d ↦ rw d (kept-Sent conf r pmsg reads w v)
            | inr (db, d) ↦ rw d (cmd_exec-Moves conf r pmsg reads w v db d)
          ])
        ])
]

-- An event of the server that does not panic is a step of the rooms.
step-Moves :
    (conf : Settings) (e : Event) (w : World)
    → IsWellFormed w.registry
    → Moves (RoomStep conf e (rooms w.registry)) (step conf e w)
unfolding step
step-Moves conf (connects ip picks) w v =
    ok-Moves (RoomStep conf (connects ip picks) (rooms w.registry)) _
      (connected (add_client-rooms ip picks w v))
step-Moves conf (sends r pmsg reads) w v = message_received-Moves conf r pmsg reads w v
step-Moves conf (disconnects r) w v =
    ok-Moves (RoomStep conf (disconnects r) (rooms w.registry)) _
      (left (disconnect-rooms conf r w v))
step-Moves conf (takes r) w v =
    ok-Moves (RoomStep conf (takes r) (rooms w.registry)) _ (taken (λ x. refl))
step-Moves conf (pings r) w v =
    ok-Moves (RoomStep conf (pings r) (rooms w.registry)) _ (pinged (λ x. refl))
step-Moves conf (ends r) w v =
    ok-Moves (RoomStep conf (ends r) (rooms w.registry)) _ (ended (λ x. refl))
step-Moves conf (closes r) w v =
    ok-Moves (RoomStep conf (closes r) (rooms w.registry)) _ (closed (λ x. refl))

run-Moves :
    (conf : Settings) (es : List Event) (w : World)
    → IsWellFormed w.registry
    → Moves (RoomRun conf es (rooms w.registry)) (run conf es w)
unfolding run
run-Moves conf [] w v = ok-Moves (RoomRun conf [] (rooms w.registry)) w done
run-Moves conf (e ∷ es) w v = elim (Outcome-cases (step conf e w)) [
  | inl f ↦ rw (f, run) (λ w' g. cc)
  | inr (w', f) ↦
      rw (f, run)
        (λ u g.
          next (step-Moves conf e w v w' f)
            (run-Moves conf es w' (step-IsWellFormed conf e w v w' f) u g))
]

-- Any history of the server from its start that does not panic is a history of the rooms from all
-- clients in no room: the channels, their maps and the pointers of the clients implement a table of
-- at most one room for each client, which is known by its name. Only a `join` with a nonempty key puts
-- its sender, if that is in no room, into the room of that name, only its disconnection takes a client
-- out, and nothing else changes the table.
pub run-RoomRun :
    (conf : Settings) (es : List Event) (w : World)
    → run conf es start ≡ ok w
    → RoomRun conf es (λ x. none) (rooms w.registry)
run-RoomRun conf es w e = run-Moves conf es start start-IsWellFormed w e

-- A step moves a client that is in a room only if the event is its own disconnection.
step_keeps_room :
    (conf : Settings) (r : ℕ) (name : Bytes) (e : Event) (u v : Rooms)
    → RoomStep conf e u v
    → e ≢ disconnects r
    → u r ≡ some name
    → v r ≡ some name
step_keeps_room conf r name _ u v (connected same) ne i = same r ∙ i
step_keeps_room conf r name _ u v (stayed same) ne i = same r ∙ i
step_keeps_room conf r name _ u v (entered {r = x} n asks free moved) ne i =
    moved r ∙ (elim (Bool-cases (nat_beq x r)) [
      | inl e ↦ ground (arith, e, free, i)
      | inr e ↦ ground (arith, e, i)
    ])
step_keeps_room conf r name _ u v (left {r = x} moved) ne i =
    moved r ∙ (elim (Bool-cases (nat_beq x r)) [
      | inl e ↦ absurd (ne (ap (λ y. disconnects y) (ground (arith, e))))
      | inr e ↦ ground (arith, e, i)
    ])
step_keeps_room conf r name _ u v (taken same) ne i = same r ∙ i
step_keeps_room conf r name _ u v (pinged same) ne i = same r ∙ i
step_keeps_room conf r name _ u v (ended same) ne i = same r ∙ i
step_keeps_room conf r name _ u v (closed same) ne i = same r ∙ i

run_keeps_room :
    (conf : Settings) (r : ℕ) (name : Bytes) (es : List Event) (u v : Rooms)
    → RoomRun conf es u v
    → All (λ e. e ≢ disconnects r) es
    → u r ≡ some name
    → v r ≡ some name
run_keeps_room conf r name _ u v done ne i = i
run_keeps_room conf r name _ u v (next {e = e} {es = es} {v = m} s rest) (ne, nes) i =
    run_keeps_room conf r name es m v rest nes (step_keeps_room conf r name e u m s ne i)

-- A client that is in a channel of a well-formed server is in a channel of that name after any further
-- events that do not panic, unless one of them is its own disconnection: no other client, no message
-- and no second `join` moves it.
pub run_stays_in_room :
    (conf : Settings) (es : List Event) (w w' : World) (r : ℕ) (name : Bytes)
    → IsWellFormed w.registry
    → run conf es w ≡ ok w'
    → All (λ e. e ≢ disconnects r) es
    → rooms w.registry r ≡ some name
    → rooms w'.registry r ≡ some name
run_stays_in_room conf es w w' r name v e ne i =
    run_keeps_room conf r name es (rooms w.registry) (rooms w'.registry)
      (run-Moves conf es w v w' e) ne i
