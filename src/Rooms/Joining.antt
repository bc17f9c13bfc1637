-- ===== src/Rooms/Joining.antt =====
-- What `Add` and `AddChannel` do to the rooms, as the end of a `join` calls them (server/commands.go).
use nvda_remote_server.Common.{
  ℕ, ◌≡◌, ◌≢◌, ◌⊎◌, refl, ap, ◌∙◌, subst, Bool, Option, some, [], Bytes, nat_beq, arith,
  Option-cases, inl, inr, if◌then◌else◌, bytes_eq, nat_eq, Outcome, ok,
}
use nvda_remote_server.Common.Int.{ℤ, int_eq}
use nvda_remote_server.GoMap.{Map, get}
use nvda_remote_server.Channel.{members, authorizes, ChannelParams}
use nvda_remote_server.World.{World, Settings, Registry, find_channel, set_authorized}
use nvda_remote_server.Membership.{add, add_channel, announce, enter}
use nvda_remote_server.Commands.{enter_channel}
use nvda_remote_server.Invariant.{IsWellFormed}
use nvda_remote_server.Invariant.Joining.{ready_to_enter, add_taken, add_enters, members-cases}
use nvda_remote_server.Invariant.Making.{with_channel, add_channel_lem}
use nvda_remote_server.Rooms.{Rooms, rooms, placed, SameRooms}
use nvda_remote_server.Rooms.Moves.{enter-rooms, set_authorized-rooms, with_channel-rooms}

-- If the outcome is a state, then `P` holds of its rooms.
abbrev pub Moves : (Rooms → Type 0) → Outcome World → Type 0
Moves P o = (w : World) → o ≡ ok w → P (rooms w.registry)

pub ok-Moves : (P : Rooms → Type 0) (w : World) → P (rooms w.registry) → Moves P (ok w)
ok-Moves P w p w' e = subst (λ (u : World). P (rooms u.registry)) (same e) p
  where
    same : ok w ≡ ok w' → w ≡ w'
    same e = cc

pub SameRooms-trans : (u v w : Rooms) → SameRooms u v → SameRooms v w → SameRooms u w
SameRooms-trans u v w e f x = f x ∙ e x

pub placed-SameRooms :
    (r : ℕ) (room : Option Bytes) (v v' : Rooms)
    → SameRooms v v'
    → SameRooms (placed r room v) (placed r room v')
placed-SameRooms r room v v' e x = ap (λ (o : Option Bytes). if nat_beq r x then room else o) (e x)

-- The rooms are kept, or the client has entered the room `name`.
abbrev pub KeepsOrEnters : ℕ → Bytes → Rooms → Rooms → Type 0
KeepsOrEnters r name v v' = SameRooms v v' ⊎ SameRooms (placed r (some name) v) v'

add-Moves :
    (conf : Settings) (h r : ℕ) (password : Bytes) (w : World)
    → members (w.channel_at h) ≢ []
    → Moves (KeepsOrEnters r (w.channel_at h).name (rooms w.registry)) (add conf h r password w)
unfolding announce
add-Moves conf h r password w ne =
    elim (Option-cases (get (w.client_at r).id (members (w.channel_at h)))) [
      | inr (x, e) ↦ rw (add_taken conf h r password w x e) (
          ok-Moves (KeepsOrEnters r (w.channel_at h).name (rooms w.registry)) _
            (inl (set_authorized-rooms r (authorizes (w.channel_at h) password) w.registry)))
      | inl new ↦
          let (m, e) = members-cases (w.channel_at h) ne in
          rw (add_enters conf h r password w m new e) (
            ok-Moves (KeepsOrEnters r (w.channel_at h).name (rooms w.registry)) _
              (inr (entered_now m)))
    ]
  where
    g : Registry
    g = ready_to_enter conf h r password w

    same_name : (g.channel_at h).name ≡ (w.channel_at h).name
    same_name = unfold set_authorized in refl

    entered_now :
        (m : Map ℤ ℕ)
        → SameRooms
            (placed r (some (w.channel_at h).name) (rooms w.registry))
            (rooms (enter h r m g))
    entered_now m =
        SameRooms-trans _ _ _
          (placed-SameRooms r (some (w.channel_at h).name) (rooms w.registry) (rooms g)
            (set_authorized-rooms r (authorizes (w.channel_at h) password) w.registry))
          (subst (λ n. SameRooms (placed r (some n) (rooms g)) (rooms (enter h r m g))) same_name
            (enter-rooms h r m g))

add_channel-Moves :
    (conf : Settings) (name password : Bytes) (locked : Bool) (r : ℕ) (w : World)
    → IsWellFormed w.registry
    → Moves (KeepsOrEnters r name (rooms w.registry)) (add_channel conf name password locked r w)
unfolding announce
add_channel-Moves conf name password locked r w v =
    rw (add_channel_lem conf name password locked r w)
      (ok-Moves (KeepsOrEnters r name (rooms w.registry)) _ (inr entered_now))
  where
    u : World
    u = with_channel conf name password locked r w

    g : Registry
    g = ready_to_enter conf w.next_channel r password u

    same_name : (g.channel_at w.next_channel).name ≡ name
    same_name = unfold set_authorized in ground arith

    entered_now :
        SameRooms (placed r (some name) (rooms w.registry)) (rooms (enter w.next_channel r [] g))
    entered_now =
        SameRooms-trans _ _ _
          (placed-SameRooms r (some name) (rooms w.registry) (rooms g) (
            SameRooms-trans (rooms w.registry) (rooms u.registry) (rooms g)
              (with_channel-rooms conf name password locked r w v)
              (set_authorized-rooms r (authorizes (u.channel_at w.next_channel) password)
                u.registry)))
          (subst
            (λ n. SameRooms (placed r (some n) (rooms g)) (rooms (enter w.next_channel r [] g)))
            same_name (enter-rooms w.next_channel r [] g))

pub enter_channel-Moves :
    (conf : Settings) (r : ℕ) (params : ChannelParams) (w : World)
    → IsWellFormed w.registry
    → Moves (KeepsOrEnters r params.name (rooms w.registry)) (enter_channel conf r params w)
unfolding enter_channel find_channel
enter_channel-Moves conf r params w v = elim (Option-cases (get params.name w.channels)) [
  | inl e ↦
      rw (e, enter_channel) (add_channel-Moves conf params.name params.password params.locked r w v)
  | inr (h, e) ↦
      rw (e, enter_channel)
        (subst (λ n. Moves (KeepsOrEnters r n (rooms w.registry)) (add conf h r params.password w))
          (v.linked.named params.name h e)
          (add-Moves conf h r params.password w (v.populated params.name h e)))
]
