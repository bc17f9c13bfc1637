-- ===== src/Rooms/Entering.antt =====
-- What the handlers of server/commands.go do to the rooms.
use nvda_remote_server.Common.{
  ℕ, ◌≡◌, ◌≢◌, ◌⊎◌, refl, sym, ap, ◌∙◌, true, false, Option, none, some, List, [], ◌∷◌, Bytes,
  codes, arith, Option-cases, Bool-cases, inl, inr, bytes_eq, bytes_beq, bytes_beq_iff, nat_eq,
  ◌==◌, ok,
}
use nvda_remote_server.Common.Int.{pos, int_eq, int_leb}
use nvda_remote_server.GoMap.{Map, get, put}
use nvda_remote_server.Protocol.{Data}
use nvda_remote_server.Channel.{ChannelParams, get_channel_params}
use nvda_remote_server.World.{World, Settings, set_connection_type}
use nvda_remote_server.Commands.{
  Command, join, protocol_version, generate_key, command, enter_channel, exec_join, exec_join_free,
  exec_protocol_version, exec_generate_key, exec, cmd_exec, close_client, send_error,
}
use nvda_remote_server.Client.{close_gracefully}
use nvda_remote_server.Keys.{gen_key}
use nvda_remote_server.Server.{sends}
use nvda_remote_server.Invariant.{IsWellFormed}
use nvda_remote_server.Invariant.Steps.{
  Outcome-cases, GenKey-cases, exec_generate_key_lem, told, set_connection_type-IsWellFormed,
}
use nvda_remote_server.Rooms.{Rooms, rooms, SameRooms, RoomStep, stayed, entered}
use nvda_remote_server.Rooms.Moves.{set_connection_type-rooms, set_version-rooms}
use nvda_remote_server.Rooms.Joining.{
  Moves, ok-Moves, SameRooms-trans, placed-SameRooms, enter_channel-Moves,
}

get_second :
    (j k : Bytes) (u v : Command) (m : Map Bytes Command)
    → get k ((j, u) ∷ m) ≡ some v
    → (j ≡ k) ⊎ (get k m ≡ some v)
unfolding get
get_second j k u v m e = elim (Bool-cases (j == k)) [
  | inl f ↦ inl ((bytes_beq_iff j k).0 f)
  | inr f ↦ inr (ground (arith, e, f))
]

get_other :
    (j k : Bytes) (u v : Command) (m : Map Bytes Command)
    → u ≢ v
    → get k ((j, u) ∷ m) ≡ some v
    → get k m ≡ some v
unfolding get
get_other j k u v m ne e = elim (Bool-cases (j == k)) [
  | inl f ↦ absurd (ne (ground (arith, e, f)))
  | inr f ↦ ground (arith, e, f)
]

-- Only one name finds the command `join`.
only_join : (name : Bytes) → get name command ≡ some join → name ≡ codes "join"
unfolding put command bytes_beq
only_join name e = elim (get_second (codes "join") name join join _ e) [
  | inl f ↦ sym f
  | inr f ↦ clash (
      get_other (codes "generate_key") name generate_key join [] (λ g. cc)
        (get_other (codes "protocol_version") name protocol_version join _ (λ g. cc) f))
]
  where
    clash : {P : Type 0} → get name [] ≡ some join → P
    clash g = unfold get in cc

-- What a message may do to the rooms.
abbrev Sends : Settings → ℕ → Bytes → List (Option Bytes) → Rooms → Rooms → Type 0
Sends conf r pmsg reads v = RoomStep conf (sends r pmsg reads) v

module _ (conf : Settings) (r : ℕ) (pmsg : Bytes) (reads : List (Option Bytes)) (w : World)
    (v : IsWellFormed w.registry) where
  abbrev Sent : Rooms → Type 0
  Sent = Sends conf r pmsg reads (rooms w.registry)

  pub same-Sent :
      (w' : World) → SameRooms (rooms w.registry) (rooms w'.registry) → Moves Sent (ok w')
  same-Sent w' e = ok-Moves Sent w' (stayed e)

  pub kept-Sent : Moves Sent (ok w)
  kept-Sent = same-Sent w (λ x. refl)

  module _ (db : Data) (decodes : conf.decode pmsg ≡ some db) where
    exec_join_free-Moves :
        db.type ≡ codes "join"
        → (w.client_at r).channel ≡ none
        → Moves Sent (exec_join_free conf r db w)
    unfolding exec_join_free close_client send_error
    exec_join_free-Moves joins free =
        elim (Bool-cases ((get_channel_params db.channel).name == [])) [
          | inl e ↦ rw (e, exec_join_free) (same-Sent _ (λ x. refl))
          | inr e ↦
              rw (e, exec_join_free)
                (by_entering (get_channel_params db.channel) refl (λ n.
                  clash (sym e ∙ (bytes_beq_iff (get_channel_params db.channel).name []).1 n)))
        ]
      where
        clash : {P : Type 0} → false ≡ true → P
        clash e = cc

        typed : World
        typed = record w { registry = set_connection_type r db.connection_type w.registry }

        typed_same : SameRooms (rooms w.registry) (rooms typed.registry)
        typed_same = set_connection_type-rooms r db.connection_type w.registry

        by_entering :
            (params : ChannelParams)
            → get_channel_params db.channel ≡ params
            → params.name ≢ []
            → Moves Sent (enter_channel conf r params typed)
        by_entering params e named w' f =
            elim (enter_channel-Moves conf r params typed
              (set_connection_type-IsWellFormed r db.connection_type w.registry v) w' f) [
                | inl same ↦ stayed (SameRooms-trans _ _ _ typed_same same)
                | inr moved ↦
                    entered params.name
                      (record {
                        db = db;
                        decodes = decodes;
                        joins = joins;
                        names = ap (λ (p : ChannelParams). p.name) e;
                        named = named;
                      })
                      (ground arith)
                      (SameRooms-trans _ _ _ (placed-SameRooms r (some params.name) _ _ typed_same)
                        moved)
              ]

    exec_join-Moves : db.type ≡ codes "join" → Moves Sent (exec_join conf r db w)
    unfolding exec_join send_error
    exec_join-Moves joins = elim (Option-cases (w.client_at r).channel) [
      | inl e ↦ rw (e, exec_join) (exec_join_free-Moves joins e)
      | inr (h, e) ↦ rw (e, exec_join) (same-Sent _ (λ x. refl))
    ]

    exec_generate_key-Moves : Moves Sent (exec_generate_key conf r reads w)
    unfolding exec_generate_key close_client
    exec_generate_key-Moves = elim (GenKey-cases (gen_key w.registry reads)) [
      | inl (inl e) ↦ rw (e, exec_generate_key) (same-Sent _ (λ x. refl))
      | inl (inr e) ↦ rw (e, exec_generate_key) kept-Sent
      | inr (key, e) ↦
          rw (exec_generate_key_lem conf r reads w key e)
            (elim (Outcome-cases (close_gracefully (told conf r key w r))) [
              | inl f ↦ rw f (λ w' g. cc)
              | inr (o, f) ↦ rw f (same-Sent _ (λ x. refl))
            ])
    ]

    exec-Moves :
        (cmd : Command) → get db.type command ≡ some cmd → Moves Sent (exec conf r cmd db reads w)
    unfolding exec exec_protocol_version
    exec-Moves join e = exec_join-Moves (only_join db.type e)
    exec-Moves protocol_version e = elim (Bool-cases (int_leb db.version (pos 0))) [
      | inl f ↦ rw f kept-Sent
      | inr f ↦ rw f (same-Sent _ (set_version-rooms r db.version w.registry))
    ]
    exec-Moves generate_key e = exec_generate_key-Moves

    pub cmd_exec-Moves : Moves Sent (cmd_exec conf r db reads w)
    unfolding cmd_exec
    cmd_exec-Moves = elim (Bool-cases (db.type == [])) [
      | inl e ↦ rw (e, cmd_exec) kept-Sent
      | inr e ↦
          rw (e, cmd_exec)
            (elim (Option-cases (get db.type command)) [
              | inl f ↦ rw f kept-Sent
              | inr (cmd, f) ↦ rw f (exec-Moves cmd f)
            ])
    ]
