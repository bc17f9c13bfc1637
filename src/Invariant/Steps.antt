-- ===== src/Invariant/Steps.antt =====
-- Every event keeps the server's maps and pointers well formed: `RemoveClient`, `AddClient`, the
-- command handlers and `MessageReceived`.
use nvda_remote_server.Common.{
  ℕ, ◌≡◌, refl, sym, ◌∙◌, subst, Option, none, some, List, [], Bytes, nat_eq, bytes_eq, arith,
  update, inl, inr, Bool-cases, Option-cases, ◌==◌, ◌⊎◌, Outcome, ok, panic, ◌>>=◌,
}
use nvda_remote_server.Common.Int.{ℤ, pos, int_leb, int_eq}
use nvda_remote_server.GoMap.{get}
use nvda_remote_server.Protocol.{Data}
use nvda_remote_server.Channel.{get_channel_params, ChannelParams}
use nvda_remote_server.World.{
  Outboxes, World, Settings, Registry, set_connection_type, set_version, find_channel,
}
use nvda_remote_server.Commands.{
  key_data, Command, join, protocol_version, generate_key, enter_channel, exec_join, exec_join_free,
  close_client, send_error, exec_protocol_version, exec_generate_key, exec,
}
use nvda_remote_server.Invariant.{IsWellFormed}
use nvda_remote_server.Invariant.Writes.{set_client-IsLinked}
use nvda_remote_server.Invariant.Joining.{Joins, add-Joins}
use nvda_remote_server.Invariant.Making.{add_channel-Joins}
use nvda_remote_server.Client.{close_gracefully}
use nvda_remote_server.Relay.{send_to_client}
use nvda_remote_server.Keys.{gen_key, GenKey, generated, failed, drawing}

-- What a handler comes to, unless it panics.
abbrev pub Keeps : Outcome World → Type 0
Keeps o = (w : World) → o ≡ ok w → IsWellFormed w.registry

ok-injective : {a b : World} → ok a ≡ ok b → a ≡ b
ok-injective e = cc

pub ok-Keeps : (w : World) → IsWellFormed w.registry → Keeps (ok w)
ok-Keeps w v w' e = subst (λ (u : World). IsWellFormed u.registry) (ok-injective e) v

Joins-Keeps : (o : Outcome World) → Joins o → Keeps o
Joins-Keeps o (w, e, v) w' e' = ok-Keeps w v w' (sym e ∙ e')

pub set_connection_type-IsWellFormed :
    (r : ℕ) (ctype : Bytes) (g : Registry)
    → IsWellFormed g
    → IsWellFormed (set_connection_type r ctype g)
unfolding set_connection_type
set_connection_type-IsWellFormed r ctype g v = record {
  linked =
      set_client-IsLinked g r (record (g.client_at r) { connection_type = ctype }) refl refl
        v.linked;
  populated = v.populated;
}

set_version-IsWellFormed :
    (r : ℕ) (version : ℤ) (g : Registry) → IsWellFormed g → IsWellFormed (set_version r version g)
unfolding set_version
set_version-IsWellFormed r version g v = record {
  linked =
      set_client-IsLinked g r (record (g.client_at r) { version = version }) refl refl v.linked;
  populated = v.populated;
}

enter_channel-Joins :
    (conf : Settings) (r : ℕ) (params : ChannelParams) (w : World)
    → IsWellFormed w.registry
    → (w.client_at r).channel ≡ none
    → get r w.clients ≡ some tt
    → Joins (enter_channel conf r params w)
unfolding enter_channel find_channel
enter_channel-Joins conf r params w v free here = elim (Option-cases (get params.name w.channels)) [
  | inl e ↦
      rw (e, enter_channel)
        (add_channel-Joins conf params.name params.password params.locked r w v free here e)
  | inr (h, e) ↦
      rw (e, enter_channel)
        (add-Joins conf h r params.password w v free here (rw (v.linked.named params.name h e) e))
]

-- A `join` never panics, and keeps the maps and pointers well formed.
pub exec_join-Joins :
    (conf : Settings) (r : ℕ) (db : Data) (w : World)
    → IsWellFormed w.registry
    → get r w.clients ≡ some tt
    → Joins (exec_join conf r db w)
unfolding exec_join exec_join_free set_connection_type close_client send_error
exec_join-Joins conf r db w v here = elim (Option-cases (w.client_at r).channel) [
  | inr (h, e) ↦ rw (e, exec_join) (_, refl, v)
  | inl free ↦ elim (Bool-cases ((get_channel_params db.channel).name == [])) [
    | inl e ↦ rw (free, exec_join) (rw (e, exec_join_free) (_, refl, v))
    | inr e ↦
        rw (free, exec_join)
          (rw (e, exec_join_free)
            (enter_channel-Joins conf r (get_channel_params db.channel) _
              (set_connection_type-IsWellFormed r db.connection_type w.registry v) (ground arith)
              here))
  ]
]

panic-Keeps : Keeps panic
panic-Keeps w e = cc

pub GenKey-cases :
    (k : GenKey) → ((k ≡ failed) ⊎ (k ≡ drawing)) ⊎ ((key : Bytes) × (k ≡ generated key))
GenKey-cases failed = inl (inl refl)
GenKey-cases drawing = inl (inr refl)
GenKey-cases (generated key) = inr (key, refl)

pub Outcome-cases {ℓ} : {A : Type ℓ} (o : Outcome A) → (o ≡ panic) ⊎ ((a : A) × (o ≡ ok a))
Outcome-cases panic = inl refl
Outcome-cases (ok a) = inr (a, refl)

-- The queue of the client behind a generated key.
abbrev pub told : Settings → ℕ → Bytes → World → Outboxes
told conf r key w = send_to_client conf.codec r (key_data key) w.outbox

pub exec_generate_key_lem :
    (conf : Settings) (r : ℕ) (reads : List (Option Bytes)) (w : World) (key : Bytes)
    → gen_key w.registry reads ≡ generated key
    → exec_generate_key conf r reads w ≡ (
        close_gracefully (told conf r key w r) >>= λ o.
        ok (record w { outbox = update (told conf r key w) r o }))
unfolding exec_generate_key
exec_generate_key_lem conf r reads w key e = rw (e, exec_generate_key)

exec_generate_key-Keeps :
    (conf : Settings) (r : ℕ) (reads : List (Option Bytes)) (w : World)
    → IsWellFormed w.registry
    → Keeps (exec_generate_key conf r reads w)
unfolding exec_generate_key
exec_generate_key-Keeps conf r reads w v = elim (GenKey-cases (gen_key w.registry reads)) [
  | inl (inl e) ↦ rw (e, exec_generate_key) (ok-Keeps _ v)
  | inl (inr e) ↦ rw (e, exec_generate_key) (ok-Keeps w v)
  | inr (key, e) ↦
      rw (exec_generate_key_lem conf r reads w key e)
        (elim (Outcome-cases (close_gracefully (told conf r key w r))) [
          | inl f ↦ rw f panic-Keeps
          | inr (o, f) ↦ rw f (ok-Keeps _ v)
        ])
]

pub exec-Keeps :
    (conf : Settings) (r : ℕ) (cmd : Command) (db : Data) (reads : List (Option Bytes)) (w : World)
    → IsWellFormed w.registry
    → get r w.clients ≡ some tt
    → Keeps (exec conf r cmd db reads w)
unfolding exec exec_protocol_version
exec-Keeps conf r join db reads w v here = Joins-Keeps _ (exec_join-Joins conf r db w v here)
exec-Keeps conf r protocol_version db reads w v here =
    elim (Bool-cases (int_leb db.version (pos 0))) [
      | inl e ↦ rw e (ok-Keeps w v)
      | inr e ↦ rw e (ok-Keeps _ (set_version-IsWellFormed r db.version w.registry v))
    ]
exec-Keeps conf r generate_key db reads w v here = exec_generate_key-Keeps conf r reads w v
