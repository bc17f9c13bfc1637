-- ===== src/Channel/Params.antt =====
-- What `getChannelParams` of server/clientChannel.go makes of a channel key.
use nvda_remote_server.Common.{
  ℕ, zero, suc, ◌≡◌, ◌≢◌, ◌↔◌, refl, sym, ap, ◌∙◌, ◌⊎◌, inl, inr, Bool, true, false, Option, none,
  some, [], ◌∷◌, ◌++◌, Bytes, take, drop, arith, codes, Option-cases,
}
use nvda_remote_server.Strings.{
  index, index-split, index-take, index_zero, drop-add, index-le, has_prefix-split,
}
use nvda_remote_server.Channel.{
  ChannelParams, get_channel_params, split_password, lock_prefix, password_marker,
}

lock_and_password :
    get_channel_params (codes "lock_nocontrol__password__controlme")
    ≡ record { name = codes "nocontrol"; password = codes "controlme"; locked = true }
unfolding get_channel_params index
lock_and_password = refl

nil_marker :
    get_channel_params (codes "lock___password__x")
    ≡ record { name = codes "__password__x"; password = []; locked = true }
unfolding get_channel_params index
nil_marker = refl

-- The key `text` names a password behind the channel's name, at the first marker in it.
abbrev pub HasPassword : Bytes → ChannelParams → Type 0
HasPassword text p =
    (text ≡ p.name ++ (password_marker ++ p.password))
    × (p.locked ≡ true)
    × (p.name ≢ [])
    × (index p.name password_marker ≡ none)

-- No marker in `text` stands behind a name.
abbrev pub NoPassword : Bytes → Type 0
NoPassword text = (i : ℕ) → index text password_marker ≢ some (suc i)

split_password_forms :
    (p : ChannelParams) (o : Option ℕ)
    → index p.name password_marker ≡ o
    → ((split_password p o ≡ p) × NoPassword p.name) ⊎ HasPassword p.name (split_password p o)
unfolding split_password
split_password_forms p none e = inl (refl, λ i h. cc)
split_password_forms p (some zero) e = inl (refl, λ i h. ground arith)
split_password_forms p (some (suc i)) e = inr (
  index-split p.name password_marker (suc i) e
      ∙ ap (λ r. take (suc i) p.name ++ (password_marker ++ r)) (sym (drop-add 12 (suc i) p.name)),
  refl,
  nonempty p.name e,
  index-take p.name password_marker i e,
)
  where
    nonempty : (s : Bytes) → index s password_marker ≡ some (suc i) → take (suc i) s ≢ []
    nonempty [] h = absurd (omega (arith, index-le [] password_marker (suc i) h))
    nonempty (d ∷ s) h = λ z. cc

lock_split : (text : Bytes) → index text lock_prefix ≡ some 0 → text ≡ lock_prefix ++ drop 5 text
lock_split text e = has_prefix-split text lock_prefix (index_zero text lock_prefix e)

-- The text does not begin with the lock prefix.
abbrev pub IsBare : Bytes → Type 0
IsBare text = index text lock_prefix ≢ some 0

-- How the parameters of a channel spell the key that they were read from: behind the lock prefix,
-- exactly where the key begins with it, stands either the channel's name alone, or the name, the
-- marker and the password.
pub data Spells (p : ChannelParams) : Bytes → Type 0 where
  name_only :
      {text : Bytes}
      → IsBare text
      → text ≡ p.name
      → p.password ≡ []
      → p.locked ≡ false
      → NoPassword text
      → Spells p text
  passworded : {text : Bytes} → IsBare text → HasPassword text p → Spells p text
  lock_only :
      {text : Bytes}
      → text ≡ lock_prefix ++ p.name
      → p.password ≡ []
      → p.locked ≡ true
      → NoPassword p.name
      → Spells p text
  both : {text rest : Bytes} → text ≡ lock_prefix ++ rest → HasPassword rest p → Spells p text

abbrev named : Bytes → Bool → ChannelParams
named name locked = record { name = name; password = []; locked = locked }

split_unlocked :
    (text : Bytes)
    → IsBare text
    → Spells (split_password (named text false) (index text password_marker)) text
split_unlocked text bare = elim (split_password_forms (named text false) _ refl) [
  | inl (e, h) ↦ rw e (name_only bare refl refl refl h)
  | inr h ↦ passworded bare h
]

split_locked :
    (text rest : Bytes)
    → text ≡ lock_prefix ++ rest
    → Spells (split_password (named rest true) (index rest password_marker)) text
split_locked text rest t = elim (split_password_forms (named rest true) _ refl) [
  | inl (e, h) ↦ rw e (lock_only t refl refl h)
  | inr h ↦ both t h
]

-- For every text the parameters spell it, in one of four forms: a name, or a name and a password, each
-- behind the lock prefix exactly where the text begins with that. Behind the prefix the channel is
-- locked, and without it only together with a password, which stands behind the first marker.
pub get_channel_params-Spells : (text : Bytes) → Spells (get_channel_params text) text
unfolding get_channel_params
get_channel_params-Spells text = elim (Option-cases (index text lock_prefix)) [
  | inl e ↦ elim (Option-cases (index text password_marker)) [
    | inl f ↦ rw (e, f, get_channel_params) (rw f at (split_unlocked text (λ h. cc)))
    | inr (i, f) ↦ rw (e, f, get_channel_params) (rw f at (split_unlocked text (λ h. cc)))
  ]
  | inr (zero, e) ↦ rw (e, get_channel_params) (split_locked text (drop 5 text) (lock_split text e))
  | inr (suc j, e) ↦ rw (e, get_channel_params) (split_unlocked text (λ h. ground (arith, e, h)))
]

-- The name is empty exactly for the empty key and the bare lock prefix.
pub get_channel_params-nil :
    (text : Bytes) → ((get_channel_params text).name ≡ []) ↔ ((text ≡ []) ⊎ (text ≡ lock_prefix))
get_channel_params-nil text =
    (λ h. from_name text _ (get_channel_params-Spells text) h, λ h. to_name h)
  where
    from_name :
        (t : Bytes) (p : ChannelParams) → Spells p t → p.name ≡ [] → (t ≡ []) ⊎ (t ≡ lock_prefix)
    from_name t p (name_only _ e _ _ _) h = inl (e ∙ h)
    from_name t p (passworded _ (_, _, ne, _)) h = absurd (ne h)
    from_name t p (lock_only e _ _ _) h = inr (e ∙ ap (λ r. lock_prefix ++ r) h)
    from_name t p (both e (_, _, ne, _)) h = absurd (ne h)

    to_name : (text ≡ []) ⊎ (text ≡ lock_prefix) → (get_channel_params text).name ≡ []
    to_name (inl e) = rw e (unfold get_channel_params index in refl)
    to_name (inr e) = rw e (unfold get_channel_params index in refl)

-- A key gives a password only together with the lock.
pub get_channel_params_unlocked :
    (text : Bytes)
    → (get_channel_params text).locked ≡ false
    → ((get_channel_params text).name ≡ text) × ((get_channel_params text).password ≡ [])
get_channel_params_unlocked text h = go _ (get_channel_params-Spells text) h
  where
    go :
        (p : ChannelParams) → Spells p text → p.locked ≡ false → (p.name ≡ text) × (p.password ≡ [])
    go p (name_only _ e f _ _) h = (sym e, f)
    go p (passworded _ (_, l, _, _)) h = cc
    go p (lock_only _ _ l _) h = cc
    go p (both e (_, l, _, _)) h = cc
