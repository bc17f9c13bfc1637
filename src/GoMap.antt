-- ===== src/GoMap.antt =====
-- Go's built-in maps, as association lists with one entry for each key. The order of the entries is
-- one of the orders in which `range` may visit them.
use mathlib.Core.List.{cons-ne-nil}
use nvda_remote_server.Common.{
  ◌≢◌, Bool-cases, inl, inr, ◌≡◌, refl, Option, none, some, List, [], ◌∷◌, arith, Comparable, ◌==◌,
  if◌then◌else◌,
}

abbrev pub Map {ℓ κ} : Type ℓ → Type κ → Type (ℓ ⊔ κ)
Map K V = List (K × V)

module _ {ℓ κ} {K : Type ℓ} {V : Type κ} ⦃cmp : Comparable K⦄ where
  -- v, exists := m[k]
  unfoldable pub get : K → Map K V → Option V
  get k [] = none
  get k ((j, v) ∷ m) = if j == k then some v else get k m

  -- m[k] = v
  unfoldable pub put : K → V → Map K V → Map K V
  put k v [] = (k, v) ∷ []
  put k v ((j, u) ∷ m) = if j == k then (k, v) ∷ m else (j, u) ∷ put k v m

  -- delete(m, k)
  unfoldable pub delete : K → Map K V → Map K V
  delete k [] = []
  delete k ((j, u) ∷ m) = let rest = delete k m in if j == k then rest else (j, u) ∷ rest

  -- No two entries have the same key.
  abbrev pub IsMap : Map K V → Type (ℓ ⊔ κ)
  IsMap [] = Unit
  IsMap ((j, u) ∷ m) = (get j m ≡ none) × IsMap m

  pub get-put :
      (k j : K) (v : V) (m : Map K V) → get j (put k v m) ≡ (if k == j then some v else get j m)
  unfolding get put
  get-put k j v [] = refl
  get-put k j v ((i, u) ∷ m) =
      ground (arith, cmp.same_iff k j, cmp.same_iff i k, cmp.same_iff i j, get-put k j v m)

  pub get-delete : (k j : K) (m : Map K V) → get j (delete k m) ≡ (if k == j then none else get j m)
  unfolding get delete
  get-delete k j [] = ground arith
  get-delete k j ((i, u) ∷ m) =
      ground (arith, cmp.same_iff k j, cmp.same_iff i k, cmp.same_iff i j, get-delete k j m)

  pub put-ne-nil : (k : K) (v : V) (m : Map K V) → put k v m ≢ []
  unfolding put
  put-ne-nil k v [] = cons-ne-nil (k, v) []
  put-ne-nil k v ((i, u) ∷ m) = elim (Bool-cases (i == k)) [
    | inl e ↦ rw e (cons-ne-nil (k, v) m)
    | inr e ↦ rw e (cons-ne-nil (i, u) (put k v m))
  ]

  pub put-IsMap : (k : K) (v : V) (m : Map K V) → IsMap m → IsMap (put k v m)
  unfolding put get
  put-IsMap k v [] h = (refl, tt)
  put-IsMap k v ((i, u) ∷ m) h =
      ground (arith, cmp.same_iff i k, cmp.same_iff k i, put-IsMap k v m, get-put k i v m)

  pub delete-IsMap : (k : K) (m : Map K V) → IsMap m → IsMap (delete k m)
  unfolding delete get
  delete-IsMap k [] h = tt
  delete-IsMap k ((i, u) ∷ m) h =
      ground (arith, cmp.same_iff i k, cmp.same_iff k i, delete-IsMap k m, get-delete k i m)
