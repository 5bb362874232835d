-- ===== src/Base/HashMap.antt =====
-- std's `HashMap` as an association list. Its order stands for the unspecified order in which the
-- real map iterates; statements about maps go by `get`.
pub mod Laws
use mathlib.Core.Path.{◌≡◌}
use mathlib.Core.Option.{Option, none, some}
use mathlib.Core.List.{List, [], ◌∷◌, map, foldl}
use blun_mq.Base.Equality.{Eq, ◌==◌}
use blun_mq.Base.Tests.{if◌then◌else◌}

abbrev pub HashMap {ℓ κ} : Type ℓ → Type κ → Type (ℓ ⊔ κ)
HashMap K V = List (K × V)

module _ {ℓ κ} {K : Type ℓ} {V : Type κ} ⦃e : Eq K⦄ where
  -- `m.get(&k)`
  unfoldable pub get : K → HashMap K V → Option V
  get k [] = none
  get k ((j, v) ∷ m) = if j == k then some v else get k m

  -- `m.insert(k, v)`, the previous value dropped.
  unfoldable pub insert : K → V → HashMap K V → HashMap K V
  insert k v [] = (k, v) ∷ []
  insert k v ((j, w) ∷ m) = if j == k then (k, v) ∷ m else (j, w) ∷ insert k v m

  abbrev pub extend : HashMap K V → List (K × V) → HashMap K V
  extend = foldl (λ m (k, v). insert k v m)

  -- `pairs.collect()`: a later pair overwrites an earlier one of its key.
  unfoldable pub collect : List (K × V) → HashMap K V
  unfolding insert
  collect pairs = extend [] pairs

  -- Every key has one entry, which `HashMap` guarantees.
  abbrev pub NodupKeys : HashMap K V → Type κ
  NodupKeys [] = Unit
  NodupKeys ((k, _) ∷ m) = (get k m ≡ none) × NodupKeys m

-- `m.iter().map(|(k, v)| (k.clone(), f(v)))`
abbrev pub map_values {ℓ κ μ} :
    {K : Type ℓ} {V : Type κ} {W : Type μ} → (V → W) → HashMap K V → List (K × W)
map_values f = map (λ (k, v). (k, f v))
