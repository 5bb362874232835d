-- ===== src/Base/BTreeMap.antt =====
-- std's `BTreeMap<u64, V>` as an association list in ascending order of its keys, the order in which
-- it iterates.
pub mod Laws
pub mod Collect
use Prim.Native.Nat.{ℕ, ◌<◌}
use mathlib.Core.Option
use mathlib.Core.Option.{Option, none, some}
use mathlib.Core.List.{List, [], ◌∷◌, foldl}
use blun_mq.Base.Equality.{nat_eq, ◌==◌}
use blun_mq.Base.Tests.{ltb, if◌then◌else◌}

abbrev pub BTreeMap {ℓ} : Type ℓ → Type ℓ
BTreeMap V = List (ℕ × V)

module _ {ℓ} {V : Type ℓ} where
  -- `m.get(&k)`
  unfoldable pub get : ℕ → BTreeMap V → Option V
  get k [] = none
  get k ((j, v) ∷ m) = if j == k then some v else get k m

  -- `m.insert(k, v)`, the previous value dropped.
  unfoldable pub insert : ℕ → V → BTreeMap V → BTreeMap V
  insert k v [] = (k, v) ∷ []
  insert k v ((j, w) ∷ m) =
      if ltb k j then (k, v) ∷ (j, w) ∷ m else if j == k then (k, v) ∷ m else (j, w) ∷ insert k v m

  -- `pairs.collect()`: a later pair overwrites an earlier one of its key.
  unfoldable pub collect : List (ℕ × V) → BTreeMap V
  unfolding insert
  collect = foldl (λ m (k, v). insert k v m) []

  -- `m.keys().next()`
  unfoldable pub first_key : BTreeMap V → Option ℕ
  first_key [] = none
  first_key ((k, v) ∷ m) = some k

  -- Every key is above `k`.
  abbrev pub Above : ℕ → BTreeMap V → Type 0
  Above k [] = Unit
  Above k ((j, v) ∷ m) = (k < j) × Above k m

  abbrev pub IsSorted : BTreeMap V → Type 0
  IsSorted [] = Unit
  IsSorted ((k, v) ∷ m) = Above k m × IsSorted m
