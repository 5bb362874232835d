-- ===== src/Base/HashMap/Laws.antt =====
-- What the operations of `HashMap` do to `get`, and that they keep the keys distinct.
use mathlib.Core.Path.{◌≡◌, refl, ap, ◌∙◌}
use mathlib.Core.Option
use mathlib.Core.Option.{Option, none, some, or_else}
use mathlib.Core.List.{List, [], ◌∷◌}
use native.Mathlib.Omega.{arith}
use blun_mq.Base.Equality.{Eq, ◌==◌}
use blun_mq.Base.Tests.{if◌then◌else◌}
use blun_mq.Base.HashMap.{HashMap, get, insert, extend, collect, NodupKeys, map_values}

or_else-none {ℓ} : {A : Type ℓ} (o : Option A) → or_else o none ≡ o
unfolding or_else
or_else-none none = refl
or_else-none (some a) = refl

module _ {ℓ κ} {K : Type ℓ} {V : Type κ} ⦃e : Eq K⦄ where
  pub get-nil : (k : K) → get {V = V} k [] ≡ none
  unfolding get
  get-nil k = refl

  pub get-insert :
      (k j : K) (v : V) (m : HashMap K V)
      → get j (insert k v m) ≡ (if k == j then some v else get j m)
  unfolding get insert
  get-insert k j v [] = refl
  get-insert k j v ((i, w) ∷ m) = ground (arith, get-insert k j v m)

  pub get-insert_self : (k : K) (v : V) (m : HashMap K V) → get k (insert k v m) ≡ some v
  get-insert_self k v m = ground (arith, get-insert k k v m)

  pub insert-NodupKeys : (k : K) (v : V) (m : HashMap K V) → NodupKeys m → NodupKeys (insert k v m)
  unfolding get insert
  insert-NodupKeys k v [] h = (refl, tt)
  insert-NodupKeys k v ((j, w) ∷ m) (fresh, u) =
      ground (arith, insert-NodupKeys k v m u, get-insert k j v m)

  get-extend :
      (m : HashMap K V) (pairs : List (K × V)) (k : K)
      → NodupKeys pairs
      → get k (extend m pairs) ≡ or_else (get k pairs) (get k m)
  unfolding get or_else
  get-extend m [] k h = refl
  get-extend m ((j, v) ∷ pairs) k (fresh, u) =
      get-extend (insert j v m) pairs k u ∙ ground (arith, get-insert j k v m)

  extend-NodupKeys :
      (m : HashMap K V) (pairs : List (K × V)) → NodupKeys m → NodupKeys (extend m pairs)
  extend-NodupKeys m [] h = h
  extend-NodupKeys m ((j, v) ∷ pairs) h =
      extend-NodupKeys (insert j v m) pairs (insert-NodupKeys j v m h)

  -- Collecting pairs of distinct keys loses nothing and adds nothing.
  pub get-collect :
      (pairs : List (K × V)) (k : K) → NodupKeys pairs → get k (collect pairs) ≡ get k pairs
  unfolding collect
  get-collect pairs k h = get-extend [] pairs k h ∙ rw get-nil (or_else-none (get k pairs))

  pub collect-NodupKeys : (pairs : List (K × V)) → NodupKeys (collect pairs)
  unfolding collect
  collect-NodupKeys pairs = extend-NodupKeys [] pairs tt

module _ {ℓ κ μ} {K : Type ℓ} {V : Type κ} {W : Type μ} ⦃e : Eq K⦄ where
  pub get-map_values :
      (f : V → W) (m : HashMap K V) (k : K) → get k (map_values f m) ≡ Option.map f (get k m)
  unfolding get
  get-map_values f [] k = refl
  get-map_values f ((j, v) ∷ m) k = ground (arith, get-map_values f m k)

  map_values-NodupKeys : (f : V → W) (m : HashMap K V) → NodupKeys m → NodupKeys (map_values f m)
  map_values-NodupKeys f [] h = tt
  map_values-NodupKeys f ((j, v) ∷ m) (fresh, u) =
      (get-map_values f m j ∙ ap (Option.map f) fresh, map_values-NodupKeys f m u)

  pub get-collect-map_values :
      (f : V → W) (m : HashMap K V) (k : K)
      → NodupKeys m
      → get k (collect (map_values f m)) ≡ Option.map f (get k m)
  get-collect-map_values f m k h =
      get-collect (map_values f m) k (map_values-NodupKeys f m h) ∙ get-map_values f m k

module _ {ℓ κ μ} {K : Type ℓ} {V : Type κ} {W : Type μ} ⦃e : Eq K⦄ (f : V → W) where
  insert-map_values :
      (k : K) (v : V) (m : HashMap K V)
      → insert k (f v) (map_values f m) ≡ map_values f (insert k v m)
  unfolding insert
  insert-map_values k v [] = refl
  insert-map_values k v ((j, w) ∷ m) = ground (arith, insert-map_values k v m)

  extend-map_values :
      (m pairs : HashMap K V)
      → extend (map_values f m) (map_values f pairs) ≡ map_values f (extend m pairs)
  extend-map_values m [] = refl
  extend-map_values m ((k, v) ∷ pairs) =
      ap (λ n. extend n (map_values f pairs)) (insert-map_values k v m)
      ∙ extend-map_values (insert k v m) pairs

  -- Mapping the values and collecting commute.
  pub collect-map_values : (m : HashMap K V) → collect (map_values f m) ≡ map_values f (collect m)
  unfolding collect
  collect-map_values m = extend-map_values [] m
