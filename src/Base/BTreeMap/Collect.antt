-- ===== src/Base/BTreeMap/Collect.antt =====
-- A `BTreeMap` that is collected from its own pairs.
use Prim.Native.Nat.{ℕ, ◌<◌}
use mathlib.Core.Path.{◌≡◌, refl, sym, ◌∙◌, ap}
use mathlib.Core.List.{[], ◌∷◌, ◌++◌, foldl, append_assoc, append-nil}
use native.Mathlib.Omega.{arith}
use blun_mq.Base.Equality.{nat_eq}
use blun_mq.Base.Lists.{Every, Every-map, Every-append}
use blun_mq.Base.BTreeMap.{BTreeMap, insert, collect, Above, IsSorted}

module _ {ℓ} {V : Type ℓ} where
  insert-last :
      (k : ℕ) (v : V) (m : BTreeMap V) → Every (λ p. p.0 < k) m → insert k v m ≡ m ++ (k, v) ∷ []
  unfolding insert
  insert-last k v [] h = refl
  insert-last k v ((j, w) ∷ m) (lt, h) = ground (arith, insert-last k v m h)

  extend-sorted :
      (m rest : BTreeMap V)
      → Every (λ p. Above p.0 rest) m
      → IsSorted rest
      → foldl (λ n (k, v). insert k v n) m rest ≡ m ++ rest
  extend-sorted m [] h s = sym (append-nil m)
  extend-sorted m ((k, v) ∷ rest) h (above, s) =
      let below = Every-map (λ p. Above p.0 ((k, v) ∷ rest)) (λ p. p.0 < k) m (λ p x. x.0) h in
      let at = insert-last k v m below in
      let around =
        Every-append (λ p. Above p.0 rest) m ((k, v) ∷ [])
          (Every-map (λ p. Above p.0 ((k, v) ∷ rest)) (λ p. Above p.0 rest) m (λ p x. x.1) h)
          (above, tt) in
      ap (λ n. foldl (λ n (j, w). insert j w n) n rest) at
      ∙ extend-sorted (m ++ (k, v) ∷ []) rest around s
      ∙ append_assoc m ((k, v) ∷ []) rest

  pub collect_sorted : (m : BTreeMap V) → IsSorted m → collect m ≡ m
  unfolding collect
  collect_sorted m s = extend-sorted [] m tt s
