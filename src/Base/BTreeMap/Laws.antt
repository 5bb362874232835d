-- ===== src/Base/BTreeMap/Laws.antt =====
-- What the operations of `BTreeMap` do to `get` and to the order, and that its contents determine
-- the map.
use Prim.Native.Nat.{ℕ, ◌<◌, ◌≤◌}
use mathlib.Core.Path.{◌≡◌, refl, ◌∙◌, sym, subst}
use mathlib.Core.Logic.{◌≢◌, inl, inr}
use mathlib.Core.Bool.{false}
use mathlib.Core.Option.{none, some}
use mathlib.Core.List.{List, [], ◌∷◌, foldl}
use native.Mathlib.Omega.{arith}
use blun_mq.Base.Equality.{nat_eq, ◌==◌, eq_of_==}
use blun_mq.Base.Tests.{if◌then◌else◌, Bool-cases}
use blun_mq.Base.BTreeMap.{BTreeMap, get, insert, collect, first_key, Above, IsSorted}

module _ {ℓ} {V : Type ℓ} where
  pub get-insert :
      (k j : ℕ) (v : V) (m : BTreeMap V)
      → get j (insert k v m) ≡ (if k == j then some v else get j m)
  unfolding get insert
  get-insert k j v [] = refl
  get-insert k j v ((i, w) ∷ m) = ground (arith, get-insert k j v m)

  Above-trans : (k j : ℕ) (m : BTreeMap V) → k < j → Above j m → Above k m
  Above-trans k j [] h a = tt
  Above-trans k j ((i, w) ∷ m) h (lt, a) = (omega arith, Above-trans k j m h a)

  Above-insert : (i k : ℕ) (v : V) (m : BTreeMap V) → i < k → Above i m → Above i (insert k v m)
  unfolding insert
  Above-insert i k v [] h a = (h, tt)
  Above-insert i k v ((j, w) ∷ m) h (lt, a) = ground (arith, Above-insert i k v m h a)

  pub insert-IsSorted : (k : ℕ) (v : V) (m : BTreeMap V) → IsSorted m → IsSorted (insert k v m)
  unfolding insert
  insert-IsSorted k v [] s = (tt, tt)
  insert-IsSorted k v ((j, w) ∷ m) (a, s) =
      ground (arith, insert-IsSorted k v m s, Above-insert j k v m, Above-trans k j m)

  get_of_Above : (k j : ℕ) (m : BTreeMap V) → j ≤ k → Above k m → get j m ≡ none
  unfolding get
  get_of_Above k j [] h a = refl
  get_of_Above k j ((i, w) ∷ m) h (lt, a) = ground (arith, get_of_Above k j m h a)

  module _ (k j : ℕ) (v w : V) (m n : BTreeMap V) (a : Above k m) (b : Above j n)
      (h : (i : ℕ) → get i ((k, v) ∷ m) ≡ get i ((j, w) ∷ n)) where
    same_key : k ≡ j
    unfolding get
    same_key = ground (arith, h k, h j, get_of_Above j k n, get_of_Above k j m)

    same_value : v ≡ w
    unfolding get
    same_value = ground (arith, h k, same_key)

    same_rest : (i : ℕ) → get i m ≡ get i n
    unfolding get
    same_rest i =
        let e = same_key in
        elim (Bool-cases (k == i)) [
          | inl here ↦
              let at : k ≡ i = eq_of_== k i here in
              get_of_Above k i m (omega arith) a ∙ sym (get_of_Above j i n (omega arith) b)
          | inr off ↦
              let off' : (j == i) ≡ false = subst (λ x. (x == i) ≡ false) e off in
              rw (off, off') at (h i)
        ]

  -- Two maps with the same contents are equal.
  pub IsSorted-ext :
      (m n : BTreeMap V) → IsSorted m → IsSorted n → ((k : ℕ) → get k m ≡ get k n) → m ≡ n
  unfolding get
  IsSorted-ext [] [] s t h = refl
  IsSorted-ext [] ((j, w) ∷ n) s t h = ground (arith, h j)
  IsSorted-ext ((k, v) ∷ m) [] s t h = ground (arith, h k)
  IsSorted-ext ((k, v) ∷ m) ((j, w) ∷ n) (a, s) (b, t) h =
      let rest = IsSorted-ext m n s t (same_rest k j v w m n a b h) in
      λ i. (same_key k j v w m n a b h i, same_value k j v w m n a b h i) ∷ rest i

  -- Inserting under two keys gives one map in either order.
  pub insert_comm :
      (k j : ℕ) (v w : V) (m : BTreeMap V)
      → k ≢ j
      → IsSorted m
      → insert k v (insert j w m) ≡ insert j w (insert k v m)
  insert_comm k j v w m ne s =
      IsSorted-ext (insert k v (insert j w m)) (insert j w (insert k v m))
        (insert-IsSorted k v (insert j w m) (insert-IsSorted j w m s))
        (insert-IsSorted j w (insert k v m) (insert-IsSorted k v m s))
        λ i. ground (
          arith,
          get-insert k i v (insert j w m),
          get-insert j i w m,
          get-insert j i w (insert k v m),
          get-insert k i v m,
        )

  pub insert_idem :
      (k : ℕ) (v : V) (m : BTreeMap V) → IsSorted m → insert k v (insert k v m) ≡ insert k v m
  insert_idem k v m s =
      IsSorted-ext (insert k v (insert k v m)) (insert k v m)
        (insert-IsSorted k v (insert k v m) (insert-IsSorted k v m s)) (insert-IsSorted k v m s)
        λ i. ground (arith, get-insert k i v (insert k v m), get-insert k i v m)

  extend-IsSorted :
      (m : BTreeMap V) (pairs : List (ℕ × V))
      → IsSorted m
      → IsSorted (foldl (λ m (k, v). insert k v m) m pairs)
  extend-IsSorted m [] s = s
  extend-IsSorted m ((k, v) ∷ pairs) s =
      extend-IsSorted (insert k v m) pairs (insert-IsSorted k v m s)

  pub collect-IsSorted : (pairs : List (ℕ × V)) → IsSorted (collect pairs)
  unfolding collect
  collect-IsSorted pairs = extend-IsSorted [] pairs tt

  -- The first key is the lowest one.
  pub first_key-le :
      (m : BTreeMap V) (k j : ℕ) (v : V)
      → IsSorted m
      → first_key m ≡ some k
      → get j m ≡ some v
      → k ≤ j
  unfolding first_key get
  first_key-le [] k j v s h g = cc
  first_key-le ((i, w) ∷ m) k j v (a, s) h g = ground (arith, get_of_Above i j m)
