-- ===== src/Base/Lists.antt =====
-- Lists measured by native numbers, and predicates on their members.
use Prim.Native.Nat.{ℕ, suc, ◌+◌}
use mathlib.Core.Path.{◌≡◌, refl, ap, ap₂}
use mathlib.Core.List.{tail-eq_of_cons-eq, head-eq_of_cons-eq, List, [], ◌∷◌, ◌++◌, map}
use native.Mathlib.Omega.{arith}

module _ {ℓ} {A : Type ℓ} where
  abbrev pub length : List A → ℕ
  length [] = 0
  length (x ∷ xs) = suc (length xs)

  pub length-append : (xs ys : List A) → length (xs ++ ys) ≡ length xs + length ys
  length-append [] ys = omega arith
  length-append (x ∷ xs) ys = omega (arith, length-append xs ys)

  -- Equal lists whose first parts are equally long have the same parts.
  pub append_inj :
      (xs ys : List A) {us vs : List A}
      → xs ++ us ≡ ys ++ vs
      → length xs ≡ length ys
      → (xs ≡ ys) × (us ≡ vs)
  append_inj [] [] h n = (refl, h)
  append_inj [] (y ∷ ys) h n = absurd (omega (arith, n))
  append_inj (x ∷ xs) [] h n = absurd (omega (arith, n))
  append_inj (x ∷ xs) (y ∷ ys) h n =
      let (same, rest) = append_inj xs ys (tail-eq_of_cons-eq h) (omega (arith, n)) in
      (ap₂ ◌∷◌ (head-eq_of_cons-eq h) same, rest)

  abbrev pub Every {κ} : (A → Type κ) → List A → Type κ
  Every P [] = Unit
  Every P (x ∷ xs) = P x × Every P xs

  pub Every-middle {κ} :
      (P : A → Type κ) (xs : List A) (y : A) (ys : List A) → Every P (xs ++ y ∷ ys) → P y
  Every-middle P [] y ys h = h.0
  Every-middle P (x ∷ xs) y ys h = Every-middle P xs y ys h.1

  pub Every-append {κ} :
      (P : A → Type κ) (xs ys : List A) → Every P xs → Every P ys → Every P (xs ++ ys)
  Every-append P [] ys h k = k
  Every-append P (x ∷ xs) ys (first, rest) k = (first, Every-append P xs ys rest k)

  pub Every-replace {κ} :
      (P : A → Type κ) (xs : List A) (y z : A) (ys : List A)
      → P z
      → Every P (xs ++ y ∷ ys)
      → Every P (xs ++ z ∷ ys)
  Every-replace P [] y z ys new h = (new, h.1)
  Every-replace P (x ∷ xs) y z ys new h = (h.0, Every-replace P xs y z ys new h.1)

  pub Every-map {κ μ} :
      (P : A → Type κ) (Q : A → Type μ) (xs : List A)
      → ((x : A) → P x → Q x)
      → Every P xs
      → Every Q xs
  Every-map P Q [] f h = tt
  Every-map P Q (x ∷ xs) f (first, rest) = (f x first, Every-map P Q xs f rest)

-- The sum of a weight over the members. Lists with the same sums for every weight have the same
-- members, each as often.
module _ {ℓ} {A : Type ℓ} where
  abbrev pub sum : (A → ℕ) → List A → ℕ
  sum f [] = 0
  sum f (x ∷ xs) = f x + sum f xs

  pub sum-append : (f : A → ℕ) (xs ys : List A) → sum f (xs ++ ys) ≡ sum f xs + sum f ys
  sum-append f [] ys = omega arith
  sum-append f (x ∷ xs) ys = omega (arith, sum-append f xs ys)

  pub sum-middle :
      (f : A → ℕ) (xs : List A) (y : A) (ys : List A)
      → sum f (xs ++ y ∷ ys) ≡ f y + sum f (xs ++ ys)
  sum-middle f [] y ys = refl
  sum-middle f (x ∷ xs) y ys = omega (arith, sum-middle f xs y ys)

  pub length-middle :
      (xs : List A) (y : A) (ys : List A) → length (xs ++ y ∷ ys) ≡ suc (length (xs ++ ys))
  length-middle [] y ys = refl
  length-middle (x ∷ xs) y ys = ap suc (length-middle xs y ys)

  pub sum_one : (xs : List A) → sum (λ x. 1) xs ≡ length xs
  sum_one [] = refl
  sum_one (x ∷ xs) = omega (arith, sum_one xs)

module _ {ℓ κ} {A : Type ℓ} {B : Type κ} where
  pub length-map : (f : A → B) (xs : List A) → length (map f xs) ≡ length xs
  length-map f [] = refl
  length-map f (x ∷ xs) = ap suc (length-map f xs)

-- The members change a state in order, and each gives a result.
module _ {ℓ κ μ} {S : Type ℓ} {A : Type κ} {B : Type μ} where
  unfoldable pub map_accum : (S → A → S × B) → S → List A → S × List B
  map_accum f s [] = (s, [])
  map_accum f s (a ∷ xs) = let (s', b) = f s a in let (s'', bs) = map_accum f s' xs in (s'', b ∷ bs)
