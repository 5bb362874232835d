-- ===== src/Base/Results.antt =====
-- What a fallible Rust function yields: a value, an error, or a panic (`unwrap`, `expect`, `panic!`).
use mathlib.Core.Path.{◌≡◌, refl}
use mathlib.Core.Option.{Option, none, some}

pub data Outcome {ℓ κ} (E : Type ℓ) (A : Type κ) : Type (ℓ ⊔ κ) where
  ok : A → Outcome E A
  err : E → Outcome E A
  panic : Outcome E A

-- The `?` operator.
infixl 5 ◌>>=◌
abbrev pub ◌>>=◌ {ℓ κ μ} :
    {E : Type ℓ} {A : Type κ} {B : Type μ} → Outcome E A → (A → Outcome E B) → Outcome E B
panic >>= rest = panic
err e >>= rest = err e
ok a >>= rest = rest a

-- `.map_err(f)`
abbrev pub map_err {ℓ κ μ} :
    {E : Type ℓ} {F : Type κ} {A : Type μ} → (E → F) → Outcome E A → Outcome F A
map_err f (ok a) = ok a
map_err f (err e) = err (f e)
map_err f panic = panic

-- `.expect(...)`: an error becomes a panic.
abbrev pub expect {ℓ κ μ} : {E : Type ℓ} {F : Type κ} {A : Type μ} → Outcome E A → Outcome F A
expect (ok a) = ok a
expect (err e) = panic
expect panic = panic

-- `opt.map(f).transpose()`
abbrev pub transpose_map {ℓ κ μ} :
    {E : Type ℓ} {A : Type κ} {B : Type μ} → (A → Outcome E B) → Option A → Outcome E (Option B)
transpose_map f none = ok none
transpose_map f (some a) = f a >>= λ b. ok (some b)

-- Only a success comes out of a chain as one.
module _ {ℓ κ μ} {E : Type ℓ} {A : Type κ} {B : Type μ} where
  pub succeeded :
      (r : Outcome E A) (rest : A → Outcome E B) {out : B}
      → (r >>= rest) ≡ ok out
      → (x : A) × (r ≡ ok x) × (rest x ≡ ok out)
  succeeded panic rest p = cc
  succeeded (err e) rest p = cc
  succeeded (ok x) rest p = (x, refl, p)

  pub map_err-eq-ok : (f : E → A) (r : Outcome E B) {out : B} → map_err f r ≡ ok out → r ≡ ok out
  map_err-eq-ok f panic p = cc
  map_err-eq-ok f (err e) p = cc
  map_err-eq-ok f (ok b) p = cc

pub ok_inj {ℓ κ} : {E : Type ℓ} {A : Type κ} {x y : A} → ◌≡◌ {A = Outcome E A} (ok x) (ok y) → x ≡ y
ok_inj h = cc
