-- ===== src/Host/Action.antt =====
-- The asynchronous functions of src/Blun.Mq.Host: each changes a state and yields a value, an error or
-- a panic.
use blun_mq.Base.{◌≡◌, refl, Text, Outcome, ok, err, panic}
use blun_mq.Proto.{Code, Status}

abbrev pub Fallible {ℓ κ μ} : Type ℓ → Type κ → Type μ → Type (ℓ ⊔ κ ⊔ μ)
Fallible E S A = S → Outcome E A × S

abbrev pub Action : Type 0 → Type 0 → Type 0
Action S A = Fallible Status S A

module _ {ℓ} {E S : Type ℓ} where
  abbrev pub continue {κ μ} :
      {A : Type κ} {B : Type μ} → (A → Fallible E S B) → Outcome E A × S → Outcome E B × S
  continue rest (ok a, s) = rest a s
  continue rest (err status, s) = (err status, s)
  continue rest (panic, s) = (panic, s)

  -- The `?` operator.
  infixl 5 ◌>>=◌
  abbrev pub ◌>>=◌ {κ μ} :
      {A : Type κ} {B : Type μ} → Fallible E S A → (A → Fallible E S B) → Fallible E S B
  (m >>= rest) s = continue rest (m s)

module _ {S : Type 0} where
  abbrev pub succeed : {A : Type 0} → A → Action S A
  succeed a s = (ok a, s)

  -- `Err(Status::new(code, message))`
  abbrev pub fail : {A : Type 0} → Code → Text → Action S A
  fail code message s = (err (record { code = code; message = message }), s)

-- Only a success comes out of a chain as one.
module _ {ℓ κ μ} {E S : Type ℓ} {A : Type κ} {B : Type μ} where
  continue-succeeded :
      (rest : A → Fallible E S B) (r : Outcome E A × S) {b : B} {t : S}
      → continue rest r ≡ (ok b, t)
      → (a : A) × (s : S) × (r ≡ (ok a, s)) × (rest a s ≡ (ok b, t))
  continue-succeeded rest (ok a, s) h = (a, s, refl, h)
  continue-succeeded rest (err e, s) h = absurd (cc)
  continue-succeeded rest (panic, s) h = absurd (cc)

  pub chain_succeeded :
      (m : Fallible E S A) (rest : A → Fallible E S B) {b : B} {s t : S}
      → (m >>= rest) s ≡ (ok b, t)
      → (a : A) × (s₁ : S) × (m s ≡ (ok a, s₁)) × (rest a s₁ ≡ (ok b, t))
  chain_succeeded m rest {s = s} h = continue-succeeded rest (m s) h
