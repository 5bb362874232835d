-- ===== src/Base/Cells.antt =====
-- `Arc<Mutex<S>>`: the handles are addresses, and the contents of all mutexes of one type are a
-- function of the address. Two handles with one address share their contents. No code panics while
-- it holds one of these locks, so they are never poisoned.
use Prim.Native.Nat.{ℕ}
use mathlib.Core.Path.{◌≡◌}
use mathlib.Core.Logic.{◌≢◌}
use native.Mathlib.Omega.{arith}
use blun_mq.Base.Equality.{nat_eq, ◌==◌}
use blun_mq.Base.Tests.{if◌then◌else◌}

abbrev pub Arc : Type 0
Arc = ℕ

abbrev pub Cells {ℓ} : Type ℓ → Type ℓ
Cells S = Arc → S

module _ {ℓ} {S : Type ℓ} where
  -- The contents of one mutex are replaced.
  unfoldable pub write : Arc → S → Cells S → Cells S
  write a s cells b = if a == b then s else cells b

  pub write_self : (a : Arc) (s : S) (cells : Cells S) → write a s cells a ≡ s
  unfolding write
  write_self a s cells = ground arith

  pub write_ne : (a b : Arc) (s : S) (cells : Cells S) → a ≢ b → write a s cells b ≡ cells b
  unfolding write
  write_ne a b s cells h = ground arith
