-- ===== src/Host/Start/Retries.antt =====
-- src/Blun.Mq.Host/src/main.rs: the loops that initialize a group and register a node.
use blun_mq.Base.{ℕ, zero, suc, ◌≤◌, ◌⊎◌, inl, inr, ◌<◌, ◌≡◌, refl, Outcome, ok, err, arith}
use blun_mq.Host.Start.{succeeded, gave_up, retry}

module _ {W E A : Type 0} (attempt : W → Outcome E A × W) (sleep : ℕ → W → W) where
  -- From `w` this many attempts fail, each followed by its pause, and lead to `v`.
  pub data Fails : ℕ → W → W → Type 0 where
    none_fails : (w : W) → Fails zero w w
    one_fails :
        {n : ℕ} {v : W} (w : W) (e : E)
        → (attempt w).0 ≡ err e
        → Fails n (sleep 500 (attempt w).1) v
        → Fails (suc n) w v

  -- Where some attempts fail and the next one succeeds, a loop that allows one more attempt than
  -- failed ends with that success and makes no further attempt; one that allows no more than failed
  -- gives up.
  pub retry-Fails_success :
      (a : A) (fuel : ℕ) {n : ℕ} {w v : W}
      → Fails n w v
      → (attempt v).0 ≡ ok a
      → ((n < fuel) × (retry attempt sleep fuel w ≡ (succeeded, (attempt v).1)))
        ⊎ ((fuel ≤ n) × ((retry attempt sleep fuel w).0 ≡ gave_up))
  unfolding retry
  retry-Fails_success a zero fails good = inr (omega arith, refl)
  retry-Fails_success a (suc m) (none_fails w) good = inl (omega arith, rw (retry, good))
  retry-Fails_success a (suc m) (one_fails w e failed rest) good =
      elim (retry-Fails_success a m rest good) [
        | inl (lt, same) ↦ inl (omega arith, rw (retry, failed) same)
        | inr (le, same) ↦ inr (omega arith, rw (retry, failed) same)
      ]
