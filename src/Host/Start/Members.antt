-- ===== src/Host/Start/Members.antt =====
-- src/Blun.Mq.Host/src/main.rs: `bootstrap`, with the peers of the node.
use mathlib.Core.List.{map-id}
use blun_mq.Base.{ℕ, ◌≤◌, ◌<◌, ◌≡◌, ◌⊎◌, ap, ◌∙◌, Text, Outcome, ok}
use blun_mq.Base.BTreeMap.{BTreeMap, IsSorted, collect}
use blun_mq.Base.BTreeMap.Collect.{collect_sorted}
use blun_mq.Host.Start.{succeeded, gave_up, retry, bootstrap, bootstrap_attempts}
use blun_mq.Host.Start.Retries.{Fails, retry-Fails_success}

bootstrap-eq-retry :
    {W E A : Type 0} (sleep : ℕ → W → W) (initialize : BTreeMap Text → W → Outcome E A × W)
    (peers : BTreeMap Text) (w : W)
    → IsSorted peers
    → bootstrap sleep initialize peers w ≡ retry (initialize peers) sleep bootstrap_attempts w
unfolding bootstrap
bootstrap-eq-retry sleep initialize peers w sorted =
    ap (λ members. retry (initialize members) sleep bootstrap_attempts w)
      (ap collect (map-id peers) ∙ collect_sorted peers sorted)

-- A group is initialized with the peers of MQ_PEERS as its members: where some attempts fail, each
-- with its pause of 500 ms, and the next one succeeds, that one is the last if fewer than 20 failed,
-- and otherwise the node gives up. `peers` is in the order of a BTreeMap.
pub bootstrap-Fails :
    {W E A : Type 0} (sleep : ℕ → W → W) (initialize : BTreeMap Text → W → Outcome E A × W)
    (peers : BTreeMap Text) {n : ℕ} {w v : W} (a : A)
    → IsSorted peers
    → Fails (initialize peers) sleep n w v
    → (initialize peers v).0 ≡ ok a
    → ((n < 20) × (bootstrap sleep initialize peers w ≡ (succeeded, (initialize peers v).1)))
      ⊎ ((20 ≤ n) × ((bootstrap sleep initialize peers w).0 ≡ gave_up))
bootstrap-Fails sleep initialize peers {w = w} a sorted fails good =
    rw (bootstrap-eq-retry sleep initialize peers w sorted)
      (retry-Fails_success (initialize peers) sleep a bootstrap_attempts fails good)
