-- ===== src/Demo/Throughput.antt =====
-- The task of src/demo/producer/src/main.rs and src/demo/consumer/src/main.rs that logs the throughput once a
-- second.
use blun_mq.Base.{ℕ, ◌+◌, ◌-◌, ◌%◌, ◌≤◌, ◌<◌, ◌≡◌, List, [], ◌∷◌, ◌++◌, sum, sum-append, arith}
use blun_mq.Raft.Types.{u64_mod}

-- The total that was logged last, and the numbers of messages per second that were logged.
pub record Throughput : Type 0 where
  pub last : ℕ
  pub rates : List ℕ

abbrev pub silent : Throughput
silent = record { last = 0; rates = [] }

-- A tick, which reads the counter. `now - last` wraps.
unfoldable pub log : ℕ → Throughput → Throughput
log now t = record { last = now; rates = t.rates ++ ((now + (u64_mod - t.last)) % u64_mod) ∷ [] }

-- The rates are those of the messages counted so far.
pub record IsExact (counted : ℕ) (t : Throughput) : Type 0 where
  pub total : sum (λ n. n) t.rates ≡ t.last
  pub behind : t.last ≤ counted

pub log-IsExact :
    (now : ℕ) (t : Throughput) → now < u64_mod → IsExact now t → IsExact now (log now t)
unfolding log
log-IsExact now t fits h =
    let rate = (now + (u64_mod - t.last)) % u64_mod in
    let exact : rate ≡ now - t.last = omega (arith, h.behind, fits) in
    record {
      total = omega (arith, sum-append (λ n. n) t.rates (rate ∷ []), h.total, exact, h.behind);
      behind = omega arith;
    }

pub IsExact-more : (n k : ℕ) (t : Throughput) → n ≤ k → IsExact n t → IsExact k t
IsExact-more n k t le h = record { total = h.total; behind = omega (arith, h.behind, le) }
