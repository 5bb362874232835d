-- ===== src/Demo/Consumer/Counts.antt =====
-- src/demo/consumer/src/main.rs: the consumer's counter against what its streams yield.
use blun_mq.Base.{
  ℕ, zero, suc, ◌+◌, ◌%◌, ◌<◌, ◌≡◌, refl, ap, List, [], ◌∷◌, ◌++◌, length, length-append,
  length-middle, sum, sum-middle, Text, Outcome, ok, err, panic, arith, subst,
}
use blun_mq.Proto.{ConsumeResponse, Status}
use blun_mq.Raft.Types.{u64_mod}
use blun_mq.Raft.Queue.{Message}
use blun_mq.Host.Service.{Tonic}
use blun_mq.Demo.Throughput.{IsExact, log-IsExact, IsExact-more}
use blun_mq.Demo.Consumer.{
  Worker, connecting, receiving, sleeping, ended, Consumer, spawned, starting, open_stream,
  after_open, yielded, receive, Step, opens, receives, ends, wakes, logs, Steps, done, next,
}

-- How many messages a worker's stream still yields.
abbrev pub left : Worker → ℕ
left connecting = 0
left (receiving ms) = length ms
left sleeping = 0
left ended = 0

-- The counter's true value, before it wraps, where so many messages were yielded.
pub record Counts (concurrency total : ℕ) (c : Consumer) : Type 0 where
  pub count : ℕ
  pub received : c.received ≡ count % u64_mod
  pub accounts : count + sum left c.workers ≡ total
  pub workers : length c.workers ≡ concurrency
  pub logged : count < u64_mod → IsExact c.received c.throughput

left-opened : {F : Type 0} (o : Outcome F (List Message)) → left (after_open o) ≡ length (yielded o)
unfolding after_open
left-opened (ok ms) = refl
left-opened (err e) = refl
left-opened panic = refl

left-spawned : (n : ℕ) → sum left (spawned n) ≡ 0
left-spawned zero = refl
left-spawned (suc n) = omega (arith, left-spawned n)

length-spawned : (n : ℕ) → length (spawned n) ≡ n
length-spawned zero = refl
length-spawned (suc n) = ap suc (length-spawned n)

-- One worker changes.
replaced :
    (concurrency total more : ℕ) (c : Consumer) (before : List Worker) (old new : Worker)
    (after : List Worker)
    → c.workers ≡ before ++ old ∷ after
    → left new ≡ left old + more
    → Counts concurrency total c
    → Counts concurrency (total + more) (record c { workers = before ++ new ∷ after })
replaced concurrency total more c before old new after here grows h = record {
  count = h.count;
  received = h.received;
  accounts = omega (
    arith,
    h.accounts,
    grows,
    ap (sum left) here,
    sum-middle left before old after,
    sum-middle left before new after,
  );
  workers = omega (
    arith,
    h.workers,
    ap length here,
    length-middle before old after,
    length-middle before new after,
  );
  logged = h.logged;
}

module _ {W : Type 0} (t : Tonic W) (items : t.Inbound → List (Outcome Status ConsumeResponse))
    (addr queue : Text) (concurrency : ℕ) where
  Step-Counts :
      (total : ℕ) {ms : List Message} {a b : Consumer × W}
      → Step t items addr queue ms a b
      → Counts concurrency total a.0
      → Counts concurrency (total + length ms) b.0
  unfolding receive
  Step-Counts total (opens c w before after here) h =
      let (result, w') = open_stream t items addr queue w in
      replaced concurrency total _ c before connecting (after_open result) after here
        (omega (arith, left-opened result)) h
  Step-Counts total (receives c w before m ms after here) h = record {
    count = h.count + 1;
    received = omega (arith, h.received);
    accounts = omega (
      arith,
      h.accounts,
      ap (sum left) here,
      sum-middle left before (receiving (m ∷ ms)) after,
      sum-middle left before (receiving ms) after,
    );
    workers = omega (
      arith,
      h.workers,
      ap length here,
      length-middle before (receiving (m ∷ ms)) after,
      length-middle before (receiving ms) after,
    );
    logged = λ fits.
        IsExact-more c.received ((c.received + 1) % u64_mod) c.throughput
          (omega (arith, h.received)) (h.logged (omega arith));
  }
  Step-Counts total (ends c w before after here) h =
      replaced concurrency total 0 c before (receiving []) sleeping after here (omega arith) h
  Step-Counts total (wakes sleep c w before after here) h =
      replaced concurrency total 0 c before sleeping connecting after here (omega arith) h
  Step-Counts total (logs c w) h = record {
    count = h.count;
    received = h.received;
    accounts = omega (arith, h.accounts);
    workers = h.workers;
    logged =
        λ fits. log-IsExact c.received c.throughput (omega (arith, h.received)) (h.logged fits);
  }

  Steps-Counts :
      (total : ℕ) {ms : List Message} {a b : Consumer × W}
      → Steps t items addr queue ms a b
      → Counts concurrency total a.0
      → Counts concurrency (total + length ms) b.0
  Steps-Counts total (done a) h = subst (λ n. Counts concurrency n a.0) (omega arith) h
  Steps-Counts total (next {ms = ms} {ns = ns} {c = c} step steps) h =
      subst (λ n. Counts concurrency n c.0) (omega (arith, length-append ms ns))
        (Steps-Counts (total + length ms) steps (Step-Counts total step h))

  -- Whatever the order in which its workers connect, receive, sleep and end and its throughput is
  -- logged: the messages that the consumer counted, up to where its counter wraps, and those that its
  -- open streams still yield are as many as all its streams yielded; it has as many workers as it was
  -- told; and until 2^64 messages are counted, the numbers that are logged add up to the total that
  -- was logged last.
  pub consumer-Counts :
      (w : W) {ms : List Message} {c : Consumer} {v : W}
      → Steps t items addr queue ms (starting concurrency, w) (c, v)
      → Counts concurrency (length ms) c
  consumer-Counts w {ms = ms} {c = c} steps =
      subst (λ n. Counts concurrency n c) (omega arith)
        (Steps-Counts 0 steps (record {
          count = 0;
          received = refl;
          accounts = omega (arith, left-spawned concurrency);
          workers = length-spawned concurrency;
          logged = λ fits. record { total = refl; behind = omega arith };
        }))
