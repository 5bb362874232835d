-- ===== src/Demo/Producer.antt =====
-- src/demo/producer/src/main.rs: what it reads from its environment, and its loop as steps. The
-- argument `env` is `std::env::var`.
pub mod Counts
pub mod Rate
use blun_mq.Base.{
  ℕ, suc, ◌+◌, ◌/◌, ◌%◌, ◌<◌, ◌≡◌, Bool, true, List, [], ◌∷◌, ◌++◌, length, Option, get_or, Text,
  Bytes, text, ltb, nat_eq, ◌==◌, if◌then◌else◌, Outcome, ok, err, panic, ◌>>=◌,
}
use blun_mq.Raft.Types.{u64_mod}
use blun_mq.Host.Decimal.{decimal}
use blun_mq.Host.Peers.{ParseIntError, parse_u64}
use blun_mq.Host.Service.{Tonic}
use blun_mq.Demo.Throughput.{Throughput, silent, log}
use blun_mq.Client
use blun_mq.Client.{MqClient, Failure}

pub record Settings : Type 0 where
  pub addr : Text
  pub queue : Text
  pub rate : ℕ
  pub concurrency : ℕ

-- A `usize` has 64 bits.
unfoldable pub settings : (Text → Option Text) → Outcome ParseIntError Settings
unfolding parse_u64
settings env = do
  let addr = get_or (env (text "MQ_NODE_ADDR")) (text "http://127.0.0.1:5002")
  let queue = get_or (env (text "MQ_QUEUE")) (text "spam")
  rate ← parse_u64 (get_or (env (text "MQ_RATE")) (text "1000"))
  concurrency ← parse_u64 (get_or (env (text "MQ_PRODUCER_CONCURRENCY")) (text "200"))
  ok (record { addr = addr; queue = queue; rate = rate; concurrency = concurrency })

-- `rate.max(1)`
unfoldable pub per_second : ℕ → ℕ
per_second rate = if ltb rate 1 then 1 else rate

-- The nanoseconds between two ticks. `interval` panics at a period of 0.
unfoldable pub period : ℕ → Outcome ParseIntError ℕ
unfolding per_second
period rate = let nanos = 1_000_000_000 / per_second rate in if nanos == 0 then panic else ok nanos

unfoldable pub payload : ℕ → Bytes
unfolding decimal
payload counter = text "spam message #" ++ decimal counter

-- The loop waits for a tick, or for a permit for the message of the tick.
pub data Loop : Type 0 where
  ticking : Loop
  acquiring : Loop

-- The tasks that publish, by their counters; each has a permit.
pub record Producer : Type 0 where
  pub stage : Loop
  pub counter : ℕ
  pub in_flight : List ℕ
  pub sent : ℕ
  pub failed : ℕ
  pub throughput : Throughput

abbrev pub starting : Producer
starting = record {
  stage = ticking;
  counter = 0;
  in_flight = [];
  sent = 0;
  failed = 0;
  throughput = silent;
}

-- `fetch_add(1)`, which wraps.
abbrev pub increment : ℕ → ℕ
increment n = (n + 1) % u64_mod

module _ {W : Type 0} (t : Tonic W) (client : MqClient t) (queue : Text) (concurrency : ℕ) where
  unfoldable pub settle : Outcome (Failure t) ℕ → Producer → Producer
  settle (ok offset) p = record p { sent = increment p.sent }
  settle (err e) p = record p { failed = increment p.failed }
  settle panic p = p

  -- The end of a task: its publish, then its permit.
  unfoldable pub finish : ℕ → List ℕ → Producer → W → Producer × W
  unfolding settle payload Client.publish
  finish n rest p w =
      let (result, w') = Client.publish t client queue (payload n) w in
      (settle result (record p { in_flight = rest }), w')

  -- A tick, a permit for its message, a task's end, and a tick of the logging, in any order that the
  -- permits allow.
  pub data Step : Producer × W → Producer × W → Type 0 where
    ticks :
        (p : Producer) (w : W)
        → p.stage ≡ ticking
        → Step (p, w) (record p { stage = acquiring; counter = increment p.counter }, w)
    acquires :
        (p : Producer) (w : W)
        → p.stage ≡ acquiring
        → length p.in_flight < concurrency
        → Step (p, w) (record p { stage = ticking; in_flight = p.counter ∷ p.in_flight }, w)
    finishes :
        (p : Producer) (w : W) (before : List ℕ) (n : ℕ) (after : List ℕ)
        → p.in_flight ≡ before ++ n ∷ after
        → Step (p, w) (finish n (before ++ after) p w)
    logs :
        (p : Producer) (w : W) → Step (p, w) (record p { throughput = log p.sent p.throughput }, w)

  pub data Steps : Producer × W → Producer × W → Type 0 where
    done : (a : Producer × W) → Steps a a
    next : {a b c : Producer × W} → Step a b → Steps b c → Steps a c
