-- ===== src/Bench.antt =====
-- src/demo/bench/src/main.rs: what the throughput probe reads from its environment, how many messages it
-- publishes, and which. The argument `env` is `std::env::var`.
pub mod Count
pub mod Published
use blun_mq.Base.{
  ℕ, zero, suc, ◌+◌, ◌*◌, ◌/◌, List, [], ◌∷◌, ◌++◌, map, Option, get_or, nat_eq, ◌==◌,
  if◌then◌else◌, Text, Bytes, text, Outcome, ok, err, panic, ◌>>=◌,
}
use blun_mq.Client
use blun_mq.Client.{MqClient, Failure}
use blun_mq.Host.Decimal.{decimal}
use blun_mq.Host.Peers.{ParseIntError, parse_u64}
use blun_mq.Host.Service.{Tonic}

pub record Settings : Type 0 where
  pub addr : Text
  pub queue : Text
  pub count : ℕ
  pub concurrency : ℕ

-- A `usize` has 64 bits.
unfoldable pub settings : (Text → Option Text) → Outcome ParseIntError Settings
unfolding parse_u64
settings env = do
  let addr = get_or (env (text "MQ_NODE_ADDR")) (text "http://127.0.0.1:5002")
  let queue = get_or (env (text "MQ_QUEUE")) (text "bench")
  count ← parse_u64 (get_or (env (text "MQ_COUNT")) (text "500"))
  concurrency ← parse_u64 (get_or (env (text "MQ_CONCURRENCY")) (text "1"))
  ok (record { addr = addr; queue = queue; count = count; concurrency = concurrency })

-- `count / concurrency` panics at 0.
unfoldable pub per_task : ℕ → ℕ → Outcome Text ℕ
per_task count concurrency = if concurrency == 0 then panic else ok (count / concurrency)

-- `start..start + n`
abbrev pub range : ℕ → ℕ → List ℕ
range start zero = []
range start (suc n) = start ∷ range (start + 1) n

-- The numbers of the task and of its message, which name the payload.
abbrev pub task : ℕ → ℕ → List (ℕ × ℕ)
task n task_id = map (λ i. (task_id, i)) (range 0 n)

abbrev pub tasks : ℕ → List ℕ → List (ℕ × ℕ)
tasks n [] = []
tasks n (task_id ∷ ids) = task n task_id ++ tasks n ids

-- What the tasks publish, one task after the other, and the number that is printed at the end.
unfoldable pub bench : ℕ → ℕ → Outcome Text (List (ℕ × ℕ) × ℕ)
unfolding per_task
bench count concurrency = do
  n ← per_task count concurrency
  ok (tasks n (range 0 concurrency), n * concurrency)

unfoldable pub payload : ℕ → ℕ → Bytes
unfolding decimal
payload task_id i = text "bench-" ++ (decimal task_id ++ (text "-" ++ decimal i))

module _ {W : Type 0} (t : Tonic W) where
  -- A spawned task before its connection, in its loop with the messages that it has yet to publish,
  -- and after a panic.
  pub data Task : Type 0 where
    waiting : ℕ → Task
    publishing : MqClient t → ℕ → List ℕ → Task
    panicked : Task

  -- `for task_id in 0..concurrency`
  abbrev pub spawned : List ℕ → List Task
  spawned [] = []
  spawned (task_id ∷ ids) = waiting task_id ∷ spawned ids

  -- `.expect("connect")`
  unfoldable pub after_connect : ℕ → ℕ → Outcome (Failure t) (MqClient t) → Task
  after_connect n task_id (ok client) = publishing client task_id (range 0 n)
  after_connect n task_id (err e) = panicked
  after_connect n task_id panic = panicked

  -- `.expect("publish")`
  unfoldable pub after_publish : MqClient t → ℕ → List ℕ → Outcome (Failure t) ℕ → Task
  after_publish client task_id is (ok offset) = publishing client task_id is
  after_publish client task_id is (err e) = panicked
  after_publish client task_id is panic = panicked

  -- The tasks connect and publish in any order, `n` messages each.
  pub data Step (addr queue : Text) (n : ℕ) : List Task × W → List Task × W → Type 0 where
    connects :
        (before : List Task) (task_id : ℕ) (after : List Task) (w : W)
        → Step addr queue n
            (before ++ waiting task_id ∷ after, w)
            (before ++ after_connect n task_id (Client.connect t addr) ∷ after, w)
    publishes :
        (before : List Task) (client : MqClient t) (task_id i : ℕ) (is : List ℕ) (after : List Task)
        (w : W)
        → Step addr queue n
            (before ++ publishing client task_id (i ∷ is) ∷ after, w)
            (
              before
                  ++ after_publish client task_id is
                      (Client.publish t client queue (payload task_id i) w).0
                    ∷ after,
              (Client.publish t client queue (payload task_id i) w).1,
            )

  pub data Steps (addr queue : Text) (n : ℕ) : List Task × W → List Task × W → Type 0 where
    done : (a : List Task × W) → Steps addr queue n a a
    next :
        {a b c : List Task × W}
        → Step addr queue n a b
        → Steps addr queue n b c
        → Steps addr queue n a c
