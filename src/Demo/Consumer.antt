-- ===== src/Demo/Consumer.antt =====
-- src/demo/consumer/src/main.rs: what it reads from its environment, and its workers and its logging as
-- steps. The argument `env` is `std::env::var`.
pub mod Counts
use blun_mq.Base.{
  ℕ, zero, suc, ◌+◌, ◌%◌, ◌≡◌, true, List, [], ◌∷◌, ◌++◌, Option, get_or, Text, text, Outcome, ok,
  err, panic, ◌>>=◌,
}
use blun_mq.Proto.{ConsumeResponse, Status}
use blun_mq.Raft.Types.{u64_mod}
use blun_mq.Raft.Queue.{Message}
use blun_mq.Host.Peers.{ParseIntError, parse_u64}
use blun_mq.Host.Service.{Tonic}
use blun_mq.Demo.Throughput.{Throughput, silent, log}
use blun_mq.Client
use blun_mq.Client.{MqClient, Failure}

pub record Settings : Type 0 where
  pub addr : Text
  pub queue : Text
  pub concurrency : ℕ

-- A `usize` has 64 bits.
unfoldable pub settings : (Text → Option Text) → Outcome ParseIntError Settings
unfolding parse_u64
settings env = do
  let addr = get_or (env (text "MQ_NODE_ADDR")) (text "http://127.0.0.1:5001")
  let queue = get_or (env (text "MQ_QUEUE")) (text "spam")
  concurrency ← parse_u64 (get_or (env (text "MQ_CONSUMER_CONCURRENCY")) (text "8"))
  ok (record { addr = addr; queue = queue; concurrency = concurrency })

-- A worker before its connection, in the loop over a stream with the messages that it still yields,
-- asleep before it connects again, or ended by a panic.
pub data Worker : Type 0 where
  connecting : Worker
  receiving : List Message → Worker
  sleeping : Worker
  ended : Worker

pub record Consumer : Type 0 where
  pub workers : List Worker
  pub received : ℕ
  pub throughput : Throughput

-- `for worker_id in 0..concurrency`
abbrev pub spawned : ℕ → List Worker
spawned zero = []
spawned (suc n) = connecting ∷ spawned n

abbrev pub starting : ℕ → Consumer
starting concurrency = record { workers = spawned concurrency; received = 0; throughput = silent }

module _ {W : Type 0} (t : Tonic W) (items : t.Inbound → List (Outcome Status ConsumeResponse))
    (addr queue : Text) where
  connected : Outcome (Failure t) (MqClient t) → W → Outcome (Failure t) (List Message) × W
  unfolding Client.consume
  connected (ok client) w = Client.consume t items client queue w
  connected (err e) w = (err e, w)
  connected panic w = (panic, w)

  -- `run` up to its stream.
  unfoldable pub open_stream : W → Outcome (Failure t) (List Message) × W
  unfolding Client.connect connected
  open_stream w = connected (Client.connect t addr) w

-- An error is logged, and the worker sleeps as after an end.
unfoldable pub after_open : {F : Type 0} → Outcome F (List Message) → Worker
after_open (ok ms) = receiving ms
after_open (err e) = sleeping
after_open panic = ended

-- `received.fetch_add(1)`, which wraps.
unfoldable pub receive : Consumer → List Worker → Consumer
receive c workers = record c { workers = workers; received = (c.received + 1) % u64_mod }

abbrev pub yielded : {F : Type 0} → Outcome F (List Message) → List Message
yielded (ok ms) = ms
yielded (err e) = []
yielded panic = []

module _ {W : Type 0} (t : Tonic W) (items : t.Inbound → List (Outcome Status ConsumeResponse))
    (addr queue : Text) where
  -- The steps come in any order, with the messages of the streams that are opened.
  pub data Step : List Message → Consumer × W → Consumer × W → Type 0 where
    opens :
        (c : Consumer) (w : W) (before after : List Worker)
        → c.workers ≡ before ++ connecting ∷ after
        → Step
            (yielded (open_stream t items addr queue w).0)
            (c, w)
            (
              record c {
                workers = before ++ after_open (open_stream t items addr queue w).0 ∷ after;
              },
              (open_stream t items addr queue w).1,
            )
    receives :
        (c : Consumer) (w : W) (before : List Worker) (m : Message) (ms : List Message)
        (after : List Worker)
        → c.workers ≡ before ++ receiving (m ∷ ms) ∷ after
        → Step [] (c, w) (receive c (before ++ receiving ms ∷ after), w)
    ends :
        (c : Consumer) (w : W) (before after : List Worker)
        → c.workers ≡ before ++ receiving [] ∷ after
        → Step [] (c, w) (record c { workers = before ++ sleeping ∷ after }, w)
    wakes :
        (sleep : W → W) (c : Consumer) (w : W) (before after : List Worker)
        → c.workers ≡ before ++ sleeping ∷ after
        → Step [] (c, w) (record c { workers = before ++ connecting ∷ after }, sleep w)
    logs :
        (c : Consumer) (w : W)
        → Step [] (c, w) (record c { throughput = log c.received c.throughput }, w)

  pub data Steps : List Message → Consumer × W → Consumer × W → Type 0 where
    done : (a : Consumer × W) → Steps [] a a
    next :
        {ms ns : List Message} {a b c : Consumer × W}
        → Step ms a b
        → Steps ns b c
        → Steps (ms ++ ns) a c
