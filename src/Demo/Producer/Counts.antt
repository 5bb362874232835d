-- ===== src/Demo/Producer/Counts.antt =====
-- src/demo/producer/src/main.rs: the producer's counters against what it publishes.
use blun_mq.Base.{
  sum, sum-append, sum-middle, length-middle, ℕ, zero, suc, ◌+◌, ◌%◌, ◌<◌, ◌≤◌, ◌≡◌, refl, ap, List,
  [], ◌∷◌, ◌++◌, length, Text, Bytes, arith, nat_eq,
}
use blun_mq.Raft.Types.{u64_mod}
use blun_mq.Raft.Queue.{Message}
use blun_mq.Raft.Queue.View.{view}
use blun_mq.Host.Service.{Tonic, MqServiceImpl}
use blun_mq.Host.Service.Leading.{IsLeading, waiting}
use blun_mq.Demo.Throughput.{IsExact, log-IsExact, IsExact-more}
use blun_mq.Client.{MqClient}
use blun_mq.Client.Served.{IsServed, publish-IsServed}
use blun_mq.Demo.Producer.{
  payload, Loop, ticking, acquiring, Producer, starting, increment, settle, finish, Step, ticks,
  acquires, finishes, logs, Steps, done, next,
}

-- The weights of the first messages, numbered from 1.
abbrev numbered : (ℕ → ℕ) → ℕ → ℕ
numbered f zero = 0
numbered f (suc n) = numbered f n + f (suc n % u64_mod)

abbrev waits : Loop → ℕ
waits ticking = 0
waits acquiring = 1

-- The weight of the message that the loop has a tick for.
abbrev weight : (ℕ → ℕ) → Loop → ℕ → ℕ
weight f ticking n = 0
weight f acquiring n = f n

module _ {W : Type 0} (node : MqServiceImpl W) (queue : Text) (concurrency : ℕ) where
  -- The counters' true values, before they wrap, and the messages that the queue has got.
  pub record Accounts (w : W) (p : Producer) (v : W) : Type 0 where
    pub ticked : ℕ
    pub finished : ℕ
    pub counter : p.counter ≡ ticked % u64_mod
    pub sent : p.sent ≡ finished % u64_mod
    pub failed : p.failed ≡ 0
    pub permits : length p.in_flight ≤ concurrency
    pub tasks : finished + length p.in_flight + waits p.stage ≡ ticked
    pub logged : finished < u64_mod → IsExact p.sent p.throughput
    pub published :
        (f : Bytes → ℕ)
        → sum (λ (m : Message). f m.1) (waiting node queue v)
            + sum (λ n. f (payload n)) p.in_flight
            + weight (λ n. f (payload n)) p.stage p.counter
          ≡ sum (λ (m : Message). f m.1) (waiting node queue w)
            + numbered (λ n. f (payload n)) ticked

module _ {W : Type 0} (node : MqServiceImpl W) (leads : IsLeading node) (tonic : Tonic W)
    (channels : List (ℕ × node.tonic.Channel)) (client : MqClient tonic)
    (served : IsServed node leads tonic channels client) (queue : Text) (concurrency : ℕ) where
  Step-Accounts :
      (w : W) {a b : Producer × W}
      → Step tonic client queue concurrency a b
      → Accounts node queue concurrency w a.0 a.1
      → Accounts node queue concurrency w b.0 b.1
  unfolding finish settle
  Step-Accounts w (ticks p v stage) h = record {
    ticked = suc h.ticked;
    finished = h.finished;
    counter = omega (arith, h.counter);
    sent = h.sent;
    failed = h.failed;
    permits = h.permits;
    tasks = omega (arith, h.tasks, ap waits stage);
    logged = h.logged;
    published = λ f.
        let c : increment p.counter ≡ suc h.ticked % u64_mod = omega (arith, h.counter) in
        omega (arith, rw stage at (h.published f), ap (λ n. f (payload n)) c);
  }
  Step-Accounts w (acquires p v stage free) h = record {
    ticked = h.ticked;
    finished = h.finished;
    counter = h.counter;
    sent = h.sent;
    failed = h.failed;
    permits = omega (arith, free);
    tasks = omega (arith, h.tasks, ap waits stage);
    logged = h.logged;
    published = λ f. omega (arith, rw stage at (h.published f));
  }
  Step-Accounts w (finishes p v before n after now) h =
      let offset = (view (node.locked_state v) queue).next in
      let (answer, stands) =
        publish-IsServed node leads tonic channels client queue (payload n) v served in
      let leaves : length (before ++ n ∷ after) ≡ suc (length (before ++ after)) =
        length-middle before n after in
      rw answer (record {
        ticked = h.ticked;
        finished = suc h.finished;
        counter = h.counter;
        sent = omega (arith, h.sent);
        failed = h.failed;
        permits = omega (arith, h.permits, ap length now, leaves);
        tasks = omega (arith, h.tasks, ap length now, leaves);
        logged = λ fits.
            IsExact-more p.sent (increment p.sent) p.throughput (omega (arith, h.sent))
              (h.logged (omega arith));
        published = λ f.
            let stood = ap (sum (λ (m : Message). f m.1)) stands in
            omega (
              arith,
              h.published f,
              stood,
              sum-append (λ (m : Message). f m.1) (waiting node queue v) ((offset, payload n) ∷ []),
              ap (sum (λ n. f (payload n))) now,
              sum-middle (λ n. f (payload n)) before n after,
            );
      })
  Step-Accounts w (logs p v) h = record {
    ticked = h.ticked;
    finished = h.finished;
    counter = h.counter;
    sent = h.sent;
    failed = h.failed;
    permits = h.permits;
    tasks = h.tasks;
    logged = λ fits. log-IsExact p.sent p.throughput (omega (arith, h.sent)) (h.logged fits);
    published = h.published;
  }

  Steps-Accounts :
      (w : W) {a b : Producer × W}
      → Steps tonic client queue concurrency a b
      → Accounts node queue concurrency w a.0 a.1
      → Accounts node queue concurrency w b.0 b.1
  Steps-Accounts w (done a) h = h
  Steps-Accounts w (next step steps) h = Steps-Accounts w steps (Step-Accounts w step h)

-- A producer whose client's channel ends at a node that leads, whatever the order of its ticks and of
-- its tasks' ends, up to where its counters wrap: it counts no failure, no more tasks are in flight
-- than it has permits, and what it published is in the queue; and until 2^64 messages are sent, the
-- numbers that are logged add up to the total that was logged last. The messages that the queue has got,
-- those of the tasks in flight and the one that waits for a permit are those numbered from 1 to the
-- ticks, each as often.
pub producer-Accounts :
    {W : Type 0} (node : MqServiceImpl W) (leads : IsLeading node) (tonic : Tonic W)
    (channels : List (ℕ × node.tonic.Channel)) (client : MqClient tonic)
    → (served : IsServed node leads tonic channels client)
    → (queue : Text) (concurrency : ℕ) (w : W) {p : Producer} {v : W}
    → Steps tonic client queue concurrency (starting, w) (p, v)
    → Accounts node queue concurrency w p v
producer-Accounts node leads tonic channels client served queue concurrency w steps =
    Steps-Accounts node leads tonic channels client served queue concurrency w steps (record {
      ticked = 0;
      finished = 0;
      counter = refl;
      sent = refl;
      failed = refl;
      permits = omega arith;
      tasks = refl;
      logged = λ fits. record { total = refl; behind = omega arith };
      published = λ f. omega arith;
    })
