-- ===== src/Bench/Published.antt =====
-- src/demo/bench/src/main.rs: what the probe's tasks publish, on a node that leads.
use blun_mq.Base.{
  ℕ, ◌+◌, ◌*◌, ◌/◌, ◌%◌, ◌<◌, ◌≡◌, refl, ap, List, [], ◌∷◌, ◌++◌, map, length, sum, sum-append,
  sum-middle, Every, Every-middle, Every-replace, Text, Bytes, ok, arith, subst, sym,
}
use native.Mathlib.Nat.{div-add-mod'}
use blun_mq.Bench.Count.{bench-ok, length-all}
use blun_mq.Raft.Queue.{Message}
use blun_mq.Raft.Queue.View.{view}
use blun_mq.Host.Service.{Tonic, MqServiceImpl}
use blun_mq.Host.Service.Leading.{IsLeading, waiting}
use blun_mq.Client
use blun_mq.Client.{MqClient}
use blun_mq.Client.Served.{IsServed, publish-IsServed}
use blun_mq.Bench.{
  payload, range, task, tasks, bench, Task, publishing, panicked, spawned, after_connect,
  after_publish, Step, connects, publishes, Steps, done, next,
}
use blun_mq.Bench

module _ {W : Type 0} (t : Tonic W) (n : ℕ) where
  -- What a task has yet to publish.
  abbrev pub remaining : Task t → List (ℕ × ℕ)
  remaining (Bench.waiting task_id) = task n task_id
  remaining (publishing client task_id is) = map (λ i. (task_id, i)) is
  remaining panicked = []

  -- A task that has not panicked, and whose connection is that of `client`.
  abbrev pub IsRunning : MqClient t → Task t → Type 0
  IsRunning client (Bench.waiting task_id) = Unit
  IsRunning client (publishing other task_id is) = other ≡ client
  IsRunning client panicked = ⊥

  -- The weight of what the tasks have yet to publish.
  abbrev pub weight : (ℕ × ℕ → ℕ) → List (Task t) → ℕ
  weight f = sum (λ (x : Task t). sum f (remaining x))

  weight-spawned : (f : ℕ × ℕ → ℕ) (ids : List ℕ) → weight f (spawned t ids) ≡ sum f (tasks n ids)
  weight-spawned f [] = refl
  weight-spawned f (task_id ∷ ids) =
      omega (arith, weight-spawned f ids, sum-append f (task n task_id) (tasks n ids))

  weight-ended :
      (f : ℕ × ℕ → ℕ) (ts : List (Task t)) → Every (λ x. remaining x ≡ []) ts → weight f ts ≡ 0
  weight-ended f [] h = refl
  weight-ended f (x ∷ ts) (ended, rest) = omega (arith, ap (sum f) ended, weight-ended f ts rest)

  spawned-IsRunning :
      (client : MqClient t) (ids : List ℕ) → Every (IsRunning client) (spawned t ids)
  spawned-IsRunning client [] = tt
  spawned-IsRunning client (task_id ∷ ids) = (tt, spawned-IsRunning client ids)

module _ {W : Type 0} (node : MqServiceImpl W) (leads : IsLeading node) (tonic : Tonic W)
    (channels : List (ℕ × node.tonic.Channel)) (client : MqClient tonic)
    (served : IsServed node leads tonic channels client) (addr queue : Text)
    (connection : Client.connect tonic addr ≡ ok client) (n : ℕ) where
  -- What the queue has got, and what the tasks have yet to publish.
  record Balanced (w : W) (ids : List ℕ) (ts : List (Task tonic)) (v : W) : Type 0 where
    running : Every (IsRunning tonic n client) ts
    balance :
        (g : Bytes → ℕ)
        → sum (λ (m : Message). g m.1) (waiting node queue v)
            + weight tonic n (λ k. g (payload k.0 k.1)) ts
          ≡ sum (λ (m : Message). g m.1) (waiting node queue w)
            + sum (λ (k : ℕ × ℕ). g (payload k.0 k.1)) (tasks n ids)

  published-Balanced :
      (w : W) (ids : List ℕ) (before : List (Task tonic)) (task_id i : ℕ) (is : List ℕ)
      (after : List (Task tonic)) (v : W)
      → Balanced w ids (before ++ publishing client task_id (i ∷ is) ∷ after) v
      → Balanced w ids
          (before
            ++ after_publish tonic client task_id is
                (Client.publish tonic client queue (payload task_id i) v).0
              ∷ after)
          (Client.publish tonic client queue (payload task_id i) v).1
  unfolding after_publish
  published-Balanced w ids before task_id i is after v h =
      let offset = (view (node.locked_state v) queue).next in
      let (answer, stands) =
        publish-IsServed node leads tonic channels client queue (payload task_id i) v served in
      let old = publishing client task_id (i ∷ is) in
      let new = publishing client task_id is in
      rw answer (record {
        running = Every-replace (IsRunning tonic n client) before old new after refl h.running;
        balance = λ g.
            let f =
              λ (x : Task tonic). sum (λ (k : ℕ × ℕ). g (payload k.0 k.1)) (remaining tonic n x) in
            omega (
              arith,
              h.balance g,
              ap (sum (λ (m : Message). g m.1)) stands,
              sum-append (λ (m : Message). g m.1) (waiting node queue v)
                  ((offset, payload task_id i) ∷ []),
              sum-middle f before old after,
              sum-middle f before new after,
            );
      })

  Step-Balanced :
      (w : W) (ids : List ℕ) {a b : List (Task tonic) × W}
      → Step tonic addr queue n a b
      → Balanced w ids a.0 a.1
      → Balanced w ids b.0 b.1
  unfolding after_connect
  Step-Balanced w ids (connects before task_id after v) h = rw connection (record {
    running =
        Every-replace (IsRunning tonic n client) before (Bench.waiting task_id)
          (publishing client task_id (range 0 n)) after refl h.running;
    balance = λ g.
        let f =
          λ (x : Task tonic). sum (λ (k : ℕ × ℕ). g (payload k.0 k.1)) (remaining tonic n x) in
        omega (
          arith,
          h.balance g,
          sum-middle f before (Bench.waiting task_id) after,
          sum-middle f before (publishing client task_id (range 0 n)) after,
        );
  })
  Step-Balanced w ids (publishes before other task_id i is after v) h =
      let same : other ≡ client =
        Every-middle (IsRunning tonic n client) before (publishing other task_id (i ∷ is)) after
          h.running in
      subst
        (λ (c : MqClient tonic).
          Balanced w ids (before ++ publishing c task_id (i ∷ is) ∷ after) v
          → Balanced w ids
              (before
                ++ after_publish tonic c task_id is
                    (Client.publish tonic c queue (payload task_id i) v).0
                  ∷ after)
              (Client.publish tonic c queue (payload task_id i) v).1)
        (sym same) (published-Balanced w ids before task_id i is after v) h

  Steps-Balanced :
      (w : W) (ids : List ℕ) {a b : List (Task tonic) × W}
      → Steps tonic addr queue n a b
      → Balanced w ids a.0 a.1
      → Balanced w ids b.0 b.1
  Steps-Balanced w ids (done a) h = h
  Steps-Balanced w ids (next step steps) h = Steps-Balanced w ids steps (Step-Balanced w ids step h)

-- The probe on a node that leads, with some concurrency, its connections made over one channel: in
-- whatever order its tasks connect and publish, none panics, and when they have nothing left to
-- publish, the queue has got the payloads of all tasks, each as often as there are such messages, and
-- their number is what the probe reports. That is MQ_COUNT but for the rest that the division by the
-- concurrency leaves.
pub bench-Published :
    {W : Type 0} (node : MqServiceImpl W) (leads : IsLeading node) (tonic : Tonic W)
    (channels : List (ℕ × node.tonic.Channel)) (client : MqClient tonic)
    (served : IsServed node leads tonic channels client) (addr queue : Text)
    → Client.connect tonic addr ≡ ok client
    → (count concurrency : ℕ) (w : W) (ts : List (Task tonic)) (v : W) → 0 < concurrency
    → Steps tonic addr queue (count / concurrency) (spawned tonic (range 0 concurrency), w) (ts, v)
    → (messages : List (ℕ × ℕ)) × (sent : ℕ) × (bench count concurrency ≡ ok (messages, sent))
      × (length messages ≡ sent)
      × (sent + count % concurrency ≡ count)
      × Every (IsRunning tonic (count / concurrency) client) ts
      × (Every (λ x. remaining tonic (count / concurrency) x ≡ []) ts
          → (g : Bytes → ℕ)
          → sum (λ (m : Message). g m.1) (waiting node queue v)
            ≡ sum (λ (m : Message). g m.1) (waiting node queue w)
              + sum (λ (k : ℕ × ℕ). g (payload k.0 k.1)) messages)
bench-Published node leads tonic channels client served addr queue connection count concurrency w ts
      v positive steps =
    let n = count / concurrency in
    let h =
      Steps-Balanced node leads tonic channels client served addr queue connection n w
        (range 0 concurrency) steps
        (record {
          running = spawned-IsRunning tonic n client (range 0 concurrency);
          balance = λ g.
              omega
                (arith, weight-spawned tonic n (λ k. g (payload k.0 k.1)) (range 0 concurrency));
        }) in
    (
      tasks n (range 0 concurrency),
      n * concurrency,
      bench-ok count concurrency positive,
      length-all n concurrency,
      div-add-mod' count concurrency,
      h.running,
      λ ended g.
          omega (arith, h.balance g, weight-ended tonic n (λ k. g (payload k.0 k.1)) ts ended),
    )
