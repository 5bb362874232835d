-- ===== src/Bench/Count.antt =====
-- src/demo/bench/src/main.rs: the probe's number of messages.
use blun_mq.Base.{
  ℕ, zero, suc, ◌+◌, ◌*◌, ◌/◌, ◌<◌, ◌≡◌, ◌∙◌, refl, ap, List, [], ◌∷◌, length, length-append,
  length-map, nat_eq, ok, arith,
}
use blun_mq.Bench.{per_task, range, task, tasks, bench}

length-range : (start n : ℕ) → length (range start n) ≡ n
length-range start zero = refl
length-range start (suc n) = ap suc (length-range (start + 1) n)

length-task : (n task_id : ℕ) → length (task n task_id) ≡ n
length-task n task_id = length-map (λ i. (task_id, i)) (range 0 n) ∙ length-range 0 n

length-tasks : (n : ℕ) (ids : List ℕ) → length (tasks n ids) ≡ n * length ids
length-tasks n [] = omega arith
length-tasks n (task_id ∷ ids) =
    omega (
      arith,
      length-append (task n task_id) (tasks n ids),
      length-task n task_id,
      length-tasks n ids,
    )

per_task-ok :
    (count concurrency : ℕ)
    → 0 < concurrency
    → per_task count concurrency ≡ ok (count / concurrency)
unfolding per_task nat_eq
per_task-ok count concurrency h = ground arith

pub bench-ok :
    (count concurrency : ℕ)
    → 0 < concurrency
    → let n = count / concurrency in
      bench count concurrency ≡ ok (tasks n (range 0 concurrency), n * concurrency)
unfolding bench
bench-ok count concurrency h = rw (per_task-ok count concurrency h) refl

-- All tasks together have as many messages as are reported.
pub length-all : (n concurrency : ℕ) → length (tasks n (range 0 concurrency)) ≡ n * concurrency
length-all n concurrency =
    length-tasks n (range 0 concurrency) ∙ ap (λ k. n * k) (length-range 0 concurrency)
