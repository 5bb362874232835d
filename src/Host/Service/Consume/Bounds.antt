-- ===== src/Host/Service/Consume/Bounds.antt =====
-- src/Blun.Mq.Host/src/grpc.rs, `consume`: how many messages a stream holds.
use blun_mq.Base.{
  sum_one, ℕ, zero, suc, ◌+◌, ◌≤◌, ◌≡◌, inl, inr, refl, ap, ◌∙◌, List, [], ◌∷◌, ◌++◌, none, some,
  length, length-append, length-map, Bool-cases, arith, Text,
}
use blun_mq.Proto.{ConsumeResponse}
use blun_mq.Raft.Queue.{Message}
use blun_mq.Host.Service.{MqServiceImpl}
use blun_mq.Host.Service.Leading.{IsLeading, waiting}
use blun_mq.Host.Service.Consume.{
  pop_concurrency, capacity, popped, Outbound, Host, send, hand_over,
}
use blun_mq.Host.Service.Consume.Fleet.{
  Worker, idle, holding, ended, carried, as_messages, Fleet, Admits, Step, fetches, sends,
  publishes, takes, disconnects, Steps, done, next, replicate, start,
}
use blun_mq.Host.Service.Consume.Delivery.{as_messages-append, consume_conserves}

-- A worker has one message at most.
carried-le : (workers : List Worker) → length (carried workers) ≤ length workers
carried-le [] = omega arith
carried-le (idle ∷ workers) = omega (arith, carried-le workers)
carried-le (holding m ∷ workers) = omega (arith, carried-le workers)
carried-le (ended none ∷ workers) = omega (arith, carried-le workers)
carried-le (ended (some m) ∷ workers) = omega (arith, carried-le workers)

length-replicate : (n : ℕ) → length (replicate n) ≡ n
length-replicate zero = refl
length-replicate (suc n) = ap suc (length-replicate n)

replaced-length :
    (before : List Worker) (old new : Worker) (after : List Worker)
    → length (before ++ new ∷ after) ≡ length (before ++ old ∷ after)
replaced-length [] old new after = refl
replaced-length (first ∷ before) old new after = ap suc (replaced-length before old new after)

hand_over-buffered :
    (m : Message) (out : Outbound)
    → Admits out
    → length out.buffered ≤ capacity
    → length (hand_over (popped (some m)) out).1.buffered ≤ capacity
unfolding hand_over send
hand_over-buffered m out room h = elim (Bool-cases out.disconnected) [
  | inl gone ↦ rw gone h
  | inr here ↦ elim room [
    | inl gone ↦ cc
    | inr lt ↦
        rw here
          (omega (arith, length-append out.buffered (record { offset = m.0; payload = m.1 } ∷ [])))
  ]
]

module _ {W : Type 0} (node : MqServiceImpl W) (queue : Text) where
  record IsBounded (a : Fleet node queue) : Type 0 where
    workers : length a.workers ≡ pop_concurrency
    buffered : length a.out.buffered ≤ capacity

  Step-IsBounded :
      {ms : List Message} {a b : Fleet node queue}
      → Step node queue ms a b
      → IsBounded a
      → IsBounded b
  Step-IsBounded (fetches s before after out) h = record {
    workers = replaced-length before idle _ after ∙ h.workers;
    buffered = h.buffered;
  }
  Step-IsBounded (sends s before m after out room) h = record {
    workers = replaced-length before (holding m) _ after ∙ h.workers;
    buffered = hand_over-buffered m out room h.buffered;
  }
  Step-IsBounded (publishes s workers out name payload) h = record {
    workers = h.workers;
    buffered = h.buffered;
  }
  Step-IsBounded (takes s workers r rest taken) h = record {
    workers = h.workers;
    buffered = omega (arith, h.buffered);
  }
  Step-IsBounded (disconnects s workers out) h = record {
    workers = h.workers;
    buffered = h.buffered;
  }

  Steps-IsBounded :
      {ms : List Message} {a b : Fleet node queue}
      → Steps node queue ms a b
      → IsBounded a
      → IsBounded b
  Steps-IsBounded (done a) h = h
  Steps-IsBounded (next step steps) h = Steps-IsBounded steps (Step-IsBounded step h)

  -- All workers that a stream started are there, running or ended.
  pub length-workers :
      (s : Host node) {ms : List Message} {a : Fleet node queue}
      → Steps node queue ms (start node queue s) a
      → length a.workers ≡ pop_concurrency
  length-workers s steps =
      (Steps-IsBounded steps
        (record { workers = length-replicate pop_concurrency; buffered = omega arith })).workers

  in_flight :
      (s : Host node) {ms : List Message} {a : Fleet node queue}
      → Steps node queue ms (start node queue s) a
      → length (carried a.workers) + length a.out.buffered ≤ 160
  in_flight s {a = a} steps =
      let h =
        Steps-IsBounded steps
          (record { workers = length-replicate pop_concurrency; buffered = omega arith }) in
      omega (arith, h.workers, h.buffered, carried-le a.workers)

-- On a node that leads, whatever the order of the steps, all messages that were in the queue or were
-- accepted since, but for 160 at most, are in the queue or were taken out of the channel to be sent:
-- 32 are with the workers at most, and 128 in the channel. What is on the way to the client from
-- there is not counted.
pub stream_holds :
    {W : Type 0} (node : MqServiceImpl W)
    → IsLeading node
    → (queue : Text) (s : Host node) {ms : List Message} {a : Fleet node queue}
    → Steps node queue ms (start node queue s) a
    → length (waiting node queue s.world) + length ms
      ≤ length (waiting node queue a.host.world) + length a.out.taken + 160
stream_holds node leads queue s {ms = ms} {a = a} steps =
    let as_message : ConsumeResponse → Message = λ r. (r.offset, r.payload) in
    omega (
      arith,
      consume_conserves node leads queue (λ m. 1) s steps,
      as_messages-append (λ m. 1) a.out.taken a.out.buffered,
      sum_one (waiting node queue s.world),
      sum_one (waiting node queue a.host.world),
      sum_one ms,
      sum_one (carried a.workers),
      sum_one (as_messages a.out.taken),
      sum_one (as_messages a.out.buffered),
      length-map as_message a.out.taken,
      length-map as_message a.out.buffered,
      in_flight node queue s steps,
    )
