-- ===== src/Host/Service/Consume/Delivery.antt =====
-- src/Blun.Mq.Host/src/grpc.rs, `consume` on the leader: where the messages of the queue are, whatever the
-- order of the steps.
use blun_mq.Base.{
  sum, sum-append, ℕ, ◌+◌, ◌≡◌, ◌∙◌, refl, ap, sym, Bool, true, false, List, [], ◌∷◌, ◌++◌,
  append-nil, Option, none, some, Text, Bytes, text_eq, ==-refl, zero, suc, arith,
}
use blun_mq.Proto.{ConsumeResponse}
use blun_mq.Raft.Types.{publish, pop}
use blun_mq.Raft.Queue.{Message, apply}
use blun_mq.Raft.Queue.Fifo.{pending, published_by, to_list, apply_conserves}
use blun_mq.Host.Service.{MqServiceImpl}
use blun_mq.Host.Service.Leading.{IsLeading, waiting}
use blun_mq.Host.Service.Consume.{
  popped, sent, pop_concurrency, Outbound, Host, fetch, send, hand_over,
}
use blun_mq.Host.Service.Consume.Fleet.{
  Worker, idle, holding, after_fetch, after_turn, carried_by, carried, as_messages, Fleet, Step,
  fetches, sends, publishes, takes, disconnects, Steps, done, next, total, replicate,
  fetch-IsLeading, start,
}

replace-carried :
    (f : Message → ℕ) (before : List Worker) (worker : Worker) (after : List Worker)
    → sum f (carried (before ++ worker ∷ after))
      ≡ sum f (carried_by worker) + sum f (carried (before ++ after))
replace-carried f [] worker after = sum-append f (carried_by worker) (carried after)
replace-carried f (first ∷ before) worker after = omega (
  arith,
  sum-append f (carried_by first) (carried (before ++ worker ∷ after)),
  sum-append f (carried_by first) (carried (before ++ after)),
  replace-carried f before worker after,
)

pub as_messages-append :
    (f : Message → ℕ) (xs ys : List ConsumeResponse)
    → sum f (as_messages (xs ++ ys)) ≡ sum f (as_messages xs) + sum f (as_messages ys)
as_messages-append f [] ys = omega arith
as_messages-append f (x ∷ xs) ys = omega (arith, as_messages-append f xs ys)

module _ (f : Message → ℕ) (out : Outbound) (m : Message) where
  sent_or_kept :
      (gone : Bool)
      → gone ≡ out.disconnected
      → sum f (carried_by (after_turn m (hand_over (popped (some m)) out).0))
          + sum f (as_messages (sent (hand_over (popped (some m)) out).1))
        ≡ f m + sum f (as_messages (sent out))
  unfolding hand_over send
  sent_or_kept true e = rw (sym e) (omega arith)
  sent_or_kept false e =
      let r : ConsumeResponse = record { offset = m.0; payload = m.1 } in
      rw (sym e) (
        omega (
          arith,
          as_messages-append f out.taken (out.buffered ++ r ∷ []),
          as_messages-append f out.buffered (r ∷ []),
          as_messages-append f out.taken out.buffered,
        ))

popped_sum :
    (f : Message → ℕ) (m : Option Message)
    → sum f (carried_by (after_fetch (popped m))) ≡ sum f (to_list m)
popped_sum f none = refl
popped_sum f (some m) = refl

module _ {W : Type 0} (node : MqServiceImpl W) (leads : IsLeading node) (queue : Text) where
  fetch-conserves :
      (f : Message → ℕ) (s : Host node)
      → sum f (carried_by (after_fetch (fetch node queue s).0))
          + sum f (waiting node queue (fetch node queue s).1.world)
        ≡ sum f (waiting node queue s.world)
  fetch-conserves f s =
      let (w, resp) = apply (node.locked_state s.world) (pop queue) in
      let law =
        rw (==-refl queue, append-nil (waiting node queue s.world)) at
          (apply_conserves queue (node.locked_state s.world) (pop queue)) in
      let (gets, state) = fetch-IsLeading node queue s leads in
      rw (gets, state)
        (omega (
          arith,
          popped_sum f resp.popped,
          sum-append f (to_list resp.popped) (pending w queue),
          ap (sum f) law,
        ))

  write-accepts :
      (f : Message → ℕ) (w : W) (name : Text) (payload : Bytes)
      → let req = publish name payload in
        sum f (waiting node queue (node.raft.client_write req w).1)
        ≡ sum f (waiting node queue w)
          + sum f (published_by queue req (apply (node.locked_state w) req).1)
  write-accepts f w name payload = rw (leads.applies (publish name payload) w) (
      ap (sum f) (apply_conserves queue (node.locked_state w) (publish name payload))
      ∙ sum-append f (waiting node queue w) _)

  Step-conserves :
      (f : Message → ℕ) {ms : List Message} {a b : Fleet node queue}
      → Step node queue ms a b
      → total node queue f b ≡ total node queue f a + sum f ms
  Step-conserves f (fetches s before after out) = omega (
    arith,
    fetch-conserves f s,
    replace-carried f before idle after,
    replace-carried f before (after_fetch (fetch node queue s).0) after,
  )
  Step-conserves f (sends s before m after out room) = omega (
    arith,
    sent_or_kept f out m out.disconnected refl,
    replace-carried f before (holding m) after,
    replace-carried f before (after_turn m (hand_over (popped (some m)) out).0) after,
  )
  Step-conserves f (publishes s workers out name payload) =
      omega (arith, write-accepts f s.world name payload)
  Step-conserves f (takes s workers r rest taken) = omega (
    arith,
    as_messages-append f (taken ++ r ∷ []) rest,
    as_messages-append f taken (r ∷ []),
    as_messages-append f taken (r ∷ rest),
  )
  Step-conserves f (disconnects s workers out) = omega arith

  Steps-conserves :
      (f : Message → ℕ) {ms : List Message} {a b : Fleet node queue}
      → Steps node queue ms a b
      → total node queue f b ≡ total node queue f a + sum f ms
  Steps-conserves f (done a) = omega arith
  Steps-conserves f (next {ms} {ns} {a} {b} {c} step steps) =
      omega (arith, Step-conserves f step, Steps-conserves f steps, sum-append f ms ns)

  idle-carried : (f : Message → ℕ) (n : ℕ) → sum f (carried (replicate n)) ≡ 0
  idle-carried f zero = refl
  idle-carried f (suc n) = idle-carried f n

  -- On a node that leads, whatever the order of the steps of a stream's 32 workers, the
  -- publishers and the client: every message that was in the queue or was accepted since is in
  -- the queue, with one worker, or on the stream, as often as it was there at first, so none is
  -- delivered twice.
  pub consume_conserves :
      (f : Message → ℕ) (s : Host node) {ms : List Message} {a : Fleet node queue}
      → Steps node queue ms (start node queue s) a
      → sum f (waiting node queue a.host.world)
          + sum f (carried a.workers)
          + sum f (as_messages (sent a.out))
        ≡ sum f (waiting node queue s.world) + sum f ms
  consume_conserves f s steps =
      omega (arith, Steps-conserves f steps, idle-carried f pop_concurrency)
