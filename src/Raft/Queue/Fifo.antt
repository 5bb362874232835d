-- ===== src/Raft/Queue/Fifo.antt =====
-- What the clients of the queues see over a whole log: the accepted messages of a queue are
-- delivered once each, in the order of publication, under consecutive offsets.
use blun_mq.Base.{
  ℕ, ◌+◌, ◌<◌, ◌≡◌, refl, ◌∙◌, ap, sym, List, [], ◌∷◌, ◌++◌, append_assoc, append-nil, length,
  Option, none, some, Text, Bytes, text_eq, ◌==◌, if◌then◌else◌, arith,
}
use blun_mq.Base.HashMap.{get}
use blun_mq.Raft.Types.{QueueRequest, publish, pop, QueueResponse, u64_mod}
use blun_mq.Raft.Queue.{Message, QueueState, empty, apply, run}
use blun_mq.Raft.Queue.View.{Channel, view, step, apply-refines-step}

abbrev pub to_list : Option Message → List Message
to_list none = []
to_list (some m) = m ∷ []

abbrev pub with_payload : Bytes → Option ℕ → List Message
with_payload payload none = []
with_payload payload (some offset) = (offset, payload) ∷ []

module _ (queue : Text) where
  -- The message of the queue that a response hands to a consumer.
  abbrev pub popped_by : QueueRequest → QueueResponse → List Message
  popped_by (publish q payload) response = []
  popped_by (pop q) response = if q == queue then to_list response.popped else []

  -- The message of the queue that a response confirms to a producer.
  abbrev pub published_by : QueueRequest → QueueResponse → List Message
  published_by (publish q payload) response =
      if q == queue then with_payload payload response.published_offset else []
  published_by (pop q) response = []

  abbrev payload_of : QueueRequest → List Bytes
  payload_of (publish q payload) = if q == queue then payload ∷ [] else []
  payload_of (pop q) = []

  unfoldable pub delivered : List QueueRequest → List QueueResponse → List Message
  delivered (r ∷ rs) (x ∷ xs) = popped_by r x ++ delivered rs xs
  delivered _ _ = []

  unfoldable pub accepted : List QueueRequest → List QueueResponse → List Message
  accepted (r ∷ rs) (x ∷ xs) = published_by r x ++ accepted rs xs
  accepted _ _ = []

  unfoldable pub payloads : List QueueRequest → List Bytes
  payloads [] = []
  payloads (r ∷ rs) = payload_of r ++ payloads rs

-- The payloads under consecutive offsets.
unfoldable pub number : ℕ → List Bytes → List Message
number n [] = []
number n (p ∷ ps) = (n, p) ∷ number (n + 1) ps

abbrev pub pending : QueueState → Text → List Message
pending s queue = (view s queue).pending

module _ (queue : Text) (s : QueueState) where
  step_conserves :
      (r : QueueRequest)
      → popped_by queue r (step (view s) r).1 ++ ((step (view s) r).0 queue).pending
        ≡ pending s queue ++ published_by queue r (step (view s) r).1
  unfolding step view
  step_conserves (publish q payload) = ground (arith, append-nil (pending s queue))
  step_conserves (pop q) = ground (arith, append-nil (pending s queue))

  pub apply_conserves :
      (r : QueueRequest)
      → popped_by queue r (apply s r).1 ++ pending (apply s r).0 queue
        ≡ pending s queue ++ published_by queue r (apply s r).1
  apply_conserves r =
      let refines = apply-refines-step s r in
      rw (refines.1, ap (λ (c : Channel). c.pending) (refines.0 queue)) (step_conserves r)

  -- The offset of a publish, and the counter after it.
  step_numbers :
      (r : QueueRequest) (ps : List Bytes)
      → (view s queue).next + length (payload_of queue r ++ ps) < u64_mod
      → ((step (view s) r).0 queue).next + length ps < u64_mod
  unfolding step view
  step_numbers (publish q payload) ps h = ground arith
  step_numbers (pop q) ps h = ground arith

  step_accepts :
      (r : QueueRequest) (ps : List Bytes)
      → (view s queue).next + length (payload_of queue r ++ ps) < u64_mod
      → published_by queue r (step (view s) r).1 ++ number ((step (view s) r).0 queue).next ps
        ≡ number (view s queue).next (payload_of queue r ++ ps)
  unfolding step view number
  step_accepts (publish q payload) [] h = ground arith
  step_accepts (publish q payload) (p ∷ ps) h = ground arith
  step_accepts (pop q) ps h = ground arith

-- Over any log, what consumers receive from a queue and what is left in it are, in order, what
-- was in it and what producers were told was accepted: nothing is lost, doubled or reordered.
pub run_conserves :
    (queue : Text) (s : QueueState) (rs : List QueueRequest)
    → delivered queue rs (run s rs).1 ++ pending (run s rs).0 queue
      ≡ pending s queue ++ accepted queue rs (run s rs).1
unfolding run delivered accepted
run_conserves queue s [] = sym (append-nil (pending s queue))
run_conserves queue s (r ∷ rs) =
    let (s', response) = apply s r in
    let responses = (run s' rs).1 in
    append_assoc (popped_by queue r response) (delivered queue rs responses) _
    ∙ ap (λ l. popped_by queue r response ++ l) (run_conserves queue s' rs)
    ∙ sym (append_assoc (popped_by queue r response) (pending s' queue) _)
    ∙ ap (λ l. l ++ accepted queue rs responses) (apply_conserves queue s r)
    ∙ append_assoc (pending s queue) (published_by queue r response) _

-- While fewer than 2^64 messages are published to a queue, their offsets are consecutive.
pub accepted-eq-number :
    (queue : Text) (s : QueueState) (rs : List QueueRequest)
    → (view s queue).next + length (payloads queue rs) < u64_mod
    → accepted queue rs (run s rs).1 ≡ number (view s queue).next (payloads queue rs)
unfolding run accepted payloads number
accepted-eq-number queue s [] h = refl
accepted-eq-number queue s (r ∷ rs) h =
    let refines = apply-refines-step s r in
    let next = ap (λ (c : Channel). c.next) (refines.0 queue) in
    let s' = (apply s r).0 in
    let fits : (view s' queue).next + length (payloads queue rs) < u64_mod =
      rw next (step_numbers queue s r (payloads queue rs) h) in
    rw (accepted-eq-number queue s' rs fits, refines.1, next)
      (step_accepts queue s r (payloads queue rs) h)

-- From an empty store, with fewer than 2^64 messages published to a queue, the messages received
-- and those still waiting are the published payloads in order, once each, under the offsets 0, 1,
-- 2 and so on.
pub delivered-pending-eq-number :
    (queue : Text) (rs : List QueueRequest)
    → length (payloads queue rs) < u64_mod
    → delivered queue rs (run empty rs).1 ++ pending (run empty rs).0 queue
      ≡ number 0 (payloads queue rs)
unfolding view get
delivered-pending-eq-number queue rs h =
    run_conserves queue empty rs ∙ accepted-eq-number queue empty rs (omega arith)
