-- ===== src/Raft/Queue/Depths.antt =====
-- The maps of a `QueueState` stay consistent, and `depths` counts what waits in each queue.
use mathlib.Core.Option
use blun_mq.Base.{
  ◌+◌, ◌≡◌, ◌↔◌, refl, ◌∙◌, ap, List, [], ◌∷◌, length, length-append, Option, none, some, get_or,
  Text, text_eq, arith,
}
use blun_mq.Base.HashMap.{get, NodupKeys}
use blun_mq.Base.HashMap.Laws.{get-insert, insert-NodupKeys, get-collect-map_values}
use blun_mq.Raft.Types.{QueueRequest, publish, pop}
use blun_mq.Raft.Queue.{Message, QueueState, empty, depths, pop_front, apply, run}
use blun_mq.Raft.Queue.View.{view}
use blun_mq.Raft.Queue.Fifo.{pending, delivered, accepted, run_conserves}

pop_front-NodupKeys :
    (s : QueueState) (queue : Text) (o : Option (List Message))
    → NodupKeys s.queues
    → NodupKeys (pop_front queue o s).0.queues
unfolding apply
pop_front-NodupKeys s queue none v = v
pop_front-NodupKeys s queue (some []) v = v
pop_front-NodupKeys s queue (some (m ∷ rest)) v = insert-NodupKeys queue rest s.queues v

-- A request leaves one deque for each name.
pub apply-NodupKeys :
    (s : QueueState) (r : QueueRequest) → NodupKeys s.queues → NodupKeys (apply s r).0.queues
unfolding apply
apply-NodupKeys s (publish queue payload) v = insert-NodupKeys queue _ s.queues v
apply-NodupKeys s (pop queue) v = pop_front-NodupKeys s queue (get queue s.queues) v

-- Keys are distinct, and a queue is known exactly when it has an offset counter.
pub record IsValid (s : QueueState) : Type 0 where
  pub queue_keys : NodupKeys s.queues
  pub counter_keys : NodupKeys s.next_offset
  pub counted : (queue : Text) → (get queue s.queues ≡ none) ↔ (get queue s.next_offset ≡ none)

pub empty-IsValid : IsValid empty
unfolding get
empty-IsValid = record {
  queue_keys = tt;
  counter_keys = tt;
  counted = λ queue. (λ h. refl, λ h. refl);
}

pop_front-IsValid :
    (s : QueueState) (queue : Text) (o : Option (List Message))
    → get queue s.queues ≡ o
    → IsValid s
    → IsValid (pop_front queue o s).0
unfolding apply
pop_front-IsValid s queue none h v = v
pop_front-IsValid s queue (some []) h v = v
pop_front-IsValid s queue (some (m ∷ rest)) h v = record {
  queue_keys = pop_front-NodupKeys s queue (some (m ∷ rest)) v.queue_keys;
  counter_keys = v.counter_keys;
  counted = λ j. ground (arith, get-insert queue j rest s.queues, v.counted j);
}

-- Every request keeps the maps consistent.
pub apply-IsValid : (s : QueueState) (r : QueueRequest) → IsValid s → IsValid (apply s r).0
unfolding apply
apply-IsValid s (publish queue payload) v = record {
  queue_keys = insert-NodupKeys queue _ s.queues v.queue_keys;
  counter_keys = insert-NodupKeys queue _ s.next_offset v.counter_keys;
  counted = λ j. rw get-insert (rw get-insert (ground (arith, v.counted j)));
}
apply-IsValid s (pop queue) v = pop_front-IsValid s queue (get queue s.queues) refl v

pub run-IsValid : (s : QueueState) (rs : List QueueRequest) → IsValid s → IsValid (run s rs).0
unfolding run
run-IsValid s [] v = v
run-IsValid s (r ∷ rs) v = run-IsValid (apply s r).0 rs (apply-IsValid s r v)

-- In a consistent state the depth of a queue is the number of messages in its deque, and a queue
-- that is not known has no entry.
pub get-depths :
    (s : QueueState) (queue : Text)
    → IsValid s
    → get queue (depths s) ≡ Option.map length (get queue s.queues)
unfolding depths
get-depths s queue v = get-collect-map_values length s.queues queue v.queue_keys

depth-eq-length :
    (o : Option (List Message)) → get_or (Option.map length o) 0 ≡ length (get_or o [])
depth-eq-length none = refl
depth-eq-length (some q) = refl

pub depth-pending :
    (s : QueueState) (queue : Text)
    → IsValid s
    → get_or (get queue (depths s)) 0 ≡ length (pending s queue)
unfolding view get
depth-pending s queue v =
    ap (λ o. get_or o 0) (get-depths s queue v) ∙ depth-eq-length (get queue s.queues)

-- After any log from an empty store, the messages delivered from a queue and its reported depth
-- add up to the messages accepted for it.
pub delivered-add-depth :
    (queue : Text) (rs : List QueueRequest)
    → let (s, responses) = run empty rs in
      length (delivered queue rs responses) + get_or (get queue (depths s)) 0
      ≡ length (accepted queue rs responses)
unfolding view get
delivered-add-depth queue rs =
    let (s, responses) = run empty rs in
    let depth = depth-pending s queue (run-IsValid empty rs empty-IsValid) in
    omega (
      arith,
      depth,
      ap length (run_conserves queue empty rs),
      length-append (delivered queue rs responses) (pending s queue),
    )
