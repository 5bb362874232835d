-- ===== src/Raft/Queue/Same.antt =====
-- Two `QueueState`s that hold the same under every name answer every request alike: the order in
-- which the maps iterate does not matter to clients.
use blun_mq.Base.{◌≡◌, refl, ap, List, [], ◌∷◌, Option, none, some, Text, text_eq, arith}
use blun_mq.Base.HashMap.{HashMap, get, insert}
use blun_mq.Base.HashMap.Laws.{get-insert}
use blun_mq.Raft.Types.{QueueRequest, QueueResponse, publish, pop}
use blun_mq.Raft.Queue.{Message, QueueState, pop_front, apply}

abbrev pub SameMap {ℓ} : {V : Type ℓ} → HashMap Text V → HashMap Text V → Type ℓ
SameMap m n = (k : Text) → get k m ≡ get k n

pub record SameState (s t : QueueState) : Type 0 where
  pub queues : SameMap s.queues t.queues
  pub next_offset : SameMap s.next_offset t.next_offset

insert-SameMap {ℓ} :
    {V : Type ℓ} (k : Text) (v : V) (m n : HashMap Text V)
    → SameMap m n
    → SameMap (insert k v m) (insert k v n)
insert-SameMap k v m n h j = ground (arith, get-insert k j v m, get-insert k j v n, h j)

pop_front-SameState :
    (queue : Text) (o : Option (List Message)) (s t : QueueState)
    → SameState s t
    → SameState (pop_front queue o s).0 (pop_front queue o t).0
      × ((pop_front queue o s).1 ≡ (pop_front queue o t).1)
unfolding apply
pop_front-SameState queue none s t h = (h, refl)
pop_front-SameState queue (some []) s t h = (h, refl)
pop_front-SameState queue (some (m ∷ rest)) s t h = (
  record {
    queues = insert-SameMap queue rest s.queues t.queues h.queues;
    next_offset = h.next_offset;
  },
  refl,
)

-- One request on two states that hold the same under every name: the same response, and such
-- states again.
pub apply-SameState :
    (s t : QueueState) (r : QueueRequest)
    → SameState s t
    → SameState (apply s r).0 (apply t r).0 × ((apply s r).1 ≡ (apply t r).1)
unfolding apply
apply-SameState s t (publish queue payload) h =
    rw (← h.queues queue, ← h.next_offset queue)
      (
        record {
          queues = insert-SameMap queue _ s.queues t.queues h.queues;
          next_offset = insert-SameMap queue _ s.next_offset t.next_offset h.next_offset;
        },
        refl,
      )
apply-SameState s t (pop queue) h =
    let (same, m) = pop_front-SameState queue (get queue s.queues) s t h in
    rw (← h.queues queue) (
      same,
      ap (λ o. let x : QueueResponse = record { published_offset = none; popped = o } in x) m,
    )
