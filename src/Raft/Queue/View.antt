-- ===== src/Raft/Queue/View.antt =====
-- The contract of the queues: independent FIFO channels, one for each name, that exist from the
-- start. `QueueState` implements it whatever the order of its maps.
use blun_mq.Base.{
  ℕ, ◌+◌, ◌%◌, ◌≡◌, refl, ap, List, [], ◌∷◌, ◌++◌, Option, none, some, get_or, Text, Bytes, text_eq,
  ◌==◌, if◌then◌else◌, arith,
}
use blun_mq.Base.HashMap.{get}
use blun_mq.Base.HashMap.Laws.{get-insert}
use blun_mq.Raft.Types.{QueueRequest, publish, pop, QueueResponse, u64_mod}
use blun_mq.Raft.Queue.{Message, QueueState, pop_front, apply}

-- What waits in a channel, and the offset of the next message.
pub record Channel : Type 0 where
  pub pending : List Message
  pub next : ℕ

abbrev pub Channels : Type 0
Channels = Text → Channel

unfoldable pub view : QueueState → Channels
view s queue = record {
  pending = get_or (get queue s.queues) [];
  next = get_or (get queue s.next_offset) 0;
}

abbrev update : Text → Channel → Channels → Channels
update queue c cs j = if queue == j then c else cs j

abbrev take_first : Channel → Channel × Option Message
take_first c = elim c.pending [ [] ↦ (c, none) | m ∷ rest ↦ (record c { pending = rest }, some m) ]

-- The abstract machine: a publish appends to one channel, a pop takes its first message.
unfoldable pub step : Channels → QueueRequest → Channels × QueueResponse
step cs (publish queue payload) =
    let c = cs queue in
    (
      update queue
          (record { pending = c.pending ++ (c.next, payload) ∷ []; next = (c.next + 1) % u64_mod })
          cs,
      record { published_offset = some c.next; popped = none },
    )
step cs (pop queue) =
    let (c, m) = take_first (cs queue) in
    (update queue c cs, record { published_offset = none; popped = m })

module _ (s : QueueState) (queue : Text) where
  view-publish :
      (payload : Bytes) (j : Text)
      → view (apply s (publish queue payload)).0 j ≡ (step (view s) (publish queue payload)).0 j
  unfolding apply view step
  view-publish payload j =
      let offset = get_or (get queue s.next_offset) 0 in
      let pending = get_or (get queue s.queues) [] in
      ground (
        arith,
        get-insert queue j (pending ++ (offset, payload) ∷ []) s.queues,
        get-insert queue j ((offset + 1) % u64_mod) s.next_offset,
      )

  -- The pop by what the map holds under the name.
  view-pop_front :
      (o : Option (List Message)) (j : Text)
      → get queue s.queues ≡ o
      → (view (pop_front queue o s).0 j ≡ update queue (take_first (view s queue)).0 (view s) j)
        × ((pop_front queue o s).1 ≡ (take_first (view s queue)).1)
  unfolding apply view
  view-pop_front none j h = ground arith
  view-pop_front (some []) j h = ground arith
  view-pop_front (some (m ∷ rest)) j h = ground (arith, get-insert queue j rest s.queues)

-- One request does to the channels, and answers, what the abstract machine does.
pub apply-refines-step :
    (s : QueueState) (r : QueueRequest)
    → ((queue : Text) → view (apply s r).0 queue ≡ (step (view s) r).0 queue)
      × ((apply s r).1 ≡ (step (view s) r).1)
unfolding apply view step
apply-refines-step s (publish queue payload) = (view-publish s queue payload, refl)
apply-refines-step s (pop queue) =
    let o = get queue s.queues in
    (
      λ j. (view-pop_front s queue o j refl).0,
      ap (λ m. let r : QueueResponse = record { published_offset = none; popped = m } in r)
          (view-pop_front s queue o queue refl).1,
    )
