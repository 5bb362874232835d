-- ===== src/Raft/Queue.antt =====
-- `QueueState` of src/Blun.Mq.Raft/src/state_machine.rs: the queues that every replica of the data
-- group converges on.
pub mod View
pub mod Fifo
pub mod Pop
pub mod Depths
pub mod Same
pub mod Observed
use blun_mq.Base.{
  ℕ, ◌+◌, ◌%◌, List, [], ◌∷◌, ◌++◌, length, Option, none, some, get_or, Text, Bytes, text_eq,
  map_accum,
}
use blun_mq.Base.HashMap.{HashMap, get, insert, collect, map_values}
use blun_mq.Raft.Types.{QueueRequest, publish, pop, QueueResponse, u64_mod}

-- An offset and a payload.
abbrev pub Message : Type 0
Message = ℕ × Bytes

pub record QueueState : Type 0 where
  pub queues : HashMap Text (List Message)
  pub next_offset : HashMap Text ℕ

-- `QueueState::default()`
abbrev pub empty : QueueState
empty = record { queues = []; next_offset = [] }

unfoldable pub depths : QueueState → HashMap Text ℕ
depths s = collect (map_values length s.queues)

-- `pop_front` on the deque that `get_mut` found.
pop_front : Text → Option (List Message) → QueueState → QueueState × Option Message
pop_front queue none s = (s, none)
pop_front queue (some []) s = (s, none)
pop_front queue (some (m ∷ rest)) s = (record s { queues = insert queue rest s.queues }, some m)

-- The new state and the response.
unfoldable pub apply : QueueState → QueueRequest → QueueState × QueueResponse
unfolding pop_front
apply s (publish queue payload) =
    let offset = get_or (get queue s.next_offset) 0 in
    let pending = get_or (get queue s.queues) [] in
    (
      record {
        queues = insert queue (pending ++ (offset, payload) ∷ []) s.queues;
        next_offset = insert queue ((offset + 1) % u64_mod) s.next_offset;
      },
      record { published_offset = some offset; popped = none },
    )
apply s (pop queue) =
    let (s', m) = pop_front queue (get queue s.queues) s in
    (s', record { published_offset = none; popped = m })

-- A log of requests, applied in order, with the response to each.
unfoldable pub run : QueueState → List QueueRequest → QueueState × List QueueResponse
unfolding map_accum
run = map_accum apply
