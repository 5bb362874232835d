-- ===== src/Raft/QueueStore.antt =====
-- The state machine of src/Blun.Mq.Raft/src/state_machine.rs, for the stores of Raft.Store: a
-- `StateMachineStore` is a store over it.
pub mod Laws
pub mod StaleBuilder
pub mod Group
use blun_mq.Base.{ℕ, List, map, Text, Bytes, text_eq}
use blun_mq.Base.HashMap.{HashMap, collect, map_values}
use blun_mq.Raft.Types
use blun_mq.Raft.Types.{QueueRequest, QueueResponse}
use blun_mq.Raft.Queue
use blun_mq.Raft.Queue.{QueueState, Message}
use blun_mq.Raft.Store.{Machine}

-- `Bytes` holds a message's payload in the state, `Vec<u8>` in a snapshot.
pub record SnapshotPayload : Type 0 where
  pub queues : HashMap Text (List (ℕ × Bytes))
  pub next_offset : HashMap Text ℕ

-- `(*o, p.to_vec())` and `(o, bytes::Bytes::from(p))`
abbrev copy_message : Message → Message
copy_message (offset, payload) = (offset, payload)

unfoldable pub dump : QueueState → SnapshotPayload
dump s = record {
  queues = collect (map_values (map copy_message) s.queues);
  next_offset = s.next_offset;
}

unfoldable pub load : SnapshotPayload → QueueState → QueueState
load p s = record {
  queues = collect (map_values (map copy_message) p.queues);
  next_offset = p.next_offset;
}

abbrev pub queue_machine : Machine
queue_machine = record {
  State = QueueState;
  Request = QueueRequest;
  Response = QueueResponse;
  Payload = SnapshotPayload;
  default_response = Types.default_response;
  apply = Queue.apply;
  dump = dump;
  load = load;
}
