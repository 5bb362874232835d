-- ===== src/Tests/ReplicaTests.antt =====
-- A replica of the queues and a log.
use mathlib.Core.Quot
use blun_mq.Base.HashMap.{get}
use blun_mq.Raft.Queue.Same.{SameState}
use blun_mq.Base.{◌≢◌, Text, arith, text_eq, ◌≡◌, List, [], ◌∷◌, none, text}
use blun_mq.Base.Cells.{Cells}
use blun_mq.Raft.Types.{QueueRequest, QueueResponse, pop, default_response}
use blun_mq.Raft.Openraft.{Entry, normal, membership}
use blun_mq.Raft.Queue
use blun_mq.Raft.Queue.{QueueState}
use blun_mq.Raft.QueueStore.{queue_machine}
use blun_mq.Raft.QueueStore.Laws.{queue_laws}
use blun_mq.Raft.QueueStore.StaleBuilder.{publish_entry}
use blun_mq.Raft.Store.{Store, apply}
use blun_mq.Raft.Store.Log.{requests, answers}
use blun_mq.Raft.Store.Replica.{Replica, content, replay, replies, apply-replay}
use blun_mq.Tests.Instances.{numbers}

response_set : IsSet QueueResponse
response_set = hlevel

abbrev entries : List (Entry numbers QueueRequest)
entries =
    record { log_id = 1; payload = membership 3 }
    ∷ publish_entry numbers 2 (text "spam") (7 ∷ [])
    ∷ record { log_id = 3; payload = normal (pop (text "spam")) }
    ∷ []

abbrev cells : Cells QueueState
cells a = Queue.empty

abbrev store : Store numbers
store = record { state = 4; last_applied = none; last_membership = (none, 0); snapshot = none }

apply-replay_example :
    let (responses, cells', st') = apply numbers queue_machine cells store entries in
    (content queue_laws numbers cells' st'
      ≡ replay queue_laws (requests numbers entries) (content queue_laws numbers cells store))
    × (responses
        ≡ answers numbers default_response entries (
            replies queue_laws response_set
              (requests numbers entries)
              (content queue_laws numbers cells store)))
apply-replay_example = apply-replay numbers queue_laws response_set cells store entries

abbrev spam : Text
spam = text "spam"

abbrev other : Text
other = text "other"

-- One state in two orders of its maps.
abbrev ordered : QueueState
ordered = record {
  queues = (spam, (0, 7 ∷ []) ∷ []) ∷ (other, []) ∷ [];
  next_offset = (spam, 1) ∷ (other, 3) ∷ [];
}

abbrev reordered : QueueState
reordered = record {
  queues = (other, []) ∷ (spam, (0, 7 ∷ []) ∷ []) ∷ [];
  next_offset = (other, 3) ∷ (spam, 1) ∷ [];
}

spam-ne-other : spam ≢ other
spam-ne-other h = ground (arith, h)

reordered-SameState : SameState ordered reordered
unfolding get
reordered-SameState = record {
  queues = λ k. ground (arith, spam-ne-other);
  next_offset = λ k. ground (arith, spam-ne-other);
}

-- They are one replica.
reordered_replica : ◌≡◌ {A = Replica queue_laws} (Quot.mk ordered) (Quot.mk reordered)
reordered_replica = Quot.sound reordered-SameState
