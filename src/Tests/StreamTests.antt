-- ===== src/Tests/StreamTests.antt =====
-- A stream of the leader of a cluster.
use blun_mq.Base.{
  ℕ, text, sum, inr, arith, length, ◌≤◌, ◌+◌, ◌≡◌, refl, false, [], ◌∷◌, some, Text, text_eq,
  nat_eq, ok,
}
use blun_mq.Base.HashMap
use blun_mq.Raft.Types.{publish}
use blun_mq.Raft.Queue.{Message, QueueState, empty, apply}
use blun_mq.Raft.Queue.View.{view}
use blun_mq.Raft.Queue.Fifo.{pending}
use blun_mq.Host.Service.{Shared}
use blun_mq.Host.Service.Consume.{sent, Outbound, fetch, hand_over}
use blun_mq.Host.Service.Consume.Relayed.{dropped_stream_loses}
use blun_mq.Host.Service.Consume.Fleet.{
  takes, ended, idle, carried, as_messages, Fleet, fetches, sends, publishes, Steps, done, next,
  replicate, start,
}
use blun_mq.Host.Service.Consume.Delivery.{consume_conserves}
use blun_mq.Host.Service.Consume.Drains.{stream_drains}
use blun_mq.Base.BTreeMap
use blun_mq.Host.Service.Channels.{IsCache}
use blun_mq.Host.Service.Consume.Forwarded.{pulled, fetch-forwarded}
use blun_mq.Tests.Cluster.{node_1, node_1-IsLeading, node_2, wires, serve, peers, fresh, spam}
use blun_mq.Host.Service.Consume.Bounds.{stream_holds}

-- A publish, the first worker's Pop of the message, and its send.
abbrev published : Shared Text QueueState
published = record fresh { world = (apply empty (publish spam (7 ∷ []))).0 }

abbrev opened : Outbound
opened = record { buffered = []; taken = []; disconnected = false }

abbrev sent_one : Outbound
sent_one = record {
  buffered = record { offset = 0; payload = 7 ∷ [] } ∷ [];
  taken = [];
  disconnected = false;
}

abbrev out : Outbound
out = record {
  buffered = [];
  taken = record { offset = 0; payload = 7 ∷ [] } ∷ [];
  disconnected = false;
}

abbrev final : Fleet node_1 spam
final = record { host = (fetch node_1 spam published).1; workers = idle ∷ replicate 31; out = out }

steps : Steps node_1 spam ((0, 7 ∷ []) ∷ []) (start node_1 spam fresh) final
unfolding fetch hand_over apply HashMap.get HashMap.insert text_eq
steps = next (publishes fresh (replicate 32) opened spam (7 ∷ [])) (
    next (fetches published [] (replicate 31) opened) (
      next
        (sends (fetch node_1 spam published).1 [] (0, 7 ∷ []) (replicate 31) opened
          (inr (omega arith)))
        (next
          (takes (fetch node_1 spam published).1 (replicate 32)
            (record { offset = 0; payload = 7 ∷ [] }) [] [])
          (done final))))

consume_conserves_example :
    sum (λ (m : Message). m.0 + 1) (pending final.host.world spam)
      + sum (λ (m : Message). m.0 + 1) (carried final.workers)
      + sum (λ (m : Message). m.0 + 1) (as_messages (sent out))
    ≡ sum (λ (m : Message). m.0 + 1) (pending empty spam)
      + sum (λ (m : Message). m.0 + 1) ((0, 7 ∷ []) ∷ [])
consume_conserves_example =
    consume_conserves node_1 node_1-IsLeading spam (λ m. m.0 + 1) fresh steps

stream_drains_example :
    (b : Fleet node_1 spam) × Steps node_1 spam [] final b
    × (pending b.host.world spam ≡ [])
    × (carried b.workers ≡ [])
    × (b.out.buffered ≡ [])
    × ((f : Message → ℕ)
        → sum f (as_messages b.out.taken) ≡ sum f (pending empty spam) + sum f ((0, 7 ∷ []) ∷ []))
stream_drains_example = stream_drains node_1 spam node_1-IsLeading fresh steps refl

-- Two messages in the queue.
abbrev two : Shared Text QueueState
two = record fresh {
  world = record {
    queues = (spam, (0, 7 ∷ []) ∷ (1, 8 ∷ []) ∷ []) ∷ [];
    next_offset = (spam, 2) ∷ [];
  };
}

two-pending : pending two.world spam ≡ (0, 7 ∷ []) ∷ (1, 8 ∷ []) ∷ []
unfolding view HashMap.get text_eq
two-pending = refl

dropped_stream_loses_example :
    (a : Fleet node_1 spam) × Steps node_1 spam [] (start node_1 spam two) a
    × (as_messages a.out.taken ≡ (0, 7 ∷ []) ∷ [])
    × (a.workers ≡ idle ∷ ended (some (1, 8 ∷ [])) ∷ replicate 30)
    × (pending a.host.world spam ≡ [])
dropped_stream_loses_example =
    dropped_stream_loses node_1 node_1-IsLeading spam two (0, 7 ∷ []) (1, 8 ∷ []) [] two-pending

stream_holds_example :
    length (pending empty spam) + 1
    ≤ length (pending final.host.world spam) + length out.taken + 160
stream_holds_example = stream_holds node_1 node_1-IsLeading spam fresh steps

-- The follower pops a message of the leader.
abbrev with_message : QueueState
with_message = (apply empty (publish spam (7 ∷ []))).0

abbrev follower_state : Shared Text QueueState
follower_state = record { forward_channels = []; world = with_message }

nothing_cached : IsCache (wires serve) peers []
unfolding HashMap.get
nothing_cached id ch found = cc

leader_known : BTreeMap.get 1 peers ≡ some (text "a")
unfolding BTreeMap.get nat_eq
leader_known = refl

fetch-forwarded_example :
    ((fetch node_2 spam follower_state).0 ≡ (pulled node_2 spam (ok 0) with_message).0)
    × ((fetch node_2 spam follower_state).1.world ≡ (pulled node_2 spam (ok 0) with_message).1)
    × IsCache (wires serve) peers (fetch node_2 spam follower_state).1.forward_channels
fetch-forwarded_example =
    fetch-forwarded node_2 1 (text "a") (text "a") leader_known refl spam follower_state
      with_message nothing_cached refl
