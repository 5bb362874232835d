-- ===== src/Tests/GroupTests.antt =====
-- A group of the queues' stores.
use blun_mq.Base.{
  none, ◌++◌, ◌<◌, length, ℕ, ◌≡◌, refl, List, [], ◌∷◌, some, ok, Text, text, nat_eq, text_eq,
}
use blun_mq.Base.HashMap
use blun_mq.Base.Cells.{Cells, write}
use blun_mq.Raft.Types.{QueueRequest, QueueResponse, u64_mod}
use blun_mq.Raft.Openraft.{Entry, membership, Snapshot}
use blun_mq.Raft.Queue
use blun_mq.Raft.Queue.{QueueState, run}
use blun_mq.Raft.SnapshotId.{uuid_like_id}
use blun_mq.Raft.QueueStore.{SnapshotPayload, queue_machine, dump, load}
use blun_mq.Raft.Queue.Fifo.{pending, delivered, payloads, number}
use blun_mq.Raft.QueueStore.Group.{group_delivers}
use blun_mq.Raft.QueueStore.Laws.{queue_laws}
use blun_mq.Raft.QueueStore.StaleBuilder.{publish_entry}
use blun_mq.Raft.Store.{Store, new, apply, get_snapshot_builder, build_snapshot, install_snapshot}
use blun_mq.Raft.Store.Log.{last_id, requests}
use blun_mq.Raft.Store.Replica.{content}
use blun_mq.Raft.Store.Group.{
  Node, Group, started, applying, put, fresh, Step, commits, applies, builds, installs, restarts,
  Steps, done, next,
}
use blun_mq.Raft.Store.Group.Reached.{Reached}
use blun_mq.Raft.Store.Group.Agree.{group-Reached, nodes_agree}
use blun_mq.Tests.Codec.{dec_all}
use blun_mq.Tests.Instances.{numbers, queue_json, queue_json-IsFaithful}

abbrev spam : Text
spam = text "spam"

abbrev entries : List (Entry numbers QueueRequest)
entries = publish_entry numbers 0 spam (7 ∷ []) ∷ record { log_id = 1; payload = membership 3 } ∷ []

-- Nodes, and a group of them.
abbrev N : Type 0
N = Node numbers queue_machine queue_json Queue.empty

abbrev G : Type 0
G = Group numbers queue_machine queue_json Queue.empty

abbrev begun : N
begun = started numbers queue_machine queue_json Queue.empty 1

abbrev first : N
first = applying numbers queue_machine queue_json Queue.empty begun entries

abbrev snap : Snapshot numbers
snap = record {
  meta = record { last_log_id = some 1; last_membership = (some 1, 3); snapshot_id = text "a" };
  snapshot = 1 ∷ 4 ∷ 115 ∷ 112 ∷ 97 ∷ 109 ∷ 1 ∷ 0 ∷ 1 ∷ 7 ∷ 1 ∷ 4 ∷ 115 ∷ 112 ∷ 97 ∷ 109 ∷ 1 ∷ [];
}

abbrev built : Store numbers
built = record {
  state = 1;
  last_applied = some 1;
  last_membership = (some 1, 3);
  snapshot = some (record { meta = snap.meta; bytes = snap.snapshot });
}

first_builds :
    build_snapshot numbers queue_machine queue_json 10 first.cells
      (get_snapshot_builder numbers first.store)
    ≡ ok (snap, built)
unfolding build_snapshot get_snapshot_builder dump HashMap.collect uuid_like_id nat_eq applying
    started apply new Queue.apply write HashMap.get
first_builds = refl

abbrev payload : SnapshotPayload
payload = record { queues = (spam, (0, 7 ∷ []) ∷ []) ∷ []; next_offset = (spam, 1) ∷ [] }

abbrev loaded : Cells QueueState
loaded = write 1 (load payload Queue.empty) begun.cells

begun_installs :
    install_snapshot numbers queue_machine queue_json begun.cells begun.store snap.meta
      snap.snapshot
    ≡ ok (loaded, built)
unfolding install_snapshot started new nat_eq dec_all
begun_installs = refl

abbrev origin : G
origin = fresh numbers queue_machine queue_json Queue.empty (λ i. 1)

-- The first node applies and builds, the second installs, the third starts anew.
abbrev committed : G
committed = record { log = entries; nodes = origin.nodes; snapshots = [] }

abbrev put_node : ℕ → N → G → G
put_node i node g = record g {
  nodes = put numbers queue_machine queue_json Queue.empty i node g.nodes;
}

abbrev led : G
led = put_node 1 first committed

abbrev shared : G
shared = record led { snapshots = snap ∷ [] }

abbrev followed : G
followed = put_node 2 (record { cells = loaded; store = built }) shared

abbrev final : G
final = put_node 3 begun followed

node_1_applies : Step numbers queue_machine queue_json Queue.empty committed led
unfolding started new nat_eq last_id
node_1_applies = applies committed 1 [] entries [] refl refl

node_1_builds : Step numbers queue_machine queue_json Queue.empty led shared
unfolding nat_eq
node_1_builds = builds led 1 10 snap built first_builds

node_2_installs : Step numbers queue_machine queue_json Queue.empty shared followed
unfolding nat_eq
node_2_installs = installs shared 2 [] snap [] loaded built refl begun_installs

abbrev steps : Steps numbers queue_machine queue_json Queue.empty origin final
steps = next (commits origin entries (refl, (refl, tt))) (
    next node_1_applies
      (next node_1_builds (next node_2_installs (next (restarts followed 3 1) (done final)))))

group-Reached_example :
    Reached numbers queue_machine queue_json queue_laws Queue.empty entries (final.nodes 2)
group-Reached_example =
    group-Reached numbers queue_machine queue_json queue_laws Queue.empty queue_json-IsFaithful tt
      (λ i. 1) steps 2

same_id : (final.nodes 1).store.last_applied ≡ (final.nodes 2).store.last_applied
unfolding nat_eq applying apply started new
same_id = refl

response_set : IsSet QueueResponse
response_set = hlevel

nodes_agree_example :
    (content queue_laws numbers (final.nodes 1).cells (final.nodes 1).store
      ≡ content queue_laws numbers (final.nodes 2).cells (final.nodes 2).store)
    × ((final.nodes 1).store.last_membership ≡ (final.nodes 2).store.last_membership)
    × ((es : List (Entry numbers QueueRequest))
        → (apply numbers queue_machine (final.nodes 1).cells (final.nodes 1).store es).0
          ≡ (apply numbers queue_machine (final.nodes 2).cells (final.nodes 2).store es).0)
nodes_agree_example =
    nodes_agree numbers queue_machine queue_json queue_laws Queue.empty queue_json-IsFaithful tt
      response_set (λ i. 1) 1 2 steps same_id

group_delivers_example :
    (before : List (Entry numbers QueueRequest)) × (after : List (Entry numbers QueueRequest))
    × (entries ≡ before ++ after)
    × ((final.nodes 2).store.last_applied ≡ last_id numbers none before)
    × (length (payloads spam (requests numbers before)) < u64_mod
        → delivered spam (requests numbers before) (run Queue.empty (requests numbers before)).1
            ++ pending ((final.nodes 2).cells (final.nodes 2).store.state) spam
          ≡ number 0 (payloads spam (requests numbers before)))
group_delivers_example =
    group_delivers numbers queue_json queue_json-IsFaithful (λ i. 1) steps 2 spam
