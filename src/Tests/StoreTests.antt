-- ===== src/Tests/StoreTests.antt =====
-- The stores over the queues and over the node directory.
use blun_mq.Base.{
  ℕ, ◌+◌, ◌%◌, ◌≡◌, ◌≢◌, refl, List, [], ◌∷◌, ◌++◌, none, some, Text, text, text_eq, nat_eq,
  map_accum, ok, arith,
}
use blun_mq.Base.Cells.{Cells, write}
use blun_mq.Base.HashMap
use blun_mq.Base.BTreeMap
use blun_mq.Raft.Types.{QueueRequest, pop, NodeCommand, upsert_node, u64_mod, QueueResponse}
use blun_mq.Raft.Openraft.{Entry, normal, blank, membership, Snapshot}
use blun_mq.Raft.Queue
use blun_mq.Raft.Queue.{QueueState}
use blun_mq.Raft.Queue.View.{view}
use blun_mq.Raft.Queue.Fifo.{pending}
use blun_mq.Raft.SnapshotId.{uuid_like_id}
use blun_mq.Raft.Store.{
  Store, new, apply, get_snapshot_builder, get_current_snapshot, build_snapshot, install_snapshot,
}
use blun_mq.Raft.Store.Log.{apply-append}
use blun_mq.Raft.Store.CatchUp.{InStep, catch_up}
use blun_mq.Raft.Store.Current.{current_snapshot}
use blun_mq.Raft.QueueStore.{queue_machine, dump, load}
use blun_mq.Raft.QueueStore.Laws.{queue_laws}
use blun_mq.Raft.QueueStore.StaleBuilder.{publish_entry, stale_builder_doubles}
use blun_mq.Raft.Nodes
use blun_mq.Raft.Nodes.{NodeDirectory}
use blun_mq.Raft.Nodes.Laws.{IsValid, apply_comm_idem}
use blun_mq.Tests.Codec.{dec_all}
use blun_mq.Tests.Instances.{numbers, queue_json, queue_json-IsFaithful}

abbrev spam : Text
spam = text "spam"

abbrev entries : List (Entry numbers QueueRequest)
entries =
    record { log_id = 1; payload = membership 3 }
    ∷ record { log_id = 2; payload = blank }
    ∷ publish_entry numbers 3 spam (7 ∷ [])
    ∷ record { log_id = 4; payload = normal (pop spam) }
    ∷ []

abbrev cells : Cells QueueState
cells a = Queue.empty

abbrev leader : Store numbers
leader = record { state = 0; last_applied = none; last_membership = (none, 0); snapshot = none }

abbrev follower : Store numbers
follower = record {
  state = 5;
  last_applied = some 9;
  last_membership = (some 9, 2);
  snapshot = none;
}

-- The snapshot of the empty state at the time 10.
abbrev snap : Snapshot numbers
snap = record {
  meta = record { last_log_id = none; last_membership = (none, 0); snapshot_id = text "a" };
  snapshot = 0 ∷ 0 ∷ [];
}

abbrev built : Store numbers
built = record leader { snapshot = some (record { meta = snap.meta; bytes = snap.snapshot }) }

first_build :
    build_snapshot numbers queue_machine queue_json 10 cells (get_snapshot_builder numbers leader)
    ≡ ok (snap, built)
unfolding build_snapshot get_snapshot_builder dump HashMap.collect uuid_like_id nat_eq
first_build = refl

abbrev first : List QueueResponse × Cells QueueState × Store numbers
first = apply numbers queue_machine cells leader entries

abbrev second : List QueueResponse × Cells QueueState × Store numbers
second = apply numbers queue_machine first.1 first.2 entries

apply-append_example :
    apply numbers queue_machine cells leader (entries ++ entries)
    ≡ (first.0 ++ second.0, second.1, second.2)
apply-append_example = apply-append numbers queue_machine cells leader entries entries

catch_up_example :
    (n : Cells QueueState × Store numbers) × (install_snapshot numbers queue_machine queue_json
        cells follower snap.meta snap.snapshot
      ≡ ok n)
    × ((apply numbers queue_machine cells leader entries).0
        ≡ (apply numbers queue_machine n.0 n.1 entries).0)
    × InStep numbers queue_machine queue_laws
        (apply numbers queue_machine cells leader entries).1
        (apply numbers queue_machine cells leader entries).2
        (apply numbers queue_machine n.0 n.1 entries).1
        (apply numbers queue_machine n.0 n.1 entries).2
catch_up_example =
    catch_up numbers queue_machine queue_json queue_laws queue_json-IsFaithful 10 cells leader snap
      built cells follower entries tt first_build

install_snap :
    install_snapshot numbers queue_machine queue_json cells leader snap.meta snap.snapshot
    ≡ ok (
      write 0 Queue.empty cells,
      record leader { snapshot = some (record { meta = snap.meta; bytes = snap.snapshot }) },
    )
unfolding install_snapshot load dec_all HashMap.collect
install_snap = refl

build_snap : build_snapshot numbers queue_machine queue_json 10 cells leader ≡ ok (snap, built)
unfolding build_snapshot dump HashMap.collect uuid_like_id nat_eq
build_snap = refl

current_snapshot_example :
    (get_current_snapshot numbers (new numbers 0) ≡ none)
    × (get_current_snapshot numbers (get_snapshot_builder numbers leader) ≡ none)
    × (get_current_snapshot numbers built ≡ some snap)
    × (get_current_snapshot numbers
          (record leader { snapshot = some (record { meta = snap.meta; bytes = snap.snapshot }) })
        ≡ some (record { meta = snap.meta; snapshot = snap.snapshot }))
    × (get_current_snapshot numbers (apply numbers queue_machine cells leader entries).2
        ≡ get_current_snapshot numbers leader)
current_snapshot_example =
    current_snapshot numbers queue_machine queue_json 10 0 cells leader entries snap built snap.meta
      snap.snapshot _ _ build_snap install_snap

-- The snapshot that a builder from before the publish makes after it: the queue with the message.
abbrev stale : Snapshot numbers
stale = record {
  meta = snap.meta;
  snapshot = 1 ∷ 4 ∷ 115 ∷ 112 ∷ 97 ∷ 109 ∷ 1 ∷ 0 ∷ 1 ∷ 7 ∷ 1 ∷ 4 ∷ 115 ∷ 112 ∷ 97 ∷ 109 ∷ 1 ∷ [];
}

abbrev published : Cells QueueState
published =
    (apply numbers queue_machine cells leader (publish_entry numbers 3 spam (7 ∷ []) ∷ [])).1

stale_built :
    build_snapshot numbers queue_machine queue_json 10 published
      (get_snapshot_builder numbers leader)
    ≡ ok (
      stale,
      record leader { snapshot = some (record { meta = stale.meta; bytes = stale.snapshot }) },
    )
unfolding build_snapshot get_snapshot_builder dump apply write Queue.apply HashMap.collect
    HashMap.get uuid_like_id nat_eq text_eq
stale_built = refl

stale_builder_doubles_example :
    (n : Cells QueueState × Store numbers) × (install_snapshot numbers queue_machine queue_json
        cells follower stale.meta stale.snapshot
      ≡ ok n)
    × (n.1.last_applied ≡ none)
    × (pending
          ((apply numbers queue_machine n.0 n.1 (publish_entry numbers 3 spam (7 ∷ []) ∷ [])).1
            n.1.state)
          spam
        ≡ (view Queue.empty spam).pending
          ++ ((view Queue.empty spam).next, 7 ∷ [])
            ∷ (((view Queue.empty spam).next + 1) % u64_mod, 7 ∷ [])
            ∷ [])
stale_builder_doubles_example =
    stale_builder_doubles numbers queue_json queue_json-IsFaithful 10 cells leader 3 spam (7 ∷ [])
      stale _ cells follower tt stale_built

abbrev directory : NodeDirectory
directory = record { nodes = (1, text "a") ∷ (3, text "c") ∷ [] }

directory-IsValid : IsValid directory
directory-IsValid = omega arith

abbrev commands : List NodeCommand
commands = upsert_node 2 (text "b") ∷ upsert_node 1 (text "x") ∷ upsert_node 1 (text "y") ∷ []

commands_run :
    (map_accum Nodes.apply directory commands).0.nodes
    ≡ (1, text "y") ∷ (2, text "b") ∷ (3, text "c") ∷ []
unfolding map_accum Nodes.apply BTreeMap.insert nat_eq
commands_run = refl

abbrev register : NodeDirectory → ℕ → Text → NodeDirectory
register d id addr = (Nodes.apply d (upsert_node id addr)).0

one-ne-two : ◌≢◌ {A = ℕ} 1 2
one-ne-two = omega arith

apply_comm_idem_example :
    (register (register directory 1 (text "x")) 2 (text "y")
      ≡ register (register directory 2 (text "y")) 1 (text "x"))
    × (register (register directory 1 (text "x")) 1 (text "x") ≡ register directory 1 (text "x"))
apply_comm_idem_example =
    apply_comm_idem directory 1 2 (text "x") (text "y") one-ne-two directory-IsValid
