-- ===== src/Raft/NodeStore.antt =====
-- `NodeStateMachineStore` of src/Blun.Mq.Raft/src/node_state_machine.rs: its methods are those of
-- `StateMachineStore` line for line, over the directory.
use blun_mq.Base.{ℕ, List, Option, Bytes, Text, Outcome}
use blun_mq.Base.BTreeMap.{BTreeMap}
use blun_mq.Base.Cells.{Arc, Cells}
use blun_mq.Raft.Openraft.{Openraft, Entry, SnapshotMeta, Snapshot}
use blun_mq.Raft.Serde.{Serde}
use blun_mq.Raft.Store
use blun_mq.Raft.Types.{NodeCommand, NodeResponse}
use blun_mq.Raft.Nodes.{NodeDirectory, node_machine}

module _ (o : Openraft) where
  abbrev pub NodeStore : Type 0
  NodeStore = Store.Store o

  unfoldable pub new : Arc → NodeStore
  unfolding Store.new
  new = Store.new o

  unfoldable pub applied_state : NodeStore → Option o.LogId × o.StoredMembership
  unfolding Store.applied_state
  applied_state = Store.applied_state o

  unfoldable pub apply :
      Cells NodeDirectory
      → NodeStore
      → List (Entry o NodeCommand)
      → List NodeResponse × Cells NodeDirectory × NodeStore
  unfolding Store.apply
  apply = Store.apply o node_machine

  unfoldable pub get_snapshot_builder : NodeStore → NodeStore
  unfolding Store.get_snapshot_builder
  get_snapshot_builder = Store.get_snapshot_builder o

  unfoldable pub begin_receiving_snapshot : NodeStore → Bytes
  unfolding Store.begin_receiving_snapshot
  begin_receiving_snapshot = Store.begin_receiving_snapshot o

  unfoldable pub get_current_snapshot : NodeStore → Option (Snapshot o)
  unfolding Store.get_current_snapshot
  get_current_snapshot = Store.get_current_snapshot o

module _ {E : Type 0} (o : Openraft) (json : Serde E (BTreeMap Text)) where
  unfoldable pub build_snapshot :
      ℕ → Cells NodeDirectory → NodeStore o → Outcome E (Snapshot o × NodeStore o)
  unfolding Store.build_snapshot
  build_snapshot = Store.build_snapshot o node_machine json

  unfoldable pub install_snapshot :
      Cells NodeDirectory
      → NodeStore o
      → SnapshotMeta o
      → Bytes
      → Outcome E (Cells NodeDirectory × NodeStore o)
  unfolding Store.install_snapshot
  install_snapshot = Store.install_snapshot o node_machine json
