-- ===== src/Raft/Nodes.antt =====
-- src/Blun.Mq.Raft/src/node_state_machine.rs: the directory of the cluster's nodes, and its state
-- machine for the stores of Raft.Store. A `NodeStateMachineStore` is a store over it.
pub mod Laws
pub mod Group
use blun_mq.Base.{ℕ, List, [], Text}
use blun_mq.Base.BTreeMap.{BTreeMap, insert}
use blun_mq.Base.Cells.{Cells}
use blun_mq.Base.{Option, Outcome, Bytes}
use blun_mq.Raft.Openraft.{Openraft, Entry, SnapshotMeta, Snapshot}
use blun_mq.Raft.Serde.{Serde}
use blun_mq.Raft.Store
use blun_mq.Raft.Store.{Machine, Store}
use blun_mq.Raft.Types.{NodeCommand, upsert_node, NodeResponse, node_response}

pub record NodeDirectory : Type 0 where
  pub nodes : BTreeMap Text

-- `NodeDirectory::default()`
abbrev pub empty : NodeDirectory
empty = record { nodes = [] }

unfoldable pub apply : NodeDirectory → NodeCommand → NodeDirectory × NodeResponse
apply d (upsert_node id addr) = (record { nodes = insert id addr d.nodes }, node_response)

-- A snapshot is the map itself.
abbrev pub dump : NodeDirectory → BTreeMap Text
dump d = d.nodes

abbrev pub load : BTreeMap Text → NodeDirectory → NodeDirectory
load nodes d = record { nodes = nodes }

abbrev pub node_machine : Machine
node_machine = record {
  State = NodeDirectory;
  Request = NodeCommand;
  Response = NodeResponse;
  Payload = BTreeMap Text;
  default_response = node_response;
  apply = apply;
  dump = dump;
  load = load;
}
