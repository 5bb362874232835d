-- ===== src/Raft/Store/Group.antt =====
-- The stores of a Raft group, of src/Blun.Mq.Raft/src/state_machine.rs and node_state_machine.rs, as
-- openraft drives them: the entries that are committed come in one order, and each node applies
-- those that follow its last applied id, builds and installs snapshots, and starts anew.
pub mod Prefix
pub mod Reached
pub mod Agree
use blun_mq.Base.{ℕ, ◌≡◌, List, [], ◌∷◌, ◌++◌, length, ok, nat_eq, ◌==◌, if◌then◌else◌, none}
use blun_mq.Base.Cells.{Arc, Cells}
use blun_mq.Raft.Openraft.{Openraft, Entry, Snapshot}
use blun_mq.Raft.Serde.{Serde}
use blun_mq.Raft.LogStore.Append.{Run}
use blun_mq.Raft.Store.{
  Machine, Store, new, apply, get_snapshot_builder, build_snapshot, install_snapshot,
}
use blun_mq.Raft.Store.Log.{last_id}

module _ {E : Type 0} (o : Openraft) (m : Machine) (json : Serde E m.Payload)
    (initial : m.State) where
  -- What a node's process holds.
  pub record Node : Type 0 where
    pub cells : Cells m.State
    pub store : Store o

  -- A process that starts, its state machine behind the handle.
  unfoldable pub started : Arc → Node
  unfolding new
  started a = record { cells = λ b. initial; store = new o a }

  -- The committed entries, the nodes, and the snapshots that were built.
  pub record Group : Type 0 where
    pub log : List (Entry o m.Request)
    pub nodes : ℕ → Node
    pub snapshots : List (Snapshot o)

  abbrev pub put : ℕ → Node → (ℕ → Node) → ℕ → Node
  put i node nodes j = if i == j then node else nodes j

  unfoldable pub applying : Node → List (Entry o m.Request) → Node
  unfolding apply
  applying node es =
      let (responses, cells, store) = apply o m node.cells node.store es in
      record { cells = cells; store = store }

  -- A builder is made and builds with no entry applied to its node in between.
  pub data Step : Group → Group → Type 0 where
    commits :
        (g : Group) (es : List (Entry o m.Request))
        → Run o (length g.log) es
        → Step g (record g { log = g.log ++ es })
    applies :
        (g : Group) (i : ℕ) (before es after : List (Entry o m.Request))
        → g.log ≡ before ++ (es ++ after)
        → (g.nodes i).store.last_applied ≡ last_id o none before
        → Step g (record g { nodes = put i (applying (g.nodes i) es) g.nodes })
    builds :
        (g : Group) (i now : ℕ) (snap : Snapshot o) (built : Store o)
        → build_snapshot o m json now (g.nodes i).cells (get_snapshot_builder o (g.nodes i).store)
          ≡ ok (snap, built)
        → Step g (record g { snapshots = snap ∷ g.snapshots })
    installs :
        (g : Group) (i : ℕ) (before : List (Snapshot o)) (snap : Snapshot o)
        (after : List (Snapshot o)) (cells : Cells m.State) (store : Store o)
        → g.snapshots ≡ before ++ snap ∷ after
        → install_snapshot o m json (g.nodes i).cells (g.nodes i).store snap.meta snap.snapshot
          ≡ ok (cells, store)
        → Step g (record g { nodes = put i (record { cells = cells; store = store }) g.nodes })
    restarts :
        (g : Group) (i : ℕ) (a : Arc) → Step g (record g { nodes = put i (started a) g.nodes })

  pub data Steps : Group → Group → Type 0 where
    done : (g : Group) → Steps g g
    next : {g h k : Group} → Step g h → Steps h k → Steps g k

  -- Nodes that start, with nothing committed.
  abbrev pub fresh : (ℕ → Arc) → Group
  fresh handles = record { log = []; nodes = λ i. started (handles i); snapshots = [] }
