-- ===== src/Raft/Nodes/Group.antt =====
-- The directory on the nodes of a group.
use mathlib.Core.Quot
use mathlib.Core.Quot.{Quot}
use blun_mq.Base.{ℕ, ◌≡◌, ◌∙◌, ap, List, ◌++◌, Option, none, Text}
use blun_mq.Base.BTreeMap.{BTreeMap, get}
use blun_mq.Base.Cells.{Arc}
use blun_mq.Raft.Openraft.{Openraft, Entry}
use blun_mq.Raft.Serde.{Serde, IsFaithful}
use blun_mq.Raft.Types.{NodeCommand}
use blun_mq.Raft.Nodes.{NodeDirectory, empty, node_machine}
use blun_mq.Raft.Nodes.Laws.{IsValid, node_laws, last_address, get-run}
use blun_mq.Raft.Store.Log.{requests, last_id}
use blun_mq.Raft.Store.Replica.{Replica, replay}
use blun_mq.Raft.Store.Group.{Group, Steps, fresh}
use blun_mq.Raft.Store.Group.Agree.{group-Reached}

pub address-set : IsSet (Option Text)
address-set = hlevel

-- A node's address in a replica.
address_in : ℕ → Replica node_laws → Option Text
address_in id =
    Quot.lift address-set (λ (d : NodeDirectory). get id d.nodes)
      (λ d e h. ap (λ (x : NodeDirectory). get id x.nodes) h)

module _ {E : Type 0} (o : Openraft) (json : Serde E (BTreeMap Text))
    (faithful : IsFaithful node_laws.SamePayload json) where
  -- However the nodes of the directory's group commit, apply, build and install snapshots and start
  -- anew, where a builder builds with no entry applied in between: each node has applied a first part
  -- of the committed log, and its directory, in ascending order of the ids, has for each id the
  -- address of the last registration there, or none.
  pub group_registers :
      (handles : ℕ → Arc) {g : Group o node_machine json empty}
      → Steps o node_machine json empty (fresh o node_machine json empty handles) g
      → (i : ℕ)
      → (before : List (Entry o NodeCommand)) × (after : List (Entry o NodeCommand)) × (g.log
          ≡ before ++ after)
        × ((g.nodes i).store.last_applied ≡ last_id o none before)
        × IsValid ((g.nodes i).cells (g.nodes i).store.state)
        × ((id : ℕ)
            → get id ((g.nodes i).cells (g.nodes i).store.state).nodes
              ≡ last_address id none (requests o before))
  unfolding address_in replay get
  group_registers handles {g = g} steps i =
      let h = group-Reached o node_machine json node_laws empty faithful tt handles steps i in
      let p = h.prefix in
      (
        p.before,
        p.after,
        p.splits,
        p.applies,
        h.valid,
        λ id. ap (address_in id) p.replays ∙ (get-run id empty (requests o p.before) tt).0,
      )
