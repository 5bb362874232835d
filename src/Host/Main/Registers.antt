-- ===== src/Host/Main/Registers.antt =====
-- src/Blun.Mq.Host/src/main.rs: a started node's registration of itself.
use blun_mq.Base.{◌≡◌, List, ◌∷◌, ◌++◌, get_or, Text, ok}
use blun_mq.Base.BTreeMap.{get}
use blun_mq.Base.Cells.{Cells}
use blun_mq.Raft.Types.{NodeCommand, upsert_node}
use blun_mq.Raft.Config.{Config}
use blun_mq.Raft.Openraft.{Openraft, Entry, normal}
use blun_mq.Raft.Engine.{Engine}
use blun_mq.Raft.Network
use blun_mq.Raft.Network.{Network}
use blun_mq.Raft.Store
use blun_mq.Raft.Store.{Machine, Store, apply}
use blun_mq.Host.Environment.{SocketAddrs}
use blun_mq.Host.Start
use blun_mq.Host.Main.{Raft, World, Runtime, Node}

-- What openraft documents of a write: when it is answered, its entry was given to the store of
-- `Raft::new`, whose handle never changes, with whatever entries came before and after it in the
-- meantime. Nothing is said of a write that fails.
pub record IsReplicating {e : Engine} {Outside : Type 0} (o : Openraft) (m : Machine)
    (cells : World e Outside → Cells m.State) (st : Store o)
    (r : Raft (World e Outside) m.Request m.Response) : Type 0 where
  pub applied :
      (req : m.Request) (w : World e Outside) (response : m.Response)
      → (r.client_write req w).0 ≡ ok response
      → (before : List (Entry o m.Request)) × (after : List (Entry o m.Request))
        × (log_id : o.LogId) × (now : Store o) × (now.state ≡ st.state)
        × (cells (r.client_write req w).1
            ≡ (apply o m
                (cells w)
                now
                (before ++ record { log_id = log_id; payload = normal req } ∷ after)).1)

module _ {e : Engine} {o : Openraft} {n : SocketAddrs} {Outside : Type 0}
    (rt : Runtime e o n Outside) where
  -- The address under which a node registers: that of MQ_PEERS, or the one it listens on.
  abbrev pub own_addr : Node rt → Text
  own_addr node =
      get_or (get node.settings.node_num node.settings.peers) (n.display node.settings.grpc_addr)

  -- The command of an attempt to register.
  abbrev pub own_command : Node rt → NodeCommand
  own_command node = upsert_node node.settings.node_num (own_addr node)
