-- ===== src/Host/Main/Leads.antt =====
-- src/Blun.Mq.Host/src/main.rs: the groups of a started node act on the states that its services share.
use blun_mq.Base.{ℕ, ◌≡◌, sym, ◌∙◌, ap, [], ◌∷◌, Option, Text, ok}
use blun_mq.Base.Cells.{Cells, write, write_self}
use blun_mq.Proto.{spam}
use blun_mq.Raft.Config.{Config}
use blun_mq.Raft.Openraft.{Openraft, normal}
use blun_mq.Raft.Engine.{Engine}
use blun_mq.Raft.LogStore.Open.{RaftEngineLogStore}
use blun_mq.Raft.Network
use blun_mq.Raft.Network.{Network}
use blun_mq.Raft.Store
use blun_mq.Raft.Store.{Machine, Store, apply}
use blun_mq.Raft.QueueStore.{queue_machine}
use blun_mq.Host.Environment.{SocketAddrs}
use blun_mq.Host.Service.Leading.{IsLeading}
use blun_mq.Host.Main.Made.{start-IsMade}
use blun_mq.Host.Main.{Raft, World, Runtime, queue_state, Node, start, service, QueueRaft}

-- On a node that leads a group in every world that is looked at, a write becomes the next entry that openraft gives to the store
-- that `Raft::new` was given, whose handle never changes, and is answered by the store's response.
pub record IsLeader {e : Engine} {Outside : Type 0} (o : Openraft) (m : Machine)
    (cells : World e Outside → Cells m.State) (st : Store o)
    (r : Raft (World e Outside) m.Request m.Response) : Type 0 where
  pub log_id : m.Request → World e Outside → o.LogId
  pub store : World e Outside → Store o
  pub store-state : (w : World e Outside) → (store w).state ≡ st.state
  pub writes :
      (req : m.Request) (w : World e Outside)
      → let (responses, cells', st') =
          apply o m
            (cells w)
            (store w)
            (record { log_id = log_id req w; payload = normal req } ∷ []) in
        (response : m.Response) × (responses ≡ response ∷ [])
        × ((r.client_write req w).0 ≡ ok response)
        × (cells (r.client_write req w).1 ≡ cells')

module _ {e : Engine} {Outside : Type 0} {o : Openraft} (m : Machine)
    (cells : World e Outside → Cells m.State) (st : Store o)
    {r : Raft (World e Outside) m.Request m.Response} (leads : IsLeader o m cells st r) where
  -- A write changes the state behind the handle, and is answered, as the machine does.
  pub IsLeader-writes :
      (req : m.Request) (w : World e Outside)
      → ((r.client_write req w).0 ≡ ok (m.apply (cells w st.state) req).1)
        × (cells (r.client_write req w).1 st.state ≡ (m.apply (cells w st.state) req).0)
  unfolding apply
  IsLeader-writes req w =
      let (x, one, answered, wrote) = leads.writes req w in
      let same = leads.store-state w in
      let reply : (m.apply (cells w (leads.store w).state) req).1 ≡ x = cc in
      let state : (m.apply (cells w st.state) req).0
          ≡ write st.state (m.apply (cells w st.state) req).0 (cells w) st.state =
        sym (write_self st.state (m.apply (cells w st.state) req).0 (cells w)) in
      (
        answered ∙ ap ok (sym reply ∙ ap (λ a. (m.apply (cells w a) req).1) same),
        ap (λ (c : Cells m.State). c st.state) wrote
            ∙ ap (λ a. write a (m.apply (cells w a) req).0 (cells w) st.state) same
            ∙ sym state,
      )

module _ {e : Engine} {o : Openraft} {n : SocketAddrs} {Outside : Type 0}
    (rt : Runtime e o n Outside) where
  service-IsLeading :
      (node : Node rt)
      → IsLeader o queue_machine (λ w. w.queues) (Store.new o queue_state) node.queue_raft
      → IsLeading (service rt node)
  unfolding Store.new
  service-IsLeading node leads =
      let writes = IsLeader-writes queue_machine (λ w. w.queues) (Store.new o queue_state) leads in
      record { answers = λ req w. (writes req w).0; applies = λ req w. (writes req w).1 }

  -- If the data group's openraft, as `Raft::new` makes it, leads with the store that it is given, a
  -- node that starts leads: each write through its services acts on the state whose depths they
  -- report, as the queues do, and is answered so.
  pub start-IsLeading :
      (env : Text → Option Text) (w : World e Outside) {node : Node rt} {w' : World e Outside}
      → ((num : ℕ) (c : Config rt.Others) (net : Network) (log : RaftEngineLogStore) (st : Store o)
            (v v' : World e Outside) (r : QueueRaft rt)
          → rt.new_queue_raft num c net log st v ≡ (ok r, v')
          → IsLeader o queue_machine (λ w. w.queues) st r)
      → start rt env w ≡ (ok node, w')
      → IsLeading (service rt node)
  start-IsLeading env w {node = node} leads h =
      let made = start-IsMade rt env w h in
      service-IsLeading node (
        leads made.settings.node_num made.queue_config (Network.new made.settings.peers spam)
          made.queue_log (Store.new o queue_state) made.queue_before made.queue_after
          node.queue_raft made.queue_raft)
