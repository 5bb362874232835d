-- ===== src/Host/Main/Made.antt =====
-- src/Blun.Mq.Host/src/main.rs: what `Raft::new` was given by a start that succeeded.
use blun_mq.Base.{
  ◌++◌, ◌≡◌, sym, ◌∙◌, ap, Option, Text, text, Outcome, ok, err, panic, map_err, expect,
}
use blun_mq.Base.Cells.{Arc}
use blun_mq.Proto.{spam, nodes}
use blun_mq.Raft.Config.{Config}
use blun_mq.Raft.Openraft.{Openraft}
use blun_mq.Raft.Engine.{Engine}
use blun_mq.Raft.LogStore.Open.{RaftEngineLogStore}
use blun_mq.Raft.Network
use blun_mq.Raft.Network.{Network}
use blun_mq.Raft.NodeStore
use blun_mq.Raft.Store
use blun_mq.Raft.Store.{Machine, Store, apply}
use blun_mq.Host.Action.{chain_succeeded, ◌>>=◌}
use blun_mq.Host.Environment
use blun_mq.Host.Environment.{SocketAddrs, Settings, SettingsError}
use blun_mq.Host.Start.{bootstraps}
use blun_mq.Host.Main.{
  World, Runtime, queue_state, queue_engine, Node, StartError, invalid, raft, raised, start,
  start_nodes, start_queues, new_node_directory, new_node_raft, node_directory, node_engine, Main,
  new_queue_state, open_log_store, valid_config, new_queue_raft, QueueRaft, NodeRaft, prepare,
  ready,
}

module _ {e : Engine} {o : Openraft} {n : SocketAddrs} {Outside : Type 0}
    (rt : Runtime e o n Outside) where
  awaited-succeeded {ℓ} :
      {E : Type 0} {A : Type ℓ} (error : E → StartError rt) (r : Outcome E A × World e Outside)
      {a : A} {w' : World e Outside}
      → ◌≡◌ {A = Outcome (StartError rt) A × World e Outside} (map_err error r.0, r.1) (ok a, w')
      → r ≡ (ok a, w')
  awaited-succeeded error (ok a, w) h = cc
  awaited-succeeded error (err x, w) h = absurd (cc)
  awaited-succeeded error (panic, w) h = absurd (cc)

  -- A group is made last, out of its log store and the checked configuration.
  group-made :
      {R : Type 1} (dir : Text) (address : Arc)
      (new : RaftEngineLogStore → Config rt.Others → Main rt R) (w : World e Outside) {r : R}
      {w' : World e Outside}
      → (open_log_store rt dir address >>= λ log. valid_config rt >>= new log) w ≡ (ok r, w')
      → (log : RaftEngineLogStore) × (c : Config rt.Others) × (v : World e Outside)
        × (open_log_store rt dir address w ≡ (ok log, v))
        × (new log c v ≡ (ok r, w'))
  unfolding valid_config
  group-made dir address new w h =
      let (log, w₁, opened, h₁) =
        chain_succeeded (open_log_store rt dir address) (λ log. valid_config rt >>= new log) {s = w}
          h in
      let (c, v, valid, h₂) = chain_succeeded (valid_config rt) (new log) {s = w₁} h₁ in
      let same : w₁ ≡ v =
        ap (λ (r : Outcome (StartError rt) (Config rt.Others) × World e Outside). r.1) valid in
      (log, c, v, opened ∙ ap (λ u. (ok log, u)) same, h₂)

  prepare-groups :
      (s : Settings n) (nr : NodeRaft rt) (qr : QueueRaft rt) (w : World e Outside) {node : Node rt}
      {w' : World e Outside}
      → prepare rt s nr qr w ≡ (ok node, w')
      → (node.node_raft ≡ nr) × (node.queue_raft ≡ qr)
  unfolding prepare ready
  prepare-groups s nr qr w h =
      let (lowest, w₁, _, h₁) =
        chain_succeeded {B = Node rt} (λ w. (expect (bootstraps s.node_num s.peers), w))
          (λ lowest. ready rt s nr qr lowest) {s = w} h in
      (cc, cc)

  -- The groups of a node that started are what `Raft::new` made, each with a store over the state
  -- that the node shares, and with the group's own network.
  pub record IsMade (env : Text → Option Text) (w : World e Outside) (node : Node rt) : Type 1 where
    pub settings : Settings n
    pub read : Environment.settings n env ≡ ok settings
    pub node_config : Config rt.Others
    pub queue_config : Config rt.Others
    pub node_log : RaftEngineLogStore
    pub queue_log : RaftEngineLogStore
    pub node_before : World e Outside
    pub node_after : World e Outside
    pub queue_before : World e Outside
    pub queue_after : World e Outside
    pub node_opened :
        open_log_store rt (settings.data_dir ++ text "/nodes") node_engine (new_node_directory rt w)
        ≡ (ok node_log, node_before)
    pub queue_opened :
        open_log_store rt
          (settings.data_dir ++ text "/spam")
          queue_engine
          (new_queue_state rt node_after)
        ≡ (ok queue_log, queue_before)
    pub node_raft :
        rt.new_node_raft settings.node_num node_config
          (Network.new settings.peers nodes)
          node_log
          (Store.new o node_directory)
          node_before
        ≡ (ok node.node_raft, node_after)
    pub queue_raft :
        rt.new_queue_raft settings.node_num queue_config
          (Network.new settings.peers spam)
          queue_log
          (Store.new o queue_state)
          queue_before
        ≡ (ok node.queue_raft, queue_after)

  pub start-IsMade :
      (env : Text → Option Text) (w : World e Outside) {node : Node rt} {w' : World e Outside}
      → start rt env w ≡ (ok node, w')
      → IsMade env w node
  unfolding start start_nodes start_queues new_node_raft new_queue_raft NodeStore.new
  start-IsMade env w h =
      let (s, w₁, reads, h₁) =
        chain_succeeded (raised rt invalid (Environment.settings n env))
          (λ s. start_nodes rt s >>= λ nr. start_queues rt s >>= λ qr. prepare rt s nr qr) {s = w}
          h in
      let now : ◌≡◌ {A = Outcome (SettingsError n.AddrParseError) (Settings n) × World e Outside}
          (Environment.settings n env, w) (ok s, w₁) =
        awaited-succeeded invalid (Environment.settings n env, w) reads in
      let (nr, w₂, nodes_made, h₂) =
        chain_succeeded (start_nodes rt s) (λ nr. start_queues rt s >>= λ qr. prepare rt s nr qr)
          {s = w₁} h₁ in
      let (qr, w₃, queues_made, h₃) =
        chain_succeeded (start_queues rt s) (λ qr. prepare rt s nr qr) {s = w₂} h₂ in
      let (is_nr, is_qr) = prepare-groups s nr qr w₃ h₃ in
      let (node_log, node_config, v, opened, made) =
        group-made (s.data_dir ++ text "/nodes") node_engine (new_node_raft rt s)
          (new_node_directory rt w₁) nodes_made in
      let (queue_log, queue_config, u, opened', made') =
        group-made (s.data_dir ++ text "/spam") queue_engine (new_queue_raft rt s)
          (new_queue_state rt w₂) queues_made in
      record {
        settings = s;
        read =
            ap
              (λ (r : Outcome (SettingsError n.AddrParseError) (Settings n) × World e Outside). r.0)
              now;
        node_config = node_config;
        queue_config = queue_config;
        node_log = node_log;
        queue_log = queue_log;
        node_before = v;
        node_after = w₂;
        queue_before = u;
        queue_after = w₃;
        node_opened =
            ap
              (λ v.
                open_log_store rt (s.data_dir ++ text "/nodes") node_engine
                  (new_node_directory rt v))
              (ap
                (λ (r : Outcome (SettingsError n.AddrParseError) (Settings n) × World e Outside).
                  r.1)
                now)
            ∙ opened;
        queue_opened = opened';
        node_raft =
            awaited-succeeded raft _ made ∙ ap (λ (r : NodeRaft rt). (ok r, w₂)) (sym is_nr);
        queue_raft =
            awaited-succeeded raft _ made' ∙ ap (λ (r : QueueRaft rt). (ok r, w₃)) (sym is_qr);
      }
