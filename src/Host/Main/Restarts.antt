-- ===== src/Host/Main/Restarts.antt =====
-- src/Blun.Mq.Host/src/main.rs: a node that starts again on the disk that its last process left.
use mathlib.Core.List.{append_cancel_left}
use blun_mq.Base.{
  ℕ, ◌++◌, ◌≡◌, ◌≢◌, refl, sym, ◌∙◌, ap, subst, Option, Text, text, Bytes, Outcome, ok, ok_inj,
}
use blun_mq.Base.Cells.{Arc, Cells, write, write_self}
use blun_mq.Raft.Config.{Config}
use blun_mq.Proto.{nodes}
use blun_mq.Raft.Network
use blun_mq.Raft.Network.{Network}
use blun_mq.Raft.Openraft.{Openraft}
use blun_mq.Raft.Engine.{Engine, IsLawful}
use blun_mq.Raft.LogStore.Open.{Files, RaftEngineLogStore}
use blun_mq.Raft.LogStore.Open.Restart.{open_store-ok}
use blun_mq.Raft.Nodes
use blun_mq.Raft.Nodes.{NodeDirectory}
use blun_mq.Raft.Queue
use blun_mq.Raft.Queue.{QueueState}
use blun_mq.Raft.Store
use blun_mq.Raft.Store.{Store}
use blun_mq.Host.Environment
use blun_mq.Host.Environment.{SocketAddrs, Settings}
use blun_mq.Host.Main.{
  World, Runtime, queue_state, queue_engine, Node, start, new_node_directory, node_directory,
  node_engine, new_queue_state, open_log_store, NodeRaft,
}
use blun_mq.Host.Main.Made.{IsMade, start-IsMade}

module _ {e : Engine} (laws : IsLawful e) where
  -- The same contents.
  pub record Alike (t s : e.State) : Type 0 where
    pub messages : (r : ℕ) (key : Bytes) → laws.messages t r key ≡ laws.messages s r key
    pub entries : (r : ℕ) → laws.entries t r ≡ laws.entries s r

  -- What raft-engine and the file system document of directories that processes left: `Stands` says
  -- that a directory holds what an engine in a state has written. It is there, the engine that opens
  -- it holds that again, and the other directories stay as they are.
  pub record AreDurable {Disk : Type 0} (f : Files e Disk) : Type 1 where
    pub Stands : Text → e.State → Disk → Type 0
    pub existing :
        (dir : Text) (s : e.State) (d : Disk) → Stands dir s d → f.create_dir_all dir d ≡ (ok tt, d)
    pub opens :
        (dir : Text) (s : e.State) (d : Disk)
        → Stands dir s d
        → (t : e.State) × (d' : Disk) × (f.open_engine (f.config dir) d ≡ (ok t, d')) × Alike t s
    pub apart :
        (dir other : Text) (s : e.State) (d : Disk)
        → other ≢ dir
        → Stands other s d
        → Stands other s (f.open_engine (f.config dir) d).1

module _ {e : Engine} (laws : IsLawful e) {o : Openraft} {n : SocketAddrs} {Outside : Type 0}
    (rt : Runtime e o n Outside) (durable : AreDurable laws rt.files) where
  -- A log store is opened on what stands in its directory, and nothing else changes.
  record Opens (dir : Text) (address : Arc) (s : e.State) (w w' : World e Outside)
      (log : RaftEngineLogStore) : Type 0 where
    engine : Alike laws (w'.engines log.engine) s
    directories : w'.directories ≡ w.directories
    queues : w'.queues ≡ w.queues
    others :
        (other : Text) (t : e.State)
        → other ≢ dir
        → durable.Stands other t w.outside
        → durable.Stands other t w'.outside

  opened :
      (dir : Text) (address : Arc) (t : e.State) (d' : Outside) (w : World e Outside)
      → rt.files.create_dir_all dir w.outside ≡ (ok tt, w.outside)
      → rt.files.open_engine (rt.files.config dir) w.outside ≡ (ok t, d')
      → open_log_store rt dir address w ≡ (
        ok (record { engine = address }),
        record w { engines = write address t w.engines; outside = d' },
      )
  unfolding open_log_store
  opened dir address t d' w there opens =
      rw (open_store-ok rt.files dir address w.engines t w.outside d' there opens) refl

  open_log_store-Opens :
      (dir : Text) (address : Arc) (s : e.State) (w w' : World e Outside) (log : RaftEngineLogStore)
      → durable.Stands dir s w.outside
      → open_log_store rt dir address w ≡ (ok log, w')
      → Opens dir address s w w' log
  open_log_store-Opens dir address s w w' log stands h =
      let (t, d', opens, alike) = durable.opens dir s w.outside stands in
      let there = durable.existing dir s w.outside stands in
      let at = opened dir address t d' w there opens in
      let is_log : ◌≡◌ {A = RaftEngineLogStore} (record { engine = address }) log = cc in
      let is_w' : record w { engines = write address t w.engines; outside = d' } ≡ w' = cc in
      let now : World e Outside = record w { engines = write address t w.engines; outside = d' } in
      subst (λ v. Opens dir address s w v log) is_w'
        (subst (λ l. Opens dir address s w now l) is_log
          (record {
            engine = subst (λ u. Alike laws u s) (sym (write_self address t w.engines)) alike;
            directories = refl;
            queues = refl;
            others = λ other u ne stands'.
                subst (durable.Stands other u)
                  (ap (λ (r : Outcome e.Error e.State × Outside). r.1) opens)
                  (durable.apart dir other u w.outside ne stands');
          }))

  -- The directories of the two groups differ.
  apart_dirs : (data_dir : Text) → (data_dir ++ text "/spam") ≢ (data_dir ++ text "/nodes")
  apart_dirs data_dir h =
      let same = append_cancel_left data_dir (text "/spam") (text "/nodes") h in cc

  -- A process of a node ended and left the engines of its two groups in their directories. If the
  -- node starts again, its node group is made of a log store with all that the old one had and an
  -- empty directory of nodes, and its data group likewise of the other's log store and empty queues,
  -- so neither finds anything of the other, if making the node group leaves the other directory as
  -- it is.
  pub start_restores :
      (env : Text → Option Text) (w : World e Outside) (s : Settings n) (a b : e.State)
      {node : Node rt} {w' : World e Outside}
      → Environment.settings n env ≡ ok s
      → durable.Stands (s.data_dir ++ text "/nodes") a w.outside
      → durable.Stands (s.data_dir ++ text "/spam") b w.outside
      → ((num : ℕ) (c : Config rt.Others) (net : Network) (log : RaftEngineLogStore) (st : Store o)
            (v : World e Outside)
          → durable.Stands (s.data_dir ++ text "/spam") b v.outside
          → durable.Stands
              (s.data_dir ++ text "/spam")
              b
              (rt.new_node_raft num c net log st v).1.outside)
      → start rt env w ≡ (ok node, w')
      → (made : IsMade rt env w node) × Alike laws (made.node_before.engines made.node_log.engine) a
        × (made.node_before.directories node_directory ≡ Nodes.empty)
        × Alike laws (made.queue_before.engines made.queue_log.engine) b
        × (made.queue_before.queues queue_state ≡ Queue.empty)
  unfolding new_node_directory new_queue_state
  start_restores env w s a b reads nodes_stand spam_stands keeps h =
      let made = start-IsMade rt env w h in
      let same : s ≡ made.settings = ok_inj (sym reads ∙ made.read) in
      let nodes_open =
        open_log_store-Opens (made.settings.data_dir ++ text "/nodes") node_engine a
          (new_node_directory rt w) made.node_before made.node_log
          (subst (λ (x : Settings n). durable.Stands (x.data_dir ++ text "/nodes") a w.outside) same
            nodes_stand)
          made.node_opened in
      let spam_there =
        nodes_open.others (made.settings.data_dir ++ text "/spam") b
          (apart_dirs made.settings.data_dir)
          (subst (λ (x : Settings n). durable.Stands (x.data_dir ++ text "/spam") b w.outside) same
            spam_stands) in
      let kept =
        subst
          (λ (x : Settings n).
            durable.Stands (x.data_dir ++ text "/spam") b made.node_before.outside
            → durable.Stands (x.data_dir ++ text "/spam") b
                (rt.new_node_raft made.settings.node_num made.node_config
                  (Network.new made.settings.peers nodes) made.node_log (Store.new o node_directory)
                  made.node_before).1.outside)
          same
          (keeps made.settings.node_num made.node_config (Network.new made.settings.peers nodes)
            made.node_log (Store.new o node_directory) made.node_before)
          spam_there in
      let spam_after =
        subst
          (λ (r : Outcome rt.Fatal (NodeRaft rt) × World e Outside).
            durable.Stands (made.settings.data_dir ++ text "/spam") b r.1.outside)
          made.node_raft kept in
      let spam_opens =
        open_log_store-Opens (made.settings.data_dir ++ text "/spam") queue_engine b
          (new_queue_state rt made.node_after) made.queue_before made.queue_log spam_after
          made.queue_opened in
      (
        made,
        nodes_open.engine,
        ap (λ (d : Cells NodeDirectory). d node_directory) nodes_open.directories
            ∙ write_self node_directory Nodes.empty w.directories,
        spam_opens.engine,
        ap (λ (q : Cells QueueState). q queue_state) spam_opens.queues
            ∙ write_self queue_state Queue.empty made.node_after.queues,
      )
