-- ===== src/Host/Main.antt =====
-- `main` of src/Blun.Mq.Host/src/main.rs: a node is put together from its environment. What it shares
-- within the process are cells, each at a fixed address; openraft, tonic, sockets and the rest of
-- the world are parameters.
pub mod Made
pub mod Leads
pub mod Registers
pub mod Reported
pub mod Restarts
use blun_mq.Base.{ℕ, ◌++◌, Bool, Option, Text, text, Outcome, ok, err, panic, map_err, expect}
use blun_mq.Base.BTreeMap.{BTreeMap}
use blun_mq.Base.Cells.{Arc, Cells, write}
use blun_mq.Proto.{nodes, spam}
use blun_mq.Raft.Types.{QueueRequest, QueueResponse, NodeCommand, NodeResponse}
use blun_mq.Raft.Config.{Config, raft_config}
use blun_mq.Raft.Openraft.{Openraft}
use blun_mq.Raft.Engine.{Engine}
use blun_mq.Raft.LogStore.Open.{Files, RaftEngineLogStore, OpenError, open_store}
use blun_mq.Raft.Network
use blun_mq.Raft.Network.{Network, RaftHandle}
use blun_mq.Raft.Nodes
use blun_mq.Raft.Nodes.{NodeDirectory}
use blun_mq.Raft.NodeStore
use blun_mq.Raft.Queue
use blun_mq.Raft.Queue.{QueueState}
use blun_mq.Raft.Store
use blun_mq.Raft.Store.{Store}
use blun_mq.Host.Action.{Fallible, ◌>>=◌}
use blun_mq.Host.Environment.{SocketAddrs, Settings, SettingsError, settings}
use blun_mq.Host.RaftRpc.{RaftRpcImpl}
use blun_mq.Host.Service.{WriteError, Tonic, MqServiceImpl}
use blun_mq.Host.Status.{StatusState}
use blun_mq.Host.Start
use blun_mq.Host.Start.{Ended, bootstraps}

-- `openraft::Raft` at one type configuration.
pub record Raft (W Command Response : Type 0) : Type 1 where
  pub RaftError : Type 0
  pub InitializeError : Type 0
  pub debug : RaftError → Text
  pub client_write : Command → W → Outcome (WriteError RaftError) Response × W
  pub current_leader : W → Option ℕ
  pub initialize : BTreeMap Text → W → Outcome InitializeError (Unit {0}) × W
  pub rpc : RaftHandle W

-- The process and what is outside of it.
pub record World (e : Engine) (Outside : Type 0) : Type 0 where
  pub outside : Outside
  pub engines : Cells e.State
  pub directories : Cells NodeDirectory
  pub queues : Cells QueueState

-- The engines and states that `main` shares.
abbrev pub node_engine : Arc
node_engine = 0

abbrev pub queue_engine : Arc
queue_engine = 1

abbrev pub node_directory : Arc
node_directory = 0

abbrev pub queue_state : Arc
queue_state = 0

pub record Runtime (e : Engine) (o : Openraft) (n : SocketAddrs) (Outside : Type 0) : Type 1 where
  pub files : Files e Outside
  pub tonic : Tonic (World e Outside)
  pub sleep : ℕ → World e Outside → World e Outside
  pub Others : Type 0
  pub default_config : Others
  pub ConfigError : Type 0
  pub validate : Config Others → Outcome ConfigError (Config Others)
  pub Fatal : Type 0
  -- `openraft::Raft::new`
  pub new_node_raft :
      ℕ
      → Config Others
      → Network
      → RaftEngineLogStore
      → Store o
      → Fallible Fatal (World e Outside) (Raft (World e Outside) NodeCommand NodeResponse)
  pub new_queue_raft :
      ℕ
      → Config Others
      → Network
      → RaftEngineLogStore
      → Store o
      → Fallible Fatal (World e Outside) (Raft (World e Outside) QueueRequest QueueResponse)
  pub BindError : Type 0
  pub bind : n.SocketAddr → Fallible BindError (World e Outside) (Unit {0})

module _ {e : Engine} {o : Openraft} {n : SocketAddrs} {Outside : Type 0}
    (rt : Runtime e o n Outside) where
  -- The errors that end `main`.
  pub data StartError : Type 0 where
    invalid : SettingsError n.AddrParseError → StartError
    log_store : OpenError rt.files.IoError e.Error → StartError
    config : rt.ConfigError → StartError
    raft : rt.Fatal → StartError
    listener : rt.BindError → StartError

  abbrev pub Main {ℓ} : Type ℓ → Type ℓ
  Main A = Fallible StartError (World e Outside) A

  abbrev pub raised {ℓ} : {E : Type 0} {A : Type ℓ} → (E → StartError) → Outcome E A → Main A
  raised error result w = (map_err error result, w)

  abbrev pub awaited {ℓ} :
      {E : Type 0} {A : Type ℓ} → (E → StartError) → Fallible E (World e Outside) A → Main A
  awaited error call w = let (result, w') = call w in (map_err error result, w')

  -- What the services of a started node hold.
  pub record Node : Type 1 where
    pub settings : Settings n
    pub node_raft : Raft (World e Outside) NodeCommand NodeResponse
    pub queue_raft : Raft (World e Outside) QueueRequest QueueResponse
    pub initializes : Bool

  unfoldable pub open_log_store : Text → Arc → Main RaftEngineLogStore
  unfolding open_store
  open_log_store dir address w =
      let (result, cells, outside) = open_store rt.files dir address w.engines w.outside in
      (map_err log_store result, record w { engines = cells; outside = outside })

  valid_config : Main (Config rt.Others)
  valid_config = raised config (rt.validate (raft_config rt.default_config))

  -- The group of the node directory.
  abbrev pub NodeRaft : Type 1
  NodeRaft = Raft (World e Outside) NodeCommand NodeResponse

  new_node_raft : Settings n → RaftEngineLogStore → Config rt.Others → Main NodeRaft
  unfolding NodeStore.new Network.new
  new_node_raft s log c = awaited raft (
      rt.new_node_raft s.node_num c (Network.new s.peers nodes) log
        (NodeStore.new o node_directory))

  -- `Arc::new(Mutex::new(NodeDirectory::default()))`
  unfoldable pub new_node_directory : World e Outside → World e Outside
  unfolding write
  new_node_directory w = record w { directories = write node_directory Nodes.empty w.directories }

  unfoldable pub start_nodes : Settings n → Main NodeRaft
  unfolding new_node_directory open_log_store valid_config new_node_raft
  start_nodes s w =
      (open_log_store (s.data_dir ++ text "/nodes") node_engine >>= λ log.
      valid_config >>= new_node_raft s log)
        (new_node_directory w)

  -- The group of the queues.
  abbrev pub QueueRaft : Type 1
  QueueRaft = Raft (World e Outside) QueueRequest QueueResponse

  new_queue_raft : Settings n → RaftEngineLogStore → Config rt.Others → Main QueueRaft
  unfolding Store.new Network.new
  new_queue_raft s log c =
      awaited raft
        (rt.new_queue_raft s.node_num c (Network.new s.peers spam) log (Store.new o queue_state))

  unfoldable pub new_queue_state : World e Outside → World e Outside
  unfolding write
  new_queue_state w = record w { queues = write queue_state Queue.empty w.queues }

  unfoldable pub start_queues : Settings n → Main QueueRaft
  unfolding new_queue_state open_log_store valid_config new_queue_raft
  start_queues s w =
      (open_log_store (s.data_dir ++ text "/spam") queue_engine >>= λ log.
      valid_config >>= new_queue_raft s log)
        (new_queue_state w)

  ready : Settings n → NodeRaft → QueueRaft → Bool → Main Node
  ready s node_raft queue_raft lowest w = (
    ok (record {
      settings = s;
      node_raft = node_raft;
      queue_raft = queue_raft;
      initializes = lowest;
    }),
    w,
  )

  -- Whether the node initializes the groups.
  prepare : Settings n → NodeRaft → QueueRaft → Main Node
  unfolding bootstraps ready
  prepare s node_raft queue_raft = do
    lowest ← (λ w. (expect (bootstraps s.node_num s.peers), w))
    ready s node_raft queue_raft lowest

  -- From the environment to the node whose tasks are spawned next.
  unfoldable pub start : (Text → Option Text) → Main Node
  unfolding settings start_nodes start_queues prepare
  start env = do
    s ← raised invalid (settings n env)
    node_raft ← start_nodes s
    queue_raft ← start_queues s
    prepare s node_raft queue_raft

  -- The HTTP listener, after the tasks are spawned.
  unfoldable pub listen : Node → Main (Unit {0})
  listen node = awaited listener (rt.bind node.settings.http_addr)

  -- `MqServiceImpl` of the node.
  abbrev pub service : Node → MqServiceImpl (World e Outside)
  service node = record {
    node_id = node.settings.node_id;
    raft = record {
      RaftError = node.queue_raft.RaftError;
      debug = node.queue_raft.debug;
      client_write = node.queue_raft.client_write;
      current_leader = node.queue_raft.current_leader;
    };
    nodes_leader = node.node_raft.current_leader;
    locked_state = λ w. w.queues queue_state;
    peers = node.settings.peers;
    tonic = rt.tonic;
  }

  abbrev pub status_state : Node → StatusState (World e Outside)
  status_state node = record {
    node_id = node.settings.node_id;
    locked_state = λ w. w.queues queue_state;
    nodes_leader = node.node_raft.current_leader;
    queue_leader = node.queue_raft.current_leader;
  }

  abbrev pub raft_service : Node → RaftRpcImpl (World e Outside)
  raft_service node = record { node_raft = node.node_raft.rpc; queue_raft = node.queue_raft.rpc }

  -- The spawned tasks: the initialization of the groups on the node with the lowest number, and the
  -- registration, here `fuel` attempts of it.
  unfoldable pub initialize_nodes : Node → World e Outside → Ended × World e Outside
  unfolding Start.bootstrap
  initialize_nodes node = Start.bootstrap rt.sleep node.node_raft.initialize node.settings.peers

  unfoldable pub initialize_spam : Node → World e Outside → Ended × World e Outside
  unfolding Start.bootstrap
  initialize_spam node = Start.bootstrap rt.sleep node.queue_raft.initialize node.settings.peers

  unfoldable pub register_self : Node → ℕ → World e Outside → Ended × World e Outside
  unfolding Start.register
  register_self node =
      Start.register rt.sleep node.node_raft.client_write node.settings.peers
        (n.display node.settings.grpc_addr) node.settings.node_num
