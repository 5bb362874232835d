-- ===== src/Tests/OneNode.antt =====
-- What a node that starts in an empty environment runs on: the engine in memory and an openraft that
-- leads.
use blun_mq.Base.{
  Outcome, List, text, ℕ, [], ◌∷◌, Option, none, some, Text, text_eq, nat_eq, ok, err,
}
use blun_mq.Base.Cells.{write}
use blun_mq.Proto.{unavailable}
use blun_mq.Raft.Network.{RaftHandle, Call}
use blun_mq.Raft.Types.{QueueRequest, QueueResponse, NodeCommand, NodeResponse}
use blun_mq.Raft.Nodes
use blun_mq.Raft.Nodes.{node_machine}
use blun_mq.Raft.Queue
use blun_mq.Raft.Store.{Store}
use blun_mq.Host.Environment.{SocketAddrs}
use blun_mq.Host.Service.{forward_to_leader, WriteError, Tonic}
use blun_mq.Host.Main.{Raft, World, Runtime}
use blun_mq.Tests.Cluster.{parsed}
use blun_mq.Tests.Disk.{Disk, disk_files, fresh}
use blun_mq.Tests.Instances.{numbers, memory}

abbrev pub sockets : SocketAddrs
sockets = record {
  SocketAddr = Text;
  AddrParseError = ℕ;
  parse = λ s. ok s;
  port = λ s. 5001;
  display = λ s. s;
}

abbrev pub empty_environment : Text → Option Text
empty_environment name = none

abbrev pub Here : Type 0
Here = World memory Disk

abbrev pub unreachable : Tonic Here
unreachable = record {
  Endpoint = Text;
  Channel = Text;
  InvalidUri = ℕ;
  display = λ e. e ∷ [];
  from_shared = parsed;
  connect_lazy = λ endpoint. endpoint;
  publish = λ ch request w. (err (record { code = unavailable; message = [] }), w);
  Inbound = ℕ;
  consume = λ ch request w. (ok 0, w);
  next_within = λ ms inbound w. (none, w);
}

abbrev pub silent : Call Here
silent = record {
  JsonError = ℕ;
  RaftError = ℕ;
  Request = Text;
  Response = Text;
  request = record { to_vec = λ b. ok b; from_slice = λ d. ok d };
  response = record { to_vec = λ b. ok b; from_slice = λ d. ok d };
  run = λ request w. (err 0, w);
  debug_json = λ e. e ∷ [];
  debug_raft = λ e. e ∷ [];
}

abbrev pub rpc : RaftHandle Here
rpc = record { append_entries = silent; vote = silent; install_snapshot = silent }

-- The node group has a leader from the first pause on, which leaves a mark.
abbrev pub mark : ℕ
mark = 9

abbrev pub marked : Here → Here
marked w = record w {
  queues = write mark (record { queues = []; next_offset = (text "", 0) ∷ [] }) w.queues;
}

abbrev pub attempted :
    Store numbers
    → NodeCommand
    → Here
    → List (Text × ℕ)
    → Outcome (WriteError ℕ) NodeResponse × Here
attempted st req w [] = (err (forward_to_leader none), w)
attempted st req w (_ ∷ _) =
    let (d, x) = Nodes.apply (w.directories st.state) req in
    (ok x, record w { directories = write st.state d w.directories })

-- A write is applied at once.
abbrev pub node_raft : Store numbers → Raft Here NodeCommand NodeResponse
node_raft st = record {
  RaftError = ℕ;
  InitializeError = ℕ;
  debug = λ e. e ∷ [];
  client_write = λ req w. attempted st req w (w.queues mark).next_offset;
  current_leader = λ w. some 1;
  initialize = λ members w. (ok tt, w);
  rpc = rpc;
}

abbrev pub queue_raft : Store numbers → Raft Here QueueRequest QueueResponse
queue_raft st = record {
  RaftError = ℕ;
  InitializeError = ℕ;
  debug = λ e. e ∷ [];
  client_write = λ req w.
      let (s, x) = Queue.apply (w.queues st.state) req in
      (ok x, record w { queues = write st.state s w.queues });
  current_leader = λ w. some 1;
  initialize = λ members w. (ok tt, w);
  rpc = rpc;
}

abbrev pub runtime : Runtime memory numbers sockets Disk
runtime = record {
  files = disk_files;
  tonic = unreachable;
  sleep = λ ms w. marked w;
  Others = ℕ;
  default_config = 0;
  ConfigError = ℕ;
  validate = λ c. ok c;
  Fatal = ℕ;
  new_node_raft = λ num c net log st w. (ok (node_raft st), w);
  new_queue_raft = λ num c net log st w. (ok (queue_raft st), w);
  BindError = ℕ;
  bind = λ addr w. (ok tt, w);
}

abbrev pub before : Here
before = record {
  outside = λ dir. fresh;
  engines = λ a. fresh;
  directories = λ a. Nodes.empty;
  queues = λ a. Queue.empty;
}
