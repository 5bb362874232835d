-- ===== src/Lib.antt =====
-- Blun.MQ: a message queue whose nodes replicate their queues through Raft.
--
-- The program. Each node runs two Raft groups of the crate openraft: the data group ("spam")
-- replicates the queues, the group "nodes" a directory of the cluster's nodes. openraft keeps the
-- consensus; the program gives each group a log store on the crate raft-engine, a state machine,
-- and a network. Log entries reach the state machine in the same order on every node, and a node
-- that lags behind receives a snapshot of another one's state. Clients publish and consume over
-- gRPC.
--
-- Files and what they model, with paths from the repository's root:
--
--   Base and its children: the shared library names, tests, lists, `Outcome` (a value, an error
--     or a panic), std's `HashMap` and `BTreeMap` as association lists, and the cells behind
--     `Arc<Mutex<_>>`.
--   Host.Action: the results of asynchronous functions with a state.
--   Raft.Types: src/Blun.Mq.Raft/src/types.rs.
--   Raft.Openraft, Raft.Serde, Raft.Engine: what the code uses of openraft, serde_json and
--     raft-engine, as records of operations that everything else takes as parameters, and what
--     these crates document, as records of laws (`IsFaithful`, `Engine.IsLawful`). `Blob` is the
--     message of src/Blun.Mq.Raft/proto/raft_log_entry.proto.
--   Raft.Config: `raft_config` of src/Blun.Mq.Raft/src/lib.rs.
--   Raft.Build: the cleaning of the generated code in src/Blun.Mq.Raft/build.rs. Kept proves.
--   Raft.Queue: `QueueState` of src/Blun.Mq.Raft/src/state_machine.rs, its methods `apply` and
--     `depths`. View states its contract, independent channels; Fifo follows the messages over a
--     log; Pop is about one request; Observed is about what answers can tell apart; Depths and
--     Same treat the maps.
--   Raft.SnapshotId: `uuid_like_id`, with the clock as an argument.
--   Raft.Store: `StateMachineStore` of state_machine.rs and its methods `new`, `apply`,
--     `applied_state`, `get_snapshot_builder`, `build_snapshot`, `begin_receiving_snapshot`,
--     `install_snapshot`, `get_current_snapshot`, over any `Machine`, a record of what the two
--     stores of the program differ in. Group has the stores of a whole group as openraft drives
--     them, as steps. Log, CatchUp, Replica, Group and Current prove, over any machine that meets
--     Laws; Replica in the quotient of states that clients cannot tell apart.
--   Raft.QueueStore: the machine of the queues (the snapshot payload of state_machine.rs), its
--     laws, and StaleBuilder, a race between building and applying; Group follows the messages on
--     the nodes of a group.
--   Raft.Nodes, Raft.NodeStore: `NodeDirectory` and `NodeStateMachineStore` of
--     src/Blun.Mq.Raft/src/node_state_machine.rs. Group follows the registrations on the nodes of
--     a group.
--   Raft.LogStore: `RaftEngineLogStore` of src/Blun.Mq.Raft/src/raft_engine_log_store.rs, one
--     function for each method. Reads, Keys, Purge, Append and LastId prove. Open has the handle
--     and `open` (here `open_store`), over a file system; Restart, Interrupted, Validates and
--     Forgets are about a store that is opened again, with `IsDurable` for what the engine's
--     files keep.
--   Proto: the messages of src/Blun.Mq.Proto/proto/mq.proto, and tonic's Status.
--   Raft.Network: `Network` and `NetworkConnection` of src/Blun.Mq.Raft/src/network.rs. The three
--     calls share `send`.
--   Host.RaftRpc: `RaftRpcImpl` of src/Blun.Mq.Host/src/grpc_raft.rs; `serve` is one arm of a
--     handler's match. EndToEnd joins it with the network.
--   Host.Peers: `parse_peers` of src/Blun.Mq.Host/src/main.rs. Spaces and Numbers are about std's
--     string operations, Written about the whole.
--   Host.Decimal: the decimal notation of a number.
--   Host.Environment: the environment variables that main.rs reads. Defaults proves.
--   Host.Main: `main` of main.rs, from the environment to the services and the spawned tasks.
--     Made says what `Raft::new` was given; Leads, Registers, Reported and Restarts prove, where
--     `IsLeader` is what they rely on of openraft: a write on the leader goes through the store
--     that `Raft::new` was given.
--   Host.Start: `bootstrap`, the choice of the node that runs it, and the registration, all of
--     main.rs. Retries, Members and Bootstrap prove.
--   Host.Service: `MqServiceImpl` of src/Blun.Mq.Host/src/grpc.rs, its `channel_for`, `propose`,
--     `forward`, `publish` (here `handle_publish`), `watch_status` and `pop_via_forward`.
--     Channels, Routes and Publish prove; Leading says what the calls rely on of openraft on the
--     leader, that a write is committed, applied and answered.
--   Host.Service.Consume: the handler `consume`, with a worker's loop body as `turn`, in two
--     halves, `fetch` and `hand_over`. Fleet has the steps of a whole stream on the leader;
--     Fleet's channel has the capacity of the code's, so a send waits while it is full; Rounds is
--     one worker's loop with a client that reads. Forwarded is about a worker on another node.
--     First, Delivery, Connected, Relayed, Bounds, Rounds, Drains and Forwarded prove.
--   Host.Status: src/Blun.Mq.Host/src/status_http.rs.
--   Client: `MqClient` of src/Blun.Mq.Client/src/lib.rs. Served joins it with the service.
--   Bench: src/demo/bench/src/main.rs, its tasks as steps. Count and Published prove.
--   Demo.Producer: src/demo/producer/src/main.rs, its loop and tasks as steps. Counts and Rate
--     prove.
--   Demo.Consumer: src/demo/consumer/src/main.rs, its workers as steps. Counts proves.
--   Demo.Throughput: the logging task of both.
--   Tests: concrete instances of the parameters (numbers for openraft's types, an engine in
--     memory, a small codec), and the theorems at concrete inputs.
--
-- State and effects. A method takes the state and returns the new one beside its result. A shared
-- mutex is an address, and the contents of all mutexes of a type are a function of the address,
-- so two handles with one address share their contents. Texts and byte strings are lists of
-- numbers. A `u64` is a natural number whose additions wrap at 2^64, as in a release build. What
-- a call of another node or of openraft changes is the state of the world, a parameter. A call on
-- tokio's blocking pool runs in place, and a panic in it becomes the join error that the code
-- maps to a storage error.
--
-- Bounds. The printing of a number, in hexadecimal or decimal, has as fuel one more than the
-- number, more than it has digits. The bootstrap loop makes 20 attempts, as in the code; the
-- registration loop has no bound in the code, and its fuel is the number of attempts, of which
-- one more than fail is enough. A worker's endless loop is any number of steps. Everything else
-- is a recursion on a list.
--
-- Not modelled: the timing of the bench; the servers' own loops; timing, but for the order of
-- steps; the generated protobuf code; the web dashboard and the C# host.
pub mod Base
pub mod Proto
pub mod Raft
pub mod Host
pub mod Client
pub mod Bench
pub mod Demo
mod Tests
