-- ===== src/Tests/MainTests.antt =====
-- A node that starts in an empty environment.
use blun_mq.Base.{
  ◌++◌, ap, ap, ℕ, suc, ◌≡◌, refl, [], ◌∷◌, Text, text, text_eq, nat_eq, ◌==◌, if◌then◌else◌, true,
  subst, ok,
}
use blun_mq.Proto.{PublishRequest}
use blun_mq.Raft.Config.{Config}
use blun_mq.Raft.LogStore.Open.{RaftEngineLogStore}
use blun_mq.Raft.Network.{Network}
use blun_mq.Raft.Types.{NodeCommand, QueueRequest, QueueResponse}
use blun_mq.Raft.Nodes
use blun_mq.Raft.Queue
use blun_mq.Raft.QueueStore.{queue_machine}
use blun_mq.Raft.Store
use blun_mq.Raft.Store.{Machine, Store}
use blun_mq.Host.Environment.{Settings, settings}
use blun_mq.Host.Environment.Defaults.{local, settings-alone}
use blun_mq.Host.Decimal.{decimal}
use blun_mq.Host.Peers.{parse_u64, parse_peers}
use blun_mq.Host.Service.{Shared, handle_publish}
use blun_mq.Host.Main.Reported.{reported, reported-handle_publish}
use blun_mq.Raft.Queue.Depths.{empty-IsValid}
use blun_mq.Host.Service.Leading.{IsLeading}
use blun_mq.Host.Start.{bootstraps}
use blun_mq.Host.Main.{Raft, Node, start, service, node_directory, queue_state}
use blun_mq.Host.Main.Made.{IsMade}
use blun_mq.Host.Main.Restarts.{Alike, AreDurable, start_restores}
use blun_mq.Host.Main.Leads.{IsLeader, start-IsLeading}
use blun_mq.Host.Main.Registers.{own_command}
use blun_mq.Tests.Disk.{Disk, disk_files, fresh}
use blun_mq.Tests.Instances.{numbers, memory-IsLawful, Memory}
use blun_mq.Tests.OneNode.{sockets, empty_environment, Here, queue_raft, runtime, before}

alone :
    (s : Settings sockets) × (settings sockets empty_environment ≡ ok s)
    × (s.node_num ≡ 1)
    × (s.peers ≡ (1, local 5001) ∷ [])
    × (bootstraps s.node_num s.peers ≡ ok true)
alone =
    settings-alone sockets empty_environment (text "0.0.0.0:5001") (text "0.0.0.0:5080") refl refl
      refl refl

started :
    (node : Node runtime) × (w : Here) × (start runtime empty_environment before ≡ (ok node, w))
unfolding start nat_eq parse_u64 parse_peers decimal
started = (_, _, refl)

queue_leads :
    (st : Store numbers)
    → IsLeader numbers queue_machine (λ (w : Here). w.queues) st (queue_raft st)
unfolding Store.apply
queue_leads st = record {
  log_id = λ req w. 1;
  store = λ w. st;
  store-state = λ w. refl;
  writes = λ req w. ((Queue.apply (w.queues st.state) req).1, refl, refl, refl);
}

applies_to_its_store :
    (num : ℕ) (c : Config ℕ) (net : Network) (log : RaftEngineLogStore) (st : Store numbers)
    (v v' : Here) (r : Raft Here QueueRequest QueueResponse)
    → runtime.new_queue_raft num c net log st v ≡ (ok r, v')
    → IsLeader numbers queue_machine (λ (w : Here). w.queues) st r
applies_to_its_store num c net log st v v' r made =
    let same : queue_raft st ≡ r = cc in
    subst (IsLeader numbers queue_machine (λ (w : Here). w.queues) st) same (queue_leads st)

started_leads : IsLeading (service runtime started.0)
started_leads = start-IsLeading runtime empty_environment before applies_to_its_store started.2

abbrev command : NodeCommand
command = own_command runtime started.0

abbrev to_spam : PublishRequest
to_spam = record { queue = text "spam"; payload = 7 ∷ [] }

reported-handle_publish_example :
    let node = started.0 in
    let s : Shared Text Here = record { forward_channels = []; world = before } in
    let w' = (handle_publish (service runtime node) to_spam s).1.world in
    reported runtime node w' (text "spam") ≡ (
      if text "spam" == text "spam"
      then suc (reported runtime node before (text "spam"))
      else reported runtime node before (text "spam"))
reported-handle_publish_example =
    reported-handle_publish runtime started.0 started_leads to_spam
      (record { forward_channels = []; world = before }) empty-IsValid (text "spam")

-- The disk of a process that wrote an entry of the data group.
abbrev left : Disk
left dir =
    if dir == text "./data/node-1/spam"
    then record fresh { entries = λ r. record { index = 0; payload = 7 ∷ [] } ∷ [] }
    else fresh

abbrev disk-AreDurable : AreDurable memory-IsLawful disk_files
disk-AreDurable = record {
  Stands = λ dir s d. d dir ≡ s;
  existing = λ dir s d stands. refl;
  opens = λ dir s d stands. (
    d dir,
    d,
    refl,
    record {
      messages = λ r key. ap (λ (m : Memory). m.messages r key) stands;
      entries = λ r. ap (λ (m : Memory). m.entries r) stands;
    },
  );
  apart = λ dir other s d ne stands. stands;
}

abbrev after_end : Here
after_end = record before { outside = left }

restarted :
    (node : Node runtime) × (w : Here) × (start runtime empty_environment after_end ≡ (ok node, w))
unfolding start nat_eq parse_u64 parse_peers decimal
restarted = (_, _, refl)

abbrev read : Settings sockets
read = alone.0

start_restores_example :
    (made : IsMade runtime empty_environment after_end restarted.0) × Alike memory-IsLawful
      (made.node_before.engines made.node_log.engine)
      (left (read.data_dir ++ text "/nodes"))
    × (made.node_before.directories node_directory ≡ Nodes.empty)
    × Alike memory-IsLawful
        (made.queue_before.engines made.queue_log.engine)
        (left (read.data_dir ++ text "/spam"))
    × (made.queue_before.queues queue_state ≡ Queue.empty)
start_restores_example =
    start_restores memory-IsLawful runtime disk-AreDurable empty_environment after_end read
      (left (read.data_dir ++ text "/nodes")) (left (read.data_dir ++ text "/spam")) alone.1 refl
      refl (λ num c net log st v stands. stands) restarted.2
