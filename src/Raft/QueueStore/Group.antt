-- ===== src/Raft/QueueStore/Group.antt =====
-- The queues on the nodes of a group: each message once and in order, on every node.
use mathlib.Core.Quot
use mathlib.Core.Quot.{Quot}
use mathlib.Core.List.{is_set}
use blun_mq.Base.{ℕ, ◌≡◌, ◌<◌, ◌∙◌, ap, List, ◌++◌, length, none, Text, text_eq}
use blun_mq.Base.Cells.{Arc}
use blun_mq.Raft.Openraft.{Openraft, Entry}
use blun_mq.Raft.Serde.{Serde, IsFaithful}
use blun_mq.Raft.Types.{QueueRequest, u64_mod}
use blun_mq.Raft.Queue.{Message, QueueState, empty, run}
use blun_mq.Raft.Queue.View.{Channel}
use blun_mq.Raft.Queue.Fifo.{pending, delivered, payloads, number, delivered-pending-eq-number}
use blun_mq.Raft.QueueStore.{SnapshotPayload, queue_machine}
use blun_mq.Raft.QueueStore.Laws.{SamePayload, queue_laws}
use blun_mq.Raft.QueueStore.StaleBuilder.{view-SameState}
use blun_mq.Raft.Store.Log.{requests, last_id}
use blun_mq.Raft.Store.Replica.{Replica, replay}
use blun_mq.Raft.Store.Group.{Group, Steps, fresh}
use blun_mq.Raft.Store.Group.Agree.{group-Reached}

-- What waits in a queue of a replica.
pending_in : Text → Replica queue_laws → List Message
pending_in queue =
    Quot.lift (is_set hlevel) (λ (s : QueueState). pending s queue)
      (λ s t h. ap (λ (c : Channel). c.pending) (view-SameState s t queue h))

module _ {E : Type 0} (o : Openraft) (json : Serde E SnapshotPayload)
    (faithful : IsFaithful SamePayload json) where
  -- However the nodes of the data group commit, apply, build and install snapshots and start anew,
  -- where a builder builds with no entry applied in between: each node has applied a first part of
  -- the committed log, and if fewer than 2^64 messages were published to a queue there, the messages
  -- that the pops in it got and those that wait on the node are the published payloads in order,
  -- once each, under the offsets 0, 1, 2 and so on.
  pub group_delivers :
      (handles : ℕ → Arc) {g : Group o queue_machine json empty}
      → Steps o queue_machine json empty (fresh o queue_machine json empty handles) g
      → (i : ℕ) (queue : Text)
      → (before : List (Entry o QueueRequest)) × (after : List (Entry o QueueRequest)) × (g.log
          ≡ before ++ after)
        × ((g.nodes i).store.last_applied ≡ last_id o none before)
        × (length (payloads queue (requests o before)) < u64_mod
            → delivered queue (requests o before) (run empty (requests o before)).1
                ++ pending ((g.nodes i).cells (g.nodes i).store.state) queue
              ≡ number 0 (payloads queue (requests o before)))
  unfolding pending_in replay run
  group_delivers handles {g = g} steps i queue =
      let p =
        (group-Reached o queue_machine json queue_laws empty faithful tt handles steps i).prefix in
      let rs = requests o p.before in
      let same : pending ((g.nodes i).cells (g.nodes i).store.state) queue
          ≡ pending (run empty rs).0 queue =
        ap (pending_in queue) p.replays in
      (
        p.before,
        p.after,
        p.splits,
        p.applies,
        λ fits.
            ap (λ w. delivered queue rs (run empty rs).1 ++ w) same
            ∙ delivered-pending-eq-number queue rs fits,
      )
