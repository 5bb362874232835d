-- ===== src/Host/Main/Reported.antt =====
-- src/Blun.Mq.Host/src/main.rs, grpc.rs and status_http.rs: a publish through a node, and the depths that
-- the node reports.
use blun_mq.Base.{
  ℕ, suc, ◌≡◌, ap, ◌∙◌, [], ◌∷◌, length, length-append, get_or, Text, text_eq, ◌==◌, if◌then◌else◌,
  Bool-cases, eq_of_==, inl, inr, arith,
}
use blun_mq.Base.HashMap
use blun_mq.Base.HashMap.{HashMap}
use blun_mq.Proto.{PublishRequest}
use blun_mq.Raft.Openraft.{Openraft}
use blun_mq.Raft.Engine.{Engine}
use blun_mq.Raft.Types.{publish}
use blun_mq.Raft.Queue.{QueueState, apply}
use blun_mq.Raft.Queue.View.{Channel, view, step, apply-refines-step}
use blun_mq.Raft.Queue.Fifo.{pending}
use blun_mq.Raft.Queue.Depths.{IsValid, apply-IsValid, depth-pending}
use blun_mq.Host.Environment.{SocketAddrs}
use blun_mq.Host.Service.{Shared, handle_publish}
use blun_mq.Host.Service.Publish.{handle_publish-applies}
use blun_mq.Host.Service.Leading.{IsLeading}
use blun_mq.Host.Status.{payload}
use blun_mq.Host.Main.{World, Runtime, queue_state, Node, service, status_state}

pending-publish :
    (s : QueueState) (request : PublishRequest) (queue : Text)
    → length (pending (apply s (publish request.queue request.payload)).0 queue) ≡ (
        if request.queue == queue then suc (length (pending s queue)) else length (pending s queue))
unfolding step
pending-publish s request queue =
    let (views, _) = apply-refines-step s (publish request.queue request.payload) in
    ap (λ (c : Channel). length c.pending) (views queue)
    ∙ elim (Bool-cases (request.queue == queue)) [
      | inl e ↦
          let c = view s request.queue in
          let grown = length-append c.pending ((c.next, request.payload) ∷ []) in
          let same = ap (λ q. length (pending s q)) (eq_of_== request.queue queue e) in
          rw e (omega (arith, grown, same))
      | inr e ↦ rw e
    ]

module _ {e : Engine} {o : Openraft} {n : SocketAddrs} {Outside : Type 0}
    (rt : Runtime e o n Outside) where
  -- The depth of a queue in the status of a node, 0 for a queue that it does not know.
  abbrev pub reported : Node rt → World e Outside → Text → ℕ
  reported node w queue =
      get_or (HashMap.get queue (payload (status_state rt node) w).queue_depths) 0

  -- On a started node that leads, whose maps are consistent, a publish through the gRPC service makes
  -- the depth that the HTTP status reports of its queue larger by one, and leaves the others.
  pub reported-handle_publish :
      (node : Node rt)
      → IsLeading (service rt node)
      → (request : PublishRequest) (s : Shared rt.tonic.Channel (World e Outside))
      → IsValid (s.world.queues queue_state)
      → (queue : Text)
      → let w' = (handle_publish (service rt node) request s).1.world in
        reported node w' queue ≡ (
          if request.queue == queue
          then suc (reported node s.world queue)
          else reported node s.world queue)
  unfolding payload
  reported-handle_publish node leads request s valid queue =
      let req = publish request.queue request.payload in
      let applied = handle_publish-applies (service rt node) leads request s in
      let before = depth-pending (s.world.queues queue_state) queue valid in
      let after =
        depth-pending (apply (s.world.queues queue_state) req).0 queue
          (apply-IsValid (s.world.queues queue_state) req valid) in
      rw (applied, before) (after ∙ pending-publish (s.world.queues queue_state) request queue)
