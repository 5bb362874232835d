-- ===== src/Host/Service/Publish.antt =====
-- src/Blun.Mq.Host/src/grpc.rs, `publish` on the node that leads the data group.
use blun_mq.Base.{◌≡◌, refl, [], ◌∷◌, ◌++◌, text_eq, ==-refl, ok}
use blun_mq.Proto.{PublishRequest}
use blun_mq.Raft.Types.{publish}
use blun_mq.Raft.Queue.{apply}
use blun_mq.Raft.Queue.View.{view}
use blun_mq.Raft.Queue.Fifo.{apply_conserves}
use blun_mq.Host.Service.{MqServiceImpl, Shared, handle_publish, propose, proposed}
use blun_mq.Host.Service.Leading.{IsLeading, waiting}

module _ {W : Type 0} (node : MqServiceImpl W) (leads : IsLeading node) where
  -- The state after a publish is that after its request.
  pub handle_publish-applies :
      (request : PublishRequest) (s : Shared node.tonic.Channel W)
      → node.locked_state (handle_publish node request s).1.world
        ≡ (apply (node.locked_state s.world) (publish request.queue request.payload)).0
  unfolding handle_publish propose proposed
  handle_publish-applies request s =
      let req = publish request.queue request.payload in
      rw (leads.answers req s.world) (leads.applies req s.world)

  -- On a node that leads a publish answers the queue's next offset, and the message stands under
  -- that offset behind those that were in the queue.
  pub handle_publish-leading :
      (request : PublishRequest) (s : Shared node.tonic.Channel W)
      → let queue = request.queue in
        let offset = (view (node.locked_state s.world) queue).next in
        let done = handle_publish node request s in
        (done.0 ≡ ok (record { offset = offset }))
        × (waiting node queue done.1.world
            ≡ waiting node queue s.world ++ (offset, request.payload) ∷ [])
  unfolding handle_publish propose proposed apply view
  handle_publish-leading request s =
      let req = publish request.queue request.payload in
      let stands =
        rw (==-refl request.queue) at
          (apply_conserves request.queue (node.locked_state s.world) req) in
      rw (leads.answers req s.world) (refl, rw (leads.applies req s.world) stands)
