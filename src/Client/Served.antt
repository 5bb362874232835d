-- ===== src/Client/Served.antt =====
-- src/Blun.Mq.Client/src/lib.rs against src/Blun.Mq.Host/src/grpc.rs: a client of the leader.
use blun_mq.Base.{sum, ℕ, ◌+◌, ◌≡◌, refl, ap, List, [], ◌∷◌, ◌++◌, map, Text, Bytes, ok, arith}
use blun_mq.Proto.{PublishRequest, ConsumeResponse}
use blun_mq.Raft.Queue.{Message}
use blun_mq.Raft.Queue.View.{view}
use blun_mq.Host.Service.{Tonic, MqServiceImpl, handle_publish}
use blun_mq.Host.Service.Leading.{IsLeading, waiting}
use blun_mq.Host.Service.Publish.{handle_publish-leading}
use blun_mq.Host.Service.Consume.{Host}
use blun_mq.Host.Service.Consume.Fleet.{carried, as_messages, Fleet, Steps, start}
use blun_mq.Host.Service.Consume.Delivery.{as_messages-append, consume_conserves}
use blun_mq.Client.{MqClient, messages, publish, offset_of}

messages-map_ok : (rs : List ConsumeResponse) → messages (map (λ r. ok r) rs) ≡ as_messages rs
unfolding messages
messages-map_ok [] = refl
messages-map_ok (r ∷ rs) = ap (λ ms. (r.offset, r.payload) ∷ ms) (messages-map_ok rs)

module _ {W : Type 0} (node : MqServiceImpl W) (leads : IsLeading node) where
  module _ (tonic : Tonic W) (channels : List (ℕ × node.tonic.Channel)) where
    -- The client's channel ends at the node.
    abbrev pub IsServed : MqClient tonic → Type 0
    IsServed client =
        (request : PublishRequest) (w : W)
        → let done =
            handle_publish node request (record { forward_channels = channels; world = w }) in
          tonic.publish client.inner request w ≡ (done.0, done.1.world)

    -- A client of a node that leads gets the queue's next offset for a publish, and its message
    -- then stands under that offset behind those that were in the queue.
    pub publish-IsServed :
        (client : MqClient tonic) (queue : Text) (payload : Bytes) (w : W)
        → IsServed client
        → let offset = (view (node.locked_state w) queue).next in
          ((publish tonic client queue payload w).0 ≡ ok offset)
          × (waiting node queue (publish tonic client queue payload w).1
              ≡ waiting node queue w ++ (offset, payload) ∷ [])
    unfolding publish offset_of
    publish-IsServed client queue payload w served =
        let request : PublishRequest = record { queue = queue; payload = payload } in
        let (answer, stands) =
          handle_publish-leading node leads request
            (record { forward_channels = channels; world = w }) in
        rw (served request w, answer) (refl, stands)

  -- What was taken for a client out of a stream of a node that leads, with what is still in the queue, with
  -- one of the stream's workers or in its channel, is what was in the queue and what it has accepted
  -- since, each message as often, whatever the order of the steps.
  pub messages_conserve :
      (queue : Text) (f : Message → ℕ) (s : Host node) {ms : List Message} {a : Fleet node queue}
      → Steps node queue ms (start node queue s) a
      → sum f (messages (map (λ r. ok r) a.out.taken))
          + (sum f (waiting node queue a.host.world)
              + sum f (carried a.workers)
              + sum f (as_messages a.out.buffered))
        ≡ sum f (waiting node queue s.world) + sum f ms
  messages_conserve queue f s {a = a} steps = rw (messages-map_ok a.out.taken) (
      omega (
        arith,
        consume_conserves node leads queue f s steps,
        as_messages-append f a.out.taken a.out.buffered,
      ))
