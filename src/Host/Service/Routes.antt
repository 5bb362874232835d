-- ===== src/Host/Service/Routes.antt =====
-- src/Blun.Mq.Host/src/grpc.rs, `publish`: a publish that reaches another node than the leader.
use blun_mq.Base.{ℕ, ◌≡◌, ◌∙◌, refl, ap, none, some, get_or, Text, Outcome, ok, err, panic}
use blun_mq.Base.BTreeMap
use blun_mq.Proto.{PublishRequest, PublishResponse, Status}
use blun_mq.Raft.Types.{publish, QueueResponse}
use blun_mq.Host.Service.{
  HostAction, await, answered, forward_to_leader, MqServiceImpl, Shared, channel_for, forward,
  forward_to, proposed, propose, handle_publish,
}
use blun_mq.Host.Action.{continue, succeed, ◌>>=◌}
use blun_mq.Host.Service.Channels.{channel_for-world, connected, IsCache, channel_for-connected}

module _ {W : Type 0} (node : MqServiceImpl W) (request : PublishRequest) where
  abbrev State : Type 0
  State = Shared node.tonic.Channel W

  -- The end of `publish`.
  abbrev with_offset : QueueResponse → HostAction node.tonic PublishResponse
  with_offset resp = succeed (record { offset = get_or resp.published_offset 0 })

  -- The end of `forward`.
  abbrev as_response : PublishResponse → HostAction node.tonic QueueResponse
  as_response resp = succeed (record { published_offset = some resp.offset; popped = none })

  -- What is left of a forwarded `publish` when its channel is there.
  abbrev after_channel :
      Outcome Status node.tonic.Channel × State → Outcome Status PublishResponse × State
  after_channel x = continue with_offset (
      continue
        (λ ch.
          await
            (node.tonic.publish ch (record { queue = request.queue; payload = request.payload }))
            answered
          >>= as_response)
        x)

  relayed :
      (result : Outcome Status PublishResponse) (s : State)
      → continue with_offset (continue as_response (result, s)) ≡ (result, s)
  relayed (ok resp) s = refl
  relayed (err status) s = refl
  relayed panic s = refl

  after_channel-publish :
      (ch : node.tonic.Channel) (s : State)
      → after_channel (ok ch, s) ≡ (
        (node.tonic.publish ch request s.world).0,
        record s { world = (node.tonic.publish ch request s.world).1 },
      )
  after_channel-publish ch s =
      relayed (node.tonic.publish ch request s.world).0
        (record s { world = (node.tonic.publish ch request s.world).1 })

  handle_publish-after_channel :
      (id : ℕ) (addr : Text) (s : State) (w : W)
      → BTreeMap.get id node.peers ≡ some addr
      → node.raft.client_write (publish request.queue request.payload) s.world
        ≡ (err (forward_to_leader (some id)), w)
      → handle_publish node request s
        ≡ after_channel (channel_for node.tonic id addr (record s { world = w }))
  unfolding handle_publish propose proposed forward_to forward
  handle_publish-after_channel id addr s w here refused = rw (refused, here)

module _ {W : Type 0} (node : MqServiceImpl W) (id : ℕ) (addr : Text)
    (endpoint : node.tonic.Endpoint) where
  -- A publish over the channel to the address is what `serve` does with it.
  abbrev pub IsServedBy : (PublishRequest → W → Outcome Status PublishResponse × W) → Type 0
  IsServedBy serve =
      (request : PublishRequest) (w : W)
      → node.tonic.publish (node.tonic.connect_lazy endpoint) request w ≡ serve request w

  module _ (here : BTreeMap.get id node.peers ≡ some addr)
      (valid : node.tonic.from_shared addr ≡ ok endpoint)
      (serve : PublishRequest → W → Outcome Status PublishResponse × W)
      (served : IsServedBy serve) where
    -- A publish whose write openraft refers to the leader is answered as the leader answers it:
    -- the leader's offset or its status, after the leader's one change of the world; and the
    -- cached channels stay those of the peers. The leader has an address among the peers, which
    -- is valid, a publish over a channel to it is what `serve` does, and the cached channels were
    -- those of the peers.
    pub handle_publish-forwarded :
        (request : PublishRequest) (s : Shared node.tonic.Channel W) (w : W)
        → IsCache node.tonic node.peers s.forward_channels
        → node.raft.client_write (publish request.queue request.payload) s.world
          ≡ (err (forward_to_leader (some id)), w)
        → ((handle_publish node request s).0 ≡ (serve request w).0)
          × ((handle_publish node request s).1.world ≡ (serve request w).1)
          × IsCache node.tonic node.peers (handle_publish node request s).1.forward_channels
    handle_publish-forwarded request s w cache refused =
        let s' = record s { world = w } in
        let (same, kept) = channel_for-connected node.tonic node.peers id addr s' here cache in
        let lazy = node.tonic.connect_lazy endpoint in
        let channel : channel_for node.tonic id addr s'
            ≡ (ok lazy, (channel_for node.tonic id addr s').1) =
          ap (λ r. (r, (channel_for node.tonic id addr s').1))
            (same ∙ ap (connected node.tonic) valid) in
        let result =
          handle_publish-after_channel node request id addr s w here refused
          ∙ ap (after_channel node request) channel
          ∙ after_channel-publish node request lazy (channel_for node.tonic id addr s').1 in
        let world = channel_for-world node.tonic id addr s' in
        rw result (rw (world, served request w) (refl, refl, kept))
