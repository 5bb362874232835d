-- ===== src/Host/Service/Consume/Forwarded.antt =====
-- src/Blun.Mq.Host/src/grpc.rs, `consume` on another node than the leader: one Pop of a worker.
use blun_mq.Base.{ℕ, ◌≡◌, ◌∙◌, refl, ap, Option, none, some, Text, Outcome, ok, err, panic}
use blun_mq.Base.BTreeMap
use blun_mq.Proto.{subscribe, ConsumeRequest, ConsumeResponse, Status}
use blun_mq.Raft.Types.{pop}
use blun_mq.Raft.Queue.{Message}
use blun_mq.Host.Action.{continue, ◌>>=◌}
use blun_mq.Host.Service.{
  await, answered, received, forward_to_leader, MqServiceImpl, channel_for, pop_via_forward,
}
use blun_mq.Host.Service.Channels.{channel_for-world, connected, IsCache, channel_for-connected}
use blun_mq.Host.Service.Consume.{
  Fetched, popped, failed, panicked, Host, fetch, fetched, forwarded, relayed,
}

-- The message that comes out of a stream in time, if its first item is one.
abbrev pub first_of : Option (Option (Outcome Status ConsumeResponse)) → Option Message
first_of (some (some (ok resp))) = some (resp.offset, resp.payload)
first_of (some (some (err status))) = none
first_of (some (some panic)) = none
first_of (some none) = none
first_of none = none

module _ {W : Type 0} (node : MqServiceImpl W) (queue : Text) where
  abbrev pub subscription : ConsumeRequest
  subscription = record { kind = some (subscribe queue) }

  -- What is left of a Pop when the channel to the leader is there.
  abbrev after_channel : Outcome Status node.tonic.Channel × Host node → Fetched × Host node
  after_channel x = relayed node queue (
      continue
        (λ ch. await (node.tonic.consume ch subscription) answered >>= λ inbound.
          await (node.tonic.next_within 300 inbound) (received node.tonic))
        x)

  -- What a Pop makes of the leader's answer to the subscription: the first message that the stream
  -- yields within 300 ms, or a failure.
  abbrev pub pulled : Outcome Status node.tonic.Inbound → W → Fetched × W
  pulled (ok inbound) w =
      let (item, w') = node.tonic.next_within 300 inbound w in (popped (first_of item), w')
  pulled (err status) w = (failed, w)
  pulled panic w = (panicked, w)

  received-first_of :
      (item : Option (Option (Outcome Status ConsumeResponse))) (s : Host node)
      → relayed node queue (received node.tonic item s) ≡ (popped (first_of item), s)
  unfolding received relayed
  received-first_of (some (some (ok resp))) s = refl
  received-first_of (some (some (err status))) s = refl
  received-first_of (some (some panic)) s = refl
  received-first_of (some none) s = refl
  received-first_of none s = refl

  fetch-after_channel :
      (id : ℕ) (addr : Text) (s : Host node) (w : W)
      → BTreeMap.get id node.peers ≡ some addr
      → node.raft.client_write (pop queue) s.world ≡ (err (forward_to_leader (some id)), w)
      → fetch node queue s ≡ after_channel (channel_for node.tonic id addr (record s { world = w }))
  unfolding fetch fetched forwarded pop_via_forward
  fetch-after_channel id addr s w here refused = rw (refused, here)

  -- By the answer of the leader to the subscription.
  after_channel-consume :
      (ch : node.tonic.Channel) (s : Host node) (opened : Outcome Status node.tonic.Inbound)
      → (node.tonic.consume ch subscription s.world).0 ≡ opened
      → after_channel (ok ch, s) ≡ (
          let (got, w) = pulled opened (node.tonic.consume ch subscription s.world).1 in
          (got, record s { world = w }))
  unfolding relayed
  after_channel-consume ch s (ok inbound) e =
      let w = (node.tonic.consume ch subscription s.world).1 in
      let (item, w') = node.tonic.next_within 300 inbound w in
      rw e (received-first_of item (record s { world = w' }))
  after_channel-consume ch s (err status) e = rw e
  after_channel-consume ch s panic e = rw e

module _ {W : Type 0} (node : MqServiceImpl W) (id : ℕ) (addr : Text)
    (endpoint : node.tonic.Endpoint) (here : BTreeMap.get id node.peers ≡ some addr)
    (valid : node.tonic.from_shared addr ≡ ok endpoint) where
  -- A worker's Pop that openraft refers to the leader subscribes to the queue over a channel to the
  -- leader: it gets the first message that the stream yields within 300 ms, or none, and a refusal of
  -- the subscription is a failure; and the cached channels stay those of the peers. The leader has an
  -- address among the peers, which is valid, and the cached channels were those of the peers.
  pub fetch-forwarded :
      (queue : Text) (s : Host node) (w : W)
      → IsCache node.tonic node.peers s.forward_channels
      → node.raft.client_write (pop queue) s.world ≡ (err (forward_to_leader (some id)), w)
      → let (opened, w₁) =
          node.tonic.consume (node.tonic.connect_lazy endpoint) (subscription node queue) w in
        ((fetch node queue s).0 ≡ (pulled node queue opened w₁).0)
        × ((fetch node queue s).1.world ≡ (pulled node queue opened w₁).1)
        × IsCache node.tonic node.peers (fetch node queue s).1.forward_channels
  fetch-forwarded queue s w cache refused =
      let s' = record s { world = w } in
      let (same, kept) = channel_for-connected node.tonic node.peers id addr s' here cache in
      let lazy = node.tonic.connect_lazy endpoint in
      let t = (channel_for node.tonic id addr s').1 in
      let channel : channel_for node.tonic id addr s' ≡ (ok lazy, t) =
        ap (λ r. (r, t)) (same ∙ ap (connected node.tonic) valid) in
      let result =
        fetch-after_channel node queue id addr s w here refused
        ∙ ap (after_channel node queue) channel
        ∙ after_channel-consume node queue lazy t _ refl in
      let world = channel_for-world node.tonic id addr s' in rw result (rw world (refl, refl, kept))
