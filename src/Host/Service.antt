-- ===== src/Host/Service.antt =====
-- src/Blun.Mq.Host/src/grpc.rs: the client-facing service of a node. Openraft, tonic and what else the
-- calls reach are parameters, with `W` the state of the world that they change.
pub mod Channels
pub mod Leading
pub mod Consume
pub mod Routes
pub mod Publish
use blun_mq.Base.{
  ℕ, List, [], ◌∷◌, ◌++◌, map, Option, none, some, get_or, Text, Bytes, text, nat_eq, Outcome, ok,
  err, panic,
}
use blun_mq.Base.BTreeMap
use blun_mq.Base.BTreeMap.{BTreeMap}
use blun_mq.Base.HashMap
use blun_mq.Base.HashMap.{HashMap}
use blun_mq.Proto.{
  PublishRequest, PublishResponse, Kind, subscribe, ack, ConsumeRequest, ConsumeResponse,
  StatusUpdate, internal, unavailable, invalid_argument, Status,
}
use blun_mq.Raft.Types.{QueueRequest, publish, pop, QueueResponse}
use blun_mq.Raft.Queue
use blun_mq.Raft.Queue.{QueueState, Message}
use blun_mq.Host.Action.{Action, ◌>>=◌, succeed, fail}

-- `RaftError<_, ClientWriteError>`: the id of the leader to forward to, if any is known, or another
-- error.
pub data WriteError (E : Type 0) : Type 0 where
  forward_to_leader : Option ℕ → WriteError E
  other : E → WriteError E

-- The `openraft::Raft` of the data group, and the `{:?}` of its errors.
pub record QueueRaft (W : Type 0) : Type 1 where
  pub RaftError : Type 0
  pub debug : RaftError → Text
  pub client_write : QueueRequest → W → Outcome (WriteError RaftError) QueueResponse × W
  pub current_leader : W → Option ℕ

-- tonic's channels, the client over them, and tokio's `timeout` around the stream that `consume`
-- yields: none when the time is up, else what `next` yields.
pub record Tonic (W : Type 0) : Type 1 where
  pub Endpoint : Type 0
  pub Channel : Type 0
  pub InvalidUri : Type 0
  pub display : InvalidUri → Text
  pub from_shared : Text → Outcome InvalidUri Endpoint
  pub connect_lazy : Endpoint → Channel
  pub publish : Channel → PublishRequest → W → Outcome Status PublishResponse × W
  pub Inbound : Type 0
  pub consume : Channel → ConsumeRequest → W → Outcome Status Inbound × W
  pub next_within : ℕ → Inbound → W → Option (Option (Outcome Status ConsumeResponse)) × W

-- `forward_channels` is shared and changes, so it stands in the state.
pub record MqServiceImpl (W : Type 0) : Type 1 where
  pub node_id : Text
  pub raft : QueueRaft W
  pub nodes_leader : W → Option ℕ
  pub locked_state : W → QueueState
  pub peers : BTreeMap Text
  pub tonic : Tonic W

pub record Shared (Channel W : Type 0) : Type 0 where
  pub forward_channels : HashMap ℕ Channel
  pub world : W

module _ {W : Type 0} where
  -- An `await` of what is outside the service.
  abbrev pub await :
      {C R A : Type 0} → (W → R × W) → (R → Action (Shared C W) A) → Action (Shared C W) A
  await call rest s = let (r, w) = call s.world in rest r (record s { world = w })

  -- `.await?` of a call of another node.
  abbrev pub answered : {C A : Type 0} → Outcome Status A → Action (Shared C W) A
  answered result s = (result, s)

module _ {W : Type 0} (t : Tonic W) where
  abbrev pub HostAction : Type 0 → Type 0
  HostAction A = Action (Shared t.Channel W) A

  pub opened : ℕ → Outcome t.InvalidUri t.Endpoint → HostAction t.Channel
  unfolding HashMap.insert
  opened id (ok endpoint) s =
      let ch = t.connect_lazy endpoint in
      (ok ch, record s { forward_channels = HashMap.insert id ch s.forward_channels })
  opened id (err e) s = fail internal (t.display e) s
  opened id panic s = (panic, s)

  pub cached : ℕ → Text → Option t.Channel → HostAction t.Channel
  unfolding opened
  cached id addr (some ch) s = (ok ch, s)
  cached id addr none s = opened id (t.from_shared addr) s

  -- The cached channel of the peer, or a new one, which is kept.
  unfoldable pub channel_for : ℕ → Text → HostAction t.Channel
  unfolding cached HashMap.get
  channel_for id addr s = cached id addr (HashMap.get id s.forward_channels) s

  unfoldable pub forward : ℕ → Text → QueueRequest → HostAction QueueResponse
  unfolding channel_for
  forward leader_id addr (publish queue payload) = do
    channel ← channel_for leader_id addr
    resp ← await (t.publish channel (record { queue = queue; payload = payload })) answered
    succeed (record { published_offset = some resp.offset; popped = none })
  forward leader_id addr (pop queue) = do
    channel ← channel_for leader_id addr
    fail unavailable (text "retry against leader")

  pub received : Option (Option (Outcome Status ConsumeResponse)) → HostAction (Option Message)
  received (some (some (ok resp))) = succeed (some (resp.offset, resp.payload))
  received (some (some (err status))) = succeed none
  received (some (some panic)) = succeed none
  received (some none) = succeed none
  received none = succeed none

  -- The first message of a stream that the leader opens for the queue, within 300 ms.
  unfoldable pub pop_via_forward : ℕ → Text → Text → HostAction (Option Message)
  unfolding channel_for received
  pop_via_forward leader_id addr queue = do
    channel ← channel_for leader_id addr
    inbound ← await (t.consume channel (record { kind = some (subscribe queue) })) answered
    await (t.next_within 300 inbound) received

module _ {W : Type 0} (node : MqServiceImpl W) where
  pub forward_to : ℕ → Option Text → QueueRequest → HostAction node.tonic QueueResponse
  unfolding forward
  forward_to leader_id none req = fail internal (text "unknown leader address")
  forward_to leader_id (some addr) req = forward node.tonic leader_id addr req

  pub proposed :
      QueueRequest
      → Outcome (WriteError node.raft.RaftError) QueueResponse
      → HostAction node.tonic QueueResponse
  unfolding forward_to BTreeMap.get
  proposed req (ok resp) s = succeed resp s
  proposed req (err (forward_to_leader none)) s =
      fail unavailable (text "no raft leader elected yet") s
  proposed req (err (forward_to_leader (some leader_id))) s =
      forward_to leader_id (BTreeMap.get leader_id node.peers) req s
  proposed req (err (other e)) s = fail internal (text "raft write failed: " ++ node.raft.debug e) s
  proposed req panic s = (panic, s)

  -- A write of the data group, forwarded when another node leads it.
  unfoldable pub propose : QueueRequest → HostAction node.tonic QueueResponse
  unfolding proposed
  propose req = await (node.raft.client_write req) (proposed req)

  unfoldable pub handle_publish : PublishRequest → HostAction node.tonic PublishResponse
  unfolding propose
  handle_publish request = do
    resp ← propose (publish request.queue request.payload)
    succeed (record { offset = get_or resp.published_offset 0 })

  -- One update of `watch_status`; no leader is 0.
  unfoldable pub status_update : W → StatusUpdate
  unfolding Queue.depths
  status_update w = record {
    node_id = node.node_id;
    queue_depths = Queue.depths (node.locked_state w);
    nodes_group_leader = get_or (node.nodes_leader w) 0;
    queue_group_leader = get_or (node.raft.current_leader w) 0;
  }

  -- The stream of `watch_status`, by the worlds at its ticks.
  unfoldable pub watch_status : List W → List (Outcome Status StatusUpdate)
  unfolding status_update
  watch_status = map (λ w. ok (status_update w))
