-- ===== src/Host/Status.antt =====
-- src/Blun.Mq.Host/src/status_http.rs: the status of a node over HTTP. Its JSON is a parameter, and the
-- worlds at the ticks of the stream's interval are an argument.
use blun_mq.Base.{
  ℕ, ◌≡◌, refl, List, map, Option, none, some, get_or, Text, Bytes, text, text_eq, ◌==◌,
  if◌then◌else◌, Outcome, ok, expect,
}
use blun_mq.Base.HashMap.{HashMap}
use blun_mq.Proto.{StatusUpdate}
use blun_mq.Raft.Serde.{Serde}
use blun_mq.Raft.Queue
use blun_mq.Raft.Queue.{QueueState}
use blun_mq.Host.Service.{MqServiceImpl, watch_status}

pub record StatusState (W : Type 0) : Type 0 where
  pub node_id : Text
  pub locked_state : W → QueueState
  pub nodes_leader : W → Option ℕ
  pub queue_leader : W → Option ℕ

pub record StatusPayload : Type 0 where
  pub node_id : Text
  pub queue_depths : HashMap Text ℕ
  pub nodes_group_leader : Option ℕ
  pub queue_group_leader : Option ℕ

-- The two paths that are served.
pub data Route : Type 0 where
  once : Route
  stream : Route

unfoldable pub router : Text → Option Route
unfolding text_eq
router path =
    if path == text "/status"
    then some once
    else (if path == text "/status/stream" then some stream else none)

module _ {W : Type 0} (state : StatusState W) where
  unfoldable pub payload : W → StatusPayload
  unfolding Queue.depths
  payload w = record {
    node_id = state.node_id;
    queue_depths = Queue.depths (state.locked_state w);
    nodes_group_leader = state.nodes_leader w;
    queue_group_leader = state.queue_leader w;
  }

  module _ {E : Type 0} (json : Serde E StatusPayload) where
    unfoldable pub status_once : W → Outcome E Bytes
    unfolding payload
    status_once w = json.to_vec (payload w)

    -- One event for each tick, whose encoding is unwrapped.
    unfoldable pub status_stream : List W → List (Outcome E Bytes)
    unfolding payload
    status_stream = map (λ w. expect (json.to_vec (payload w)))

-- The message of the gRPC service for the same status.
abbrev pub as_update : StatusPayload → StatusUpdate
as_update p = record {
  node_id = p.node_id;
  queue_depths = p.queue_depths;
  nodes_group_leader = get_or p.nodes_group_leader 0;
  queue_group_leader = get_or p.queue_group_leader 0;
}

-- The handles that the service has too.
abbrev pub shared : {W : Type 0} → MqServiceImpl W → StatusState W
shared node = record {
  node_id = node.node_id;
  locked_state = node.locked_state;
  nodes_leader = node.nodes_leader;
  queue_leader = node.raft.current_leader;
}

-- `watch_status` yields at its ticks what the payloads are there.
pub payload-watch_status :
    {W : Type 0} (node : MqServiceImpl W) (ws : List W)
    → watch_status node ws ≡ map (λ w. ok (as_update (payload (shared node) w))) ws
unfolding payload watch_status
payload-watch_status node ws = refl
