-- ===== src/Tests/Cluster.antt =====
-- A cluster of a leader and a follower.
use blun_mq.Base.{
  ℕ, refl, [], ◌∷◌, Option, none, some, Text, text, text_eq, nat_eq, Outcome, ok, err,
}
use blun_mq.Base.BTreeMap.{BTreeMap}
use blun_mq.Proto.{PublishRequest, PublishResponse, ConsumeResponse, Status, unavailable}
use blun_mq.Raft.Types.{pop}
use blun_mq.Raft.Queue.{Message, QueueState, empty, apply}
use blun_mq.Host.Service.{
  forward_to_leader, QueueRaft, Tonic, MqServiceImpl, Shared, handle_publish,
}
use blun_mq.Host.Service.Leading.{IsLeading}

abbrev pub peers : BTreeMap Text
peers = (1, text "a") ∷ (2, text "b") ∷ []

abbrev pub parsed : Text → Outcome ℕ Text
parsed [] = err 0
parsed (c ∷ s) = ok (c ∷ s)

abbrev pub spam : Text
spam = text "spam"

abbrev pub item : Option Message → Option (Option (Outcome Status ConsumeResponse))
item none = none
item (some (offset, payload)) = some (some (ok (record { offset = offset; payload = payload })))

-- Channels are addresses, and calls over them do what `serve` does. A stream yields what a Pop gets.
abbrev pub wires :
    (PublishRequest → QueueState → Outcome Status PublishResponse × QueueState) → Tonic QueueState
wires serve = record {
  Endpoint = Text;
  Channel = Text;
  InvalidUri = ℕ;
  display = λ e. e ∷ [];
  from_shared = parsed;
  connect_lazy = λ endpoint. endpoint;
  publish = λ ch request w. serve request w;
  Inbound = ℕ;
  consume = λ ch request w. (ok 0, w);
  next_within = λ ms inbound w. let (w', x) = apply w (pop spam) in (item x.popped, w');
}

abbrev pub offline : Tonic QueueState
offline = wires (λ request w. (err (record { code = unavailable; message = [] }), w))

-- The data group's openraft on its leader: a write is applied.
abbrev pub leading : QueueRaft QueueState
leading = record {
  RaftError = Text;
  debug = λ e. e;
  client_write = λ req w. let (w', resp) = apply w req in (ok resp, w');
  current_leader = λ w. some 1;
}

abbrev pub node_1 : MqServiceImpl QueueState
node_1 = record {
  node_id = text "node-1";
  raft = leading;
  nodes_leader = λ w. some 1;
  locked_state = λ w. w;
  peers = peers;
  tonic = offline;
}

pub node_1-IsLeading : IsLeading node_1
node_1-IsLeading = record { answers = λ req w. refl; applies = λ req w. refl }

abbrev pub serve : PublishRequest → QueueState → Outcome Status PublishResponse × QueueState
serve request w =
    let (answer, s) = handle_publish node_1 request (record { forward_channels = []; world = w }) in
    (answer, s.world)

abbrev pub node_2 : MqServiceImpl QueueState
node_2 = record {
  node_id = text "node-2";
  raft = record {
    RaftError = Text;
    debug = λ e. e;
    client_write = λ req w. (err (forward_to_leader (some 1)), w);
    current_leader = λ w. some 1;
  };
  nodes_leader = λ w. some 1;
  locked_state = λ w. w;
  peers = peers;
  tonic = wires serve;
}

abbrev pub request : PublishRequest
request = record { queue = text "spam"; payload = 7 ∷ [] }

abbrev pub fresh : Shared Text QueueState
fresh = record { forward_channels = []; world = empty }
