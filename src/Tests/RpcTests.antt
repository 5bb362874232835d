-- ===== src/Tests/RpcTests.antt =====
-- Two groups whose runs differ, called from another node.
use blun_mq.Base.{ℕ, ◌+◌, [], ◌∷◌, Bytes, text, Outcome, ok, err, refl, Text, some, ◌≡◌, nat_eq}
use blun_mq.Proto.{nodes, spam, internal, Status}
use blun_mq.Raft.Serde.{Serde, IsExact}
use blun_mq.Base.BTreeMap.{BTreeMap, get}
use blun_mq.Raft.Network.{Call, RaftHandle, Transport}
use blun_mq.Host.RaftRpc.{RaftRpcImpl}
use blun_mq.Host.RaftRpc.EndToEnd.{client_of, Connects, HasExactCodecs, AreExact, new_client-Calls}

abbrev bytes : Serde ℕ Bytes
bytes = record { to_vec = λ b. ok b; from_slice = λ d. ok d }

bytes-IsExact : IsExact bytes
bytes-IsExact = record { exact = λ a. (a, refl, refl) }

-- A run that adds to the world and fails on an empty request.
abbrev run : ℕ → Bytes → ℕ → Outcome ℕ Bytes × ℕ
run step [] w = (err 7, w)
run step (b ∷ bs) w = (ok (step ∷ bs), w + step)

abbrev adding : ℕ → Call ℕ
adding step = record {
  JsonError = ℕ;
  RaftError = ℕ;
  Request = Bytes;
  Response = Bytes;
  request = bytes;
  response = bytes;
  run = run step;
  debug_json = λ e. e ∷ [];
  debug_raft = λ e. e ∷ [];
}

abbrev handle : ℕ → RaftHandle ℕ
handle step = record {
  append_entries = adding step;
  vote = adding (step + 1);
  install_snapshot = adding (step + 2);
}

abbrev two_groups : RaftRpcImpl ℕ
two_groups = record { node_raft = handle 10; queue_raft = handle 20 }

abbrev cancelled : Status
cancelled = record { code = internal; message = text "cancelled" }

codecs-AreExact : (step : ℕ) → AreExact (handle step)
codecs-AreExact step =
    let exact : (step : ℕ) → HasExactCodecs (adding step) =
      λ step. record { request_exact = bytes-IsExact; response_exact = bytes-IsExact } in
    record {
      append_entries_exact = exact step;
      vote_exact = exact (step + 1);
      install_snapshot_exact = exact (step + 2);
    }

abbrev wires : Transport ℕ
wires = record {
  Endpoint = Text;
  InvalidUri = ℕ;
  from_shared = λ addr. ok addr;
  connect_lazy = λ endpoint. client_of cancelled two_groups;
}

abbrev peers : BTreeMap Text
peers = (1, text "http://a") ∷ (2, text "http://b") ∷ []

known : get 2 peers ≡ some (text "http://b")
unfolding get nat_eq
known = refl

new_client-Calls_example :
    Connects wires peers nodes 2 (handle 10) cancelled
    × Connects wires peers spam 2 (handle 20) cancelled
new_client-Calls_example =
    new_client-Calls wires peers 2 (text "http://b") (text "http://b") two_groups cancelled known
      refl refl (codecs-AreExact 10) (codecs-AreExact 20)
