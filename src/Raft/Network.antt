-- ===== src/Raft/Network.antt =====
-- src/Blun.Mq.Raft/src/network.rs: the calls of a Raft group to its peers. The state of the world
-- that a call may change, the connections and the messages of openraft are parameters.
use blun_mq.Base.{
  ℕ, Option, none, some, Text, Bytes, Outcome, ok, err, panic, ◌>>=◌, map_err, expect,
}
use blun_mq.Base.BTreeMap.{BTreeMap, get}
use blun_mq.Proto.{RaftGroup, tag, RaftEnvelope, Status}
use blun_mq.Raft.Serde.{Serde}

-- One remote call of openraft at one type configuration: what is asked and answered, their codecs,
-- what the receiving `openraft::Raft` does, and the `{:?}` of the errors.
pub record Call (W : Type 0) : Type 1 where
  pub JsonError : Type 0
  pub RaftError : Type 0
  pub Request : Type 0
  pub Response : Type 0
  pub request : Serde JsonError Request
  pub response : Serde JsonError Response
  pub run : Request → W → Outcome RaftError Response × W
  pub debug_json : JsonError → Text
  pub debug_raft : RaftError → Text

-- The `openraft::Raft` of one group.
pub record RaftHandle (W : Type 0) : Type 1 where
  pub append_entries : Call W
  pub vote : Call W
  pub install_snapshot : Call W

abbrev pub Method : Type 0 → Type 0
Method W = RaftEnvelope → W → Outcome Status RaftEnvelope × W

-- `RaftRpcClient<Channel>`
pub record RaftRpcClient (W : Type 0) : Type 0 where
  pub append_entries : Method W
  pub vote : Method W
  pub install_snapshot : Method W

-- `Channel::from_shared`, and `connect_lazy` with the client around it.
pub record Transport (W : Type 0) : Type 1 where
  pub Endpoint : Type 0
  pub InvalidUri : Type 0
  pub from_shared : Text → Outcome InvalidUri Endpoint
  pub connect_lazy : Endpoint → RaftRpcClient W

pub record Network : Type 0 where
  pub peers : BTreeMap Text
  pub group : RaftGroup

unfoldable pub new : BTreeMap Text → RaftGroup → Network
new peers group = record { peers = peers; group = group }

pub data RpcError : Type 0 where
  network : Status → RpcError

pub record NetworkConnection (W : Type 0) : Type 0 where
  pub client : RaftRpcClient W
  pub group : RaftGroup

module _ {W : Type 0} where
  connect : (t : Transport W) → RaftGroup → Option Text → Outcome t.InvalidUri (NetworkConnection W)
  connect t group none = panic
  connect t group (some addr) = do
    endpoint ← expect (t.from_shared addr)
    ok (record { client = t.connect_lazy endpoint; group = group })

  -- An unknown peer and an invalid address panic.
  unfoldable pub new_client :
      (t : Transport W) → Network → ℕ → Outcome t.InvalidUri (NetworkConnection W)
  unfolding connect get
  new_client t net target = connect t net.group (get target net.peers)

  unfoldable pub receive : (c : Call W) → Outcome Status RaftEnvelope → Outcome RpcError c.Response
  receive c reply = do
    envelope ← map_err network reply
    expect (c.response.from_slice envelope.payload)

  unfoldable pub post :
      (c : Call W)
      → Method W
      → RaftGroup
      → Outcome RpcError Bytes
      → W
      → Outcome RpcError c.Response × W
  unfolding receive
  post c method group (ok payload) w =
      let (reply, w') = method (record { payload = payload; group = tag group }) w in
      (receive c reply, w')
  post c method group (err x) w = (err x, w)
  post c method group panic w = (panic, w)

  -- The request goes out in an envelope with the group's tag; the reply's payload is the response.
  unfoldable pub send :
      (c : Call W) → Method W → RaftGroup → c.Request → W → Outcome RpcError c.Response × W
  unfolding post
  send c method group rpc w = post c method group (expect (c.request.to_vec rpc)) w

  module _ (h : RaftHandle W) (conn : NetworkConnection W) where
    unfoldable pub append_entries :
        h.append_entries.Request → W → Outcome RpcError h.append_entries.Response × W
    unfolding send
    append_entries = send h.append_entries conn.client.append_entries conn.group

    unfoldable pub vote : h.vote.Request → W → Outcome RpcError h.vote.Response × W
    unfolding send
    vote = send h.vote conn.client.vote conn.group

    unfoldable pub install_snapshot :
        h.install_snapshot.Request → W → Outcome RpcError h.install_snapshot.Response × W
    unfolding send
    install_snapshot = send h.install_snapshot conn.client.install_snapshot conn.group
