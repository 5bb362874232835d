-- ===== src/Host/RaftRpc/EndToEnd.antt =====
-- The client of one node and the service of another, joined: src/Blun.Mq.Raft/src/network.rs over
-- src/Blun.Mq.Host/src/grpc_raft.rs.
use blun_mq.Base.{ℕ, ◌≡◌, refl, some, Text, Outcome, ok, err, panic}
use blun_mq.Base.BTreeMap.{BTreeMap, get}
use blun_mq.Proto.{RaftGroup, nodes, spam, tag, RaftEnvelope, Status}
use blun_mq.Raft.Serde.{IsExact}
use blun_mq.Raft.Network
use blun_mq.Raft.Network.{
  Call, RaftHandle, Method, RaftRpcClient, NetworkConnection, RpcError, network, send, post,
  receive, Transport, new, new_client,
}
use blun_mq.Host.RaftRpc
use blun_mq.Host.RaftRpc.{
  RaftRpcImpl, raft_of, to_status, group_of, group_of_tag, serve, decoded, encode, reply,
}

-- What tonic makes of a handler: one that panics is a cancelled stream for its caller.
abbrev pub stream : Status → Outcome Status RaftEnvelope → Outcome Status RaftEnvelope
stream cancelled (ok envelope) = ok envelope
stream cancelled (err status) = err status
stream cancelled panic = err cancelled

-- The answer of the group's own `openraft::Raft`, as its caller on another node gets it.
abbrev pub seen : {E A : Type 0} → Status → (E → Text) → Outcome E A → Outcome RpcError A
seen cancelled debug (ok response) = ok response
seen cancelled debug (err x) = err (network (to_status (debug x)))
seen cancelled debug panic = err (network cancelled)

module _ {W : Type 0} where
  abbrev pub remote : Status → Method W → Method W
  remote cancelled handler envelope w =
      let (answer, w') = handler envelope w in (stream cancelled answer, w')

  -- The client that calls the service of a node.
  abbrev pub client_of : Status → RaftRpcImpl W → RaftRpcClient W
  client_of cancelled impl = record {
    append_entries = remote cancelled (RaftRpc.append_entries impl);
    vote = remote cancelled (RaftRpc.vote impl);
    install_snapshot = remote cancelled (RaftRpc.install_snapshot impl);
  }

  -- The connection of a group to the node that serves `impl`.
  abbrev pub connection : Status → RaftRpcImpl W → RaftGroup → NetworkConnection W
  connection cancelled impl group = record { client = client_of cancelled impl; group = group }

  pub record HasExactCodecs (c : Call W) : Type 0 where
    pub request_exact : IsExact c.request
    pub response_exact : IsExact c.response

  module _ (c : Call W) (exact : HasExactCodecs c) (cancelled : Status) where
    -- `serve`'s handler for the call, whatever the group.
    abbrev handler : Method W
    handler envelope w = reply envelope (serve c envelope.payload w)

    answered :
        (envelope : RaftEnvelope) (result : Outcome c.RaftError c.Response) (w : W)
        → receive c (stream cancelled (reply envelope (encode c result, w)).0)
          ≡ seen cancelled c.debug_raft result
    unfolding receive reply encode to_status
    answered envelope (ok resp) w = let (d, p, q) = exact.response_exact.exact resp in rw (p, q)
    answered envelope (err x) w = refl
    answered envelope panic w = refl

    sent :
        (group : RaftGroup) (req : c.Request) (w : W)
        → send c (remote cancelled handler) group req w
          ≡ (seen cancelled c.debug_raft (c.run req w).0, (c.run req w).1)
    unfolding send post serve decoded reply
    sent group req w =
        let (d, p, q) = exact.request_exact.exact req in
        rw (p, q, answered (record { payload = d; group = tag group }) (c.run req w).0 w)

-- Each of the three calls of a group's connection.
module _ {W : Type 0} where
  pub record AreExact (h : RaftHandle W) : Type 0 where
    pub append_entries_exact : HasExactCodecs h.append_entries
    pub vote_exact : HasExactCodecs h.vote
    pub install_snapshot_exact : HasExactCodecs h.install_snapshot

  -- A call that goes through the network does what the group's own openraft does with it.
  abbrev pub Reaches :
      (c : Call W) → Status → (c.Request → W → Outcome RpcError c.Response × W) → Type 0
  Reaches c cancelled call =
      (req : c.Request) (w : W)
      → call req w ≡ (seen cancelled c.debug_raft (c.run req w).0, (c.run req w).1)

  -- A call over the connection of a group reaches the openraft of that group on the serving node,
  -- never the other's: its request is what that openraft runs, its effect is that run's, and its
  -- result is that run's response, a network error with the run's error, or, where the run panics,
  -- the cancelled stream's; so for the three methods, where the codecs are exact.
  pub call-openraft :
      (impl : RaftRpcImpl W) (group : RaftGroup) (cancelled : Status)
      → AreExact (raft_of impl group)
      → Reaches
          (raft_of impl group).append_entries
          cancelled
          (Network.append_entries (raft_of impl group) (connection cancelled impl group))
        × Reaches
            (raft_of impl group).vote
            cancelled
            (Network.vote (raft_of impl group) (connection cancelled impl group))
        × Reaches
            (raft_of impl group).install_snapshot
            cancelled
            (Network.install_snapshot (raft_of impl group) (connection cancelled impl group))
  unfolding Network.append_entries Network.vote Network.install_snapshot RaftRpc.append_entries
      RaftRpc.vote RaftRpc.install_snapshot group_of group_of_tag
  call-openraft impl nodes cancelled exact = (
    sent impl.node_raft.append_entries exact.append_entries_exact cancelled nodes,
    sent impl.node_raft.vote exact.vote_exact cancelled nodes,
    sent impl.node_raft.install_snapshot exact.install_snapshot_exact cancelled nodes,
  )
  call-openraft impl spam cancelled exact = (
    sent impl.queue_raft.append_entries exact.append_entries_exact cancelled spam,
    sent impl.queue_raft.vote exact.vote_exact cancelled spam,
    sent impl.queue_raft.install_snapshot exact.install_snapshot_exact cancelled spam,
  )

  -- The three calls of a connection reach a group's openraft.
  pub record Calls (h : RaftHandle W) (cancelled : Status) (conn : NetworkConnection W)
      : Type 0 where
    pub append_entries : Reaches h.append_entries cancelled (Network.append_entries h conn)
    pub vote : Reaches h.vote cancelled (Network.vote h conn)
    pub install_snapshot : Reaches h.install_snapshot cancelled (Network.install_snapshot h conn)

  -- The calls of a group's network to a peer reach a handle.
  abbrev pub Connects : Transport W → BTreeMap Text → RaftGroup → ℕ → RaftHandle W → Status → Type 0
  Connects t peers group id h cancelled =
      (conn : NetworkConnection W) × (new_client t (new peers group) id ≡ ok conn)
      × Calls h cancelled conn

  connects :
      (t : Transport W) (peers : BTreeMap Text) (group : RaftGroup) (id : ℕ) (addr : Text)
      (endpoint : t.Endpoint) (impl : RaftRpcImpl W) (cancelled : Status)
      → get id peers ≡ some addr
      → t.from_shared addr ≡ ok endpoint
      → t.connect_lazy endpoint ≡ client_of cancelled impl
      → AreExact (raft_of impl group)
      → Connects t peers group id (raft_of impl group) cancelled
  unfolding new_client new get
  connects t peers group id addr endpoint impl cancelled here valid reaches exact =
      let (a, v, i) = call-openraft impl group cancelled exact in
      (
        connection cancelled impl group,
        rw (here, valid, reaches),
        record { append_entries = a; vote = v; install_snapshot = i },
      )

  -- A peer has a valid address in MQ_PEERS, where the client at that address calls the handlers of the
  -- peer's service. The network of the node directory's group connects to it, and the three calls
  -- over that connection reach the peer's `node_raft`; those of the data group's network reach its
  -- `queue_raft`. Each request is what that openraft runs, its effect is that run's, and its result
  -- is that run's response, a network error with the run's error, or, where the run panics, the
  -- cancelled stream's, if the codecs are exact.
  pub new_client-Calls :
      (t : Transport W) (peers : BTreeMap Text) (id : ℕ) (addr : Text) (endpoint : t.Endpoint)
      (impl : RaftRpcImpl W) (cancelled : Status)
      → get id peers ≡ some addr
      → t.from_shared addr ≡ ok endpoint
      → t.connect_lazy endpoint ≡ client_of cancelled impl
      → AreExact impl.node_raft
      → AreExact impl.queue_raft
      → Connects t peers nodes id impl.node_raft cancelled
        × Connects t peers spam id impl.queue_raft cancelled
  new_client-Calls t peers id addr endpoint impl cancelled here valid reaches exact exact' = (
    connects t peers nodes id addr endpoint impl cancelled here valid reaches exact,
    connects t peers spam id addr endpoint impl cancelled here valid reaches exact',
  )
