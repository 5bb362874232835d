-- ===== src/Host/RaftRpc.antt =====
-- src/Blun.Mq.Host/src/grpc_raft.rs: one gRPC service for the Raft calls of both groups.
pub mod EndToEnd
use blun_mq.Base.{ℕ, zero, suc, Text, Bytes, Outcome, ok, err, panic, ◌>>=◌, map_err}
use blun_mq.Proto.{RaftGroup, nodes, spam, RaftEnvelope, Code, internal, Status}
use blun_mq.Raft.Network.{Call, RaftHandle, Method}

pub record RaftRpcImpl (W : Type 0) : Type 1 where
  pub node_raft : RaftHandle W
  pub queue_raft : RaftHandle W

-- The argument is the error's `{err:?}`.
unfoldable pub to_status : Text → Status
to_status debug = record { code = internal; message = debug }

-- `RaftGroup::try_from(tag).unwrap_or(RaftGroup::Spam)`
unfoldable pub group_of_tag : ℕ → RaftGroup
group_of_tag zero = nodes
group_of_tag (suc n) = spam

unfoldable pub group_of : RaftEnvelope → RaftGroup
unfolding group_of_tag
group_of envelope = group_of_tag envelope.group

module _ {W : Type 0} where
  -- The group's own `openraft::Raft`.
  abbrev pub raft_of : RaftRpcImpl W → RaftGroup → RaftHandle W
  raft_of impl nodes = impl.node_raft
  raft_of impl spam = impl.queue_raft

  pub encode : (c : Call W) → Outcome c.RaftError c.Response → Outcome Status Bytes
  unfolding to_status
  encode c result = do
    resp ← map_err (λ x. to_status (c.debug_raft x)) result
    map_err (λ x. to_status (c.debug_json x)) (c.response.to_vec resp)

  pub decoded : (c : Call W) → Outcome c.JsonError c.Request → W → Outcome Status Bytes × W
  unfolding encode
  decoded c (ok req) w = let (result, w') = c.run req w in (encode c result, w')
  decoded c (err x) w = (err (to_status (c.debug_json x)), w)
  decoded c panic w = (panic, w)

  -- One arm of a handler's match: decode, call, encode.
  pub serve : (c : Call W) → Bytes → W → Outcome Status Bytes × W
  unfolding decoded
  serve c payload w = decoded c (c.request.from_slice payload) w

  -- The reply carries the request's tag.
  pub reply : RaftEnvelope → Outcome Status Bytes × W → Outcome Status RaftEnvelope × W
  reply envelope (payload, w) =
      (payload >>= λ bytes. ok (record { payload = bytes; group = envelope.group }), w)

  module _ (impl : RaftRpcImpl W) where
    unfoldable pub append_entries : Method W
    unfolding group_of serve reply
    append_entries envelope w =
        reply envelope (serve (raft_of impl (group_of envelope)).append_entries envelope.payload w)

    unfoldable pub vote : Method W
    unfolding group_of serve reply
    vote envelope w =
        reply envelope (serve (raft_of impl (group_of envelope)).vote envelope.payload w)

    unfoldable pub install_snapshot : Method W
    unfolding group_of serve reply
    install_snapshot envelope w =
        reply envelope
          (serve (raft_of impl (group_of envelope)).install_snapshot envelope.payload w)
