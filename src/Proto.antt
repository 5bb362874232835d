-- ===== src/Proto.antt =====
-- src/Blun.Mq.Proto/proto/mq.proto: the messages of the gRPC services, and tonic's `Status`.
use blun_mq.Base.{ℕ, Option, Text, Bytes}
use blun_mq.Base.HashMap.{HashMap}

pub record PublishRequest : Type 0 where
  pub queue : Text
  pub payload : Bytes

pub record PublishResponse : Type 0 where
  pub offset : ℕ

pub data Kind : Type 0 where
  subscribe : Text → Kind
  ack : ℕ → Kind

pub record ConsumeRequest : Type 0 where
  pub kind : Option Kind

pub record ConsumeResponse : Type 0 where
  pub offset : ℕ
  pub payload : Bytes

pub record StatusUpdate : Type 0 where
  pub node_id : Text
  pub queue_depths : HashMap Text ℕ
  pub nodes_group_leader : ℕ
  pub queue_group_leader : ℕ

pub data RaftGroup : Type 0 where
  nodes spam : RaftGroup

-- A group's tag on the wire, an `i32` in two's complement.
abbrev pub tag : RaftGroup → ℕ
tag nodes = 0
tag spam = 1

pub record RaftEnvelope : Type 0 where
  pub payload : Bytes
  pub group : ℕ

pub data Code : Type 0 where
  internal unavailable invalid_argument : Code

pub record Status : Type 0 where
  pub code : Code
  pub message : Text
