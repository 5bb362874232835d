-- ===== src/Raft/Types.antt =====
-- src/Blun.Mq.Raft/src/types.rs: the commands that the two Raft groups replicate, and their
-- responses.
use blun_mq.Base.{ℕ, Text, Bytes, Option, none}

pub data QueueRequest : Type 0 where
  publish : Text → Bytes → QueueRequest
  pop : Text → QueueRequest

pub record QueueResponse : Type 0 where
  pub published_offset : Option ℕ
  pub popped : Option (ℕ × Bytes)

-- `#[derive(Default)]`
abbrev pub default_response : QueueResponse
default_response = record { published_offset = none; popped = none }

pub data NodeCommand : Type 0 where
  upsert_node : ℕ → Text → NodeCommand

pub data NodeResponse : Type 0 where
  node_response : NodeResponse

-- The number of values of a `u64`, whose additions wrap.
abbrev pub u64_mod : ℕ
u64_mod = 18_446_744_073_709_551_616
