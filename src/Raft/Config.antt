-- ===== src/Raft/Config.antt =====
-- `raft_config` of src/Blun.Mq.Raft/src/lib.rs. The argument stands for openraft's other options at their
-- defaults.
use blun_mq.Base.{ℕ}

-- `openraft::Config`, times in milliseconds.
pub record Config (Others : Type 0) : Type 0 where
  pub heartbeat_interval : ℕ
  pub election_timeout_min : ℕ
  pub election_timeout_max : ℕ
  pub others : Others

abbrev pub raft_config : {Others : Type 0} → Others → Config Others
raft_config default = record {
  heartbeat_interval = 500;
  election_timeout_min = 1500;
  election_timeout_max = 3000;
  others = default;
}
