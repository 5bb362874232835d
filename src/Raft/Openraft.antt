-- ===== src/Raft/Openraft.antt =====
-- What src/Blun.Mq.Raft uses of the crate openraft: opaque types with the calls that the code makes
-- on them, and the structs whose fields it reads or builds.
use blun_mq.Base.{ℕ, Text, Bytes, Option}

-- `LogId<u64>`, `Membership`, `StoredMembership` and `Vote<u64>`.
pub record Openraft : Type 1 where
  pub LogId : Type 0
  pub Membership : Type 0
  pub StoredMembership : Type 0
  pub Vote : Type 0
  -- `log_id.index`
  pub index : LogId → ℕ
  -- `StoredMembership::default()`
  pub stored_default : StoredMembership
  -- `StoredMembership::new(log_id, membership)`
  pub stored_new : Option LogId → Membership → StoredMembership

module _ (o : Openraft) where
  pub data EntryPayload (R : Type 0) : Type 0 where
    blank : EntryPayload R
    normal : R → EntryPayload R
    membership : o.Membership → EntryPayload R

  pub record Entry (R : Type 0) : Type 0 where
    pub log_id : o.LogId
    pub payload : EntryPayload R

  pub record SnapshotMeta : Type 0 where
    pub last_log_id : Option o.LogId
    pub last_membership : o.StoredMembership
    pub snapshot_id : Text

  -- A snapshot's `Cursor` stands at its start, so it is its bytes.
  pub record Snapshot : Type 0 where
    pub meta : SnapshotMeta
    pub snapshot : Bytes
