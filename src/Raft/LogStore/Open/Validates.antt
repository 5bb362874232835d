-- ===== src/Raft/LogStore/Open/Validates.antt =====
-- src/Blun.Mq.Raft/src/raft_engine_log_store.rs: what a node that starts again after a purge tells openraft,
-- which checks that no more was purged than was committed.
use mathlib.Core.Option.{or_else}
use blun_mq.Base.{◌+◌, ◌<◌, ◌≡◌, ◌∙◌, Text, Option, some, ok, text_eq}
use blun_mq.Base.Cells.{Arc, Cells}
use blun_mq.Raft.Types.{u64_mod}
use blun_mq.Raft.Openraft.{Openraft}
use blun_mq.Raft.Serde.{IsFaithful}
use blun_mq.Raft.Engine.{Engine, IsLawful}
use blun_mq.Raft.LogStore.{
  Codecs, region_id, committed_key, last_purged_key, get_log_state, read_committed, save_committed,
  purge, last_entry_id,
}
use blun_mq.Raft.LogStore.Keys.{read_committed-save_committed}
use blun_mq.Raft.LogStore.Open.{Files, open_store}
use blun_mq.Raft.LogStore.Open.Restart.{IsDurable, open_store-leave}
use blun_mq.Raft.LogStore.Purge.{purge_lem, get_log_state-purged}
use blun_mq.Raft.LogStore.Reads.{read_committed-cong, get_log_state-cong}

-- A committed id was saved, the log was purged up to an id, then the process ended. The log store that
-- opens the same directory reads that committed id, and reports that id as the last purged one, and as
-- the last one unless a last entry is left; that entry, if any, could be read before.
pub restart_validates :
    {e : Engine} (laws : IsLawful e) {Disk : Type 0} (f : Files e Disk)
    (durable : IsDurable e laws f) (o : Openraft) {R : Type 0} (codecs : Codecs o R)
    → IsFaithful (λ (a b : o.LogId). a ≡ b) codecs.log_id
    → IsFaithful (λ (a b : Option o.LogId). a ≡ b) codecs.committed
    → (dir : Text) (address : Arc) (cells : Cells e.State) (d : Disk) (c id : o.LogId)
      (last : Option o.LogId) (s₁ s₂ t : e.State)
    → save_committed e o codecs (some c) s₁ ≡ (ok tt, s₂)
    → purge e o codecs id s₂ ≡ (ok tt, t)
    → o.index id + 1 < u64_mod
    → last_entry_id e o codecs (e.last_index region_id t) t ≡ ok last
    → let (result, cells', d') = open_store f dir address cells (durable.leave dir t d) in
      (result ≡ ok (record { engine = address }))
      × (read_committed e o codecs (cells' address) ≡ ok (some c))
      × (get_log_state e o codecs (cells' address)
          ≡ ok (record { last_purged_log_id = some id; last_log_id = or_else last (some id) }))
restart_validates {e = e} laws f durable o codecs faithful faithful_committed dir address cells d c
      id last s₁ s₂ t saved purged fits readable =
    let (opens, at) = open_store-leave f durable dir address cells t d in
    let r = durable.recovered dir t d in
    let same = durable.recovered-messages dir t d region_id in
    let entries = durable.recovered-entries dir t d region_id in
    let (_, _, kept) = purge_lem e laws o codecs faithful id s₂ t purged fits in
    let (reads, _, _) =
      read_committed-save_committed e laws o codecs faithful_committed (some c) s₁ s₂ saved in
    rw at (
      opens,
      read_committed-cong e laws o codecs r t (same committed_key) ∙ kept ∙ reads,
      get_log_state-cong e laws o codecs r t (same last_purged_key) entries
          ∙ get_log_state-purged e laws o codecs faithful id s₂ t purged fits last readable,
    )
