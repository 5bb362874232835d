-- ===== src/Raft/LogStore/Open/Forgets.antt =====
-- A node that starts again after its log was purged.
use blun_mq.Base.{◌+◌, ◌<◌, ◌≡◌, refl, ◌∙◌, [], none, some, Text, ok}
use blun_mq.Base.Cells.{Arc, Cells}
use blun_mq.Raft.Types.{u64_mod}
use blun_mq.Raft.Openraft.{Openraft}
use blun_mq.Raft.Serde.{IsFaithful}
use blun_mq.Raft.Engine.{Engine, IsLawful, from}
use blun_mq.Raft.LogStore.{Codecs, region_id, last_purged_key, get_log_state, purge}
use blun_mq.Raft.LogStore.Open.{Files, open_store}
use blun_mq.Raft.LogStore.Open.Restart.{IsDurable, open_store-leave}
use blun_mq.Raft.LogStore.Purge.{purge_lem, get_log_state-purge}
use blun_mq.Raft.LogStore.Reads.{live, get_log_state-cong}
use blun_mq.Raft.Store.{new, applied_state, get_current_snapshot}

-- A log was purged to its end, then the process ended. The log store that opens the same directory
-- has no entry and takes all up to the purged id for purged, while a new state machine has applied
-- nothing and offers no snapshot: what was purged can be read nowhere on the node.
pub restart_forgets :
    {e : Engine} (laws : IsLawful e) {Disk : Type 0} (f : Files e Disk)
    (durable : IsDurable e laws f) (o : Openraft) {R : Type 0} (codecs : Codecs o R)
    → IsFaithful (λ (a b : o.LogId). a ≡ b) codecs.log_id
    → (dir : Text) (address machine : Arc) (cells : Cells e.State) (d : Disk) (id : o.LogId)
      (s t : e.State)
    → purge e o codecs id s ≡ (ok tt, t)
    → o.index id + 1 < u64_mod
    → from (o.index id + 1) (live e laws o codecs s) ≡ []
    → let (result, cells', d') = open_store f dir address cells (durable.leave dir t d) in
      (result ≡ ok (record { engine = address }))
      × (get_log_state e o codecs (cells' address)
          ≡ ok (record { last_purged_log_id = some id; last_log_id = some id }))
      × (live e laws o codecs (cells' address) ≡ [])
      × (applied_state o (new o machine) ≡ (none, o.stored_default))
      × (get_current_snapshot o (new o machine) ≡ none)
unfolding applied_state new get_current_snapshot
restart_forgets {e = e} laws f durable o codecs faithful dir address machine cells d id s t h fits
      gone =
    let (opens, at) = open_store-leave f durable dir address cells t d in
    let r = durable.recovered dir t d in
    let entries = durable.recovered-entries dir t d region_id in
    let same =
      get_log_state-cong e laws o codecs r t
        (durable.recovered-messages dir t d region_id last_purged_key) entries in
    let (rest, _, _) = purge_lem e laws o codecs faithful id s t h fits in
    rw at (
      opens,
      same ∙ get_log_state-purge e laws o codecs faithful id s t h fits gone,
      entries ∙ rest ∙ gone,
      refl,
      refl,
    )
