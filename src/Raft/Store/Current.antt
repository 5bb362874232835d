-- ===== src/Raft/Store/Current.antt =====
-- Which snapshot a store offers to lagging nodes.
use blun_mq.Base.{ℕ, ◌≡◌, refl, List, none, some, Bytes, ok, arith}
use blun_mq.Base.Cells.{Arc, Cells}
use blun_mq.Raft.Openraft.{Openraft, Entry, SnapshotMeta, Snapshot}
use blun_mq.Raft.Serde.{Serde}
use blun_mq.Raft.Store.{
  Machine, Store, new, apply, get_snapshot_builder, get_current_snapshot, build_snapshot,
  install_snapshot,
}
use blun_mq.Raft.Store.Log.{apply-AppliesLog}

module _ {E : Type 0} (o : Openraft) (m : Machine) (json : Serde E m.Payload) where
  -- A store offers the snapshot that it built itself.
  current-build :
      (now : ℕ) (c : Cells m.State) (st : Store o) (snap : Snapshot o) (built : Store o)
      → build_snapshot o m json now c st ≡ ok (snap, built)
      → get_current_snapshot o built ≡ some snap
  unfolding build_snapshot get_current_snapshot
  current-build now c st snap built h = ground arith

  current-install :
      (c : Cells m.State) (st : Store o) (meta : SnapshotMeta o) (d : Bytes) (c' : Cells m.State)
      (st' : Store o)
      → install_snapshot o m json c st meta d ≡ ok (c', st')
      → get_current_snapshot o st' ≡ some (record { meta = meta; snapshot = d })
  unfolding install_snapshot get_current_snapshot
  current-install c st meta d c' st' h = ground arith

  current-apply :
      (c : Cells m.State) (st : Store o) (es : List (Entry o m.Request))
      → get_current_snapshot o (apply o m c st es).2 ≡ get_current_snapshot o st
  unfolding get_current_snapshot
  current-apply c st es = rw (apply-AppliesLog o m c st es).store

  -- A store offers the last snapshot that it built or installed itself: none when it is new or a
  -- fresh builder, the built one after a build, the installed one after an install, and applying
  -- entries does not change it.
  pub current_snapshot :
      (now : ℕ) (a : Arc) (c : Cells m.State) (st : Store o) (es : List (Entry o m.Request))
      (snap : Snapshot o) (built : Store o) (meta : SnapshotMeta o) (d : Bytes) (c' : Cells m.State)
      (installed : Store o)
      → build_snapshot o m json now c st ≡ ok (snap, built)
      → install_snapshot o m json c st meta d ≡ ok (c', installed)
      → (get_current_snapshot o (new o a) ≡ none)
        × (get_current_snapshot o (get_snapshot_builder o st) ≡ none)
        × (get_current_snapshot o built ≡ some snap)
        × (get_current_snapshot o installed ≡ some (record { meta = meta; snapshot = d }))
        × (get_current_snapshot o (apply o m c st es).2 ≡ get_current_snapshot o st)
  unfolding get_current_snapshot new get_snapshot_builder
  current_snapshot now a c st es snap built meta d c' installed h k = (
    refl,
    refl,
    current-build now c st snap built h,
    current-install c st meta d c' installed k,
    current-apply c st es,
  )
