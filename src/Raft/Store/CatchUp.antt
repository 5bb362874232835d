-- ===== src/Raft/Store/CatchUp.antt =====
-- A replica that installs a snapshot is where the replica that built it was.
use blun_mq.Base.{ℕ, ◌≡◌, sym, ◌∙◌, ap, List, some, Bytes, ok, arith}
use blun_mq.Base.Cells.{Cells, write, write_self}
use blun_mq.Raft.Openraft.{Openraft, Entry, SnapshotMeta, Snapshot}
use blun_mq.Raft.Serde.{Serde, IsFaithful}
use blun_mq.Raft.Store.{
  Machine, Store, apply, get_snapshot_builder, build_snapshot, install_snapshot,
}
use blun_mq.Raft.Store.Log.{requests, answers, last_id, last_stored, apply-AppliesLog, state-apply}
use blun_mq.Raft.Store.Laws.{IsLawful, run-Same}

module _ {E : Type 0} (o : Openraft) (m : Machine) (json : Serde E m.Payload) where
  -- What a snapshot holds.
  pub build_snapshot-ok :
      (now : ℕ) (cells : Cells m.State) (st : Store o) (snap : Snapshot o) (st' : Store o)
      → build_snapshot o m json now cells st ≡ ok (snap, st')
      → (json.to_vec (m.dump (cells st.state)) ≡ ok snap.snapshot)
        × (snap.meta.last_log_id ≡ st.last_applied)
        × (snap.meta.last_membership ≡ st.last_membership)
  unfolding build_snapshot
  build_snapshot-ok now cells st snap st' h = ground arith

  -- What a node holds after it installed a snapshot that decodes.
  pub install_snapshot-ok :
      (cells : Cells m.State) (st : Store o) (meta : SnapshotMeta o) (d : Bytes) (p : m.Payload)
      → json.from_slice d ≡ ok p
      → install_snapshot o m json cells st meta d
        ≡ ok (
          write st.state (m.load p (cells st.state)) cells,
          record st {
            last_applied = meta.last_log_id;
            last_membership = meta.last_membership;
            snapshot = some (record { meta = meta; bytes = d });
          },
        )
  unfolding install_snapshot
  install_snapshot-ok cells st meta d p h = rw h

module _ (o : Openraft) (m : Machine) (laws : IsLawful m) where
  -- Two nodes hold the same state, reached by the same log.
  pub record InStep (c : Cells m.State) (st : Store o) (c' : Cells m.State) (st' : Store o)
      : Type 0 where
    pub same : laws.Same (c st.state) (c' st'.state)
    pub applied : st.last_applied ≡ st'.last_applied
    pub stored : st.last_membership ≡ st'.last_membership

  -- Nodes in step answer a batch of entries alike and stay in step.
  pub apply-InStep :
      (c : Cells m.State) (st : Store o) (c' : Cells m.State) (st' : Store o)
      (es : List (Entry o m.Request))
      → InStep c st c' st'
      → ((apply o m c st es).0 ≡ (apply o m c' st' es).0)
        × InStep
            (apply o m c st es).1
            (apply o m c st es).2
            (apply o m c' st' es).1
            (apply o m c' st' es).2
  apply-InStep c st c' st' es h =
      let a = apply-AppliesLog o m c st es in
      let b = apply-AppliesLog o m c' st' es in
      let (same, xs) = run-Same laws (c st.state) (c' st'.state) (requests o es) h.same in
      (
        a.answered ∙ ap (answers o m.default_response es) xs ∙ sym b.answered,
        record {
          same = rw (state-apply o m c st es, state-apply o m c' st' es) same;
          applied =
              ap (λ s. s.last_applied) a.store
              ∙ ap (λ l. last_id o l es) h.applied
              ∙ sym (ap (λ s. s.last_applied) b.store);
          stored =
              ap (λ s. s.last_membership) a.store
              ∙ ap (λ l. last_stored o l es) h.stored
              ∙ sym (ap (λ s. s.last_membership) b.store);
        },
      )

module _ {E : Type 0} (o : Openraft) (m : Machine) (json : Serde E m.Payload) (laws : IsLawful m)
    (faithful : IsFaithful laws.SamePayload json) where
  -- A node whose builder made a snapshot and a node that installs it.
  pub install-InStep :
      (now : ℕ) (c : Cells m.State) (st : Store o) (snap : Snapshot o) (built : Store o)
      (c' : Cells m.State) (st' : Store o)
      → laws.Valid (c st.state)
      → build_snapshot o m json now c (get_snapshot_builder o st) ≡ ok (snap, built)
      → (n : Cells m.State × Store o) × (install_snapshot o m json c' st' snap.meta snap.snapshot
          ≡ ok n)
        × InStep o m laws c st n.0 n.1
  unfolding get_snapshot_builder
  install-InStep now c st snap built c' st' v h =
      let (encoded, applied, stored) =
        build_snapshot-ok o m json now c (get_snapshot_builder o st) snap built h in
      let (p, decoded, like) = faithful.decode (m.dump (c st.state)) snap.snapshot encoded in
      (
        _,
        install_snapshot-ok o m json c' st' snap.meta snap.snapshot p decoded,
        record {
          same = rw write_self (laws.load-dump (c st.state) (c' st'.state) p v like);
          applied = sym applied;
          stored = sym stored;
        },
      )

  -- A node that installs the snapshot that another one's builder made, and then applies the entries
  -- that follow, answers them as that node does and ends in the same state, with the same last
  -- applied id and membership, whatever it held before.
  pub catch_up :
      (now : ℕ) (c : Cells m.State) (st : Store o) (snap : Snapshot o) (built : Store o)
      (c' : Cells m.State) (st' : Store o) (es : List (Entry o m.Request))
      → laws.Valid (c st.state)
      → build_snapshot o m json now c (get_snapshot_builder o st) ≡ ok (snap, built)
      → (n : Cells m.State × Store o) × (install_snapshot o m json c' st' snap.meta snap.snapshot
          ≡ ok n)
        × ((apply o m c st es).0 ≡ (apply o m n.0 n.1 es).0)
        × InStep o m laws
            (apply o m c st es).1
            (apply o m c st es).2
            (apply o m n.0 n.1 es).1
            (apply o m n.0 n.1 es).2
  catch_up now c st snap built c' st' es v h =
      let (n, installed, step) = install-InStep now c st snap built c' st' v h in
      let (answered, step') = apply-InStep o m laws c st n.0 n.1 es step in
      (n, installed, answered, step')
