-- ===== src/Raft/Store/Replica.antt =====
-- What a store replicates, up to what its clients can see of it: a state of the quotient by `Same`.
-- There the log alone says what a node holds and answers, however its maps are laid out.
use mathlib.Core.Quot
use mathlib.Core.Quot.{Quot, Quot-set}
use mathlib.Core.List.{is_set}
use blun_mq.Base.{ℕ, ◌≡◌, refl, sym, ap, List, [], ◌∷◌, ◌++◌, map_accum, ok}
use blun_mq.Base.Cells.{Cells}
use blun_mq.Raft.Openraft.{Openraft, Entry, Snapshot}
use blun_mq.Raft.Serde.{Serde, IsFaithful}
use blun_mq.Raft.Store.{
  Machine, Store, apply, get_snapshot_builder, build_snapshot, install_snapshot,
}
use blun_mq.Raft.Store.Log.{requests, answers, apply-AppliesLog, state-apply}
use blun_mq.Raft.Store.Laws.{IsLawful, run-Same}
use blun_mq.Raft.Store.CatchUp.{install-InStep}

module _ {m : Machine} (laws : IsLawful m) where
  abbrev pub Replica : Type 0
  Replica = Quot laws.Same

  -- What a log of requests makes of a replica.
  unfoldable pub replay : List m.Request → Replica → Replica
  replay rs =
      Quot.lift Quot-set (λ s. Quot.mk (map_accum m.apply s rs).0)
        (λ s t h. Quot.sound (run-Same laws s t rs h).0)

  -- What it answers.
  unfoldable pub replies : IsSet m.Response → List m.Request → Replica → List m.Response
  replies set rs =
      Quot.lift (is_set set) (λ s. (map_accum m.apply s rs).1) (λ s t h. (run-Same laws s t rs h).1)

  abbrev pub content : (o : Openraft) → Cells m.State → Store o → Replica
  content o cells st = Quot.mk (cells st.state)

  pub replay-append :
      (rs qs : List m.Request) (r : Replica) → replay (rs ++ qs) r ≡ replay qs (replay rs r)
  unfolding replay map_accum
  replay-append [] qs = Quot.ind (λ r. Quot-set _ _) (λ s. refl)
  replay-append (q ∷ rs) qs =
      Quot.ind (λ r. Quot-set _ _) (λ s. replay-append rs qs (Quot.mk (m.apply s q).0))

module _ (o : Openraft) {m : Machine} (laws : IsLawful m) where
  pub content-apply :
      (cells : Cells m.State) (st : Store o) (es : List (Entry o m.Request))
      → let (responses, cells', st') = apply o m cells st es in
        content laws o cells' st' ≡ replay laws (requests o es) (content laws o cells st)
  unfolding replay
  content-apply cells st es = ap Quot.mk (state-apply o m cells st es)

module _ (o : Openraft) {m : Machine} (laws : IsLawful m) (set : IsSet m.Response) where
  -- What a batch of entries makes of a store's replica, and what it answers, is what the requests in
  -- it make of the replica: neither depends on anything else that the store holds, nor on how the
  -- state is laid out.
  pub apply-replay :
      (cells : Cells m.State) (st : Store o) (es : List (Entry o m.Request))
      → let (responses, cells', st') = apply o m cells st es in
        (content laws o cells' st' ≡ replay laws (requests o es) (content laws o cells st))
        × (responses
            ≡ answers o m.default_response es
                (replies laws set (requests o es) (content laws o cells st)))
  unfolding replies
  apply-replay cells st es =
      (content-apply o laws cells st es, (apply-AppliesLog o m cells st es).answered)

-- A node that installs the snapshot that another one's builder made is the same replica.
module _ {E : Type 0} (o : Openraft) (m : Machine) (json : Serde E m.Payload) (laws : IsLawful m)
    (faithful : IsFaithful laws.SamePayload json) where
  pub install-content :
      (now : ℕ) (c : Cells m.State) (st : Store o) (snap : Snapshot o) (built : Store o)
      (c' : Cells m.State) (st' : Store o)
      → laws.Valid (c st.state)
      → build_snapshot o m json now c (get_snapshot_builder o st) ≡ ok (snap, built)
      → (n : Cells m.State × Store o) × (install_snapshot o m json c' st' snap.meta snap.snapshot
          ≡ ok n)
        × (content laws o n.0 n.1 ≡ content laws o c st)
  install-content now c st snap built c' st' v h =
      let (n, installed, step) =
        install-InStep o m json laws faithful now c st snap built c' st' v h in
      (n, installed, sym (Quot.sound step.same))
