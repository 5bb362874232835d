-- ===== src/Raft/Store/Group/Reached.antt =====
-- What a node of a group holds, and that each of its operations keeps it so.
use mathlib.Core.Quot
use blun_mq.Base.{
  map_accum, ok_inj, subst, ℕ, ◌≡◌, refl, sym, ◌∙◌, ap, List, [], ◌++◌, none, ok, subst, nat_eq,
}
use blun_mq.Base.Cells.{Arc, Cells, write_self}
use blun_mq.Raft.Openraft.{Openraft, Entry, Snapshot}
use blun_mq.Raft.Serde.{Serde, IsFaithful}
use blun_mq.Raft.LogStore.Append.{Run}
use blun_mq.Raft.Store.{
  Machine, Store, new, apply, get_snapshot_builder, build_snapshot, install_snapshot,
}
use blun_mq.Raft.Store.CatchUp.{build_snapshot-ok, install_snapshot-ok}
use blun_mq.Raft.Store.Group.{Node, started, applying}
use blun_mq.Raft.Store.Group.Prefix.{Prefix, Prefix-append, Prefix-cong, Prefix-next}
use blun_mq.Raft.Store.Laws.{IsLawful, run-Valid}
use blun_mq.Raft.Store.Log.{requests, last_id, last_stored, apply-AppliesLog, state-apply}
use blun_mq.Raft.Store.Replica.{Replica, replay, content, content-apply}

module _ {E : Type 0} (o : Openraft) (m : Machine) (json : Serde E m.Payload) (laws : IsLawful m)
    (initial : m.State) where
  pub record Reached (log : List (Entry o m.Request)) (node : Node o m json initial) : Type 0 where
    pub prefix :
        Prefix o m laws initial log node.store.last_applied node.store.last_membership
          (content laws o node.cells node.store)
    pub valid : laws.Valid (node.cells node.store.state)

  -- What a snapshot loads is what a prefix of the log makes.
  pub record Holds (log : List (Entry o m.Request)) (snap : Snapshot o) : Type 0 where
    replica : Replica laws
    prefix : Prefix o m laws initial log snap.meta.last_log_id snap.meta.last_membership replica
    payload : m.Payload
    decodes : json.from_slice snap.snapshot ≡ ok payload
    loads : (t : m.State) → (Quot.mk (m.load payload t) ≡ replica) × laws.Valid (m.load payload t)

  pub started-Reached :
      (log : List (Entry o m.Request)) (a : Arc)
      → laws.Valid initial
      → Reached log (started o m json initial a)
  unfolding started new last_id last_stored requests replay map_accum
  started-Reached log a v = record {
    prefix = record {
      before = [];
      after = log;
      splits = refl;
      applies = refl;
      stores = refl;
      replays = refl;
    };
    valid = v;
  }

  pub applying-Reached :
      (log before es after : List (Entry o m.Request)) (node : Node o m json initial)
      → Run o 0 log
      → Reached log node
      → log ≡ before ++ (es ++ after)
      → node.store.last_applied ≡ last_id o none before
      → Reached log (applying o m json initial node es)
  unfolding applying
  applying-Reached log before es after node run h here at =
      let (responses, cells, store) = apply o m node.cells node.store es in
      let a = apply-AppliesLog o m node.cells node.store es in
      let next_prefix =
        Prefix-next o m laws initial log before es after node.store.last_applied
          node.store.last_membership (content laws o node.cells node.store) run h.prefix here at in
      record {
        prefix =
            Prefix-cong o m laws initial log (ap (λ (s : Store o). s.last_applied) a.store)
              (ap (λ (s : Store o). s.last_membership) a.store)
              (content-apply o laws node.cells node.store es) next_prefix;
        valid =
            subst laws.Valid (sym (state-apply o m node.cells node.store es))
              (run-Valid laws (node.cells node.store.state) (requests o es) h.valid);
      }

  module _ (faithful : IsFaithful laws.SamePayload json) where
    pub built-Holds :
        (log : List (Entry o m.Request)) (node : Node o m json initial) (now : ℕ)
        (snap : Snapshot o) (built : Store o)
        → Reached log node
        → build_snapshot o m json now node.cells (get_snapshot_builder o node.store)
          ≡ ok (snap, built)
        → Holds log snap
    unfolding get_snapshot_builder
    built-Holds log node now snap built h made =
        let st = node.store in
        let (encoded, applied, stored) =
          build_snapshot-ok o m json now node.cells (get_snapshot_builder o st) snap built made in
        let (p, decoded, like) =
          faithful.decode (m.dump (node.cells st.state)) snap.snapshot encoded in
        record {
          replica = content laws o node.cells st;
          prefix = Prefix-cong o m laws initial log applied stored refl h.prefix;
          payload = p;
          decodes = decoded;
          loads = λ t. (
            sym (Quot.sound (laws.load-dump (node.cells st.state) t p h.valid like)),
            laws.load-Valid (node.cells st.state) t p h.valid like,
          );
        }

  pub installed-Reached :
      (log : List (Entry o m.Request)) (node : Node o m json initial) (snap : Snapshot o)
      (cells : Cells m.State) (store : Store o)
      → Holds log snap
      → install_snapshot o m json node.cells node.store snap.meta snap.snapshot ≡ ok (cells, store)
      → Reached log (record { cells = cells; store = store })
  installed-Reached log node snap cells store h installing =
      let st = node.store in
      let loaded = m.load h.payload (node.cells st.state) in
      let at =
        install_snapshot-ok o m json node.cells st snap.meta snap.snapshot h.payload h.decodes in
      let (same, valid) = h.loads (node.cells st.state) in
      subst (λ (n : Cells m.State × Store o). Reached log (record { cells = n.0; store = n.1 }))
        (ok_inj (sym at ∙ installing))
        (record {
          prefix =
              Prefix-cong o m laws initial log refl refl
                (ap Quot.mk (write_self st.state loaded node.cells) ∙ same) h.prefix;
          valid = subst laws.Valid (sym (write_self st.state loaded node.cells)) valid;
        })

  pub Reached-append :
      (log es : List (Entry o m.Request)) (node : Node o m json initial)
      → Reached log node
      → Reached (log ++ es) node
  Reached-append log es node h = record {
    prefix = Prefix-append o m laws initial log es _ _ _ h.prefix;
    valid = h.valid;
  }

  pub Holds-append :
      (log es : List (Entry o m.Request)) (snap : Snapshot o)
      → Holds log snap
      → Holds (log ++ es) snap
  Holds-append log es snap h = record {
    replica = h.replica;
    prefix = Prefix-append o m laws initial log es _ _ _ h.prefix;
    payload = h.payload;
    decodes = h.decodes;
    loads = h.loads;
  }
