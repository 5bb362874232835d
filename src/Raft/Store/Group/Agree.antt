-- ===== src/Raft/Store/Group/Agree.antt =====
-- Every node of a group holds what the entries that it has applied make of the initial state.
use mathlib.Core.Quot
use blun_mq.Base.{
  subst, ℕ, ◌≡◌, sym, ◌∙◌, ap, List, [], ◌++◌, Every, Every-middle, Every-map, arith, subst, inl,
  inr, nat_eq, ◌==◌, Bool-cases,
}
use blun_mq.Base.Cells.{Arc}
use blun_mq.Raft.Openraft.{Openraft, Entry}
use blun_mq.Raft.Serde.{Serde, IsFaithful}
use blun_mq.Raft.LogStore.Append.{Run}
use blun_mq.Raft.Store.{Machine, apply}
use blun_mq.Raft.Store.Group.{
  Node, Group, put, Step, commits, applies, builds, installs, restarts, Steps, done, next, fresh,
}
use blun_mq.Raft.Store.Laws.{IsLawful}
use blun_mq.Raft.Store.Log.{answers, requests, last_stored}
use blun_mq.Raft.Store.Log.Parts.{Run-append, same_part}
use blun_mq.Raft.Store.Replica.{replay, content, replies, apply-replay}
use blun_mq.Raft.Store.Group.Reached.{
  Reached, Holds, started-Reached, applying-Reached, built-Holds, installed-Reached, Reached-append,
  Holds-append,
}

module _ {E : Type 0} (o : Openraft) (m : Machine) (json : Serde E m.Payload) (laws : IsLawful m)
    (initial : m.State) where
  record IsReplicated (g : Group o m json initial) : Type 0 where
    counted : Run o 0 g.log
    reached : (i : ℕ) → Reached o m json laws initial g.log (g.nodes i)
    held : Every (Holds o m json laws initial g.log) g.snapshots

  -- One node changes.
  put-IsReplicated :
      (g : Group o m json initial) (i : ℕ) (node : Node o m json initial)
      → IsReplicated g
      → Reached o m json laws initial g.log node
      → IsReplicated (record g { nodes = put o m json initial i node g.nodes })
  put-IsReplicated g i node h reaches = record {
    counted = h.counted;
    reached = λ j. elim (Bool-cases (i == j)) [
      | inl same ↦ rw same reaches
      | inr other ↦ rw other (h.reached j)
    ];
    held = h.held;
  }

  module _ (faithful : IsFaithful laws.SamePayload json) (v : laws.Valid initial) where
    Step-IsReplicated :
        {g h : Group o m json initial} → Step o m json initial g h → IsReplicated g → IsReplicated h
    Step-IsReplicated (commits g es run) h = record {
      counted = Run-append o 0 g.log es h.counted (subst (λ n. Run o n es) (omega arith) run);
      reached = λ i. Reached-append o m json laws initial g.log es (g.nodes i) (h.reached i);
      held =
          Every-map (Holds o m json laws initial g.log) (Holds o m json laws initial (g.log ++ es))
            g.snapshots (Holds-append o m json laws initial g.log es) h.held;
    }
    Step-IsReplicated (applies g i before es after here at) h = put-IsReplicated g i _ h (
        applying-Reached o m json laws initial g.log before es after (g.nodes i) h.counted
          (h.reached i) here at)
    Step-IsReplicated (builds g i now snap built made) h = record {
      counted = h.counted;
      reached = h.reached;
      held = (
        built-Holds o m json laws initial faithful g.log (g.nodes i) now snap built (h.reached i)
            made,
        h.held,
      );
    }
    Step-IsReplicated (installs g i before snap after cells store among installing) h =
        let held =
          Every-middle (Holds o m json laws initial g.log) before snap after
            (subst (Every (Holds o m json laws initial g.log)) among h.held) in
        put-IsReplicated g i _ h (
          installed-Reached o m json laws initial g.log (g.nodes i) snap cells store held
            installing)
    Step-IsReplicated (restarts g i a) h =
        put-IsReplicated g i _ h (started-Reached o m json laws initial g.log a v)

    Steps-IsReplicated :
        {g h : Group o m json initial}
        → Steps o m json initial g h
        → IsReplicated g
        → IsReplicated h
    Steps-IsReplicated (done g) h = h
    Steps-IsReplicated (next step steps) h = Steps-IsReplicated steps (Step-IsReplicated step h)

    fresh-IsReplicated : (handles : ℕ → Arc) → IsReplicated (fresh o m json initial handles)
    fresh-IsReplicated handles = record {
      counted = tt;
      reached = λ i. started-Reached o m json laws initial [] (handles i) v;
      held = tt;
    }

    -- However the nodes of a group commit, apply, build and install snapshots and start anew, where a
    -- builder builds with no entry applied in between: what a node holds is what some first part of
    -- the committed entries makes of the initial state, that part which ends at the node's last
    -- applied id, and its membership is that part's last.
    pub group-Reached :
        (handles : ℕ → Arc) {g : Group o m json initial}
        → Steps o m json initial (fresh o m json initial handles) g
        → (i : ℕ) → Reached o m json laws initial g.log (g.nodes i)
    group-Reached handles steps i =
        (Steps-IsReplicated steps (fresh-IsReplicated handles)).reached i

    -- So two nodes, at whatever times and on whatever ways they got there, hold the same replica and
    -- the same membership when they have applied up to the same id, and they answer whatever entries
    -- come next alike.
    pub nodes_agree :
        IsSet m.Response
        → (handles : ℕ → Arc) {g : Group o m json initial} (i j : ℕ)
        → Steps o m json initial (fresh o m json initial handles) g
        → (g.nodes i).store.last_applied ≡ (g.nodes j).store.last_applied
        → (content laws o (g.nodes i).cells (g.nodes i).store
            ≡ content laws o (g.nodes j).cells (g.nodes j).store)
          × ((g.nodes i).store.last_membership ≡ (g.nodes j).store.last_membership)
          × ((es : List (Entry o m.Request))
              → (apply o m (g.nodes i).cells (g.nodes i).store es).0
                ≡ (apply o m (g.nodes j).cells (g.nodes j).store es).0)
    nodes_agree set handles {g = g} i j steps same =
        let h = Steps-IsReplicated steps (fresh-IsReplicated handles) in
        let p = (h.reached i).prefix in
        let q = (h.reached j).prefix in
        let (one, _) =
          same_part o p.before q.before (subst (Run o 0) p.splits h.counted)
            (sym p.splits ∙ q.splits) (sym p.applies ∙ same ∙ q.applies) in
        let alike =
          p.replays ∙ ap (λ b. replay laws (requests o b) (Quot.mk initial)) one ∙ sym q.replays in
        (
          alike,
          p.stores ∙ ap (last_stored o o.stored_default) one ∙ sym q.stores,
          λ es.
              (apply-replay o laws set (g.nodes i).cells (g.nodes i).store es).1
              ∙ ap (λ r. answers o m.default_response es (replies laws set (requests o es) r)) alike
              ∙ sym (apply-replay o laws set (g.nodes j).cells (g.nodes j).store es).1,
        )
