-- ===== src/Raft/Store/Group/Prefix.antt =====
-- What the first entries of a log make of a group's initial state.
use mathlib.Core.Quot
use blun_mq.Base.{subst, ◌≡◌, sym, ◌∙◌, ap, List, ◌++◌, append_assoc, Option, none, subst, nat_eq}
use blun_mq.Raft.Openraft.{Openraft, Entry}
use blun_mq.Raft.LogStore.Append.{Run}
use blun_mq.Raft.Store.{Machine}
use blun_mq.Raft.Store.Laws.{IsLawful}
use blun_mq.Raft.Store.Log.{requests, last_id, last_stored}
use blun_mq.Raft.Store.Log.Parts.{requests-append, last_id-append, last_stored-append, same_part}
use blun_mq.Raft.Store.Replica.{Replica, replay, replay-append}

module _ (o : Openraft) (m : Machine) (laws : IsLawful m) (initial : m.State) where
  -- A prefix of the log, by the id and the membership after it, and the replica that it makes.
  pub record Prefix (log : List (Entry o m.Request)) (applied : Option o.LogId)
      (stored : o.StoredMembership) (r : Replica laws) : Type 0 where
    pub before : List (Entry o m.Request)
    pub after : List (Entry o m.Request)
    pub splits : log ≡ before ++ after
    pub applies : applied ≡ last_id o none before
    pub stores : stored ≡ last_stored o o.stored_default before
    pub replays : r ≡ replay laws (requests o before) (Quot.mk initial)

  pub Prefix-append :
      (log es : List (Entry o m.Request)) (applied : Option o.LogId) (stored : o.StoredMembership)
      (r : Replica laws)
      → Prefix log applied stored r
      → Prefix (log ++ es) applied stored r
  Prefix-append log es applied stored r h = record {
    before = h.before;
    after = h.after ++ es;
    splits = ap (λ l. l ++ es) h.splits ∙ append_assoc h.before h.after es;
    applies = h.applies;
    stores = h.stores;
    replays = h.replays;
  }

  pub Prefix-cong :
      (log : List (Entry o m.Request)) {a b : Option o.LogId} {s t : o.StoredMembership}
      {q r : Replica laws}
      → a ≡ b
      → s ≡ t
      → q ≡ r
      → Prefix log b t r
      → Prefix log a s q
  Prefix-cong log ids stored same h = record {
    before = h.before;
    after = h.after;
    splits = h.splits;
    applies = ids ∙ h.applies;
    stores = stored ∙ h.stores;
    replays = same ∙ h.replays;
  }

  -- The entries that follow the last applied id are those that follow the prefix.
  pub Prefix-next :
      (log before es after : List (Entry o m.Request)) (applied : Option o.LogId)
      (stored : o.StoredMembership) (r : Replica laws)
      → Run o 0 log
      → Prefix log applied stored r
      → log ≡ before ++ (es ++ after)
      → applied ≡ last_id o none before
      → Prefix log (last_id o applied es) (last_stored o stored es) (replay laws (requests o es) r)
  Prefix-next log before es after applied stored r run h here at =
      let (same, _) =
        same_part o h.before before (subst (Run o 0) h.splits run) (sym h.splits ∙ here)
          (sym h.applies ∙ at) in
      record {
        before = before ++ es;
        after = after;
        splits = here ∙ sym (append_assoc before es after);
        applies = ap (λ l. last_id o l es) at ∙ sym (last_id-append o none before es);
        stores =
            ap (λ s. last_stored o s es) (h.stores ∙ ap (last_stored o o.stored_default) same)
            ∙ sym (last_stored-append o o.stored_default before es);
        replays =
            ap (replay laws (requests o es))
              (h.replays ∙ ap (λ b. replay laws (requests o b) (Quot.mk initial)) same)
            ∙ sym (replay-append laws (requests o before) (requests o es) (Quot.mk initial))
            ∙ ap (λ rs. replay laws rs (Quot.mk initial)) (sym (requests-append o before es));
      }
