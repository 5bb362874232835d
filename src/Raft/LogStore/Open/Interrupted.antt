-- ===== src/Raft/LogStore/Open/Interrupted.antt =====
-- A purge whose process ends after some of its calls of the engine.
use blun_mq.Base.{
  ℕ, zero, suc, ◌+◌, ◌%◌, ◌<◌, ◌≡◌, ◌⊎◌, inl, inr, refl, sym, ◌∙◌, ap, Text, Bytes, Bool, true,
  Outcome, some, ok, err, panic, text_eq,
}
use blun_mq.Base.Cells.{Arc, Cells}
use blun_mq.Raft.Types.{u64_mod}
use blun_mq.Raft.Openraft.{Openraft}
use blun_mq.Raft.Serde.{IsFaithful}
use blun_mq.Raft.Engine.{Engine, IsLawful, from}
use blun_mq.Raft.Engine.Spans.{from-from}
use blun_mq.Raft.LogStore.{
  Codecs, Failure, region_id, vote_key, committed_key, last_purged_key, get_log_state, read_vote,
  read_committed, write_message, commit, save, compact, purge,
}
use blun_mq.Raft.LogStore.Keys.{blob_of, Written, commit-ok, blocking-ok, write_message-Written}
use blun_mq.Raft.LogStore.Open.{Files, open_store}
use blun_mq.Raft.LogStore.Open.Restart.{IsDurable, open_store-leave}
use blun_mq.Raft.LogStore.Purge.{compact-ok, purge_lem, purged_message}
use blun_mq.Raft.LogStore.Reads.{
  live, message, read_vote-cong, read_committed-cong, get_log_state-cong,
}

module _ (e : Engine) where
  -- The process ends after so many more changes of the engine: later ones have no effect.
  abbrev write_until : e.Batch → Bool → ℕ × e.State → Outcome e.Error (Unit {0}) × (ℕ × e.State)
  write_until batch sync (zero, s) = (ok tt, (zero, s))
  write_until batch sync (suc n, s) = let (r, t) = e.write batch sync s in (r, (n, t))

  abbrev compact_until : ℕ → ℕ → ℕ × e.State → ℕ × e.State
  compact_until r i (zero, s) = (zero, s)
  compact_until r i (suc n, s) = (n, e.compact_to r i s)

  abbrev pub ending : Engine
  ending = record {
    State = ℕ × e.State;
    Batch = e.Batch;
    Error = e.Error;
    empty_batch = e.empty_batch;
    put_message = e.put_message;
    add_entries = e.add_entries;
    write = write_until;
    get_message = λ r k s. e.get_message r k s.1;
    last_index = λ r s. e.last_index r s.1;
    get_entry = λ r i s. e.get_entry r i s.1;
    fetch_entries_to = λ r a b s. e.fetch_entries_to r a b s.1;
    compact_to = compact_until;
  }

module _ {e : Engine} (laws : IsLawful e) (o : Openraft) {R : Type 0} (codecs : Codecs o R) where
  -- A save that succeeded encoded its value, filled a batch and wrote it.
  save-stages :
      (key : Bytes) (encoded : Outcome codecs.Error Bytes) (s t : e.State)
      → save e o codecs key encoded s ≡ (ok tt, t)
      → (bytes : Bytes) × (batch : e.Batch) × (encoded ≡ ok bytes)
        × (e.put_message region_id key (blob_of bytes) e.empty_batch ≡ ok batch)
        × (e.write batch true s ≡ (ok tt, t))
        × Written e laws o codecs key bytes s t
  unfolding save write_message
  save-stages key (ok bytes) s t h =
      let wrote = blocking-ok e laws o codecs (write_message e o codecs key bytes s) t h in
      let (batch, filled, written) =
        commit-ok e laws o codecs (e.put_message region_id key (blob_of bytes) e.empty_batch) s t
          wrote in
      (
        bytes,
        batch,
        refl,
        filled,
        written,
        write_message-Written e laws o codecs key bytes s t wrote,
      )
  save-stages key (err x) s t h = absurd (cc)
  save-stages key panic s t h = absurd (cc)

  -- What a save leaves when the process ends before it or not.
  abbrev after_write : ℕ → e.State → e.State → ℕ × e.State
  after_write zero s t = (zero, s)
  after_write (suc n) s t = (n, t)

  saved_until :
      (key : Bytes) (encoded : Outcome codecs.Error Bytes) (s t : e.State) (bytes : Bytes)
      (batch : e.Batch)
      → encoded ≡ ok bytes
      → e.put_message region_id key (blob_of bytes) e.empty_batch ≡ ok batch
      → e.write batch true s ≡ (ok tt, t)
      → (calls : ℕ)
      → save (ending e) o codecs key encoded (calls, s) ≡ (ok tt, after_write calls s t)
  unfolding save write_message commit
  saved_until key encoded s t bytes batch is filled wrote zero = rw (is, filled) refl
  saved_until key encoded s t bytes batch is filled wrote (suc n) = rw (is, filled, wrote) refl

  module _ (faithful : IsFaithful (λ (a b : o.LogId). a ≡ b) codecs.log_id) (id : o.LogId)
      (fits : o.index id + 1 < u64_mod) where
    -- What the engine holds after the first `calls` of the changes that a purge makes to it.
    abbrev pub left_by : ℕ → e.State → e.State
    left_by calls s = (purge (ending e) o codecs id (calls, s)).1.1

    -- A purge to `t` was begun in `s`: the other keys are as they were, no entry above the id is
    -- gone, and none at all unless the purge is on record.
    record IsBegun (s t u : e.State) : Type 0 where
      vote : message e laws o codecs u vote_key ≡ message e laws o codecs s vote_key
      committed : message e laws o codecs u committed_key ≡ message e laws o codecs s committed_key
      above :
          from (o.index id + 1) (live e laws o codecs u)
          ≡ from (o.index id + 1) (live e laws o codecs s)
      recorded :
          (live e laws o codecs u ≡ live e laws o codecs s)
          ⊎ ((message e laws o codecs u last_purged_key ≡ message e laws o codecs t last_purged_key)
              × (live e laws o codecs u ≡ live e laws o codecs t))

    after_calls :
        (s s' : e.State) (calls : ℕ)
        → let u = (compact (ending e) o codecs (o.index id) (ok tt, after_write calls s s')).1.1 in
          (u ≡ s) ⊎ (u ≡ s') ⊎ (u ≡ e.compact_to region_id ((o.index id + 1) % u64_mod) s')
    unfolding compact
    after_calls s s' zero = inl refl
    after_calls s s' (suc zero) = inr (inl refl)
    after_calls s s' (suc (suc n)) = inr (inr refl)

    left_by-stages :
        (s s' : e.State) (bytes : Bytes) (batch : e.Batch)
        → codecs.log_id.to_vec id ≡ ok bytes
        → e.put_message region_id last_purged_key (blob_of bytes) e.empty_batch ≡ ok batch
        → e.write batch true s ≡ (ok tt, s')
        → (calls : ℕ)
        → (left_by calls s ≡ s)
          ⊎ (left_by calls s ≡ s')
          ⊎ (left_by calls s ≡ e.compact_to region_id ((o.index id + 1) % u64_mod) s')
    unfolding purge compact
    left_by-stages s s' bytes batch encoded filled wrote calls =
        let left = λ (r : Outcome (Failure (ending e) o codecs) (Unit {0}) × (ℕ × e.State)).
          (compact (ending e) o codecs (o.index id) r).1.1 in
        let saves = ap left (
          saved_until last_purged_key (codecs.log_id.to_vec id) s s' bytes batch encoded filled
            wrote calls) in
        elim (after_calls s s' calls) [
          | inl same ↦ inl (saves ∙ same)
          | inr (inl same) ↦ inr (inl (saves ∙ same))
          | inr (inr same) ↦ inr (inr (saves ∙ same))
        ]

    left_by-IsBegun :
        (s t : e.State)
        → purge e o codecs id s ≡ (ok tt, t)
        → (calls : ℕ) → IsBegun s t (left_by calls s)
    unfolding purge text_eq
    left_by-IsBegun s t h calls =
        let saved = save e o codecs last_purged_key (codecs.log_id.to_vec id) s in
        let (r, u) = compact-ok e o codecs (o.index id) saved t h in
        let (bytes, batch, encoded, filled, wrote, written) =
          save-stages last_purged_key (codecs.log_id.to_vec id) s saved.1 r in
        let kept = λ (j : Bytes).
          ap (λ t. message e laws o codecs t j) u ∙ (laws.compact_lem saved.1 region_id _).0 j in
        let (rest, _, _) = purge_lem e laws o codecs faithful id s t h fits in
        elim (left_by-stages s saved.1 bytes batch encoded filled wrote calls) [
          | inl same ↦
              rw same (record { vote = refl; committed = refl; above = refl; recorded = inl refl })
          | inr (inl same) ↦ rw same (record {
            vote = written.at_key vote_key;
            committed = written.at_key committed_key;
            above = ap (from (o.index id + 1)) written.entries;
            recorded = inl written.entries;
          })
          | inr (inr same) ↦
              rw (same, sym u)
                (record {
                  vote = kept vote_key ∙ written.at_key vote_key;
                  committed = kept committed_key ∙ written.at_key committed_key;
                  above =
                      ap (from (o.index id + 1)) rest
                      ∙ from-from (o.index id + 1) (live e laws o codecs s);
                  recorded = inr (refl, refl);
                })
        ]

    -- Purges to one id out of states with the same entries above it leave the same log.
    purges-agree :
        (r s t t' : e.State)
        → from (o.index id + 1) (live e laws o codecs r)
          ≡ from (o.index id + 1) (live e laws o codecs s)
        → purge e o codecs id s ≡ (ok tt, t)
        → purge e o codecs id r ≡ (ok tt, t')
        → (live e laws o codecs t' ≡ live e laws o codecs t)
          × (get_log_state e o codecs t' ≡ get_log_state e o codecs t)
    purges-agree r s t t' same h h' =
        let (rest, _, _) = purge_lem e laws o codecs faithful id s t h fits in
        let (rest', _, _) = purge_lem e laws o codecs faithful id r t' h' fits in
        let (bytes, encoded, at) = purged_message e laws o codecs faithful id s t h fits in
        let (bytes', encoded', at') = purged_message e laws o codecs faithful id r t' h' fits in
        let one : bytes' ≡ bytes = cc in
        let entries = rest' ∙ same ∙ sym rest in
        (
          entries,
          get_log_state-cong e laws o codecs t' t (at' ∙ ap (λ b. some (blob_of b)) one ∙ sym at)
              entries,
        )

    -- The process of a purge ends after any number of the purge's calls that change the engine, a
    -- purge that would have succeeded, to an id below the last index, with a faithful codec and a
    -- durable engine. The store that opens the directory has the vote and the committed id from
    -- before; it has all entries, or it has just those above the purged id and its log state is that
    -- of the finished purge, so none is gone that is not reported as purged; and the same purge, if
    -- it succeeds when it is run again there, leaves just the entries above the id and the log state
    -- of the finished purge.
    pub purge_interrupted :
        {Disk : Type 0} (f : Files e Disk) (durable : IsDurable e laws f) (dir : Text)
        (address : Arc) (cells : Cells e.State) (d : Disk) (calls : ℕ) (s t t' : e.State)
        → purge e o codecs id s ≡ (ok tt, t)
        → purge e o codecs id
            ((open_store f dir address cells (durable.leave dir (left_by calls s) d)).1 address)
          ≡ (ok tt, t')
        → let r =
            (open_store f dir address cells (durable.leave dir (left_by calls s) d)).1 address in
          (read_vote e o codecs r ≡ read_vote e o codecs s)
          × (read_committed e o codecs r ≡ read_committed e o codecs s)
          × ((live e laws o codecs r ≡ live e laws o codecs s)
              ⊎ ((live e laws o codecs r ≡ from (o.index id + 1) (live e laws o codecs s))
                  × (get_log_state e o codecs r ≡ get_log_state e o codecs t)))
          × (live e laws o codecs t' ≡ from (o.index id + 1) (live e laws o codecs s))
          × (get_log_state e o codecs t' ≡ get_log_state e o codecs t)
    purge_interrupted f durable dir address cells d calls s t t' h h' =
        let u = left_by calls s in
        let (opens, at) = open_store-leave f durable dir address cells u d in
        let r = durable.recovered dir u d in
        let begun = left_by-IsBegun s t h calls in
        let messages = durable.recovered-messages dir u d region_id in
        let entries = durable.recovered-entries dir u d region_id in
        let again : purge e o codecs id r ≡ (ok tt, t') = rw at at h' in
        let (rest, _, _) = purge_lem e laws o codecs faithful id s t h fits in
        let (left, state) =
          purges-agree r s t t' (ap (from (o.index id + 1)) entries ∙ begun.above) h again in
        rw at (
          read_vote-cong e laws o codecs r s (messages vote_key ∙ begun.vote),
          read_committed-cong e laws o codecs r s (messages committed_key ∙ begun.committed),
          elim begun.recorded [
            | inl all ↦ inl (entries ∙ all)
            | inr (purged, gone) ↦ inr (
              entries ∙ gone ∙ rest,
              get_log_state-cong e laws o codecs r t (messages last_purged_key ∙ purged)
                  (entries ∙ gone),
            )
          ],
          left ∙ rest,
          state,
        )
