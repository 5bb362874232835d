-- ===== src/Raft/LogStore/Keys.antt =====
-- Saving the vote, the committed id and the purged id: each is read back as it was saved, and none
-- disturbs the others.
use mathlib.Core.Option
use mathlib.Core.Option.{or_else, join}
use blun_mq.Base.{
  ◌≡◌, refl, sym, ◌∙◌, ap, Option, some, Bytes, Outcome, ok, err, panic, true, text_eq, ◌==◌,
  if◌then◌else◌,
}
use blun_mq.Raft.Openraft.{Openraft}
use blun_mq.Raft.Serde.{IsFaithful}
use blun_mq.Raft.Engine.{Engine, Blob, IsLawful}
use blun_mq.Raft.LogStore.{
  Codecs, Failure, region_id, vote_key, committed_key, last_purged_key, get_log_state, read_vote,
  read_committed, commit, write_message, blocking, save, save_vote, save_committed,
}
use blun_mq.Raft.LogStore.Reads.{
  message, live, read_vote_lem, read_committed_lem, get_log_state-cong, read_vote-cong,
  read_committed-cong,
}

abbrev pub blob_of : Bytes → Blob
blob_of bytes = record { index = 0; payload = bytes }

module _ (e : Engine) (laws : IsLawful e) (o : Openraft) {R : Type 0} (codecs : Codecs o R) where
  -- One key was written: the other keys and the entries are as before.
  pub record Written (key bytes : Bytes) (s t : e.State) : Type 0 where
    pub at_key :
        (j : Bytes)
        → message e laws o codecs t j
          ≡ (if key == j then some (blob_of bytes) else message e laws o codecs s j)
    pub entries : live e laws o codecs t ≡ live e laws o codecs s

  -- A batch that was written was filled and committed.
  pub commit-ok :
      (filled : Outcome e.Error e.Batch) (s t : e.State)
      → commit e o codecs filled s ≡ (ok tt, t)
      → (batch : e.Batch) × (filled ≡ ok batch) × (e.write batch true s ≡ (ok tt, t))
  unfolding commit
  commit-ok (ok batch) s t h = (batch, refl, h)
  commit-ok (err x) s t h = absurd (cc)
  commit-ok panic s t h = absurd (cc)

  pub write_message-Written :
      (key bytes : Bytes) (s t : e.State)
      → write_message e o codecs key bytes s ≡ (ok tt, t)
      → Written key bytes s t
  unfolding write_message
  write_message-Written key bytes s t h =
      let (batch, filled, written) =
        commit-ok (e.put_message region_id key (blob_of bytes) e.empty_batch) s t h in
      let (m, n) = laws.put_lem s t region_id key (blob_of bytes) batch filled written in
      record { at_key = m; entries = n }

  -- A result that came back from the blocking pool as a success was one.
  pub blocking-ok :
      (r : Outcome e.Error (Unit {0}) × e.State) (t : e.State)
      → ◌≡◌ {A = Outcome (Failure e o codecs) (Unit {0}) × e.State}
          (blocking e o codecs r.0, r.1)
          (ok tt, t)
      → r ≡ (ok tt, t)
  blocking-ok (ok u, s) t h = cc
  blocking-ok (err x, s) t h = cc
  blocking-ok (panic, s) t h = cc

  -- A successful save encoded its value and wrote it.
  pub save-Written :
      (key : Bytes) (encoded : Outcome codecs.Error Bytes) (s t : e.State)
      → save e o codecs key encoded s ≡ (ok tt, t)
      → (bytes : Bytes) × (encoded ≡ ok bytes) × Written key bytes s t
  unfolding save
  save-Written key (ok bytes) s t h = (
    bytes,
    refl,
    write_message-Written key bytes s t (blocking-ok (write_message e o codecs key bytes s) t h),
  )
  save-Written key (err x) s t h = absurd (cc)
  save-Written key panic s t h = absurd (cc)

module _ (e : Engine) (laws : IsLawful e) (o : Openraft) {R : Type 0} (codecs : Codecs o R)
    (faithful : IsFaithful (λ (a b : o.Vote). a ≡ b) codecs.vote) where
  -- A vote that was saved is the vote that is read, and the committed id and the log state are as
  -- they were.
  pub read_vote-save_vote :
      (v : o.Vote) (s t : e.State)
      → save_vote e o codecs v s ≡ (ok tt, t)
      → (read_vote e o codecs t ≡ ok (some v))
        × (read_committed e o codecs t ≡ read_committed e o codecs s)
        × (get_log_state e o codecs t ≡ get_log_state e o codecs s)
  unfolding save_vote text_eq
  read_vote-save_vote v s t h =
      let (bytes, encoded, written) =
        save-Written e laws o codecs vote_key (codecs.vote.to_vec v) s t h in
      let (v', decoded, same) = faithful.decode v bytes encoded in
      (
        read_vote_lem e laws o codecs t ∙ rw (written.at_key vote_key, decoded, same),
        read_committed-cong e laws o codecs t s (written.at_key committed_key),
        get_log_state-cong e laws o codecs t s (written.at_key last_purged_key) written.entries,
      )

module _ (e : Engine) (laws : IsLawful e) (o : Openraft) {R : Type 0} (codecs : Codecs o R)
    (faithful : IsFaithful (λ (a b : Option o.LogId). a ≡ b) codecs.committed) where
  -- A committed id that was saved, be it none, is what is read, and the vote and the log state are
  -- as they were.
  pub read_committed-save_committed :
      (c : Option o.LogId) (s t : e.State)
      → save_committed e o codecs c s ≡ (ok tt, t)
      → (read_committed e o codecs t ≡ ok c)
        × (read_vote e o codecs t ≡ read_vote e o codecs s)
        × (get_log_state e o codecs t ≡ get_log_state e o codecs s)
  unfolding save_committed text_eq join Option.bind
  read_committed-save_committed c s t h =
      let (bytes, encoded, written) =
        save-Written e laws o codecs committed_key (codecs.committed.to_vec c) s t h in
      let (c', decoded, same) = faithful.decode c bytes encoded in
      (
        read_committed_lem e laws o codecs t
            ∙ rw (written.at_key committed_key, decoded) (ap ok (sym same)),
        read_vote-cong e laws o codecs t s (written.at_key vote_key),
        get_log_state-cong e laws o codecs t s (written.at_key last_purged_key) written.entries,
      )
