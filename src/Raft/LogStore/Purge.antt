-- ===== src/Raft/LogStore/Purge.antt =====
-- Purging the log up to an id.
use mathlib.Core.Option.{or_else}
use blun_mq.Base.{
  ℕ, ◌+◌, ◌<◌, ◌%◌, ◌≡◌, refl, ◌∙◌, ap, [], Option, some, Bytes, Outcome, ok, err, panic, text_eq,
  arith,
}
use blun_mq.Raft.Types.{u64_mod}
use blun_mq.Raft.Openraft.{Openraft}
use blun_mq.Raft.Serde.{IsFaithful}
use blun_mq.Raft.Engine.{Engine, IsLawful, from}
use blun_mq.Raft.LogStore.{
  Codecs, Failure, region_id, vote_key, committed_key, last_purged_key, get_log_state, read_vote,
  read_committed, save, purge, compact, last_entry_id,
}
use blun_mq.Raft.LogStore.Reads.{
  live, message, read_vote-cong, read_committed-cong, purged_of, get_log_state_lem,
}
use blun_mq.Raft.LogStore.Keys.{blob_of, Written, save-Written}

module _ (e : Engine) (o : Openraft) {R : Type 0} (codecs : Codecs o R) where
  -- A purge that succeeded saved the id and then compacted the log.
  pub compact-ok :
      (index : ℕ) (r : Outcome (Failure e o codecs) (Unit {0}) × e.State) (t : e.State)
      → compact e o codecs index r ≡ (ok tt, t)
      → (r ≡ (ok tt, r.1)) × (t ≡ e.compact_to region_id ((index + 1) % u64_mod) r.1)
  unfolding compact
  compact-ok index (ok u, s) t h = (refl, cc)
  compact-ok index (err x, s) t h = cc
  compact-ok index (panic, s) t h = cc

module _ (e : Engine) (laws : IsLawful e) (o : Openraft) {R : Type 0} (codecs : Codecs o R)
    (faithful : IsFaithful (λ (a b : o.LogId). a ≡ b) codecs.log_id) (id : o.LogId) (s t : e.State)
    (h : purge e o codecs id s ≡ (ok tt, t)) (fits : o.index id + 1 < u64_mod) where
  abbrev saved : Outcome (Failure e o codecs) (Unit {0}) × e.State
  saved = save e o codecs last_purged_key (codecs.log_id.to_vec id) s

  purge_messages : (j : Bytes) → message e laws o codecs t j ≡ message e laws o codecs saved.1 j
  unfolding purge
  purge_messages j =
      let (r, u) = compact-ok e o codecs (o.index id) saved t h in
      ap (λ t. laws.messages t region_id j) u ∙ (laws.compact_lem saved.1 region_id _).0 j

  purge_saved :
      (bytes : Bytes) × (codecs.log_id.to_vec id ≡ ok bytes)
      × Written e laws o codecs last_purged_key bytes s saved.1
  unfolding purge
  purge_saved =
      let (r, u) = compact-ok e o codecs (o.index id) saved t h in
      save-Written e laws o codecs last_purged_key (codecs.log_id.to_vec id) s saved.1 r

  -- The purged id is what is saved under its key.
  pub purged_message :
      (bytes : Bytes) × (codecs.log_id.to_vec id ≡ ok bytes)
      × (message e laws o codecs t last_purged_key ≡ some (blob_of bytes))
  unfolding text_eq
  purged_message =
      let (bytes, encoded, written) = purge_saved in
      (bytes, encoded, purge_messages last_purged_key ∙ written.at_key last_purged_key)

  -- The entries up to the purged id are gone, and no others; the vote and the committed id stay.
  pub purge_lem :
      (live e laws o codecs t ≡ from (o.index id + 1) (live e laws o codecs s))
      × (read_vote e o codecs t ≡ read_vote e o codecs s)
      × (read_committed e o codecs t ≡ read_committed e o codecs s)
  unfolding purge text_eq
  purge_lem =
      let (r, u) = compact-ok e o codecs (o.index id) saved t h in
      let (bytes, encoded, written) = purge_saved in
      let index : (o.index id + 1) % u64_mod ≡ o.index id + 1 = omega arith in
      (
        ap (λ t. live e laws o codecs t) u
            ∙ (laws.compact_lem saved.1 region_id _).1
            ∙ rw (index, written.entries),
        read_vote-cong e laws o codecs t s (purge_messages vote_key ∙ written.at_key vote_key),
        read_committed-cong e laws o codecs t s
            (purge_messages committed_key ∙ written.at_key committed_key),
      )

  -- A log that was purged to its end still reports the purged id as its last one.
  pub get_log_state-purge :
      from (o.index id + 1) (live e laws o codecs s) ≡ []
      → get_log_state e o codecs t
        ≡ ok (record { last_purged_log_id = some id; last_log_id = some id })
  unfolding text_eq last_entry_id or_else purged_of
  get_log_state-purge none_left =
      let (bytes, encoded, written) = purge_saved in
      let (id', decoded, same) = faithful.decode id bytes encoded in
      let purged = purge_messages last_purged_key ∙ written.at_key last_purged_key in
      get_log_state_lem e laws o codecs t ∙ rw (purged, purge_lem.0, none_left, decoded, same)

  -- A log that was purged reports the purged id, and the last entry that is left.
  pub get_log_state-purged :
      (last : Option o.LogId)
      → last_entry_id e o codecs (e.last_index region_id t) t ≡ ok last
      → get_log_state e o codecs t
        ≡ ok (record { last_purged_log_id = some id; last_log_id = or_else last (some id) })
  unfolding text_eq purged_of
  get_log_state-purged last readable =
      let (bytes, encoded, at) = purged_message in
      let (id', decoded, same) = faithful.decode id bytes encoded in
      let reads = rw laws.last_index_lem at readable in
      get_log_state_lem e laws o codecs t ∙ rw (at, decoded, reads, same) refl
