-- ===== src/Raft/LogStore/Reads.antt =====
-- The reads of the log store in terms of the messages and entries of a lawful engine.
use mathlib.Core.Option.{or_else, join}
use blun_mq.Base.{
  ℕ, ◌≡◌, refl, sym, ◌∙◌, ap, ap₂, List, Option, none, some, Bytes, Outcome, ok, ◌>>=◌, map_err,
  transpose_map,
}
use blun_mq.Raft.Openraft.{Openraft}
use blun_mq.Raft.Engine.{Engine, Blob, IsLawful, last_of}
use blun_mq.Raft.LogStore.{
  Codecs, LogState, Failure, json, region_id, vote_key, committed_key, last_purged_key,
  last_entry_id, get_log_state, read_vote, read_committed,
}

module _ (e : Engine) (laws : IsLawful e) (o : Openraft) {R : Type 0} (codecs : Codecs o R) where
  abbrev pub message : e.State → Bytes → Option Blob
  message s key = laws.messages s region_id key

  abbrev pub live : e.State → List Blob
  live s = laws.entries s region_id

  pub read_vote_lem :
      (s : e.State)
      → read_vote e o codecs s
        ≡ transpose_map (λ b. map_err json (codecs.vote.from_slice b.payload)) (message s vote_key)
  unfolding read_vote
  read_vote_lem s = rw laws.get_message_lem

  pub read_committed_lem :
      (s : e.State)
      → read_committed e o codecs s ≡ (
          transpose_map
            (λ b. map_err json (codecs.committed.from_slice b.payload))
            (message s committed_key)
          >>= λ found. ok (join found))
  unfolding read_committed
  read_committed_lem s = rw laws.get_message_lem

  -- The two parts of the log state.
  unfoldable pub purged_of : Option Blob → Outcome (Failure e o codecs) (Option o.LogId)
  purged_of = transpose_map (λ b. map_err json (codecs.log_id.from_slice b.payload))

  abbrev pub log_state :
      Outcome (Failure e o codecs) (Option o.LogId)
      → Outcome (Failure e o codecs) (Option o.LogId)
      → Outcome (Failure e o codecs) (LogState o)
  log_state purged last = do
    p ← purged
    l ← last
    ok (record { last_purged_log_id = p; last_log_id = or_else l p })

  pub get_log_state_lem :
      (s : e.State)
      → get_log_state e o codecs s
        ≡ log_state
            (purged_of (message s last_purged_key))
            (last_entry_id e o codecs (last_of (live s)) s)
  unfolding get_log_state purged_of
  get_log_state_lem s = rw (laws.get_message_lem, laws.last_index_lem)

  last_entry_id-cong :
      (s t : e.State) (i : Option ℕ)
      → live s ≡ live t
      → last_entry_id e o codecs i s ≡ last_entry_id e o codecs i t
  unfolding last_entry_id
  last_entry_id-cong s t none h = refl
  last_entry_id-cong s t (some i) h = rw (laws.get_entry_lem, laws.get_entry_lem, h)

  -- The log state depends on the purged id and the entries alone.
  pub get_log_state-cong :
      (s t : e.State)
      → message s last_purged_key ≡ message t last_purged_key
      → live s ≡ live t
      → get_log_state e o codecs s ≡ get_log_state e o codecs t
  get_log_state-cong s t p h =
      get_log_state_lem s
      ∙ ap₂ log_state (ap purged_of p) (
          last_entry_id-cong s t (last_of (live s)) h
          ∙ ap (λ l. last_entry_id e o codecs (last_of l) t) h)
      ∙ sym (get_log_state_lem t)

  pub read_vote-cong :
      (s t : e.State)
      → message s vote_key ≡ message t vote_key
      → read_vote e o codecs s ≡ read_vote e o codecs t
  read_vote-cong s t h = read_vote_lem s ∙ rw h (sym (read_vote_lem t))

  pub read_committed-cong :
      (s t : e.State)
      → message s committed_key ≡ message t committed_key
      → read_committed e o codecs s ≡ read_committed e o codecs t
  read_committed-cong s t h = read_committed_lem s ∙ rw h (sym (read_committed_lem t))
