-- ===== src/Raft/LogStore.antt =====
-- src/Blun.Mq.Raft/src/raft_engine_log_store.rs: the log of a Raft group, its vote, and its
-- committed and last purged ids, on a raft-engine. A call on the blocking pool runs in place; a
-- panic in it comes back as a join error.
pub mod Reads
pub mod Keys
pub mod Purge
pub mod Append
pub mod LastId
pub mod Open
use mathlib.Core.Option
use mathlib.Core.Option.{or_else, join}
use blun_mq.Base.{
  ℕ, ◌+◌, ◌-◌, ◌%◌, Bool, true, false, List, [], ◌∷◌, Option, none, some, Bytes, text, Outcome, ok,
  err, panic, ◌>>=◌, map_err, transpose_map,
}
use blun_mq.Raft.Types.{u64_mod}
use blun_mq.Raft.Openraft.{Openraft, Entry}
use blun_mq.Raft.Serde.{Serde}
use blun_mq.Raft.Engine.{Engine, Blob}

abbrev pub region_id : ℕ
region_id = 1

abbrev pub vote_key : Bytes
vote_key = text "vote"

abbrev pub last_purged_key : Bytes
last_purged_key = text "last_purged"

abbrev pub committed_key : Bytes
committed_key = text "committed"

-- serde_json at the types that the log store writes.
pub record Codecs (o : Openraft) (R : Type 0) : Type 1 where
  pub Error : Type 0
  pub entry : Serde Error (Entry o R)
  pub vote : Serde Error o.Vote
  pub log_id : Serde Error o.LogId
  pub committed : Serde Error (Option o.LogId)

-- `std::ops::Bound<u64>`
pub data Bound : Type 0 where
  included : ℕ → Bound
  excluded : ℕ → Bound
  unbounded : Bound

unfoldable pub start_of : Bound → ℕ
start_of (included s) = s
start_of (excluded s) = (s + 1) % u64_mod
start_of unbounded = 0

unfoldable pub end_of : Bound → ℕ
end_of (included e) = (e + 1) % u64_mod
end_of (excluded e) = e
end_of unbounded = u64_mod - 1

-- `.map(f).collect::<Result<Vec<_>, _>>()`
unfoldable pub collect_all {ℓ κ μ} :
    {E : Type ℓ} {A : Type κ} {B : Type μ} → (A → Outcome E B) → List A → Outcome E (List B)
collect_all f [] = ok []
collect_all f (a ∷ xs) = do b ← f a; bs ← collect_all f xs; ok (b ∷ bs)

-- `to_storage_err` of an error of serde_json, of the engine, or of the join.
pub data StorageError (J X : Type 0) : Type 0 where
  json : J → StorageError J X
  engine : X → StorageError J X
  joined : StorageError J X

pub record LogState (o : Openraft) : Type 0 where
  pub last_purged_log_id : Option o.LogId
  pub last_log_id : Option o.LogId

module _ (e : Engine) (o : Openraft) {R : Type 0} (codecs : Codecs o R) where
  abbrev pub Failure : Type 0
  Failure = StorageError codecs.Error e.Error

  unfoldable pub encode_entry : Entry o R → Outcome Failure Blob
  encode_entry entry = do
    bytes ← map_err json (codecs.entry.to_vec entry)
    ok (record { index = o.index entry.log_id; payload = bytes })

  unfoldable pub decode_entry : Blob → Outcome Failure (Entry o R)
  decode_entry blob = map_err json (codecs.entry.from_slice blob.payload)

  -- `spawn_blocking(...).await.map_err(to_storage_err)?.map_err(to_storage_err)`
  abbrev pub blocking {ℓ} : {A : Type ℓ} → Outcome e.Error A → Outcome Failure A
  blocking (ok a) = ok a
  blocking (err x) = err (engine x)
  blocking panic = err joined

  unfoldable pub get_blob_message : Bytes → e.State → Outcome Failure (Option Blob)
  get_blob_message key s = map_err engine (e.get_message region_id key s)

  unfoldable pub try_get_log_entries : Bound → Bound → e.State → Outcome Failure (List (Entry o R))
  unfolding start_of end_of collect_all decode_entry
  try_get_log_entries lo hi s = do
    blobs ← blocking (e.fetch_entries_to region_id (start_of lo) (end_of hi) s)
    collect_all decode_entry blobs

  -- The id of the last entry, read by its index.
  unfoldable pub last_entry_id : Option ℕ → e.State → Outcome Failure (Option o.LogId)
  unfolding decode_entry
  last_entry_id none s = ok none
  last_entry_id (some idx) s = do
    found ← blocking (e.get_entry region_id idx s)
    entry ← transpose_map decode_entry found
    ok (Option.map (λ x. x.log_id) entry)

  unfoldable pub get_log_state : e.State → Outcome Failure (LogState o)
  unfolding last_entry_id get_blob_message or_else
  get_log_state s = do
    blob ← get_blob_message last_purged_key s
    last_purged ← transpose_map (λ b. map_err json (codecs.log_id.from_slice b.payload)) blob
    last ← last_entry_id (e.last_index region_id s) s
    ok (record { last_purged_log_id = last_purged; last_log_id = or_else last last_purged })

  -- `engine.write(&mut batch, true)`, if the batch could be filled.
  pub commit : Outcome e.Error e.Batch → e.State → Outcome e.Error (Unit {0}) × e.State
  commit (ok batch) s = e.write batch true s
  commit (err x) s = (err x, s)
  commit panic s = (panic, s)

  -- A batch of one message, written synchronously.
  pub write_message : Bytes → Bytes → e.State → Outcome e.Error (Unit {0}) × e.State
  unfolding commit
  write_message key bytes s =
      let blob : Blob = record { index = 0; payload = bytes } in
      commit (e.put_message region_id key blob e.empty_batch) s

  -- A value is encoded and written under a key.
  unfoldable pub save :
      Bytes → Outcome codecs.Error Bytes → e.State → Outcome Failure (Unit {0}) × e.State
  unfolding write_message
  save key (ok bytes) s = let (r, t) = write_message key bytes s in (blocking r, t)
  save key (err x) s = (err (json x), s)
  save key panic s = (panic, s)

  unfoldable pub save_vote : o.Vote → e.State → Outcome Failure (Unit {0}) × e.State
  unfolding save
  save_vote vote s = save vote_key (codecs.vote.to_vec vote) s

  unfoldable pub save_committed : Option o.LogId → e.State → Outcome Failure (Unit {0}) × e.State
  unfolding save
  save_committed committed s = save committed_key (codecs.committed.to_vec committed) s

  unfoldable pub read_vote : e.State → Outcome Failure (Option o.Vote)
  unfolding get_blob_message
  read_vote s = do
    blob ← get_blob_message vote_key s
    transpose_map (λ b. map_err json (codecs.vote.from_slice b.payload)) blob

  -- What was saved is itself an option: `flatten`.
  unfoldable pub read_committed : e.State → Outcome Failure (Option o.LogId)
  unfolding get_blob_message join Option.bind
  read_committed s = do
    blob ← get_blob_message committed_key s
    found ← transpose_map (λ b. map_err json (codecs.committed.from_slice b.payload)) blob
    ok (join found)

  -- The result of an append, and what `callback.log_io_completed` was told: whether the entries were
  -- flushed, or nothing, if it was never called.
  pub record Appended : Type 0 where
    pub result : Outcome Failure (Unit {0})
    pub callback : Option Bool

  -- A batch of entries, written synchronously.
  write_entries : List Blob → e.State → Outcome e.Error (Unit {0}) × e.State
  unfolding commit
  write_entries blobs s = commit (e.add_entries region_id blobs e.empty_batch) s

  report : Outcome e.Error (Unit {0}) → Appended
  report (ok u) = record { result = ok u; callback = some true }
  report (err x) = record { result = err (engine x); callback = some false }
  report panic = record { result = err joined; callback = some false }

  pub append_blobs : Outcome Failure (List Blob) → e.State → Appended × e.State
  unfolding write_entries report
  append_blobs (ok blobs) s = let (r, t) = write_entries blobs s in (report r, t)
  append_blobs (err x) s = (record { result = err x; callback = none }, s)
  append_blobs panic s = (record { result = panic; callback = none }, s)

  unfoldable pub append : List (Entry o R) → e.State → Appended × e.State
  unfolding append_blobs collect_all encode_entry
  append entries s = append_blobs (collect_all encode_entry entries) s

  -- Nothing is removed now: the next `append` replaces the suffix.
  unfoldable pub truncate : o.LogId → e.State → Outcome Failure (Unit {0}) × e.State
  truncate log_id s = (ok tt, s)

  -- The log is compacted only if the purged id was written.
  pub compact : ℕ → Outcome Failure (Unit {0}) × e.State → Outcome Failure (Unit {0}) × e.State
  compact index (ok u, s) = (ok u, e.compact_to region_id ((index + 1) % u64_mod) s)
  compact index (err x, s) = (err x, s)
  compact index (panic, s) = (panic, s)

  unfoldable pub purge : o.LogId → e.State → Outcome Failure (Unit {0}) × e.State
  unfolding save compact
  purge log_id s = compact (o.index log_id) (save last_purged_key (codecs.log_id.to_vec log_id) s)
