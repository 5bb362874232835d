-- ===== src/Raft/LogStore/Open/Restart.antt =====
-- A log store that is opened again after its process has ended.
use blun_mq.Base.{ℕ, ◌+◌, ◌≡◌, refl, ◌∙◌, ap, List, length, some, Text, Bytes, ok}
use blun_mq.Base.Cells.{Arc, Cells, write, write_self}
use blun_mq.Raft.Openraft.{Openraft, Entry}
use blun_mq.Raft.Serde.{IsFaithful}
use blun_mq.Raft.Engine.{Engine, IsLawful, from, below}
use blun_mq.Raft.LogStore.{
  Codecs, region_id, vote_key, committed_key, last_purged_key, included, excluded, save_vote,
  read_vote, read_committed, append, get_log_state, try_get_log_entries,
}
use blun_mq.Raft.LogStore.Append.{Run, flushed, append-Encoded, try_get_log_entries-Encoded}
use blun_mq.Raft.LogStore.Keys.{read_vote-save_vote}
use blun_mq.Raft.LogStore.Reads.{read_vote-cong, read_committed-cong, get_log_state-cong}
use blun_mq.Raft.LogStore.Open.{Files, open_store, created, shared}

-- What raft-engine and the file system document of a process that ends, the machine staying up:
-- `leave` is the disk when a process ends whose engine in a directory was in some state. The
-- directory is still there, and the engine that opens it holds what the old one held.
pub record IsDurable (e : Engine) (laws : IsLawful e) {Disk : Type 0} (f : Files e Disk)
    : Type 0 where
  pub leave : Text → e.State → Disk → Disk
  pub existing :
      (dir : Text) (s : e.State) (d : Disk)
      → f.create_dir_all dir (leave dir s d) ≡ (ok tt, leave dir s d)
  pub recovered : Text → e.State → Disk → e.State
  pub after : Text → e.State → Disk → Disk
  pub open_engine_lem :
      (dir : Text) (s : e.State) (d : Disk)
      → f.open_engine (f.config dir) (leave dir s d) ≡ (ok (recovered dir s d), after dir s d)
  pub recovered-messages :
      (dir : Text) (s : e.State) (d : Disk) (r : ℕ) (key : Bytes)
      → laws.messages (recovered dir s d) r key ≡ laws.messages s r key
  pub recovered-entries :
      (dir : Text) (s : e.State) (d : Disk) (r : ℕ)
      → laws.entries (recovered dir s d) r ≡ laws.entries s r

-- A store over a directory that is there and an engine that opens.
pub open_store-ok :
    {e : Engine} {Disk : Type 0} (f : Files e Disk) (dir : Text) (address : Arc)
    (cells : Cells e.State) (t : e.State) (d d' : Disk)
    → f.create_dir_all dir d ≡ (ok tt, d)
    → f.open_engine (f.config dir) d ≡ (ok t, d')
    → open_store f dir address cells d
      ≡ (ok (record { engine = address }), write address t cells, d')
unfolding open_store created shared
open_store-ok f dir address cells t d d' there opens = rw (there, opens) refl

module _ {e : Engine} {laws : IsLawful e} {Disk : Type 0} (f : Files e Disk)
    (durable : IsDurable e laws f) where
  -- The store opens, with the recovered engine behind its address.
  pub open_store-leave :
      (dir : Text) (address : Arc) (cells : Cells e.State) (s : e.State) (d : Disk)
      → let (result, cells', d') = open_store f dir address cells (durable.leave dir s d) in
        (result ≡ ok (record { engine = address })) × (cells' address ≡ durable.recovered dir s d)
  unfolding open_store created shared
  open_store-leave dir address cells s d =
      rw (durable.existing, durable.open_engine_lem)
        (refl, write_self address (durable.recovered dir s d) cells)

module _ {e : Engine} (laws : IsLawful e) {Disk : Type 0} (f : Files e Disk)
    (durable : IsDurable e laws f) (o : Openraft) {R : Type 0} (codecs : Codecs o R)
    (faithful_vote : IsFaithful (λ (a b : o.Vote). a ≡ b) codecs.vote)
    (faithful : IsFaithful (λ (a b : Entry o R). a ≡ b) codecs.entry) where
  -- A vote was saved and entries were appended, then the process ended. The store that opens the
  -- same directory opens, whatever else the disk holds, and reads that vote and those entries, and
  -- its committed id and log state are those of the store that ended.
  pub restart_keeps :
      (dir : Text) (address : Arc) (cells : Cells e.State) (d : Disk) (v : o.Vote) (i : ℕ)
      (xs : List (Entry o R)) (s₁ s₂ s₃ : e.State)
      → save_vote e o codecs v s₁ ≡ (ok tt, s₂)
      → Run o i xs
      → append e o codecs xs s₂ ≡ (flushed e o codecs, s₃)
      → let (result, cells', d') = open_store f dir address cells (durable.leave dir s₃ d) in
        let t = cells' address in
        (result ≡ ok (record { engine = address }))
        × (read_vote e o codecs t ≡ ok (some v))
        × (try_get_log_entries e o codecs (included i) (excluded (i + length xs)) t ≡ ok xs)
        × (read_committed e o codecs t ≡ read_committed e o codecs s₃)
        × (get_log_state e o codecs t ≡ get_log_state e o codecs s₃)
  restart_keeps dir address cells d v i xs s₁ s₂ s₃ saved run flush =
      let (opens, at) = open_store-leave f durable dir address cells s₃ d in
      let r = durable.recovered dir s₃ d in
      let same = durable.recovered-messages dir s₃ d region_id in
      let entries = durable.recovered-entries dir s₃ d region_id in
      let (blobs, c, span, kept) = append-Encoded e laws o codecs faithful i xs s₂ s₃ run flush in
      let (reads, _, _) = read_vote-save_vote e laws o codecs faithful_vote v s₁ s₂ saved in
      rw at (
        opens,
        read_vote-cong e laws o codecs r s₂ (same vote_key ∙ kept vote_key) ∙ reads,
        try_get_log_entries-Encoded e laws o codecs faithful i xs blobs r c
            (ap (λ l. from i (below (i + length xs) l)) entries ∙ span),
        read_committed-cong e laws o codecs r s₃ (same committed_key),
        get_log_state-cong e laws o codecs r s₃ (same last_purged_key) entries,
      )
