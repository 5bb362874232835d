-- ===== src/Raft/Engine.antt =====
-- The crate raft-engine, as src/Blun.Mq.Raft/src/raft_engine_log_store.rs uses it, and the message
-- that the build generates from src/Blun.Mq.Raft/proto/raft_log_entry.proto.
pub mod Spans
use blun_mq.Base.{
  ℕ, suc, ◌+◌, ◌≡◌, ◌&&◌, Bool, true, List, [], ◌∷◌, ◌++◌, length, Option, none, some, Bytes,
  Outcome, ok, nat_eq, text_eq, ◌==◌, ltb, leb, if◌then◌else◌,
}

pub record Blob : Type 0 where
  pub index : ℕ
  pub payload : Bytes

-- `Engine` and `LogBatch`. A write reports its result beside the contents that it leaves.
pub record Engine : Type 1 where
  pub State : Type 0
  pub Batch : Type 0
  pub Error : Type 0
  pub empty_batch : Batch
  pub put_message : ℕ → Bytes → Blob → Batch → Outcome Error Batch
  pub add_entries : ℕ → List Blob → Batch → Outcome Error Batch
  pub write : Batch → Bool → State → Outcome Error (Unit {0}) × State
  pub get_message : ℕ → Bytes → State → Outcome Error (Option Blob)
  pub last_index : ℕ → State → Option ℕ
  pub get_entry : ℕ → ℕ → State → Outcome Error (Option Blob)
  pub fetch_entries_to : ℕ → ℕ → ℕ → State → Outcome Error (List Blob)
  pub compact_to : ℕ → ℕ → State → State

-- The entries below an index, and from an index on.
abbrev pub below : ℕ → List Blob → List Blob
below i [] = []
below i (b ∷ bs) = let rest = below i bs in if ltb b.index i then b ∷ rest else rest

abbrev pub from : ℕ → List Blob → List Blob
from i [] = []
from i (b ∷ bs) = let rest = from i bs in if ltb b.index i then rest else b ∷ rest

-- New entries replace the old ones from the first new index on.
abbrev pub splice : List Blob → List Blob → List Blob
splice old [] = old
splice old (b ∷ bs) = below b.index old ++ b ∷ bs

-- The entry of an index, and the index of the last entry.
abbrev pub find : ℕ → List Blob → Option Blob
find i [] = none
find i (b ∷ bs) = if b.index == i then some b else find i bs

abbrev pub last_of : List Blob → Option ℕ
last_of [] = none
last_of (b ∷ []) = some b.index
last_of (b ∷ c ∷ bs) = last_of (c ∷ bs)

-- Indexes that count up from `i`.
abbrev pub Consecutive : ℕ → List Blob → Type 0
Consecutive i [] = Unit
Consecutive i (b ∷ bs) = (b.index ≡ i) × Consecutive (i + 1) bs

-- What raft-engine documents of a region, for an engine whose reads succeed: the messages of its
-- keys and the live entries. A synchronous write that returns is in force; nothing is said of one
-- that fails.
pub record IsLawful (e : Engine) : Type 0 where
  pub messages : e.State → ℕ → Bytes → Option Blob
  pub entries : e.State → ℕ → List Blob
  pub get_message_lem :
      (s : e.State) (r : ℕ) (k : Bytes) → e.get_message r k s ≡ ok (messages s r k)
  pub last_index_lem : (s : e.State) (r : ℕ) → e.last_index r s ≡ last_of (entries s r)
  pub get_entry_lem : (s : e.State) (r i : ℕ) → e.get_entry r i s ≡ ok (find i (entries s r))
  -- A range that is there in full is returned.
  pub fetch_entries_to_lem :
      (s : e.State) (r a b : ℕ)
      → Consecutive a (from a (below b (entries s r)))
      → a + length (from a (below b (entries s r))) ≡ b
      → e.fetch_entries_to r a b s ≡ ok (from a (below b (entries s r)))
  pub put_lem :
      (s t : e.State) (r : ℕ) (k : Bytes) (b : Blob) (batch : e.Batch)
      → e.put_message r k b e.empty_batch ≡ ok batch
      → e.write batch true s ≡ (ok tt, t)
      → ((j : Bytes) → messages t r j ≡ (if k == j then some b else messages s r j))
        × (entries t r ≡ entries s r)
  pub add_lem :
      (s t : e.State) (r : ℕ) (bs : List Blob) (batch : e.Batch)
      → e.add_entries r bs e.empty_batch ≡ ok batch
      → e.write batch true s ≡ (ok tt, t)
      → ((j : Bytes) → messages t r j ≡ messages s r j) × (entries t r ≡ splice (entries s r) bs)
  pub compact_lem :
      (s : e.State) (r i : ℕ)
      → ((j : Bytes) → messages (e.compact_to r i s) r j ≡ messages s r j)
        × (entries (e.compact_to r i s) r ≡ from i (entries s r))
