-- ===== src/Tests/Instances.antt =====
-- Openraft with numbers for its opaque types, an engine in memory, and codecs for what the program
-- stores.
use blun_mq.Base.{
  ℕ, ◌≡◌, ◌∙◌, refl, ap, List, [], ◌∷◌, Option, none, some, Bytes, nat_eq, text_eq, ◌==◌,
  if◌then◌else◌, Outcome, ok, ==-refl,
}
use blun_mq.Raft.Openraft.{Openraft, Entry, EntryPayload, blank, normal, membership}
use blun_mq.Raft.Serde.{Serde, IsFaithful}
use blun_mq.Raft.Engine.{Engine, Blob, IsLawful, below, from, splice, find, last_of}
use blun_mq.Raft.LogStore.{Codecs}
use blun_mq.Raft.QueueStore.{SnapshotPayload}
use blun_mq.Raft.QueueStore.Laws.{SamePayload}
use blun_mq.Tests.Codec.{Code, number, pair, list, iso, serde, serde-IsFaithful}

abbrev pub numbers : Openraft
numbers = record {
  LogId = ℕ;
  Membership = ℕ;
  StoredMembership = Option ℕ × ℕ;
  Vote = ℕ;
  index = λ n. n;
  stored_default = (none, 0);
  stored_new = λ l m. (l, m);
}

pub record Memory : Type 0 where
  pub messages : ℕ → Bytes → Option Blob
  pub entries : ℕ → List Blob

pub data Batch : Type 0 where
  nothing : Batch
  message : ℕ → Bytes → Blob → Batch
  added : ℕ → List Blob → Batch

abbrev pub put : ℕ → Bytes → Option Blob → Memory → Memory
put r k b s = record s {
  messages = λ q j. if q == r then (if k == j then b else s.messages q j) else s.messages q j;
}

abbrev pub set_entries : ℕ → List Blob → Memory → Memory
set_entries r bs s = record s { entries = λ q. if q == r then bs else s.entries q }

unfoldable pub write : Batch → Memory → Memory
write nothing s = s
write (message r k b) s = put r k (some b) s
write (added r bs) s = set_entries r (splice (s.entries r) bs) s

abbrev pub memory : Engine
memory = record {
  State = Memory;
  Batch = Batch;
  Error = Unit;
  empty_batch = nothing;
  put_message = λ r k b batch. ok (message r k b);
  add_entries = λ r bs batch. ok (added r bs);
  write = λ batch sync s. (ok tt, write batch s);
  get_message = λ r k s. ok (s.messages r k);
  last_index = λ r s. last_of (s.entries r);
  get_entry = λ r i s. ok (find i (s.entries r));
  fetch_entries_to = λ r a b s. ok (from a (below b (s.entries r)));
  compact_to = λ r i s. set_entries r (from i (s.entries r)) s;
}

-- The memory after a write.
module _ (s t : Memory) (r : ℕ) (batch : Batch)
    (w : ◌≡◌ {A = Outcome (Unit {0}) (Unit {0}) × Memory} (ok tt, write batch s) (ok tt, t)) where
  pub put_written :
      (k : Bytes) (b : Blob)
      → ◌≡◌ {A = Outcome (Unit {0}) Batch} (ok (message r k b)) (ok batch)
      → ((j : Bytes) → t.messages r j ≡ (if k == j then some b else s.messages r j))
        × (t.entries r ≡ s.entries r)
  unfolding write
  put_written k b h =
      let e : t ≡ put r k (some b) s = cc in
      (
        λ j. ap (λ (t : Memory). t.messages r j) e ∙ rw (==-refl r),
        ap (λ (t : Memory). t.entries r) e,
      )

  pub add_written :
      (bs : List Blob)
      → ◌≡◌ {A = Outcome (Unit {0}) Batch} (ok (added r bs)) (ok batch)
      → ((j : Bytes) → t.messages r j ≡ s.messages r j) × (t.entries r ≡ splice (s.entries r) bs)
  unfolding write
  add_written bs h =
      let e : t ≡ set_entries r (splice (s.entries r) bs) s = cc in
      (
        λ j. ap (λ (t : Memory). t.messages r j) e,
        ap (λ (t : Memory). t.entries r) e ∙ rw (==-refl r),
      )

pub entries_compacted :
    (s : Memory) (r i : ℕ)
    → (set_entries r (from i (s.entries r)) s).entries r ≡ from i (s.entries r)
entries_compacted s r i = rw (==-refl r)

abbrev pub memory-IsLawful : IsLawful memory
memory-IsLawful = record {
  messages = λ s. s.messages;
  entries = λ s. s.entries;
  get_message_lem = λ s r k. refl;
  last_index_lem = λ s r. refl;
  get_entry_lem = λ s r i. refl;
  fetch_entries_to_lem = λ s r a b c h. refl;
  put_lem = λ s t r k b batch h w. put_written s t r batch w k b h;
  add_lem = λ s t r bs batch h w. add_written s t r batch w bs h;
  compact_lem = λ s r i. (λ j. refl, entries_compacted s r i);
}

abbrev to_payload : List ℕ → EntryPayload numbers ℕ
to_payload [] = blank
to_payload (r ∷ []) = normal r
to_payload (m ∷ _ ∷ _) = membership m

abbrev from_payload : EntryPayload numbers ℕ → List ℕ
from_payload blank = []
from_payload (normal r) = r ∷ []
from_payload (membership m) = m ∷ 0 ∷ []

pub payload_same : (p : EntryPayload numbers ℕ) → to_payload (from_payload p) ≡ p
payload_same blank = refl
payload_same (normal r) = refl
payload_same (membership m) = refl

abbrev payload_code : Code (EntryPayload numbers ℕ)
payload_code = iso (list number) to_payload from_payload payload_same

abbrev entry_code : Code (Entry numbers ℕ)
entry_code =
    iso (pair number payload_code) (λ p. record { log_id = p.0; payload = p.1 })
      (λ x. (x.log_id, x.payload)) (λ x. refl)

abbrev to_option : List ℕ → Option ℕ
to_option [] = none
to_option (n ∷ _) = some n

abbrev from_option : Option ℕ → List ℕ
from_option none = []
from_option (some n) = n ∷ []

pub option_same : (o : Option ℕ) → to_option (from_option o) ≡ o
option_same none = refl
option_same (some n) = refl

abbrev option_code : Code (Option ℕ)
option_code = iso (list number) to_option from_option option_same

abbrev pub codecs : Codecs numbers ℕ
codecs = record {
  Error = Unit;
  entry = serde entry_code;
  vote = serde number;
  log_id = serde number;
  committed = serde option_code;
}

pub number-IsFaithful : IsFaithful (λ (a b : ℕ). a ≡ b) (serde number)
number-IsFaithful = serde-IsFaithful number (λ a b. a ≡ b) (λ a. refl)

pub committed-IsFaithful : IsFaithful (λ (a b : Option ℕ). a ≡ b) codecs.committed
committed-IsFaithful = serde-IsFaithful option_code (λ a b. a ≡ b) (λ a. refl)

pub entry-IsFaithful : IsFaithful (λ (a b : Entry numbers ℕ). a ≡ b) codecs.entry
entry-IsFaithful = serde-IsFaithful entry_code (λ a b. a ≡ b) (λ a. refl)

abbrev bytes_code : Code Bytes
bytes_code = list number

abbrev payload_queue_code : Code SnapshotPayload
payload_queue_code =
    iso
      (pair (list (pair bytes_code (list (pair number bytes_code))))
        (list (pair bytes_code number)))
      (λ p. record { queues = p.0; next_offset = p.1 }) (λ p. (p.queues, p.next_offset)) (λ p. refl)

abbrev pub queue_json : Serde (Unit {0}) SnapshotPayload
queue_json = serde payload_queue_code

pub queue_json-IsFaithful : IsFaithful SamePayload queue_json
queue_json-IsFaithful =
    serde-IsFaithful payload_queue_code SamePayload
      (λ p. record { queues = λ k. refl; next_offset = λ k. refl })
