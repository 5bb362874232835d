-- ===== src/Tests/RestartTests.antt =====
-- A log store that is opened again on the disk in memory.
use mathlib.Core.Option.{or_else}
use blun_mq.Base.{
  ◌⊎◌, arith, ℕ, ◌+◌, ◌≡◌, refl, List, [], ◌∷◌, length, none, some, text, nat_eq, ok,
}
use blun_mq.Base.Cells.{Cells}
use blun_mq.Raft.Engine.{from}
use blun_mq.Raft.Openraft.{Entry, normal, blank}
use blun_mq.Raft.LogStore.{
  included, excluded, save_vote, read_vote, read_committed, append, get_log_state,
  try_get_log_entries, purge, save_committed, last_entry_id, region_id,
}
use blun_mq.Raft.LogStore.Append.{flushed}
use blun_mq.Raft.LogStore.Reads.{live}
use blun_mq.Raft.LogStore.Open.{open_store}
use blun_mq.Raft.LogStore.Open.Restart.{restart_keeps}
use blun_mq.Raft.LogStore.Open.Forgets.{restart_forgets}
use blun_mq.Raft.LogStore.Open.Interrupted.{left_by, purge_interrupted}
use blun_mq.Raft.LogStore.Open.Validates.{restart_validates}
use blun_mq.Raft.Store.{Machine, new, applied_state, get_current_snapshot}
use blun_mq.Tests.Codec.{dec_all}
use blun_mq.Tests.Disk.{disk_files, disk-IsDurable, fresh, leave}
use blun_mq.Tests.Instances
use blun_mq.Tests.Instances.{
  numbers, Memory, memory, memory-IsLawful, codecs, number-IsFaithful, committed-IsFaithful,
  entry-IsFaithful,
}

abbrev log : List (Entry numbers ℕ)
log = record { log_id = 1; payload = blank } ∷ record { log_id = 2; payload = normal 20 } ∷ []

abbrev voted : Memory
voted = (save_vote memory numbers codecs 6 fresh).1

vote_saved : save_vote memory numbers codecs 6 fresh ≡ (ok tt, voted)
unfolding save_vote Instances.write
vote_saved = refl

abbrev held : Memory
held = (append memory numbers codecs log voted).1

appended : append memory numbers codecs log voted ≡ (flushed memory numbers codecs, held)
unfolding append Instances.write nat_eq
appended = refl

restart_keeps_example :
    let cells : Cells Memory = λ a. fresh in
    let (result, cells', d') =
      open_store disk_files
        (text "data/spam")
        1
        cells
        (leave (text "data/spam") held (λ dir. fresh)) in
    let t = cells' 1 in
    (result ≡ ok (record { engine = 1 }))
    × (read_vote memory numbers codecs t ≡ ok (some 6))
    × (try_get_log_entries memory numbers codecs (included 1) (excluded (1 + length log)) t
        ≡ ok log)
    × (read_committed memory numbers codecs t ≡ read_committed memory numbers codecs held)
    × (get_log_state memory numbers codecs t ≡ get_log_state memory numbers codecs held)
restart_keeps_example =
    restart_keeps memory-IsLawful disk_files disk-IsDurable numbers codecs number-IsFaithful
      entry-IsFaithful (text "data/spam") 1 (λ a. fresh) (λ dir. fresh) 6 1 log fresh voted held
      vote_saved (refl, (refl, tt)) appended

-- A machine that adds up its requests.
abbrev adding : Machine
adding = record {
  State = ℕ;
  Request = ℕ;
  Response = ℕ;
  Payload = ℕ;
  default_response = 0;
  apply = λ s r. (s + r, s);
  dump = λ s. s;
  load = λ p s. p;
}

abbrev zeros : Cells ℕ
zeros a = 0

abbrev purged : Memory
purged = (purge memory numbers codecs 2 held).1

purge_done : purge memory numbers codecs 2 held ≡ (ok tt, purged)
unfolding purge Instances.write
purge_done = refl

nothing_left : from (2 + 1) (live memory memory-IsLawful numbers codecs held) ≡ []
unfolding append save_vote Instances.write nat_eq
nothing_left = refl

restart_forgets_example :
    let cells : Cells Memory = λ a. fresh in
    let (result, cells', d') =
      open_store disk_files
        (text "data/spam")
        1
        cells
        (leave (text "data/spam") purged (λ dir. fresh)) in
    (result ≡ ok (record { engine = 1 }))
    × (get_log_state memory numbers codecs (cells' 1)
        ≡ ok (record { last_purged_log_id = some 2; last_log_id = some 2 }))
    × (live memory memory-IsLawful numbers codecs (cells' 1) ≡ [])
    × (applied_state numbers (new numbers 0) ≡ (none, (none, 0)))
    × (get_current_snapshot numbers (new numbers 0) ≡ none)
restart_forgets_example =
    restart_forgets memory-IsLawful disk_files disk-IsDurable numbers codecs number-IsFaithful
      (text "data/spam") 1 0 (λ a. fresh) (λ dir. fresh) 2 held purged purge_done (omega arith)
      nothing_left

-- The purge ended after its first call.
abbrev reopened : Memory
reopened =
    (open_store disk_files (text "data/spam") 1 (λ a. fresh)
        (leave (text "data/spam")
          (left_by memory-IsLawful numbers codecs number-IsFaithful 2 (omega arith) 1 held)
          (λ dir. fresh))).1
      1

abbrev purged_again : Memory
purged_again = (purge memory numbers codecs 2 reopened).1

purge_done_again : purge memory numbers codecs 2 reopened ≡ (ok tt, purged_again)
unfolding purge Instances.write
purge_done_again = refl

purge_interrupted_example :
    (read_vote memory numbers codecs reopened ≡ read_vote memory numbers codecs held)
    × (read_committed memory numbers codecs reopened ≡ read_committed memory numbers codecs held)
    × ((live memory memory-IsLawful numbers codecs reopened
          ≡ live memory memory-IsLawful numbers codecs held)
        ⊎ ((live memory memory-IsLawful numbers codecs reopened
              ≡ from 3 (live memory memory-IsLawful numbers codecs held))
            × (get_log_state memory numbers codecs reopened
                ≡ get_log_state memory numbers codecs purged)))
    × (live memory memory-IsLawful numbers codecs purged_again
        ≡ from 3 (live memory memory-IsLawful numbers codecs held))
    × (get_log_state memory numbers codecs purged_again
        ≡ get_log_state memory numbers codecs purged)
purge_interrupted_example =
    purge_interrupted memory-IsLawful numbers codecs number-IsFaithful 2 (omega arith) disk_files
      disk-IsDurable (text "data/spam") 1 (λ a. fresh) (λ dir. fresh) 1 held purged purged_again
      purge_done purge_done_again

-- Both entries are committed, and the first is purged.
abbrev agreed : Memory
agreed = (save_committed memory numbers codecs (some 2) held).1

agreed_saved : save_committed memory numbers codecs (some 2) held ≡ (ok tt, agreed)
unfolding save_committed Instances.write
agreed_saved = refl

abbrev shortened : Memory
shortened = (purge memory numbers codecs 1 agreed).1

first_purged : purge memory numbers codecs 1 agreed ≡ (ok tt, shortened)
unfolding purge Instances.write
first_purged = refl

second_left :
    last_entry_id memory numbers codecs (memory.last_index region_id shortened) shortened
    ≡ ok (some 2)
unfolding last_entry_id purge save_committed append save_vote Instances.write nat_eq dec_all
second_left = refl

restart_validates_example :
    let cells : Cells Memory = λ a. fresh in
    let (result, cells', d') =
      open_store disk_files
        (text "data/spam")
        1
        cells
        (leave (text "data/spam") shortened (λ dir. fresh)) in
    (result ≡ ok (record { engine = 1 }))
    × (read_committed memory numbers codecs (cells' 1) ≡ ok (some 2))
    × (get_log_state memory numbers codecs (cells' 1)
        ≡ ok (record { last_purged_log_id = some 1; last_log_id = some 2 }))
unfolding or_else
restart_validates_example =
    restart_validates memory-IsLawful disk_files disk-IsDurable numbers codecs number-IsFaithful
      committed-IsFaithful (text "data/spam") 1 (λ a. fresh) (λ dir. fresh) 2 1 (some 2) held agreed
      shortened agreed_saved first_purged (omega arith) second_left
