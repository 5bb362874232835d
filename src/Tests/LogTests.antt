-- ===== src/Tests/LogTests.antt =====
-- The log store on the engine in memory.
use blun_mq.Base.{
  ℕ, ◌+◌, ◌≡◌, ◌≢◌, ◌↔◌, ◌⊎◌, refl, List, [], ◌∷◌, length, none, some, true, nat_eq, text_eq, ok,
  arith,
}
use blun_mq.Raft.Openraft.{Entry, normal, blank}
use blun_mq.Raft.Engine.{Blob, below, from, splice}
use blun_mq.Raft.LogStore.{
  included, excluded, collect_all, encode_entry, try_get_log_entries, get_log_state, save_vote,
  save_committed, read_vote, read_committed, append, truncate, purge,
}
use blun_mq.Raft.LogStore.Append.{
  flushed, append-callback, try_get_log_entries-append, append-truncate,
}
use blun_mq.Raft.LogStore.LastId.{get_log_state-append}
use blun_mq.Raft.LogStore.Purge.{purge_lem}
use blun_mq.Raft.LogStore.Reads.{live}
use blun_mq.Tests.Codec.{dec_all}
use blun_mq.Tests.Instances.{
  numbers, Memory, memory, memory-IsLawful, write, codecs, number-IsFaithful, entry-IsFaithful,
}

abbrev fresh : Memory
fresh = record { messages = λ r k. none; entries = λ r. [] }

abbrev old : List (Entry numbers ℕ)
old =
    record { log_id = 1; payload = blank }
    ∷ record { log_id = 2; payload = normal 20 }
    ∷ record { log_id = 3; payload = normal 30 }
    ∷ []

-- A new leader's entries replace those from 2 on.
abbrev newer : List (Entry numbers ℕ)
newer = record { log_id = 2; payload = normal 21 } ∷ record { log_id = 3; payload = blank } ∷ []

abbrev held : Memory
held = (append memory numbers codecs old fresh).1

first_append : append memory numbers codecs old fresh ≡ (flushed memory numbers codecs, held)
unfolding append write nat_eq
first_append = refl

abbrev replaced : Memory
replaced = (append memory numbers codecs newer held).1

second_append : append memory numbers codecs newer held ≡ (flushed memory numbers codecs, replaced)
unfolding append write nat_eq
second_append = refl

live_test :
    try_get_log_entries memory numbers codecs (included 1) (included 3) replaced
    ≡ ok (record { log_id = 1; payload = blank } ∷ newer)
unfolding append write try_get_log_entries nat_eq dec_all
live_test = refl

try_get_log_entries-append_example :
    try_get_log_entries memory numbers codecs (included 2) (excluded (2 + length newer)) replaced
    ≡ ok newer
try_get_log_entries-append_example =
    try_get_log_entries-append memory memory-IsLawful numbers codecs entry-IsFaithful 2 newer held
      replaced (omega arith) second_append

held_state :
    get_log_state memory numbers codecs held
    ≡ ok (record { last_purged_log_id = none; last_log_id = some 3 })
unfolding get_log_state append write nat_eq dec_all
held_state = refl

-- One entry of the new leader, with which the log ends.
abbrev shorter : List (Entry numbers ℕ)
shorter = record { log_id = 2; payload = blank } ∷ []

abbrev cut : Memory
cut = (append memory numbers codecs shorter held).1

shorter-append : append memory numbers codecs shorter held ≡ (flushed memory numbers codecs, cut)
unfolding append write nat_eq
shorter-append = refl

get_log_state-append_example :
    get_log_state memory numbers codecs cut
    ≡ ok (record { last_purged_log_id = none; last_log_id = some 2 })
get_log_state-append_example =
    get_log_state-append memory memory-IsLawful numbers codecs entry-IsFaithful 2 shorter
      (record { log_id = 2; payload = blank }) held cut
      (record { last_purged_log_id = none; last_log_id = some 3 }) (omega arith) refl shorter-append
      held_state

append-callback_example :
    (((append memory numbers codecs newer held).0.callback ≡ some true)
      ↔ ((append memory numbers codecs newer held).0.result ≡ ok tt))
    × (((append memory numbers codecs newer held).0.callback ≢ none) ⊎ (replaced ≡ held))
append-callback_example = append-callback memory numbers codecs newer held

truncated : truncate memory numbers codecs 2 held ≡ (ok tt, held)
unfolding truncate
truncated = refl

append-truncate_example :
    (held ≡ held)
    × ((blobs : List Blob) × (collect_all (encode_entry memory numbers codecs) newer ≡ ok blobs)
        × (live memory memory-IsLawful numbers codecs replaced
            ≡ splice (below 2 (live memory memory-IsLawful numbers codecs held)) blobs))
append-truncate_example =
    append-truncate memory memory-IsLawful numbers codecs entry-IsFaithful 2 2
      (record { log_id = 2; payload = normal 21 }) (record { log_id = 3; payload = blank } ∷ [])
      held held replaced truncated (omega arith) (omega arith) second_append

abbrev voted : Memory
voted = (save_vote memory numbers codecs 6 held).1

vote_saved : save_vote memory numbers codecs 6 held ≡ (ok tt, voted)
unfolding save_vote write
vote_saved = refl

abbrev committed : Memory
committed = (save_committed memory numbers codecs none voted).1

committed_saved : save_committed memory numbers codecs none voted ≡ (ok tt, committed)
unfolding save_committed write
committed_saved = refl

abbrev purged : Memory
purged = (purge memory numbers codecs 3 voted).1

purge_done : purge memory numbers codecs 3 voted ≡ (ok tt, purged)
unfolding purge write
purge_done = refl

purge_lem_example :
    (live memory memory-IsLawful numbers codecs purged
      ≡ from (3 + 1) (live memory memory-IsLawful numbers codecs voted))
    × (read_vote memory numbers codecs purged ≡ read_vote memory numbers codecs voted)
    × (read_committed memory numbers codecs purged ≡ read_committed memory numbers codecs voted)
purge_lem_example =
    purge_lem memory memory-IsLawful numbers codecs number-IsFaithful 3 voted purged purge_done
      (omega arith)
