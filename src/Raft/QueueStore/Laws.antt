-- ===== src/Raft/QueueStore/Laws.antt =====
-- The queues answer alike whatever the order of their maps, and survive a snapshot.
use mathlib.Core.Option
use mathlib.Core.List.{map-id}
use blun_mq.Base.{◌≡◌, refl, sym, ◌∙◌, ap, List, map, Option, none, some, Text, text_eq}
use blun_mq.Base.HashMap.{NodupKeys, get, collect, map_values}
use blun_mq.Base.HashMap.Laws.{
  get-collect, collect-NodupKeys, get-map_values, get-collect-map_values, collect-map_values,
}
use blun_mq.Raft.Queue.{Message, QueueState}
use blun_mq.Raft.Queue.Same.{SameMap, SameState, apply-SameState}
use blun_mq.Raft.Queue.Depths.{apply-NodupKeys}
use blun_mq.Raft.Store.Laws.{IsLawful}
use blun_mq.Raft.QueueStore.{SnapshotPayload, copy_message, dump, load, queue_machine}

-- Two payloads are one pair of `HashMap`s.
pub record SamePayload (p q : SnapshotPayload) : Type 0 where
  pub queues : SameMap (collect p.queues) (collect q.queues)
  pub next_offset : SameMap p.next_offset q.next_offset

copied : (o : Option (List Message)) → Option.map (map copy_message) o ≡ o
copied none = refl
copied (some q) = ap some (map-id q)

loaded :
    (k : Text) (p : SnapshotPayload)
    → get k (collect (map_values (map copy_message) p.queues)) ≡ get k (collect p.queues)
loaded k p =
    ap (get k) (collect-map_values (map copy_message) p.queues)
    ∙ get-map_values (map copy_message) (collect p.queues) k
    ∙ copied (get k (collect p.queues))

-- A state that is loaded from a snapshot of a consistent state holds what that one holds.
pub load-dump :
    (s t : QueueState) (p : SnapshotPayload)
    → NodupKeys s.queues
    → SamePayload (dump s) p
    → SameState s (load p t)
unfolding dump load
load-dump s t p v h = record {
  queues = λ k.
      let pairs = map_values (map copy_message) s.queues in
      sym (
        loaded k p
        ∙ sym (h.queues k)
        ∙ get-collect (collect pairs) k (collect-NodupKeys pairs)
        ∙ get-collect-map_values (map copy_message) s.queues k v
        ∙ copied (get k s.queues));
  next_offset = h.next_offset;
}

pub load-NodupKeys :
    (s t : QueueState) (p : SnapshotPayload)
    → NodupKeys s.queues
    → SamePayload (dump s) p
    → NodupKeys (load p t).queues
unfolding load
load-NodupKeys s t p v h = collect-NodupKeys (map_values (map copy_message) p.queues)

-- What the stores rely on holds of the queues.
abbrev pub queue_laws : IsLawful queue_machine
queue_laws = record {
  Valid = λ s. NodupKeys s.queues;
  Same = SameState;
  SamePayload = SamePayload;
  apply-Valid = apply-NodupKeys;
  apply-Same = apply-SameState;
  load-dump = load-dump;
  load-Valid = load-NodupKeys;
}
