-- ===== src/Tests/DirectoryTests.antt =====
-- A group of the directory's stores.
use blun_mq.Base.{ℕ, ◌≡◌, refl, List, [], ◌∷◌, ◌++◌, none, Text, text, nat_eq}
use blun_mq.Base.BTreeMap.{BTreeMap, get}
use blun_mq.Raft.Openraft.{Entry, normal}
use blun_mq.Raft.Serde.{Serde, IsFaithful}
use blun_mq.Raft.Types.{NodeCommand, upsert_node}
use blun_mq.Raft.Nodes.{empty, node_machine}
use blun_mq.Raft.Nodes.Laws.{IsValid, last_address}
use blun_mq.Raft.Nodes.Group.{group_registers}
use blun_mq.Raft.Store.{new}
use blun_mq.Raft.Store.Log.{last_id, requests}
use blun_mq.Raft.Store.Group.{
  Node, Group, started, applying, put, fresh, Step, commits, applies, restarts, Steps, done, next,
}
use blun_mq.Tests.Codec.{Code, number, pair, list, serde, serde-IsFaithful}
use blun_mq.Tests.Instances.{numbers}

abbrev map_code : Code (BTreeMap Text)
map_code = list (pair number (list number))

abbrev map_json : Serde (Unit {0}) (BTreeMap Text)
map_json = serde map_code

map_json-IsFaithful : IsFaithful (λ (a b : BTreeMap Text). a ≡ b) map_json
map_json-IsFaithful = serde-IsFaithful map_code (λ a b. a ≡ b) (λ a. refl)

-- Node 1 registers, and registers again with another address.
abbrev entries : List (Entry numbers NodeCommand)
entries =
    record { log_id = 0; payload = normal (upsert_node 1 (text "x")) }
    ∷ record { log_id = 1; payload = normal (upsert_node 1 (text "y")) }
    ∷ []

abbrev G : Type 0
G = Group numbers node_machine map_json empty

abbrev begun : Node numbers node_machine map_json empty
begun = started numbers node_machine map_json empty 1

abbrev origin : G
origin = fresh numbers node_machine map_json empty (λ i. 1)

abbrev committed : G
committed = record { log = entries; nodes = origin.nodes; snapshots = [] }

abbrev put_node : ℕ → Node numbers node_machine map_json empty → G → G
put_node i node g = record g { nodes = put numbers node_machine map_json empty i node g.nodes }

abbrev led : G
led = put_node 1 (applying numbers node_machine map_json empty begun entries) committed

abbrev final : G
final = put_node 2 begun led

node_1_applies : Step numbers node_machine map_json empty committed led
unfolding started new nat_eq last_id
node_1_applies = applies committed 1 [] entries [] refl refl

abbrev steps : Steps numbers node_machine map_json empty origin final
steps =
    next (commits origin entries (refl, (refl, tt)))
      (next node_1_applies (next (restarts led 2 1) (done final)))

group_registers_example :
    (before : List (Entry numbers NodeCommand)) × (after : List (Entry numbers NodeCommand))
    × (entries ≡ before ++ after)
    × ((final.nodes 1).store.last_applied ≡ last_id numbers none before)
    × IsValid ((final.nodes 1).cells (final.nodes 1).store.state)
    × ((id : ℕ)
        → get id ((final.nodes 1).cells (final.nodes 1).store.state).nodes
          ≡ last_address id none (requests numbers before))
group_registers_example = group_registers numbers map_json map_json-IsFaithful (λ i. 1) steps 1
