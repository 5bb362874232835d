-- ===== src/Host/Start.antt =====
-- src/Blun.Mq.Host/src/main.rs after the environment is read: who initializes the Raft groups, and how
-- often a node tries. `W` is the state of the world, which also changes during a sleep.
pub mod Retries
pub mod Members
pub mod Bootstrap
use blun_mq.Base.{
  ℕ, zero, suc, Bool, true, false, List, [], ◌∷◌, map, Option, none, some, get_or, Text, nat_eq,
  ◌==◌, Outcome, ok, err, panic, ◌>>=◌,
}
use blun_mq.Base.BTreeMap.{BTreeMap, get, first_key, collect}
use blun_mq.Raft.Types.{NodeCommand, upsert_node}

-- How a loop of attempts ends.
pub data Ended : Type 0 where
  succeeded : Ended
  gave_up : Ended
  panicked : Ended

-- Attempts with a pause after each failure, as many as the number says.
module _ {W E A : Type 0} (attempt : W → Outcome E A × W) (sleep : ℕ → W → W) where
  unfoldable pub retry : ℕ → W → Ended × W
  retry zero w = (gave_up, w)
  retry (suc n) w =
      let (result, v) = attempt w in
      elim result [ ok a ↦ (succeeded, v) | err e ↦ retry n (sleep 500 v) | panic ↦ (panicked, v) ]

abbrev pub bootstrap_attempts : ℕ
bootstrap_attempts = 20

module _ {W E A : Type 0} (sleep : ℕ → W → W) where
  -- `openraft::BasicNode` holds an address.
  unfoldable pub bootstrap : (BTreeMap Text → W → Outcome E A × W) → BTreeMap Text → W → Ended × W
  unfolding retry collect
  bootstrap initialize peers =
      retry (initialize (collect (map (λ (id, addr). (id, addr)) peers))) sleep bootstrap_attempts

  -- A node's registration of itself, whose loop has no bound: `fuel` attempts of it.
  unfoldable pub register :
      (NodeCommand → W → Outcome E A × W) → BTreeMap Text → Text → ℕ → ℕ → W → Ended × W
  unfolding retry get
  register client_write peers grpc_addr node_num fuel =
      retry (client_write (upsert_node node_num (get_or (get node_num peers) grpc_addr))) sleep fuel

-- Whether this node initializes the groups. Without peers the start panics.
unfoldable pub bootstraps : ℕ → BTreeMap Text → Outcome Text Bool
unfolding first_key
bootstraps node_num peers = elim (first_key peers) [
  | none ↦ panic
  | some lowest_id ↦ ok (node_num == lowest_id)
]
