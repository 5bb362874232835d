-- ===== src/Raft/Nodes/Laws.antt =====
-- The node directory holds the last address that each node registered, whatever else was
-- registered in between.
use blun_mq.Base.{
  subst, ℕ, ◌≡◌, ◌≢◌, refl, ◌∙◌, ap, sym, List, [], ◌∷◌, map_accum, Option, some, Text, nat_eq,
  ◌==◌, if◌then◌else◌,
}
use blun_mq.Base.BTreeMap.{BTreeMap, get, IsSorted}
use blun_mq.Base.BTreeMap.Laws.{get-insert, insert-IsSorted, insert_comm, insert_idem}
use blun_mq.Raft.Types.{NodeCommand, upsert_node}
use blun_mq.Raft.Nodes.{NodeDirectory, apply, node_machine}
use blun_mq.Raft.Store.Laws.{IsLawful}

abbrev pub IsValid : NodeDirectory → Type 0
IsValid d = IsSorted d.nodes

pub apply-IsValid : (d : NodeDirectory) (c : NodeCommand) → IsValid d → IsValid (apply d c).0
unfolding apply
apply-IsValid d (upsert_node id addr) v = insert-IsSorted id addr d.nodes v

-- What the stores rely on holds of the directory, up to equality.
abbrev pub node_laws : IsLawful node_machine
node_laws = record {
  Valid = IsValid;
  Same = λ d e. d ≡ e;
  SamePayload = λ p q. p ≡ q;
  apply-Valid = apply-IsValid;
  apply-Same = λ d e c h. (ap (λ d. (apply d c).0) h, ap (λ d. (apply d c).1) h);
  load-dump = λ d e p v h. ap (λ n. let d : NodeDirectory = record { nodes = n } in d) h;
  load-Valid = λ d e p v h. subst (λ n. IsSorted n) h v;
}

-- The address that the last registration of a node in a log gives, or what stood before.
pub last_address : ℕ → Option Text → List NodeCommand → Option Text
last_address id old [] = old
last_address id old (upsert_node j addr ∷ cs) =
    last_address id (if j == id then some addr else old) cs

-- After any log of commands a node's address is that of its last registration, and the directory
-- is in ascending order of the node ids.
pub get-run :
    (id : ℕ) (d : NodeDirectory) (cs : List NodeCommand)
    → IsValid d
    → (get id (map_accum apply d cs).0.nodes ≡ last_address id (get id d.nodes) cs)
      × IsValid (map_accum apply d cs).0
unfolding apply map_accum last_address
get-run id d [] v = (refl, v)
get-run id d (upsert_node j addr ∷ cs) v =
    let (e, u) =
      get-run id (apply d (upsert_node j addr)).0 cs (apply-IsValid d (upsert_node j addr) v) in
    (e ∙ ap (λ o. last_address id o cs) (get-insert j id addr d.nodes), u)

-- Registrations of two nodes commute, and a repeated registration changes nothing.
pub apply_comm_idem :
    (d : NodeDirectory) (i j : ℕ) (a b : Text)
    → i ≢ j
    → IsValid d
    → ((apply (apply d (upsert_node i a)).0 (upsert_node j b)).0
        ≡ (apply (apply d (upsert_node j b)).0 (upsert_node i a)).0)
      × ((apply (apply d (upsert_node i a)).0 (upsert_node i a)).0 ≡ (apply d (upsert_node i a)).0)
unfolding apply
apply_comm_idem d i j a b ne v =
    let directory = λ (m : BTreeMap Text). let d : NodeDirectory = record { nodes = m } in d in
    (
      ap directory (insert_comm j i b a d.nodes (λ e. ne (sym e)) v),
      ap directory (insert_idem i a d.nodes v),
    )
