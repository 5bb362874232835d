-- ===== src/Raft/Store.antt =====
-- `StateMachineStore` of src/Blun.Mq.Raft/src/state_machine.rs, over any state machine:
-- `NodeStateMachineStore` has the same code over another one.
pub mod Log
pub mod Laws
pub mod CatchUp
pub mod Replica
pub mod Current
pub mod Group
use blun_mq.Base.{ℕ, List, [], ◌∷◌, Option, none, some, Bytes, Outcome, ok, expect, ◌>>=◌}
use mathlib.Core.Option
use blun_mq.Base.Cells.{Arc, Cells, write}
use blun_mq.Raft.Openraft.{
  Openraft, Entry, EntryPayload, blank, normal, membership, SnapshotMeta, Snapshot,
}
use blun_mq.Raft.Serde.{Serde}
use blun_mq.Raft.SnapshotId.{uuid_like_id}

-- What the two stores differ in: the replicated state, how a request changes it, and what of it
-- goes into a snapshot.
pub record Machine : Type 1 where
  pub State : Type 0
  pub Request : Type 0
  pub Response : Type 0
  pub Payload : Type 0
  pub default_response : Response
  pub apply : State → Request → State × Response
  pub dump : State → Payload
  pub load : Payload → State → State

module _ (o : Openraft) where
  pub record StoredSnapshot : Type 0 where
    pub meta : SnapshotMeta o
    pub bytes : Bytes

  pub record Store : Type 0 where
    pub state : Arc
    pub last_applied : Option o.LogId
    pub last_membership : o.StoredMembership
    pub snapshot : Option StoredSnapshot

  unfoldable pub new : Arc → Store
  new state = record {
    state = state;
    last_applied = none;
    last_membership = o.stored_default;
    snapshot = none;
  }

-- The effect of one entry: its response, the cells and the store.
module _ (o : Openraft) (m : Machine) where
  abbrev Applied : Type 0
  Applied = m.Response × Cells m.State × Store o

  -- `self.state.lock().unwrap().apply(req)`
  apply_request : Cells m.State → Store o → m.Request → Applied
  apply_request cells st req =
      let (s, response) = m.apply (cells st.state) req in (response, write st.state s cells, st)

  apply_payload : Cells m.State → Store o → o.LogId → EntryPayload o m.Request → Applied
  unfolding apply_request
  apply_payload cells st log_id blank = (m.default_response, cells, st)
  apply_payload cells st log_id (normal req) = apply_request cells st req
  apply_payload cells st log_id (membership mem) =
      (m.default_response, cells, record st { last_membership = o.stored_new (some log_id) mem })

  apply_entry : Cells m.State → Store o → Entry o m.Request → Applied
  unfolding apply_payload
  apply_entry cells st entry =
      apply_payload cells (record st { last_applied = some entry.log_id }) entry.log_id
        entry.payload

  -- The responses, one for each entry, with the cells and the store after the last.
  unfoldable pub apply :
      Cells m.State → Store o → List (Entry o m.Request) → List m.Response × Cells m.State × Store o
  unfolding apply_entry
  apply cells st [] = ([], cells, st)
  apply cells st (entry ∷ entries) =
      let (response, cells', st') = apply_entry cells st entry in
      let (responses, cells'', st'') = apply cells' st' entries in
      (response ∷ responses, cells'', st'')

module _ (o : Openraft) where
  unfoldable pub applied_state : Store o → Option o.LogId × o.StoredMembership
  applied_state st = (st.last_applied, st.last_membership)

  -- A builder is a store of its own over the same mutex.
  unfoldable pub get_snapshot_builder : Store o → Store o
  get_snapshot_builder st = record {
    state = st.state;
    last_applied = st.last_applied;
    last_membership = st.last_membership;
    snapshot = none;
  }

  unfoldable pub begin_receiving_snapshot : Store o → Bytes
  begin_receiving_snapshot st = []

  unfoldable pub get_current_snapshot : Store o → Option (Snapshot o)
  get_current_snapshot st =
      Option.map (λ s. record { meta = s.meta; snapshot = s.bytes }) st.snapshot

module _ {E : Type 0} (o : Openraft) (m : Machine) (json : Serde E m.Payload) where
  -- At the time `now`. The state is only read; the built snapshot stays with the store that built it.
  unfoldable pub build_snapshot : ℕ → Cells m.State → Store o → Outcome E (Snapshot o × Store o)
  build_snapshot now cells st = do
    bytes ← expect (json.to_vec (m.dump (cells st.state)))
    let meta : SnapshotMeta o = record {
      last_log_id = st.last_applied;
      last_membership = st.last_membership;
      snapshot_id = uuid_like_id now;
    }
    ok (
      record { meta = meta; snapshot = bytes },
      record st { snapshot = some (record { meta = meta; bytes = bytes }) },
    )

  unfoldable pub install_snapshot :
      Cells m.State → Store o → SnapshotMeta o → Bytes → Outcome E (Cells m.State × Store o)
  install_snapshot cells st meta bytes = do
    payload ← expect (json.from_slice bytes)
    ok (
      write st.state (m.load payload (cells st.state)) cells,
      record st {
        last_applied = meta.last_log_id;
        last_membership = meta.last_membership;
        snapshot = some (record { meta = meta; bytes = bytes });
      },
    )
