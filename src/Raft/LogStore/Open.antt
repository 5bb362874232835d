-- ===== src/Raft/LogStore/Open.antt =====
-- src/Blun.Mq.Raft/src/raft_engine_log_store.rs: the handle on a log store and its opening.
pub mod Restart
pub mod Forgets
pub mod Interrupted
pub mod Validates
use blun_mq.Base.{Text, Outcome, ok, err, panic}
use blun_mq.Base.Cells.{Arc, Cells, write}
use blun_mq.Raft.Engine.{Engine}

-- The file system, and raft-engine's opening of a directory with the default configuration.
pub record Files (e : Engine) (Disk : Type 0) : Type 1 where
  pub IoError : Type 0
  pub Config : Type 0
  -- `Config { dir, ..Default::default() }`
  pub config : Text → Config
  pub create_dir_all : Text → Disk → Outcome IoError (Unit {0}) × Disk
  pub open_engine : Config → Disk → Outcome e.Error e.State × Disk

-- The engines stand behind addresses, so that clones of a store share theirs.
pub record RaftEngineLogStore : Type 0 where
  pub engine : Arc

unfoldable pub clone : RaftEngineLogStore → RaftEngineLogStore
clone store = record { engine = store.engine }

unfoldable pub get_log_reader : RaftEngineLogStore → RaftEngineLogStore
unfolding clone
get_log_reader store = clone store

-- An `anyhow::Error` out of either step.
pub data OpenError (I X : Type 0) : Type 0 where
  io : I → OpenError I X
  engine : X → OpenError I X

-- An operation of the store on what is behind its handle.
unfoldable pub through : {S A : Type 0} → RaftEngineLogStore → (S → A × S) → Cells S → A × Cells S
through store operation cells =
    let (a, s) = operation (cells store.engine) in (a, write store.engine s cells)

module _ {e : Engine} where
  module _ {Disk : Type 0} (f : Files e Disk) where
    abbrev pub Opened : Type 0
    Opened = Outcome (OpenError f.IoError e.Error) RaftEngineLogStore × Cells e.State × Disk

    -- `Arc::new(engine)` gives the address.
    pub shared : Arc → Outcome e.Error e.State × Disk → Cells e.State → Opened
    shared address (ok s, d) cells = (ok (record { engine = address }), write address s cells, d)
    shared address (err x, d) cells = (err (engine x), cells, d)
    shared address (panic, d) cells = (panic, cells, d)

    pub created : Text → Arc → Outcome f.IoError (Unit {0}) × Disk → Cells e.State → Opened
    unfolding shared
    created dir address (ok u, d) cells = shared address (f.open_engine (f.config dir) d) cells
    created dir address (err x, d) cells = (err (io x), cells, d)
    created dir address (panic, d) cells = (panic, cells, d)

    -- The directory is created before the engine opens it.
    unfoldable pub open_store : Text → Arc → Cells e.State → Disk → Opened
    unfolding created
    open_store dir address cells d = created dir address (f.create_dir_all dir d) cells
