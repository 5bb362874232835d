-- ===== src/Raft/Serde.antt =====
-- The crate serde_json at one type: encoding to bytes and decoding from them, each of which may
-- fail.
use blun_mq.Base.{Bytes, Outcome, ok, ◌≡◌}

pub record Serde (E A : Type 0) : Type 0 where
  pub to_vec : A → Outcome E Bytes
  pub from_slice : Bytes → Outcome E A

-- What was encoded is decoded to a value that is the same by `Same`.
pub record IsFaithful {E A : Type 0} (Same : A → A → Type 0) (json : Serde E A) : Type 0 where
  pub decode :
      (a : A) (d : Bytes) → json.to_vec a ≡ ok d → (b : A) × (json.from_slice d ≡ ok b) × Same a b

-- Every value is encoded, and decoded to itself.
pub record IsExact {E A : Type 0} (json : Serde E A) : Type 0 where
  pub exact : (a : A) → (d : Bytes) × (json.to_vec a ≡ ok d) × (json.from_slice d ≡ ok a)
