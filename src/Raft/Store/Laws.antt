-- ===== src/Raft/Store/Laws.antt =====
-- What the stores rely on in a state machine: it answers alike in states that are the same, and a
-- state that was loaded from its own dump is the same as before.
use blun_mq.Base.{◌≡◌, refl, ap₂, List, [], ◌∷◌, map_accum}
use blun_mq.Raft.Store.{Machine}

pub record IsLawful (m : Machine) : Type 1 where
  pub Valid : m.State → Type 0
  pub Same : m.State → m.State → Type 0
  pub SamePayload : m.Payload → m.Payload → Type 0
  pub apply-Valid : (s : m.State) (r : m.Request) → Valid s → Valid (m.apply s r).0
  pub apply-Same :
      (s t : m.State) (r : m.Request)
      → Same s t
      → Same (m.apply s r).0 (m.apply t r).0 × ((m.apply s r).1 ≡ (m.apply t r).1)
  pub load-dump :
      (s t : m.State) (p : m.Payload) → Valid s → SamePayload (m.dump s) p → Same s (m.load p t)
  pub load-Valid :
      (s t : m.State) (p : m.Payload) → Valid s → SamePayload (m.dump s) p → Valid (m.load p t)

module _ {m : Machine} (laws : IsLawful m) where
  pub run-Valid :
      (s : m.State) (rs : List m.Request) → laws.Valid s → laws.Valid (map_accum m.apply s rs).0
  unfolding map_accum
  run-Valid s [] v = v
  run-Valid s (r ∷ rs) v = run-Valid (m.apply s r).0 rs (laws.apply-Valid s r v)

  -- The same requests on states that are the same give the same responses and such states again.
  pub run-Same :
      (s t : m.State) (rs : List m.Request)
      → laws.Same s t
      → laws.Same (map_accum m.apply s rs).0 (map_accum m.apply t rs).0
        × ((map_accum m.apply s rs).1 ≡ (map_accum m.apply t rs).1)
  unfolding map_accum
  run-Same s t [] h = (h, refl)
  run-Same s t (r ∷ rs) h =
      let (same, x) = laws.apply-Same s t r h in
      let (same', xs) = run-Same (m.apply s r).0 (m.apply t r).0 rs same in (same', ap₂ ◌∷◌ x xs)
