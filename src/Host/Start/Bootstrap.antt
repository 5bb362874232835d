-- ===== src/Host/Start/Bootstrap.antt =====
-- src/Blun.Mq.Host/src/main.rs: which node initializes the groups.
use blun_mq.Base.{
  ℕ, ◌≤◌, ◌≡◌, ◌↔◌, refl, ap, true, [], ◌∷◌, Option, none, some, Text, nat_eq, ==-refl, eq_of_==,
  ok, arith,
}
use blun_mq.Base.BTreeMap.{BTreeMap, IsSorted, get, first_key}
use blun_mq.Base.BTreeMap.Laws.{first_key-le}
use blun_mq.Host.Start.{bootstraps}

-- The node has an entry, and no entry has a lower id.
pub record IsLowest (id : ℕ) (peers : BTreeMap Text) : Type 0 where
  pub entry : (addr : Text) × (get id peers ≡ some addr)
  pub lowest : (j : ℕ) (addr : Text) → get j peers ≡ some addr → id ≤ j

first_key-some :
    (peers : BTreeMap Text) (id : ℕ) (addr : Text)
    → get id peers ≡ some addr
    → (k : ℕ) × (first_key peers ≡ some k)
unfolding first_key get
first_key-some [] id addr h = cc
first_key-some ((k, a) ∷ peers) id addr h = (k, refl)

first_key-entry :
    (peers : BTreeMap Text) (k : ℕ)
    → first_key peers ≡ some k
    → (addr : Text) × (get k peers ≡ some addr)
unfolding first_key get
first_key-entry [] k h = cc
first_key-entry ((j, a) ∷ peers) k h = let same : j ≡ k = cc in (a, rw same (rw (==-refl k)))

first_key-IsLowest :
    (peers : BTreeMap Text) (k : ℕ) → IsSorted peers → first_key peers ≡ some k → IsLowest k peers
first_key-IsLowest peers k sorted first = record {
  entry = first_key-entry peers k first;
  lowest = λ j addr h. first_key-le peers k j addr sorted first h;
}

IsLowest-unique : (peers : BTreeMap Text) (a b : ℕ) → IsLowest a peers → IsLowest b peers → a ≡ b
IsLowest-unique peers a b la lb =
    let (x, hx) = la.entry in
    let (y, hy) = lb.entry in omega (arith, la.lowest b y hy, lb.lowest a x hx)

bootstraps_sound :
    (peers : BTreeMap Text) (id : ℕ) (first : Option ℕ)
    → IsSorted peers
    → first_key peers ≡ first
    → bootstraps id peers ≡ ok true
    → IsLowest id peers
unfolding bootstraps
bootstraps_sound peers id none sorted e h = let panics = rw (bootstraps, e) at h in cc
bootstraps_sound peers id (some k) sorted e h =
    let equal = rw (bootstraps, e) at h in
    let same = eq_of_== id k cc in rw same (first_key-IsLowest peers k sorted e)

bootstraps_complete :
    (peers : BTreeMap Text) (id : ℕ)
    → IsSorted peers
    → IsLowest id peers
    → bootstraps id peers ≡ ok true
unfolding bootstraps
bootstraps_complete peers id sorted l =
    let (addr, h) = l.entry in
    let (k, first) = first_key-some peers id addr h in
    let same = IsLowest-unique peers k id (first_key-IsLowest peers k sorted first) l in
    rw (bootstraps, first, same) (ap ok (==-refl id))

-- Of peers in the order of their ids, as a BTreeMap has them, the node with the lowest id
-- initializes the groups, and no other node does.
pub bootstraps-IsLowest :
    (peers : BTreeMap Text) (id : ℕ)
    → IsSorted peers
    → (bootstraps id peers ≡ ok true) ↔ IsLowest id peers
bootstraps-IsLowest peers id sorted =
    (bootstraps_sound peers id (first_key peers) sorted refl, bootstraps_complete peers id sorted)
