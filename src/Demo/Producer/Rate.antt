-- ===== src/Demo/Producer/Rate.antt =====
-- src/demo/producer/src/main.rs: how often the producer's ticker fires.
use native.Mathlib.Nat.{div-add-mod', mod-lt}
use blun_mq.Base.{
  ap, Bool-cases, eq_of_==, ℕ, ◌+◌, ◌*◌, ◌/◌, ◌<◌, ◌≤◌, ◌≡◌, ◌⊎◌, inl, inr, ok, panic, arith,
  nat_eq, ◌==◌,
}
use blun_mq.Demo.Producer.{per_second, period}

abbrev pub second : ℕ
second = 1_000_000_000

per_second-positive : (rate : ℕ) → 0 < per_second rate
unfolding per_second
per_second-positive rate = ground arith

per_second-above : (rate : ℕ) → second < per_second rate → second < rate
unfolding per_second
per_second-above rate h = ground arith

-- The period of a rate is the largest number of nanoseconds at which that many ticks fit into a
-- second, where a rate of 0 is taken as 1; a rate above 1,000,000,000 panics.
pub period-rate :
    (rate : ℕ)
    → ((nanos : ℕ) × (period rate ≡ ok nanos)
        × (nanos * per_second rate ≤ second)
        × (second < (nanos + 1) * per_second rate))
      ⊎ ((second < rate) × (period rate ≡ panic))
unfolding period
period-rate rate =
    let d = per_second rate in
    let nanos = second / d in
    let divides = div-add-mod' second d in
    let rest = mod-lt second (per_second-positive rate) in
    elim (Bool-cases (nanos == 0)) [
      | inl e ↦
          let none_fit : nanos ≡ 0 = eq_of_== nanos 0 e in
          inr (per_second-above rate (omega (arith, divides, rest, ap (λ q. q * d) none_fit)), rw e)
      | inr e ↦ inl (nanos, rw e, omega (arith, divides), omega (arith, divides, rest))
    ]
