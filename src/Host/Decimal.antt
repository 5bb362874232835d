-- ===== src/Host/Decimal.antt =====
-- The decimal notation of a number, as std's `{}` prints it.
use blun_mq.Base.{
  ℕ, zero, suc, ◌+◌, ◌/◌, ◌%◌, ◌<◌, ◌≡◌, ◌≢◌, ◌∙◌, refl, ap, inl, inr, Bool-cases, List, [], ◌∷◌,
  map, Text, nat_eq, ◌==◌, eq_of_==, ne_of_==, if◌then◌else◌, ok, arith,
}
use blun_mq.Raft.Types.{u64_mod}
use blun_mq.Host.Peers.{parse_u64}
use blun_mq.Host.Peers.Numbers.{AreDigits, value, parse_u64-digits}

-- The digits of `n` in front of `acc`, the last one first.
abbrev pub digit_list : ℕ → ℕ → List ℕ → List ℕ
digit_list zero n acc = acc
digit_list (suc fuel) n acc =
    let rest = digit_list fuel (n / 10) (n % 10 ∷ acc) in if n / 10 == 0 then n % 10 ∷ acc else rest

unfoldable pub decimal : ℕ → Text
decimal n = map (λ d. 48 + d) (digit_list (suc n) n [])

value-digit_list :
    (fuel n : ℕ) (acc : List ℕ) → n < fuel → value 0 (digit_list fuel n acc) ≡ value n acc
value-digit_list zero n acc h = elim h [ ]
value-digit_list (suc fuel) n acc h = elim (Bool-cases (n / 10 == 0)) [
  | inl last ↦
      let e : n / 10 ≡ 0 = eq_of_== (n / 10) 0 last in
      rw last (ap (λ a. value a acc) (omega (arith, e)))
  | inr more ↦
      let e : n / 10 ≢ 0 = ne_of_== (n / 10) 0 more in
      rw more (
        value-digit_list fuel (n / 10) (n % 10 ∷ acc) (omega (arith, e))
        ∙ ap (λ a. value a acc) (omega arith))
]

digit_list-AreDigits :
    (fuel n : ℕ) (acc : List ℕ) → AreDigits acc → AreDigits (digit_list fuel n acc)
digit_list-AreDigits zero n acc h = h
digit_list-AreDigits (suc fuel) n acc h = elim (Bool-cases (n / 10 == 0)) [
  | inl last ↦ rw last (omega arith, h)
  | inr more ↦ rw more (digit_list-AreDigits fuel (n / 10) (n % 10 ∷ acc) (omega arith, h))
]

digit_list-cons :
    (fuel n d : ℕ) (acc : List ℕ) → (e : ℕ) × (ds : List ℕ) × (digit_list fuel n (d ∷ acc) ≡ e ∷ ds)
digit_list-cons zero n d acc = (d, acc, refl)
digit_list-cons (suc fuel) n d acc = elim (Bool-cases (n / 10 == 0)) [
  | inl last ↦ (n % 10, d ∷ acc, rw last)
  | inr more ↦ rw more (digit_list-cons fuel (n / 10) (n % 10) (d ∷ acc))
]

-- The first digit and the others.
pub digits_of :
    (n : ℕ)
    → (d : ℕ) × (ds : List ℕ) × (digit_list (suc n) n [] ≡ d ∷ ds)
      × AreDigits (d ∷ ds)
      × (value 0 (d ∷ ds) ≡ n)
digits_of n = elim (Bool-cases (n / 10 == 0)) [
  | inl last ↦
      let e : n / 10 ≡ 0 = eq_of_== (n / 10) 0 last in
      (n % 10, [], rw last, (omega arith, tt), omega (arith, e))
  | inr more ↦
      let (d, ds, same) = digit_list-cons n (n / 10) (n % 10) [] in
      let same : digit_list (suc n) n [] ≡ d ∷ ds = rw more same in
      (
        d,
        ds,
        same,
        rw same at (digit_list-AreDigits (suc n) n [] tt),
        rw same at (value-digit_list (suc n) n [] (omega arith)),
      )
]

-- What is printed is read as the same number.
parse_u64-decimal : (n : ℕ) → n < u64_mod → parse_u64 (decimal n) ≡ ok n
unfolding decimal
parse_u64-decimal n h =
    let (d, ds, same, are, val) = digits_of n in
    rw (same, parse_u64-digits d ds are, val) (ground arith)
