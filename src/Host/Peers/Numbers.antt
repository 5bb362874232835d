-- ===== src/Host/Peers/Numbers.antt =====
-- src/Blun.Mq.Host/src/main.rs, `parse_peers`: the decimal notation of an id.
use blun_mq.Base.{
  ℕ, ◌+◌, ◌*◌, ◌<◌, ◌⊎◌, inl, inr, ◌≤◌, ◌∙◌, ◌≡◌, refl, false, List, [], ◌∷◌, Text, map, nat_eq,
  ◌==◌, ltb, if◌then◌else◌, Outcome, ok, err, arith,
}
use blun_mq.Host.Peers.{
  ParseIntError, pos_overflow, is_whitespace, push_digit, parse_digits, parse_u64, plus, trim_end,
}
use blun_mq.Host.Peers.Spaces.{Lacks, IsTrimmed}
use blun_mq.Raft.Types.{u64_mod}

-- Digits, the most significant first.
abbrev pub AreDigits : List ℕ → Type 0
AreDigits [] = Unit
AreDigits (d ∷ ds) = (d < 10) × AreDigits ds

abbrev pub value : ℕ → List ℕ → ℕ
value n [] = n
value n (d ∷ ds) = value (n * 10 + d) ds

-- The digits as characters.
abbrev pub digits : List ℕ → Text
digits = map (λ d. 48 + d)

value-le : (n : ℕ) (ds : List ℕ) → n ≤ value n ds
value-le n [] = omega arith
value-le n (d ∷ ds) = omega (arith, value-le (n * 10 + d) ds)

pub digit-bare : (d : ℕ) → d < 10 → is_whitespace (48 + d) ≡ false
digit-bare d h = ground arith

digit_ne : (c d : ℕ) → (c ≤ 47) ⊎ (58 ≤ c) → d < 10 → (48 + d) == c ≡ false
unfolding nat_eq
digit_ne c d away h = ground arith

below-cases : (n : ℕ) → (n < u64_mod) ⊎ (u64_mod ≤ n)
below-cases n = omega arith

push_digit-digit :
    (n d : ℕ) → d < 10 → n * 10 + d < u64_mod → push_digit n (48 + d) ≡ ok (n * 10 + d)
push_digit-digit n d h small = ground arith

parse_digits-digits :
    (n : ℕ) (ds : List ℕ)
    → AreDigits ds
    → value n ds < u64_mod
    → parse_digits n (digits ds) ≡ ok (value n ds)
unfolding parse_digits
parse_digits-digits n [] h small = refl
parse_digits-digits n (d ∷ ds) (p, h) small =
    rw (push_digit-digit n d p (omega (arith, value-le (n * 10 + d) ds)))
      (parse_digits-digits (n * 10 + d) ds h small)

push_digit-over :
    (n d : ℕ) → d < 10 → u64_mod ≤ n * 10 + d → push_digit n (48 + d) ≡ err pos_overflow
push_digit-over n d h large = ground arith

parse_digits-over :
    (n : ℕ) (ds : List ℕ)
    → AreDigits ds
    → n < u64_mod
    → u64_mod ≤ value n ds
    → parse_digits n (digits ds) ≡ err pos_overflow
unfolding parse_digits
parse_digits-over n [] h small large = ground arith
parse_digits-over n (d ∷ ds) (p, h) small large = elim (below-cases (n * 10 + d)) [
  | inl lt ↦ rw (push_digit-digit n d p lt) (parse_digits-over (n * 10 + d) ds h lt large)
  | inr le ↦ rw (push_digit-over n d p le)
]

-- A `u64` is its digits' value, and larger ones overflow.
abbrev pub checked : ℕ → Outcome ParseIntError ℕ
checked n = if ltb n u64_mod then ok n else err pos_overflow

parse_digits-checked :
    (ds : List ℕ) → AreDigits ds → parse_digits 0 (digits ds) ≡ checked (value 0 ds)
parse_digits-checked ds h = elim (below-cases (value 0 ds)) [
  | inl lt ↦ parse_digits-digits 0 ds h lt ∙ ground arith
  | inr le ↦ parse_digits-over 0 ds h (omega arith) le ∙ ground arith
]

pub parse_u64-digits :
    (d : ℕ) (ds : List ℕ)
    → AreDigits (d ∷ ds)
    → parse_u64 (digits (d ∷ ds)) ≡ checked (value 0 (d ∷ ds))
unfolding parse_u64
parse_u64-digits d [] h = parse_digits-checked (d ∷ []) h
parse_u64-digits d (e ∷ ds) h =
    rw (digit_ne plus d (inl (omega arith)) h.0) (parse_digits-checked (d ∷ e ∷ ds) h)

pub digits-Lacks :
    (c : ℕ) → (c ≤ 47) ⊎ (58 ≤ c) → (ds : List ℕ) → AreDigits ds → Lacks c (digits ds)
digits-Lacks c away [] h = tt
digits-Lacks c away (d ∷ ds) (p, h) = (digit_ne c d away p, digits-Lacks c away ds h)

trim_end-digits : (ds : List ℕ) → AreDigits ds → trim_end (digits ds) ≡ digits ds
unfolding trim_end
trim_end-digits [] h = refl
trim_end-digits (d ∷ ds) (p, h) = rw (digit-bare d p, trim_end-digits ds h)

pub digits-IsTrimmed : (d : ℕ) (ds : List ℕ) → AreDigits (d ∷ ds) → IsTrimmed (digits (d ∷ ds))
digits-IsTrimmed d ds h = (digit-bare d h.0, trim_end-digits (d ∷ ds) h)
