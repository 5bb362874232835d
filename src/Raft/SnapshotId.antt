-- ===== src/Raft/SnapshotId.antt =====
-- `uuid_like_id` of src/Blun.Mq.Raft/src/state_machine.rs and node_state_machine.rs: the clock's
-- nanoseconds since the epoch, printed by `{:x}`.
use blun_mq.Base.{
  ℕ, zero, suc, ◌+◌, ◌-◌, ◌*◌, ◌/◌, ◌%◌, ◌<◌, ◌≡◌, refl, sym, ◌∙◌, ap, [], ◌∷◌, Text, ltb, nat_eq,
  ◌==◌, if◌then◌else◌, arith, inl, inr, Bool-cases, text, eq_of_==, ne_of_==, ◌≢◌,
}

-- '0' to '9', then 'a' to 'f'
digit : ℕ → ℕ
digit d = if ltb d 10 then d + 48 else d + 87

-- The digits of `n` in front of `acc`, the last one first.
hex_digits : ℕ → ℕ → Text → Text
unfolding digit
hex_digits zero n acc = acc
hex_digits (suc fuel) n acc =
    let acc' = digit (n % 16) ∷ acc in
    let rest = hex_digits fuel (n / 16) acc' in if n / 16 == 0 then acc' else rest

unfoldable pub uuid_like_id : ℕ → Text
unfolding hex_digits
uuid_like_id now = hex_digits (suc now) now []

undigit : ℕ → ℕ
undigit c = if ltb c 58 then c - 48 else c - 87

-- Reads the digits after a prefix of value `a`.
read_hex : ℕ → Text → ℕ
unfolding undigit
read_hex a [] = a
read_hex a (c ∷ cs) = read_hex (a * 16 + undigit c) cs

undigit-digit : (d : ℕ) → d < 16 → undigit (digit d) ≡ d
unfolding undigit digit
undigit-digit d h = ground arith

read_hex-hex_digits :
    (fuel n : ℕ) (acc : Text) → n < fuel → read_hex 0 (hex_digits fuel n acc) ≡ read_hex n acc
unfolding read_hex hex_digits
read_hex-hex_digits zero n acc h = elim h [ ]
read_hex-hex_digits (suc fuel) n acc h =
    let d : undigit (digit (n % 16)) ≡ n % 16 = undigit-digit (n % 16) (omega arith) in
    elim (Bool-cases (n / 16 == 0)) [
      | inl last ↦
          let e : n / 16 ≡ 0 = eq_of_== (n / 16) 0 last in
          rw last (ap (λ a. read_hex a acc) (omega (arith, d, e)))
      | inr more ↦
          let e : n / 16 ≢ 0 = ne_of_== (n / 16) 0 more in
          rw more (
            read_hex-hex_digits fuel (n / 16) (digit (n % 16) ∷ acc) (omega (arith, e))
            ∙ ap (λ a. read_hex a acc) (omega (arith, d)))
    ]

-- Snapshots built at different nanoseconds have different ids.
pub uuid_like_id-injective : (m n : ℕ) → uuid_like_id m ≡ uuid_like_id n → m ≡ n
unfolding uuid_like_id read_hex
uuid_like_id-injective m n h =
    sym (read_hex-hex_digits (suc m) m [] (omega arith))
    ∙ ap (read_hex 0) h
    ∙ read_hex-hex_digits (suc n) n [] (omega arith)

uuid_like_id_test : uuid_like_id 0x1a2f ≡ text "1a2f"
unfolding uuid_like_id nat_eq
uuid_like_id_test = refl
