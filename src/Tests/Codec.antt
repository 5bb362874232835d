-- ===== src/Tests/Codec.antt =====
-- A small binary encoding that stands in for serde_json in the tests.
use blun_mq.Base.{
  ℕ, zero, suc, ◌≡◌, refl, sym, ◌∙◌, ap, List, [], ◌∷◌, ◌++◌, append_assoc, append-nil, length,
  Option, none, some, Bytes, Outcome, ok, err,
}
use blun_mq.Raft.Serde.{Serde, IsFaithful}

-- A decoder returns the value and the bytes after it.
pub record Code (A : Type 0) : Type 0 where
  pub enc : A → Bytes
  pub dec : Bytes → Option (A × Bytes)
  pub law : (a : A) (rest : Bytes) → dec (enc a ++ rest) ≡ some (a, rest)

abbrev dec_number : Bytes → Option (ℕ × Bytes)
dec_number [] = none
dec_number (n ∷ rest) = some (n, rest)

abbrev pub number : Code ℕ
number = record { enc = λ n. n ∷ []; dec = dec_number; law = λ n rest. refl }

module _ {A B : Type 0} (f : A → B) where
  abbrev with_value : Option (A × Bytes) → Option (B × Bytes)
  with_value none = none
  with_value (some (a, rest)) = some (f a, rest)

module _ {A B : Type 0} (a : Code A) (b : Code B) where
  abbrev then_second : Option (A × Bytes) → Option ((A × B) × Bytes)
  then_second none = none
  then_second (some (x, rest)) = with_value (λ y. let p : A × B = (x, y) in p) (b.dec rest)

  pub pair_law :
      (p : A × B) (rest : Bytes)
      → then_second (a.dec ((a.enc p.0 ++ b.enc p.1) ++ rest)) ≡ some (p, rest)
  pair_law p rest = rw append_assoc (rw (a.law p.0 (b.enc p.1 ++ rest)) (rw (b.law p.1 rest)))

  abbrev pub pair : Code (A × B)
  pair = record {
    enc = λ p. a.enc p.0 ++ b.enc p.1;
    dec = λ d. then_second (a.dec d);
    law = pair_law;
  }

module _ {A : Type 0} (a : Code A) where
  abbrev enc_all : List A → Bytes
  enc_all [] = []
  enc_all (x ∷ xs) = a.enc x ++ enc_all xs

  unfoldable pub dec_all : ℕ → Bytes → Option (List A × Bytes)
  dec_all zero d = some ([], d)
  dec_all (suc n) d = elim (a.dec d) [
    | none ↦ none
    | some (x, rest) ↦ with_value (λ xs. x ∷ xs) (dec_all n rest)
  ]

  pub all_law :
      (xs : List A) (rest : Bytes) → dec_all (length xs) (enc_all xs ++ rest) ≡ some (xs, rest)
  unfolding dec_all
  all_law [] rest = refl
  all_law (x ∷ xs) rest = rw append_assoc (rw (a.law x (enc_all xs ++ rest)) (rw (all_law xs rest)))

  abbrev dec_list : Bytes → Option (List A × Bytes)
  dec_list [] = none
  dec_list (n ∷ d) = dec_all n d

  abbrev pub list : Code (List A)
  list = record { enc = λ xs. length xs ∷ enc_all xs; dec = dec_list; law = all_law }

-- The same bytes for a type that a code reaches by a map and back.
module _ {A B : Type 0} (a : Code A) (to : A → B) (back : B → A)
    (same : (b : B) → to (back b) ≡ b) where
  pub iso_law :
      (b : B) (rest : Bytes) → with_value to (a.dec (a.enc (back b) ++ rest)) ≡ some (b, rest)
  iso_law b rest = rw (a.law (back b) rest) (rw same)

  abbrev pub iso : Code B
  iso = record { enc = λ b. a.enc (back b); dec = λ d. with_value to (a.dec d); law = iso_law }

module _ {A : Type 0} (c : Code A) where
  abbrev finish : Option (A × Bytes) → Outcome (Unit {0}) A
  finish none = err tt
  finish (some (a, rest)) = ok a

  abbrev pub serde : Serde (Unit {0}) A
  serde = record { to_vec = λ a. ok (c.enc a); from_slice = λ d. finish (c.dec d) }

  pub serde-IsFaithful : (Same : A → A → Type 0) → ((a : A) → Same a a) → IsFaithful Same serde
  serde-IsFaithful Same reflexive = record {
    decode = λ a d h.
        let encoded : c.enc a ≡ d = cc in
        let exact : c.dec (c.enc a) ≡ some (a, []) =
          ap c.dec (sym (append-nil (c.enc a))) ∙ c.law a [] in
        (a, rw (← encoded, exact), reflexive a);
  }
