-- ===== src/Host/Peers/Spaces.antt =====
-- src/Blun.Mq.Host/src/main.rs, `parse_peers`: texts with spaces around them, and their splitting.
use blun_mq.Base.{
  ℕ, ◌≡◌, refl, ap, ◌∙◌, inl, inr, true, false, [], ◌∷◌, ◌++◌, none, some, Text, nat_eq, ◌==◌,
  ==-refl, eq_of_==, Bool-cases,
}
use blun_mq.Host.Peers.{is_whitespace, is_empty, trim_start, trim_end, trim, split, split_once}

-- Only spaces.
abbrev pub IsBlank : Text → Type 0
IsBlank [] = Unit
IsBlank (c ∷ s) = (is_whitespace c ≡ true) × IsBlank s

abbrev pub StartsBare : Text → Type 0
StartsBare [] = Unit
StartsBare (c ∷ s) = is_whitespace c ≡ false

-- No space at either end.
abbrev pub IsTrimmed : Text → Type 0
IsTrimmed s = StartsBare s × (trim_end s ≡ s)

-- The character is not in the text.
abbrev pub Lacks : ℕ → Text → Type 0
Lacks c [] = Unit
Lacks c (x ∷ s) = (x == c ≡ false) × Lacks c s

pub Lacks-append : (c : ℕ) (s t : Text) → Lacks c s → Lacks c t → Lacks c (s ++ t)
Lacks-append c [] t h k = k
Lacks-append c (x ∷ s) t (p, h) k = (p, Lacks-append c s t h k)

not_same : (x c : ℕ) → is_whitespace x ≡ true → is_whitespace c ≡ false → x == c ≡ false
not_same x c p bare = elim (Bool-cases (x == c)) [
  | inl e ↦ let same = eq_of_== x c e in cc
  | inr e ↦ e
]

pub IsBlank-Lacks : (c : ℕ) → is_whitespace c ≡ false → (s : Text) → IsBlank s → Lacks c s
IsBlank-Lacks c bare [] h = tt
IsBlank-Lacks c bare (x ∷ s) (p, h) = (not_same x c p bare, IsBlank-Lacks c bare s h)

trim_start-blank : (pad s : Text) → IsBlank pad → trim_start (pad ++ s) ≡ trim_start s
unfolding trim_start
trim_start-blank [] s h = refl
trim_start-blank (x ∷ pad) s (p, h) = rw p (trim_start-blank pad s h)

trim_start-all_blank : (pad : Text) → IsBlank pad → trim_start pad ≡ []
unfolding trim_start
trim_start-all_blank [] h = refl
trim_start-all_blank (x ∷ pad) (p, h) = rw p (trim_start-all_blank pad h)

trim_end-blank : (pad : Text) → IsBlank pad → trim_end pad ≡ []
unfolding trim_end
trim_end-blank [] h = refl
trim_end-blank (x ∷ pad) (p, h) = rw (p, trim_end-blank pad h)

trim_end-append : (s pad : Text) → IsBlank pad → trim_end (s ++ pad) ≡ trim_end s
unfolding trim_end
trim_end-append [] pad h = trim_end-blank pad h
trim_end-append (x ∷ s) pad h = rw (trim_end-append s pad h)

trim_start-bare :
    (s t : Text) → StartsBare s → IsBlank t → trim_end (trim_start (s ++ t)) ≡ trim_end s
unfolding trim_start
trim_start-bare [] t h k = ap trim_end (trim_start-all_blank t k)
trim_start-bare (x ∷ s) t h k = rw h (trim_end-append (x ∷ s) t k)

pub trim_padded :
    (before s after : Text)
    → IsBlank before
    → IsTrimmed s
    → IsBlank after
    → trim (before ++ (s ++ after)) ≡ s
trim_padded before s after b (bare, ended) a =
    rw (trim_start-blank before (s ++ after) b) (trim_start-bare s after bare a ∙ ended)

pub trim_blank : (pad : Text) → IsBlank pad → is_empty (trim pad) ≡ true
unfolding trim_end
trim_blank pad h = rw (trim_start-all_blank pad h)

trim_end-bare : (c : ℕ) (s : Text) → is_whitespace c ≡ false → is_empty (trim_end (c ∷ s)) ≡ false
unfolding trim_end
trim_end-bare c s bare = rw bare

-- A character that is no space keeps a text from being blank.
pub trim_not_blank :
    (pad : Text) (c : ℕ) (s : Text)
    → IsBlank pad
    → is_whitespace c ≡ false
    → is_empty (trim (pad ++ (c ∷ s))) ≡ false
unfolding trim_start
trim_not_blank pad c s h bare =
    rw (trim_start-blank pad (c ∷ s) h) (rw bare (trim_end-bare c s bare))

pub split-single : (c : ℕ) (s : Text) → Lacks c s → split c s ≡ s ∷ []
unfolding split
split-single c [] h = refl
split-single c (x ∷ s) (p, h) = rw (p, split-single c s h)

pub split-append : (c : ℕ) (s t : Text) → Lacks c s → split c (s ++ (c ∷ t)) ≡ s ∷ split c t
unfolding split
split-append c [] t h = rw (==-refl c)
split-append c (x ∷ s) t (p, h) = rw (p, split-append c s t h)

pub split_once-append : (c : ℕ) (s t : Text) → Lacks c s → split_once c (s ++ (c ∷ t)) ≡ some (s, t)
unfolding split_once
split_once-append c [] t h = rw (==-refl c)
split_once-append c (x ∷ s) t (p, h) = rw (p, split_once-append c s t h)

pub split_once-none : (c : ℕ) (s : Text) → Lacks c s → split_once c s ≡ none
unfolding split_once
split_once-none c [] h = refl
split_once-none c (x ∷ s) (p, h) = rw (p, split_once-none c s h)
