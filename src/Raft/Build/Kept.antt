-- ===== src/Raft/Build/Kept.antt =====
-- src/Blun.Mq.Raft/build.rs: the lines of the cleaned code.
use blun_mq.Base.{
  ==-refl, true, false, text, ℕ, Bool, ◌≡◌, ◌≢◌, refl, sym, ◌∙◌, ap, List, [], ◌∷◌, ◌++◌, subst,
  Text, Every, nat_eq, ◌==◌, Bool-cases, inl, inr, arith,
}
use blun_mq.Raft.Build.{
  starts_with, newline, carriage_return, onto_first, lines, keeps, filter, join, cleaned,
}

-- No newline and no carriage return.
abbrev pub IsLine : Text → Type 0
IsLine = Every (λ c. (c ≢ newline) × (c ≢ carriage_return))

-- An empty line at the end is no line.
abbrev pub without_blank_end : List Text → List Text
without_blank_end [] = []
without_blank_end ([] ∷ []) = []
without_blank_end ((c ∷ l) ∷ []) = (c ∷ l) ∷ []
without_blank_end (l ∷ k ∷ ls) = l ∷ without_blank_end (k ∷ ls)

lines-char :
    (c : ℕ) (s : Text) → c ≢ newline → c ≢ carriage_return → lines (c ∷ s) ≡ onto_first c (lines s)
unfolding lines
lines-char c s a b = ground arith

-- A last line without a newline.
lines-last : (l : Text) → IsLine l → lines l ≡ without_blank_end (l ∷ [])
unfolding lines
lines-last [] h = refl
lines-last (c ∷ []) ((a, b), h) = lines-char c [] a b
lines-last (c ∷ d ∷ l) ((a, b), h) =
    lines-char c (d ∷ l) a b ∙ ap (onto_first c) (lines-last (d ∷ l) h)

lines-newline : (l s : Text) → IsLine l → lines (l ++ newline ∷ s) ≡ l ∷ lines s
unfolding lines nat_eq
lines-newline [] s h = refl
lines-newline (c ∷ l) s ((a, b), h) =
    lines-char c (l ++ newline ∷ s) a b ∙ ap (onto_first c) (lines-newline l s h)

lines-join : (ls : List Text) → Every IsLine ls → lines (join ls) ≡ without_blank_end ls
unfolding join lines
lines-join [] h = refl
lines-join (l ∷ []) (h, _) = lines-last l h
lines-join (l ∷ k ∷ ls) (h, rest) =
    lines-newline l (join (k ∷ ls)) h ∙ ap (λ r. l ∷ r) (lines-join (k ∷ ls) rest)

-- Lines of a text without carriage returns have none, and no newlines.
onto_first-Lines :
    (c : ℕ) (ls : List Text)
    → c ≢ newline
    → c ≢ carriage_return
    → Every IsLine ls
    → Every IsLine (onto_first c ls)
onto_first-Lines c [] a b h = (((a, b), tt), tt)
onto_first-Lines c (l ∷ ls) a b (first, rest) = (((a, b), first), rest)

lines-Lines : (s : Text) → Every (λ c. c ≢ carriage_return) s → Every IsLine (lines s)
unfolding lines
lines-Lines [] h = tt
lines-Lines (c ∷ s) (b, h) = elim (Bool-cases (c == newline)) [
  | inl e ↦ rw e (tt, lines-Lines s h)
  | inr e ↦
      let a : c ≢ newline = ground (arith, e) in
      subst (Every IsLine) (sym (lines-char c s a b))
        (onto_first-Lines c (lines s) a b (lines-Lines s h))
]

filter-Every : (p : Text → Bool) (ls : List Text) → Every IsLine ls → Every IsLine (filter p ls)
unfolding filter
filter-Every p [] h = tt
filter-Every p (l ∷ ls) (first, rest) = elim (Bool-cases (p l)) [
  | inl e ↦ rw e (first, filter-Every p ls rest)
  | inr e ↦ rw e (filter-Every p ls rest)
]

-- The text begins with the prefix.
abbrev pub Begins : Text → Text → Type 0
Begins prefix s = (rest : Text) × (s ≡ prefix ++ rest)

starts_with-Begins : (p s : Text) → starts_with p s ≡ true → Begins p s
starts_with-Begins [] s h = (s, refl)
starts_with-Begins (p ∷ ps) [] h = absurd (cc)
starts_with-Begins (p ∷ ps) (c ∷ s) h = elim (Bool-cases (c == p)) [
  | inl e ↦
      let same : c ≡ p = ground (arith, e) in
      let (rest, here) = starts_with-Begins ps s (rw e at h) in (rest, rw (same, here))
  | inr e ↦ absurd (cc)
]

starts_with-append : (p rest : Text) → starts_with p (p ++ rest) ≡ true
unfolding nat_eq
starts_with-append [] rest = refl
starts_with-append (p ∷ ps) rest = rw (==-refl p) (starts_with-append ps rest)

starts_with-NotBegins : (p s : Text) → starts_with p s ≡ false → ¬ Begins p s
starts_with-NotBegins p s h (rest, here) =
    let other : starts_with p s ≡ true = ap (starts_with p) here ∙ starts_with-append p rest in
    absurd (cc)

-- The second list has the lines of the first, in their order, that begin with neither `#!` nor `//!`.
pub data Strips : List Text → List Text → Type 0 where
  no_lines : Strips [] []
  attribute :
      (l : Text) {ls ks : List Text} → Begins (text "#!") l → Strips ls ks → Strips (l ∷ ls) ks
  comment :
      (l : Text) {ls ks : List Text} → Begins (text "//!") l → Strips ls ks → Strips (l ∷ ls) ks
  kept :
      (l : Text) {ls ks : List Text}
      → ¬ Begins (text "#!") l
      → ¬ Begins (text "//!") l
      → Strips ls ks
      → Strips (l ∷ ls) (l ∷ ks)

filter-Strips : (ls : List Text) → Strips ls (filter keeps ls)
unfolding filter
filter-Strips [] = no_lines
filter-Strips (l ∷ ls) = elim (Bool-cases (starts_with (text "#!") l)) [
  | inl e ↦ rw e (attribute l (starts_with-Begins (text "#!") l e) (filter-Strips ls))
  | inr e ↦ elim (Bool-cases (starts_with (text "//!") l)) [
    | inl f ↦ rw (e, f) (comment l (starts_with-Begins (text "//!") l f) (filter-Strips ls))
    | inr f ↦
        rw (e, f)
          (kept l (starts_with-NotBegins (text "#!") l e) (starts_with-NotBegins (text "//!") l f)
            (filter-Strips ls))
  ]
]

-- The generated code has no carriage return. Then the lines of what the build leaves of it are those
-- of its lines that begin with neither `#!` nor `//!`, in their order, but for an empty one at the
-- end.
pub cleaned-Kept :
    (content : Text)
    → Every (λ c. c ≢ carriage_return) content
    → (ks : List Text) × Strips (lines content) ks
      × (lines (cleaned content) ≡ without_blank_end ks)
unfolding cleaned
cleaned-Kept content h = (
  filter keeps (lines content),
  filter-Strips (lines content),
  lines-join (filter keeps (lines content))
      (filter-Every keeps (lines content) (lines-Lines content h)),
)
