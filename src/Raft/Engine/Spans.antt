-- ===== src/Raft/Engine/Spans.antt =====
-- Spans of consecutive entries in a spliced log.
use blun_mq.Base.{
  ℕ, ◌+◌, ◌≤◌, ◌≡◌, ◌≢◌, refl, ◌∙◌, ap, ap₂, List, [], ◌∷◌, ◌++◌, length, nat_eq, arith,
}
use blun_mq.Raft.Engine.{Blob, below, from, splice, Consecutive}

below-append : (n : ℕ) (xs ys : List Blob) → below n (xs ++ ys) ≡ below n xs ++ below n ys
below-append n [] ys = refl
below-append n (b ∷ xs) ys = ground (arith, below-append n xs ys)

from-append : (n : ℕ) (xs ys : List Blob) → from n (xs ++ ys) ≡ from n xs ++ from n ys
from-append n [] ys = refl
from-append n (b ∷ xs) ys = ground (arith, from-append n xs ys)

pub from-from : (i : ℕ) (xs : List Blob) → from i (from i xs) ≡ from i xs
from-from i [] = refl
from-from i (b ∷ xs) = ground (arith, from-from i xs)

from-below : (i n : ℕ) (xs : List Blob) → n ≤ i → from i (below n xs) ≡ []
from-below i n [] h = refl
from-below i n (b ∷ xs) h = ground (arith, from-below i n xs)

from-below-below : (i n j : ℕ) (xs : List Blob) → j ≤ i → from i (below n (below j xs)) ≡ []
from-below-below i n j [] h = refl
from-below-below i n j (b ∷ xs) h = ground (arith, from-below-below i n j xs)

below-below : (i k : ℕ) (xs : List Blob) → i ≤ k → below i (below k xs) ≡ below i xs
below-below i k [] h = refl
below-below i k (b ∷ xs) h = ground (arith, below-below i k xs)

below-Consecutive :
    (i n : ℕ) (bs : List Blob) → Consecutive i bs → i + length bs ≤ n → below n bs ≡ bs
below-Consecutive i n [] c h = refl
below-Consecutive i n (b ∷ bs) (e, c) h = ground (arith, below-Consecutive (i + 1) n bs c)

from-Consecutive : (i n : ℕ) (bs : List Blob) → Consecutive i bs → n ≤ i → from n bs ≡ bs
from-Consecutive i n [] c h = refl
from-Consecutive i n (b ∷ bs) (e, c) h = ground (arith, from-Consecutive (i + 1) n bs c)

-- What was spliced in is what the log then holds from its first index to its end.
pub span-splice :
    (i : ℕ) (old bs : List Blob)
    → Consecutive i bs
    → from i (below (i + length bs) (splice old bs)) ≡ bs
span-splice i old [] c = from-below i (i + 0) old (omega arith)
span-splice i old (b ∷ bs) (e, c) =
    let n = i + length (b ∷ bs) in
    ap (from i) (below-append n (below b.index old) (b ∷ bs))
    ∙ from-append i (below n (below b.index old)) (below n (b ∷ bs))
    ∙ ap₂ ◌++◌ (from-below-below i n b.index old (omega arith)) (
        ap (from i) (below-Consecutive i n (b ∷ bs) (e, c) (omega arith))
        ∙ from-Consecutive i i (b ∷ bs) (e, c) (omega arith))

-- Removing the entries from `k` on beforehand does not change a splice that begins at or below `k`.
pub splice-below :
    (i k : ℕ) (old bs : List Blob)
    → Consecutive i bs
    → i ≤ k
    → bs ≢ []
    → splice (below k old) bs ≡ splice old bs
splice-below i k old [] c h ne = absurd (ne refl)
splice-below i k old (b ∷ bs) (e, c) h ne =
    ap (λ l. l ++ b ∷ bs) (below-below b.index k old (omega arith))
