-- ===== src/Host/Peers.antt =====
-- src/Blun.Mq.Host/src/main.rs, `parse_peers`: the peers' addresses out of the environment variable
-- MQ_PEERS. A text is its code points, and the operations of std's `str` are written out on them.
pub mod Spaces
pub mod Numbers
pub mod Written
use blun_mq.Base.{
  ℕ, ◌+◌, ◌-◌, ◌*◌, Bool, true, false, ◌&&◌, ◌||◌, not, List, [], ◌∷◌, Option, none, some, Text,
  nat_eq, ◌==◌, ltb, leb, if◌then◌else◌, Outcome, ok, err, panic, ◌>>=◌, expect,
}
use blun_mq.Base.BTreeMap.{BTreeMap, collect}
use blun_mq.Raft.Types.{u64_mod}

-- `char::is_whitespace`
abbrev pub is_whitespace : ℕ → Bool
is_whitespace c =
    leb 9 c && leb c 13
    || c == 32
    || c == 133
    || c == 160
    || c == 5760
    || leb 8192 c && leb c 8202
    || c == 8232
    || c == 8233
    || c == 8239
    || c == 8287
    || c == 12288

abbrev pub comma : ℕ
comma = 44

abbrev pub equals : ℕ
equals = 61

abbrev pub plus : ℕ
plus = 43

abbrev pub is_empty : Text → Bool
is_empty [] = true
is_empty (c ∷ s) = false

unfoldable pub trim_start : Text → Text
trim_start [] = []
trim_start (c ∷ s) = if is_whitespace c then trim_start s else c ∷ s

unfoldable pub trim_end : Text → Text
trim_end [] = []
trim_end (c ∷ s) =
    let rest = trim_end s in if is_whitespace c && is_empty rest then [] else c ∷ rest

abbrev pub trim : Text → Text
trim s = trim_end (trim_start s)

abbrev pub onto_first : ℕ → List Text → List Text
onto_first c [] = (c ∷ []) ∷ []
onto_first c (part ∷ parts) = (c ∷ part) ∷ parts

-- `s.split(c)`
unfoldable pub split : ℕ → Text → List Text
split c [] = [] ∷ []
split c (x ∷ s) = let parts = split c s in if x == c then [] ∷ parts else onto_first x parts

abbrev pub onto_left : ℕ → Option (Text × Text) → Option (Text × Text)
onto_left c none = none
onto_left c (some (left, right)) = some (c ∷ left, right)

-- `s.split_once(c)`
unfoldable pub split_once : ℕ → Text → Option (Text × Text)
split_once c [] = none
split_once c (x ∷ s) =
    let rest = split_once c s in if x == c then some ([], s) else onto_left x rest

pub data ParseIntError : Type 0 where
  empty invalid_digit pos_overflow : ParseIntError

-- One more digit of a `u64`.
abbrev pub push_digit : ℕ → ℕ → Outcome ParseIntError ℕ
push_digit n c =
    if leb 48 c && leb c 57
    then (if ltb (n * 10 + (c - 48)) u64_mod then ok (n * 10 + (c - 48)) else err pos_overflow)
    else err invalid_digit

unfoldable pub parse_digits : ℕ → Text → Outcome ParseIntError ℕ
parse_digits n [] = ok n
parse_digits n (c ∷ s) = push_digit n c >>= λ m. parse_digits m s

-- `s.parse::<u64>()`: one `+` may stand before the digits.
unfoldable pub parse_u64 : Text → Outcome ParseIntError ℕ
unfolding parse_digits
parse_u64 [] = err empty
parse_u64 (c ∷ []) = parse_digits 0 (c ∷ [])
parse_u64 (c ∷ d ∷ s) = if c == plus then parse_digits 0 (d ∷ s) else parse_digits 0 (c ∷ d ∷ s)

abbrev pub parse_halves : Option (Text × Text) → Outcome ParseIntError (ℕ × Text)
parse_halves none = panic
parse_halves (some (id, addr)) = do n ← expect (parse_u64 (trim id)); ok (n, trim addr)

-- An entry without `=` panics, and so does one whose id is not a `u64`.
unfoldable pub parse_entry : Text → Outcome ParseIntError (ℕ × Text)
unfolding split_once trim_start trim_end parse_u64
parse_entry part = parse_halves (split_once equals part)

-- The parts that are not blank, each parsed.
unfoldable pub parse_entries : List Text → Outcome ParseIntError (List (ℕ × Text))
unfolding trim_start trim_end parse_entry
parse_entries [] = ok []
parse_entries (part ∷ parts) =
    let rest = parse_entries parts in
    if is_empty (trim part)
    then rest
    else (parse_entry part >>= λ entry. rest >>= λ entries. ok (entry ∷ entries))

unfoldable pub parse_peers : Text → Outcome ParseIntError (BTreeMap Text)
unfolding split parse_entries collect
parse_peers s = parse_entries (split comma s) >>= λ entries. ok (collect entries)
