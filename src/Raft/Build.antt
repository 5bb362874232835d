-- ===== src/Raft/Build.antt =====
-- src/Blun.Mq.Raft/build.rs: what is left of the code that the build generates.
pub mod Kept
use blun_mq.Base.{
  ℕ, Bool, true, false, ◌&&◌, not, List, [], ◌∷◌, ◌++◌, Text, text, nat_eq, ◌==◌, if◌then◌else◌,
}

abbrev pub newline : ℕ
newline = 10

abbrev pub carriage_return : ℕ
carriage_return = 13

-- A character in front of the first line.
abbrev pub onto_first : ℕ → List Text → List Text
onto_first c [] = (c ∷ []) ∷ []
onto_first c (l ∷ ls) = (c ∷ l) ∷ ls

-- `s.starts_with(prefix)`
abbrev pub starts_with : Text → Text → Bool
starts_with [] s = true
starts_with (p ∷ ps) [] = false
starts_with (p ∷ ps) (c ∷ s) = c == p && starts_with ps s

-- `s.lines()`: each line ends with a newline, and a carriage return before it goes too; the last one
-- may lack it, and there is no empty line after the last newline.
unfoldable pub lines : Text → List Text
lines [] = []
lines (c ∷ s) =
    let rest = lines s in
    if c == newline
    then [] ∷ rest
    else if c == carriage_return && starts_with (newline ∷ []) s
    then rest
    else onto_first c rest

-- `.filter(|line| !line.starts_with("#!") && !line.starts_with("//!"))`
abbrev pub keeps : Text → Bool
keeps line = not (starts_with (text "#!") line) && not (starts_with (text "//!") line)

unfoldable pub filter : (Text → Bool) → List Text → List Text
filter p [] = []
filter p (l ∷ ls) = let rest = filter p ls in if p l then l ∷ rest else rest

-- `.join("\n")`
unfoldable pub join : List Text → Text
join [] = []
join (l ∷ []) = l
join (l ∷ k ∷ ls) = l ++ newline ∷ join (k ∷ ls)

unfoldable pub cleaned : Text → Text
unfolding lines filter join
cleaned content = join (filter keeps (lines content))
