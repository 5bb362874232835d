-- ===== src/Host/Peers/Written.antt =====
-- src/Blun.Mq.Host/src/main.rs, `parse_peers`, against what is written in MQ_PEERS: entries, spaces
-- and malformed parts, with commas between them.
use blun_mq.Base.{
  ℕ, ◌≡◌, ◌∙◌, refl, ap, false, List, [], ◌∷◌, ◌++◌, map, append_assoc, Text, nat_eq, ltb,
  if◌then◌else◌, Outcome, ok, panic, ◌>>=◌, expect, ◌≤◌, ◌⊎◌, inl, inr, arith,
}
use blun_mq.Base.BTreeMap.{collect}
use blun_mq.Raft.Types.{u64_mod}
use blun_mq.Host.Peers.{
  is_whitespace, is_empty, trim, comma, equals, split, ParseIntError, parse_entry, parse_entries,
  parse_peers,
}
use blun_mq.Host.Peers.Spaces.{
  IsBlank, IsTrimmed, Lacks, Lacks-append, IsBlank-Lacks, trim_padded, trim_blank, trim_not_blank,
  split-single, split-append, split_once-append, split_once-none,
}
use blun_mq.Host.Peers.Numbers.{
  AreDigits, value, digits, checked, digit-bare, parse_u64-digits, digits-Lacks, digits-IsTrimmed,
}

-- An id in decimal, `=` and an address, with spaces around both.
pub record Entry : Type 0 where
  pub before_id : Text
  pub first_digit : ℕ
  pub more_digits : List ℕ
  pub after_id : Text
  pub before_addr : Text
  pub addr : Text
  pub after_addr : Text

pub data Part : Type 0 where
  entry : Entry → Part
  spaces : Text → Part
  malformed : Text → Part

abbrev pub id_of : Entry → ℕ
id_of e = value 0 (e.first_digit ∷ e.more_digits)

abbrev left : Entry → Text
left e = e.before_id ++ (digits (e.first_digit ∷ e.more_digits) ++ e.after_id)

abbrev right : Entry → Text
right e = e.before_addr ++ (e.addr ++ e.after_addr)

abbrev pub written : Part → Text
written (entry e) = left e ++ (equals ∷ right e)
written (spaces s) = s
written (malformed s) = s

abbrev pub write : List Part → Text
write [] = []
write (part ∷ []) = written part
write (part ∷ next ∷ parts) = written part ++ (comma ∷ write (next ∷ parts))

pub record IsEntry (e : Entry) : Type 0 where
  pub before_id_blank : IsBlank e.before_id
  pub id_digits : AreDigits (e.first_digit ∷ e.more_digits)
  pub after_id_blank : IsBlank e.after_id
  pub before_addr_blank : IsBlank e.before_addr
  pub addr_trimmed : IsTrimmed e.addr
  pub addr_comma : Lacks comma e.addr
  pub after_addr_blank : IsBlank e.after_addr

-- A malformed part is not blank and has neither `=` nor a comma.
abbrev pub IsPart : Part → Type 0
IsPart (entry e) = IsEntry e
IsPart (spaces s) = IsBlank s
IsPart (malformed s) = (is_empty (trim s) ≡ false) × Lacks equals s × Lacks comma s

abbrev pub AreParts : List Part → Type 0
AreParts [] = Unit
AreParts (part ∷ parts) = IsPart part × AreParts parts

-- The pairs of the entries in their order. A malformed part and an id that is no `u64` panic.
abbrev pub meant : List Part → Outcome ParseIntError (List (ℕ × Text))
meant [] = ok []
meant (spaces s ∷ parts) = meant parts
meant (malformed s ∷ parts) = panic
meant (entry e ∷ parts) =
    let rest = meant parts in
    if ltb (id_of e) u64_mod then (rest >>= λ entries. ok ((id_of e, e.addr) ∷ entries)) else panic

module _ (e : Entry) (h : IsEntry e) where
  left-Lacks : (c : ℕ) → is_whitespace c ≡ false → (c ≤ 47) ⊎ (58 ≤ c) → Lacks c (left e)
  left-Lacks c bare away =
      Lacks-append c e.before_id _ (IsBlank-Lacks c bare e.before_id h.before_id_blank) (
        Lacks-append c (digits (e.first_digit ∷ e.more_digits)) e.after_id
          (digits-Lacks c away (e.first_digit ∷ e.more_digits) h.id_digits)
          (IsBlank-Lacks c bare e.after_id h.after_id_blank))

  right-Lacks : Lacks comma (right e)
  unfolding nat_eq
  right-Lacks =
      Lacks-append comma e.before_addr _
        (IsBlank-Lacks comma refl e.before_addr h.before_addr_blank)
        (Lacks-append comma e.addr e.after_addr h.addr_comma
          (IsBlank-Lacks comma refl e.after_addr h.after_addr_blank))

  entry-Lacks : Lacks comma (written (entry e))
  unfolding nat_eq
  entry-Lacks =
      Lacks-append comma (left e) _ (left-Lacks comma refl (inl (omega arith))) (refl, right-Lacks)

  entry-not_blank : is_empty (trim (written (entry e))) ≡ false
  entry-not_blank =
      rw (append_assoc e.before_id _ _)
        (trim_not_blank e.before_id _ _ h.before_id_blank (digit-bare e.first_digit h.id_digits.0))

  pub parse_entry-written :
      parse_entry (written (entry e)) ≡ expect (checked (id_of e)) >>= λ n. ok (n, e.addr)
  unfolding parse_entry nat_eq
  parse_entry-written = rw (
    split_once-append equals (left e) (right e) (left-Lacks equals refl (inr (omega arith))),
    trim_padded e.before_id _ e.after_id h.before_id_blank
        (digits-IsTrimmed e.first_digit e.more_digits h.id_digits) h.after_id_blank,
    trim_padded e.before_addr e.addr e.after_addr h.before_addr_blank h.addr_trimmed
        h.after_addr_blank,
    parse_u64-digits e.first_digit e.more_digits h.id_digits,
  )

module _ (s : Text) (lacks : Lacks equals s) where
  parse_entry-malformed : parse_entry s ≡ panic
  unfolding parse_entry
  parse_entry-malformed = rw (split_once-none equals s lacks)

written-Lacks : (part : Part) → IsPart part → Lacks comma (written part)
unfolding nat_eq
written-Lacks (entry e) h = entry-Lacks e h
written-Lacks (spaces s) h = IsBlank-Lacks comma refl s h
written-Lacks (malformed s) (p, q, r) = r

split-write :
    (part : Part) (parts : List Part)
    → AreParts (part ∷ parts)
    → split comma (write (part ∷ parts)) ≡ map written (part ∷ parts)
split-write part [] (p, h) = split-single comma (written part) (written-Lacks part p)
split-write part (next ∷ parts) (p, h) =
    split-append comma (written part) (write (next ∷ parts)) (written-Lacks part p)
    ∙ ap (λ rest. written part ∷ rest) (split-write next parts h)

entry-meant :
    (n : ℕ) (addr : Text) (rest : Outcome ParseIntError (List (ℕ × Text)))
    → (expect {F = ParseIntError} (checked n) >>= λ m. ok (m, addr))
        >>= (λ e. rest >>= λ es. ok (e ∷ es))
      ≡ (if ltb n u64_mod then (rest >>= λ es. ok ((n, addr) ∷ es)) else panic)
entry-meant n addr rest = ground arith

parse_entries-written :
    (parts : List Part) → AreParts parts → parse_entries (map written parts) ≡ meant parts
unfolding parse_entries
parse_entries-written [] h = refl
parse_entries-written (entry e ∷ parts) (p, h) =
    rw (entry-not_blank e p, parse_entry-written e p, parse_entries-written parts h)
      (entry-meant (id_of e) e.addr (meant parts))
parse_entries-written (spaces s ∷ parts) (p, h) =
    rw (trim_blank s p) (parse_entries-written parts h)
parse_entries-written (malformed s ∷ parts) ((p, q, r), h) = rw (p, parse_entry-malformed s q)

-- What is written in MQ_PEERS is read as it is meant: the parts are read between the commas, spaces
-- around ids, addresses and parts do not count, a blank part is skipped, the last entry of an id
-- holds, and a malformed part or an id of 2 ^ 64 or more panics.
pub parse_peers-write :
    (parts : List Part)
    → AreParts parts
    → parse_peers (write parts) ≡ meant parts >>= λ entries. ok (collect entries)
unfolding parse_peers
parse_peers-write [] h = refl
parse_peers-write (part ∷ parts) h =
    rw (split-write part parts h, parse_entries-written (part ∷ parts) h)
