-- ===== src/Tests/HostTests.antt =====
-- MQ_PEERS, the start of a node, and the throughput probe.
use blun_mq.Base.{
  Every, ◌≢◌, ◌++◌, ℕ, zero, suc, ◌<◌, ◌≤◌, ◌≡◌, ◌⊎◌, refl, List, [], ◌∷◌, Text, text, text_eq,
  nat_eq, Outcome, ok, err, panic, ◌>>=◌, arith,
}
use blun_mq.Base.BTreeMap
use blun_mq.Base.BTreeMap.{BTreeMap}
use blun_mq.Raft.Build.{lines, cleaned}
use blun_mq.Raft.Build.Kept.{Strips, without_blank_end, cleaned-Kept}
use blun_mq.Host.Peers.{parse_peers, trim_end}
use blun_mq.Host.Peers.Written.{
  Part, entry, spaces, Entry, IsEntry, write, meant, parse_peers-write,
}
use blun_mq.Host.Peers.Spaces.{IsBlank}
use blun_mq.Host.Start.{succeeded, gave_up, bootstrap}
use blun_mq.Host.Start.Retries.{Fails, none_fails, one_fails}
use blun_mq.Host.Start.Members.{bootstrap-Fails}

-- ` 1=a,2 = b, ,1=c`
abbrev first : Entry
first = record {
  before_id = 32 ∷ [];
  first_digit = 1;
  more_digits = [];
  after_id = [];
  before_addr = [];
  addr = text "a";
  after_addr = [];
}

abbrev second : Entry
second = record {
  before_id = [];
  first_digit = 2;
  more_digits = [];
  after_id = 32 ∷ [];
  before_addr = 32 ∷ [];
  addr = text "b";
  after_addr = [];
}

abbrev third : Entry
third = record {
  before_id = [];
  first_digit = 1;
  more_digits = [];
  after_id = [];
  before_addr = [];
  addr = text "c";
  after_addr = [];
}

abbrev parts : List Part
parts = entry first ∷ entry second ∷ spaces (32 ∷ []) ∷ entry third ∷ []

first-IsEntry : IsEntry first
unfolding nat_eq trim_end
first-IsEntry = record {
  before_id_blank = (refl, tt);
  id_digits = (omega arith, tt);
  after_id_blank = tt;
  before_addr_blank = tt;
  addr_trimmed = (refl, refl);
  addr_comma = (refl, tt);
  after_addr_blank = tt;
}

second-IsEntry : IsEntry second
unfolding nat_eq trim_end
second-IsEntry = record {
  before_id_blank = tt;
  id_digits = (omega arith, tt);
  after_id_blank = (refl, tt);
  before_addr_blank = (refl, tt);
  addr_trimmed = (refl, refl);
  addr_comma = (refl, tt);
  after_addr_blank = tt;
}

third-IsEntry : IsEntry third
unfolding nat_eq trim_end
third-IsEntry = record {
  before_id_blank = tt;
  id_digits = (omega arith, tt);
  after_id_blank = tt;
  before_addr_blank = tt;
  addr_trimmed = (refl, refl);
  addr_comma = (refl, tt);
  after_addr_blank = tt;
}

spaces-IsBlank : IsBlank (32 ∷ [])
unfolding nat_eq
spaces-IsBlank = (refl, tt)

parse_peers-write_example :
    parse_peers (write parts) ≡ meant parts >>= λ entries. ok (BTreeMap.collect entries)
parse_peers-write_example =
    parse_peers-write parts (first-IsEntry, (second-IsEntry, (spaces-IsBlank, (third-IsEntry, tt))))

peers_test : parse_peers (text " 1=a,2 = b, ,1=c") ≡ ok ((1, text "c") ∷ (2, text "b") ∷ [])
unfolding parse_peers nat_eq BTreeMap.insert
peers_test = refl

no_equals_test : parse_peers (text "1=a,b") ≡ panic
unfolding parse_peers nat_eq
no_equals_test = refl

overflow_test : parse_peers (text "18446744073709551616=a") ≡ panic
unfolding parse_peers nat_eq
overflow_test = refl

abbrev peers : BTreeMap Text
peers = (1, text "a") ∷ (2, text "b") ∷ []

-- The world counts down to the attempt that succeeds.
abbrev initialize : BTreeMap Text → ℕ → Outcome ℕ ℕ × ℕ
initialize members zero = (ok 0, 100)
initialize members (suc n) = (err n, n)

abbrev sleep : ℕ → ℕ → ℕ
sleep ms w = w

fails : Fails (initialize peers) sleep 2 2 0
fails = one_fails 2 1 refl (one_fails 1 0 refl (none_fails 0))

bootstrap-Fails_example :
    ((2 < 20) × (bootstrap sleep initialize peers 2 ≡ (succeeded, 100)))
    ⊎ ((20 ≤ 2) × ((bootstrap sleep initialize peers 2).0 ≡ gave_up))
bootstrap-Fails_example =
    bootstrap-Fails sleep initialize peers 0 ((omega arith, tt), (tt, tt)) fails refl

-- An attribute and a line of code.
abbrev generated : Text
generated = text "#!" ++ 10 ∷ text "a" ++ 10 ∷ []

cleaned_test : cleaned generated ≡ text "a"
unfolding cleaned nat_eq
cleaned_test = refl

no_returns : Every (λ c. c ≢ 13) generated
no_returns = ground arith

cleaned-Kept_example :
    (ks : List Text) × Strips (lines generated) ks
    × (lines (cleaned generated) ≡ without_blank_end ks)
cleaned-Kept_example = cleaned-Kept generated no_returns
