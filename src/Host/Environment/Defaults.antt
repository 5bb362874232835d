-- ===== src/Host/Environment/Defaults.antt =====
-- src/Blun.Mq.Host/src/main.rs: a node whose environment names no peers.
use blun_mq.Base.{
  ℕ, ◌+◌, ◌≡◌, ◌∙◌, refl, sym, ap, ◌++◌, append-nil, Bool, true, false, inl, inr, Bool-cases, subst,
  List, [], ◌∷◌, none, get_or, Text, text, nat_eq, ◌==◌, if◌then◌else◌, Option, ok, arith,
}
use blun_mq.Base.BTreeMap.{collect, first_key}
use blun_mq.Host.Decimal.{decimal, digits_of}
use blun_mq.Host.Peers.{comma, is_whitespace, trim_end, parse_u64, parse_peers}
use blun_mq.Host.Peers.Numbers.{AreDigits, digits, digits-Lacks, digits-IsTrimmed}
use blun_mq.Host.Peers.Spaces.{Lacks, Lacks-append}
use blun_mq.Host.Peers.Written.{Entry, entry, IsEntry, parse_peers-write}
use blun_mq.Host.Environment.{SocketAddrs, Settings, settings}
use blun_mq.Host.Start.{bootstraps}

trim_end-cons : (x d : ℕ) (u : Text) → trim_end (d ∷ u) ≡ d ∷ u → trim_end (x ∷ d ∷ u) ≡ x ∷ d ∷ u
unfolding trim_end
trim_end-cons x d u h = rw h (elim (Bool-cases (is_whitespace x)) [ inl e ↦ rw e | inr e ↦ rw e ])

-- A bare tail stays at the end of a text.
trim_end-tail :
    (s : Text) (c : ℕ) (t : Text)
    → trim_end (c ∷ t) ≡ c ∷ t
    → (d : ℕ) × (u : Text) × (s ++ (c ∷ t) ≡ d ∷ u) × (trim_end (d ∷ u) ≡ d ∷ u)
trim_end-tail [] c t h = (c, t, refl, h)
trim_end-tail (x ∷ s) c t h =
    let (d, u, same, bare) = trim_end-tail s c t h in
    (x, d ∷ u, ap (λ r. x ∷ r) same, trim_end-cons x d u bare)

abbrev lacks : ℕ → Text → Bool
lacks c [] = true
lacks c (x ∷ s) = if x == c then false else lacks c s

lacks-Lacks : (c : ℕ) (s : Text) → lacks c s ≡ true → Lacks c s
lacks-Lacks c [] h = tt
lacks-Lacks c (x ∷ s) h = elim (Bool-cases (x == c)) [
  | inl e ↦ let h' = rw e at h in absurd (cc)
  | inr e ↦ (e, lacks-Lacks c s (rw e at h))
]

abbrev pub host : Text
host = text "http://localhost:"

module _ (d : ℕ) (ds : List ℕ) (h : AreDigits (d ∷ ds)) where
  abbrev itself : Entry
  itself = record {
    before_id = [];
    first_digit = 1;
    more_digits = [];
    after_id = [];
    before_addr = [];
    addr = host ++ digits (d ∷ ds);
    after_addr = [];
  }

  itself-IsEntry : IsEntry itself
  unfolding nat_eq
  itself-IsEntry =
      let (e, u, same, bare) =
        trim_end-tail host (48 + d) (digits ds) (digits-IsTrimmed d ds h).1 in
      record {
        before_id_blank = tt;
        id_digits = (omega arith, tt);
        after_id_blank = tt;
        before_addr_blank = tt;
        addr_trimmed = (refl, subst (λ r. trim_end r ≡ r) (sym same) bare);
        addr_comma =
            Lacks-append comma host (digits (d ∷ ds)) (lacks-Lacks comma host refl)
              (digits-Lacks comma (inl (omega arith)) (d ∷ ds) h);
        after_addr_blank = tt;
      }

  parse_peers-itself :
      parse_peers (text "1=http://localhost:" ++ digits (d ∷ ds))
      ≡ ok ((1, host ++ digits (d ∷ ds)) ∷ [])
  unfolding collect
  parse_peers-itself =
      ap (λ r. parse_peers (text "1=" ++ r)) (sym (append-nil (host ++ digits (d ∷ ds))))
      ∙ parse_peers-write (entry itself ∷ []) (itself-IsEntry, tt)

-- The address of a node on its own machine.
abbrev pub local : ℕ → Text
local port = host ++ decimal port

parse_peers-local :
    (port : ℕ)
    → parse_peers (text "1=http://localhost:" ++ decimal port) ≡ ok ((1, local port) ∷ [])
unfolding decimal
parse_peers-local port =
    let (d, ds, same, are, _) = digits_of port in rw same (parse_peers-itself d ds are)

-- A node whose environment has neither MQ_PEERS nor MQ_NODE_NUM, and whose two addresses are valid,
-- starts as node 1 of a cluster that has no other node, reachable on its own machine at its gRPC
-- port, and it is the one that initializes the groups.
pub settings-alone :
    (n : SocketAddrs) (env : Text → Option Text) (grpc http : n.SocketAddr)
    → env (text "MQ_PEERS") ≡ none
    → env (text "MQ_NODE_NUM") ≡ none
    → n.parse (get_or (env (text "MQ_GRPC_ADDR")) (text "0.0.0.0:5001")) ≡ ok grpc
    → n.parse (get_or (env (text "MQ_HTTP_ADDR")) (text "0.0.0.0:5080")) ≡ ok http
    → (s : Settings n) × (settings n env ≡ ok s)
      × (s.node_num ≡ 1)
      × (s.peers ≡ (1, local (n.port grpc)) ∷ [])
      × (bootstraps s.node_num s.peers ≡ ok true)
unfolding settings parse_u64 bootstraps first_key nat_eq
settings-alone n env grpc http no_peers no_num g h =
    let s : Settings n = record {
      node_id = get_or (env (text "MQ_NODE_ID")) (text "node-1");
      node_num = 1;
      grpc_addr = grpc;
      http_addr = http;
      peers = (1, local (n.port grpc)) ∷ [];
      data_dir =
          get_or (env (text "MQ_DATA_DIR"))
            (text "./data/" ++ get_or (env (text "MQ_NODE_ID")) (text "node-1"));
    } in
    (s, rw (no_num, g, h, no_peers, parse_peers-local (n.port grpc)), refl, refl, refl)
