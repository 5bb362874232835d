-- ===== src/Raft/LogStore/LastId.antt =====
-- What `get_log_state` reports after an append.
use mathlib.Core.Option
use mathlib.Core.Option.{or_else}
use blun_mq.Base.{
  ℕ, ◌+◌, ◌≤◌, ◌<◌, ◌≡◌, refl, sym, ◌∙◌, ap, List, [], ◌∷◌, ◌++◌, Option, none, some, false, nat_eq,
  ◌==◌, ==-refl, Outcome, ok, succeeded, arith,
}
use blun_mq.Raft.Openraft.{Openraft, Entry}
use blun_mq.Raft.Serde.{IsFaithful}
use blun_mq.Raft.Engine.{Engine, Blob, IsLawful, below, splice, find, last_of, Consecutive}
use blun_mq.Raft.LogStore.{
  Codecs, LogState, Failure, last_purged_key, collect_all, encode_entry, decode_entry, append,
  last_entry_id, get_log_state,
}
use blun_mq.Raft.LogStore.Reads.{live, log_state, get_log_state_lem}
use blun_mq.Raft.LogStore.Append.{Run, flushed, encode-Encoded, append_blobs-splice}

last_of-append :
    (old : List Blob) (b : Blob) (bs : List Blob) → last_of (old ++ b ∷ bs) ≡ last_of (b ∷ bs)
last_of-append [] b bs = refl
last_of-append (a ∷ []) b bs = refl
last_of-append (a ∷ c ∷ old) b bs = last_of-append (c ∷ old) b bs

-- An index from `i` on is not among the entries below `i`.
find-below : (i n : ℕ) (old bs : List Blob) → i ≤ n → find n (below i old ++ bs) ≡ find n bs
find-below i n [] bs h = refl
find-below i n (b ∷ old) bs h = let ih = find-below i n old bs h in ground (arith, ih)

other_index : (a n : ℕ) → a < n → a == n ≡ false
unfolding nat_eq
other_index a n h = ground arith

abbrev pub last : {A : Type 0} → List A → Option A
last [] = none
last (x ∷ []) = some x
last (x ∷ y ∷ ys) = last (y ∷ ys)

last-cons : {A : Type 0} {z : A} (y : A) (ys : List A) → last ys ≡ some z → last (y ∷ ys) ≡ some z
last-cons y [] h = cc
last-cons y (x ∷ xs) h = h

module _ (e : Engine) (o : Openraft) {R : Type 0} (codecs : Codecs o R) where
  -- The last blob is found by its index, and decodes to the last entry.
  record LastBlob (i : ℕ) (entries : List (Entry o R)) (bs : List Blob) : Type 0 where
    position : ℕ
    blob : Blob
    entry : Entry o R
    low : i ≤ position
    is_last : last_of bs ≡ some position
    found : find position bs ≡ some blob
    decoded : decode_entry e o codecs blob ≡ ok entry
    last_entry : last entries ≡ some entry

  blobs-LastBlob :
      (i : ℕ) (entries : List (Entry o R)) (b : Blob) (bs : List Blob)
      → Consecutive i (b ∷ bs)
      → collect_all (decode_entry e o codecs) (b ∷ bs) ≡ ok entries
      → LastBlob i entries (b ∷ bs)
  unfolding collect_all
  blobs-LastBlob i entries b [] (here, _) h =
      let (y, first, h₁) = succeeded (decode_entry e o codecs b) _ h in
      let single : y ∷ [] ≡ entries = cc in
      record {
        position = b.index;
        blob = b;
        entry = y;
        low = omega (arith, here);
        is_last = refl;
        found = rw (==-refl b.index);
        decoded = first;
        last_entry = ap last (sym single);
      }
  blobs-LastBlob i entries b (c ∷ bs) (here, run) h =
      let (y, first, h₁) = succeeded (decode_entry e o codecs b) _ h in
      let (ys, more, h₂) = succeeded (collect_all (decode_entry e o codecs) (c ∷ bs)) _ h₁ in
      let whole : y ∷ ys ≡ entries = cc in
      let rest : LastBlob (i + 1) ys (c ∷ bs) = blobs-LastBlob (i + 1) ys c bs run more in
      record {
        position = rest.position;
        blob = rest.blob;
        entry = rest.entry;
        low = omega (arith, rest.low);
        is_last = rest.is_last;
        found = rw (other_index b.index rest.position (omega (arith, here, rest.low))) rest.found;
        decoded = rest.decoded;
        last_entry = ap last (sym whole) ∙ last-cons y ys rest.last_entry;
      }

module _ (e : Engine) (laws : IsLawful e) (o : Openraft) {R : Type 0} (codecs : Codecs o R) where
  -- The log then ends with the blobs.
  spliced-last :
      (i : ℕ) (entries : List (Entry o R)) (blobs : List Blob) (s t : e.State)
      → Consecutive i blobs
      → collect_all (decode_entry e o codecs) blobs ≡ ok entries
      → live e laws o codecs t ≡ splice (live e laws o codecs s) blobs
      → (z : Entry o R) → last entries ≡ some z
      → last_entry_id e o codecs (last_of (live e laws o codecs t)) t ≡ ok (some z.log_id)
  unfolding last_entry_id collect_all
  spliced-last i entries [] s t run h spliced z ends =
      let nothing : ◌≡◌ {A = List (Entry o R)} [] entries = cc in
      let lacks = ap last nothing ∙ ends in absurd (cc)
  spliced-last i entries (b ∷ bs) s t run h spliced z ends =
      let l = blobs-LastBlob e o codecs i entries b bs run h in
      let top : last_of (live e laws o codecs t) ≡ some l.position =
        rw spliced (last_of-append (below b.index (live e laws o codecs s)) b bs ∙ l.is_last) in
      let there : find l.position (live e laws o codecs t) ≡ some l.blob = rw spliced (
        find-below b.index l.position (live e laws o codecs s) (b ∷ bs)
          (omega (arith, run.0, l.low))
        ∙ l.found) in
      rw (top, laws.get_entry_lem, there, l.decoded)
        (ap (λ m. ok (Option.map (λ (x : Entry o R). x.log_id) m)) (sym l.last_entry ∙ ends))

  purged-log_state :
      (purged last_id : Outcome (Failure e o codecs) (Option o.LogId)) (ls : LogState o)
      (id : o.LogId)
      → log_state e laws o codecs purged last_id ≡ ok ls
      → log_state e laws o codecs purged (ok (some id)) ≡ ok (record ls { last_log_id = some id })
  unfolding or_else
  purged-log_state purged last_id ls id h =
      let (p, first, h₁) = succeeded purged _ h in
      let (l, second, h₂) = succeeded last_id _ h₁ in
      let same : record { last_purged_log_id = p; last_log_id = or_else l p } ≡ ls = cc in
      rw first (ap (λ (x : LogState o). ok (record x { last_log_id = some id })) same)

  -- After entries whose indexes count up were appended, with a codec that is faithful, the last log
  -- id is that of the last of them, whatever the log held before, and the last purged id is as it
  -- was, if the log state could be read then.
  pub get_log_state-append :
      IsFaithful (λ (a b : Entry o R). a ≡ b) codecs.entry
      → (i : ℕ) (xs : List (Entry o R)) (z : Entry o R) (s t : e.State) (ls : LogState o)
      → Run o i xs
      → last xs ≡ some z
      → append e o codecs xs s ≡ (flushed e o codecs, t)
      → get_log_state e o codecs s ≡ ok ls
      → get_log_state e o codecs t ≡ ok (record ls { last_log_id = some z.log_id })
  unfolding append
  get_log_state-append faithful i xs z s t ls run ends h before =
      let (blobs, encoded, spliced, kept) =
        append_blobs-splice e laws o codecs (collect_all (encode_entry e o codecs) xs) s t h in
      let c = encode-Encoded e o codecs faithful i xs blobs run encoded in
      let log = sym (get_log_state_lem e laws o codecs s) ∙ before in
      rw
        (
          get_log_state_lem e laws o codecs t,
          kept last_purged_key,
          spliced-last i xs blobs s t c.consecutive c.decodes spliced z ends,
        )
        (purged-log_state _ _ ls z.log_id log)
