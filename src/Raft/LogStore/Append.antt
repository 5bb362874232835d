-- ===== src/Raft/LogStore/Append.antt =====
-- Appending entries: what the callback is told, and what the log then holds.
use blun_mq.Base.{
  ℕ, suc, ◌+◌, ◌≤◌, ◌≡◌, ◌≢◌, ◌↔◌, ◌⊎◌, inl, inr, refl, sym, ◌∙◌, ap, List, [], ◌∷◌, length, none,
  some, true, Bytes, Outcome, ok, err, panic, map_err, succeeded, map_err-eq-ok, subst, arith,
}
use blun_mq.Raft.Openraft.{Openraft, Entry}
use blun_mq.Raft.Serde.{IsFaithful}
use blun_mq.Raft.Engine.{Engine, Blob, IsLawful, below, from, splice, Consecutive}
use blun_mq.Raft.Engine.Spans.{span-splice, splice-below}
use blun_mq.Raft.LogStore.{
  Codecs, Failure, json, Appended, included, excluded, region_id, collect_all, encode_entry,
  decode_entry, try_get_log_entries, append, append_blobs, write_entries, report, truncate,
}
use blun_mq.Raft.LogStore.Reads.{live, message}
use blun_mq.Raft.LogStore.Keys.{commit-ok}

module _ (e : Engine) (o : Openraft) {R : Type 0} (codecs : Codecs o R) where
  abbrev pub flushed : Appended e o codecs
  flushed = record { result = ok tt; callback = some true }

  report-callback :
      (r : Outcome e.Error (Unit {0}))
      → ((report e o codecs r).callback ≡ some true) ↔ ((report e o codecs r).result ≡ ok tt)
  unfolding report
  report-callback (ok u) = (λ h. refl, λ h. refl)
  report-callback (err x) = (λ h. cc, λ h. cc)
  report-callback panic = (λ h. cc, λ h. cc)

  callback-report : (r : Outcome e.Error (Unit {0})) → (report e o codecs r).callback ≢ none
  unfolding report
  callback-report (ok u) h = cc
  callback-report (err x) h = cc
  callback-report panic h = cc

  append_blobs-callback :
      (encoded : Outcome (Failure e o codecs) (List Blob)) (s : e.State)
      → let (a, t) = append_blobs e o codecs encoded s in
        ((a.callback ≡ some true) ↔ (a.result ≡ ok tt)) × ((a.callback ≢ none) ⊎ (t ≡ s))
  unfolding append_blobs
  append_blobs-callback (ok blobs) s = (
    report-callback (write_entries e o codecs blobs s).0,
    inl (callback-report (write_entries e o codecs blobs s).0),
  )
  append_blobs-callback (err x) s = ((λ h. cc, λ h. cc), inr refl)
  append_blobs-callback panic s = ((λ h. cc, λ h. cc), inr refl)

  -- The callback hears of a flush exactly if the append succeeds, and if it hears nothing, nothing
  -- was written.
  pub append-callback :
      (entries : List (Entry o R)) (s : e.State)
      → let (a, t) = append e o codecs entries s in
        ((a.callback ≡ some true) ↔ (a.result ≡ ok tt)) × ((a.callback ≢ none) ⊎ (t ≡ s))
  unfolding append
  append-callback entries s =
      append_blobs-callback (collect_all (encode_entry e o codecs) entries) s

-- The index of each entry counts up from `i`.
abbrev pub Run : (o : Openraft) {R : Type 0} → ℕ → List (Entry o R) → Type 0
Run o i [] = Unit
Run o i (x ∷ xs) = (o.index x.log_id ≡ i) × Run o (i + 1) xs

module _ (e : Engine) (o : Openraft) {R : Type 0} (codecs : Codecs o R)
    (faithful : IsFaithful (λ (a b : Entry o R). a ≡ b) codecs.entry) where
  -- What entries that encode are as blobs.
  pub record Encoded (i : ℕ) (xs : List (Entry o R)) (blobs : List Blob) : Type 0 where
    pub consecutive : Consecutive i blobs
    pub lengths : length blobs ≡ length xs
    pub decodes : collect_all (decode_entry e o codecs) blobs ≡ ok xs

  encode_entry-ok :
      (x : Entry o R) (b : Blob)
      → encode_entry e o codecs x ≡ ok b
      → (b.index ≡ o.index x.log_id) × (decode_entry e o codecs b ≡ ok x)
  unfolding encode_entry decode_entry
  encode_entry-ok x b h =
      let (bytes, encoded, made) = succeeded (map_err json (codecs.entry.to_vec x)) _ h in
      let (y, decoded, same) =
        faithful.decode x bytes (map_err-eq-ok json (codecs.entry.to_vec x) encoded) in
      let is_b : record { index = o.index x.log_id; payload = bytes } ≡ b = cc in
      (
        sym (ap (λ (b : Blob). b.index) is_b),
        subst
            (λ b. map_err {F = Failure e o codecs} json (codecs.entry.from_slice b.payload) ≡ ok x)
            is_b (rw decoded (ap ok (sym same))),
      )

  Encoded-cons :
      (i : ℕ) (x : Entry o R) (xs : List (Entry o R)) (b : Blob) (bs : List Blob)
      → (b.index ≡ i) × (decode_entry e o codecs b ≡ ok x)
      → Encoded (i + 1) xs bs
      → Encoded i (x ∷ xs) (b ∷ bs)
  unfolding collect_all
  Encoded-cons i x xs b bs (at, d) h = record {
    consecutive = (at, h.consecutive);
    lengths = ap suc h.lengths;
    decodes = rw (d, h.decodes);
  }

  pub encode-Encoded :
      (i : ℕ) (xs : List (Entry o R)) (blobs : List Blob)
      → Run o i xs
      → collect_all (encode_entry e o codecs) xs ≡ ok blobs
      → Encoded i xs blobs
  unfolding collect_all
  encode-Encoded i [] blobs run h =
      let is_nil : ◌≡◌ {A = List Blob} [] blobs = cc in
      subst (Encoded i []) is_nil (record { consecutive = tt; lengths = refl; decodes = refl })
  encode-Encoded i (x ∷ xs) blobs (at, run) h =
      let (b, first, h₁) = succeeded (encode_entry e o codecs x) _ h in
      let (bs, more, h₂) = succeeded (collect_all (encode_entry e o codecs) xs) _ h₁ in
      let is_cons : b ∷ bs ≡ blobs = cc in
      let (index, d) = encode_entry-ok x b first in
      subst (Encoded i (x ∷ xs)) is_cons
        (Encoded-cons i x xs b bs (index ∙ at, d) (encode-Encoded (i + 1) xs bs run more))

module _ (e : Engine) (laws : IsLawful e) (o : Openraft) {R : Type 0} (codecs : Codecs o R) where
  report-flushed :
      (r : Outcome e.Error (Unit {0}) × e.State) (t : e.State)
      → ◌≡◌ {A = Appended e o codecs × e.State} (report e o codecs r.0, r.1) (flushed e o codecs, t)
      → r ≡ (ok tt, t)
  unfolding report
  report-flushed (ok u, s) t h = cc
  report-flushed (err x, s) t h = cc
  report-flushed (panic, s) t h = cc

  -- A successful append encoded its entries and spliced them into the log.
  pub append_blobs-splice :
      (encoded : Outcome (Failure e o codecs) (List Blob)) (s t : e.State)
      → append_blobs e o codecs encoded s ≡ (flushed e o codecs, t)
      → (blobs : List Blob) × (encoded ≡ ok blobs)
        × (live e laws o codecs t ≡ splice (live e laws o codecs s) blobs)
        × ((key : Bytes) → message e laws o codecs t key ≡ message e laws o codecs s key)
  unfolding append_blobs write_entries
  append_blobs-splice (ok blobs) s t h =
      let written = report-flushed (write_entries e o codecs blobs s) t h in
      let (batch, filled, done) =
        commit-ok e laws o codecs (e.add_entries region_id blobs e.empty_batch) s t written in
      let (messages, entries) = laws.add_lem s t region_id blobs batch filled done in
      (blobs, refl, entries, messages)
  append_blobs-splice (err x) s t h = absurd (cc)
  append_blobs-splice panic s t h = absurd (cc)

module _ (e : Engine) (laws : IsLawful e) (o : Openraft) {R : Type 0} (codecs : Codecs o R)
    (faithful : IsFaithful (λ (a b : Entry o R). a ≡ b) codecs.entry) where
  -- Entries that stand in the log as blobs are what is read from their range.
  pub try_get_log_entries-Encoded :
      (i : ℕ) (xs : List (Entry o R)) (blobs : List Blob) (t : e.State)
      → Encoded e o codecs faithful i xs blobs
      → from i (below (i + length xs) (live e laws o codecs t)) ≡ blobs
      → try_get_log_entries e o codecs (included i) (excluded (i + length xs)) t ≡ ok xs
  unfolding try_get_log_entries
  try_get_log_entries-Encoded i xs blobs t c span =
      let fetched : e.fetch_entries_to region_id i (i + length xs) t ≡ ok blobs = rw span at (
        laws.fetch_entries_to_lem t region_id i (i + length xs) (rw span c.consecutive)
          (rw span (ap (λ n. i + n) c.lengths))) in
      rw fetched c.decodes

  -- What a successful append leaves in the log.
  pub append-Encoded :
      (i : ℕ) (xs : List (Entry o R)) (s t : e.State)
      → Run o i xs
      → append e o codecs xs s ≡ (flushed e o codecs, t)
      → (blobs : List Blob) × Encoded e o codecs faithful i xs blobs
        × (from i (below (i + length xs) (live e laws o codecs t)) ≡ blobs)
        × ((key : Bytes) → message e laws o codecs t key ≡ message e laws o codecs s key)
  unfolding append
  append-Encoded i xs s t run h =
      let (blobs, encoded, spliced, messages) =
        append_blobs-splice e laws o codecs (collect_all (encode_entry e o codecs) xs) s t h in
      let c = encode-Encoded e o codecs faithful i xs blobs run encoded in
      (
        blobs,
        c,
        rw (spliced, ← c.lengths) (span-splice i (live e laws o codecs s) blobs c.consecutive),
        messages,
      )

  -- Entries that were appended are what is read back from their range of indexes, whatever the log
  -- held before.
  pub try_get_log_entries-append :
      (i : ℕ) (xs : List (Entry o R)) (s t : e.State)
      → Run o i xs
      → append e o codecs xs s ≡ (flushed e o codecs, t)
      → try_get_log_entries e o codecs (included i) (excluded (i + length xs)) t ≡ ok xs
  try_get_log_entries-append i xs s t run h =
      let (blobs, c, span, _) = append-Encoded i xs s t run h in
      try_get_log_entries-Encoded i xs blobs t c span

  -- `truncate` itself removes nothing: what the store holds is as before. If the next append begins
  -- at or below the truncated index, the log is the one that an eager removal would have left.
  pub append-truncate :
      (id : o.LogId) (i : ℕ) (x : Entry o R) (xs : List (Entry o R)) (s s' t : e.State)
      → truncate e o codecs id s ≡ (ok tt, s')
      → i ≤ o.index id
      → Run o i (x ∷ xs)
      → append e o codecs (x ∷ xs) s' ≡ (flushed e o codecs, t)
      → (s' ≡ s)
        × ((blobs : List Blob) × (collect_all (encode_entry e o codecs) (x ∷ xs) ≡ ok blobs)
            × (live e laws o codecs t ≡ splice (below (o.index id) (live e laws o codecs s)) blobs))
  unfolding truncate append
  append-truncate id i x xs s s' t h le run flush =
      let same : s ≡ s' = cc in
      let (blobs, encoded, spliced, _) =
        append_blobs-splice e laws o codecs (collect_all (encode_entry e o codecs) (x ∷ xs)) s' t
          flush in
      let c = encode-Encoded e o codecs faithful i (x ∷ xs) blobs run encoded in
      let filled : blobs ≢ [] = λ none_left. omega (arith, c.lengths, ap length none_left) in
      (
        sym same,
        (
          blobs,
          encoded,
          spliced
              ∙ sym (
                  splice-below i (o.index id) (live e laws o codecs s') blobs c.consecutive le
                    filled)
              ∙ ap (λ s. splice (below (o.index id) (live e laws o codecs s)) blobs) (sym same),
        ),
      )
