-- ===== src/Raft/Store/Log.antt =====
-- What applying a batch of log entries does to a store: the requests run in order on the state
-- behind its handle, the other entries only answer, and nothing else changes.
pub mod Parts
use blun_mq.Base.{◌≡◌, ◌≢◌, refl, ◌∙◌, ap, List, [], ◌∷◌, ◌++◌, map_accum, Option, some}
use blun_mq.Base.Cells.{Arc, Cells, write_self, write_ne}
use blun_mq.Raft.Openraft.{Openraft, Entry, EntryPayload, blank, normal, membership}
use blun_mq.Raft.Store.{Machine, Store, apply, apply_entry, apply_payload}

module _ (o : Openraft) {R : Type 0} where
  abbrev pub request_of : EntryPayload o R → List R
  request_of blank = []
  request_of (normal r) = r ∷ []
  request_of (membership m) = []

  -- The requests among the entries.
  unfoldable pub requests : List (Entry o R) → List R
  requests [] = []
  requests (e ∷ es) = request_of e.payload ++ requests es

  -- The id of the last entry, or what it was before.
  unfoldable pub last_id : Option o.LogId → List (Entry o R) → Option o.LogId
  last_id l [] = l
  last_id l (e ∷ es) = last_id (some e.log_id) es

  abbrev stored_after : o.StoredMembership → Entry o R → EntryPayload o R → o.StoredMembership
  stored_after s e (membership m) = o.stored_new (some e.log_id) m
  stored_after s e blank = s
  stored_after s e (normal r) = s

  -- The last membership entry, or what was stored before.
  unfoldable pub last_stored : o.StoredMembership → List (Entry o R) → o.StoredMembership
  last_stored s [] = s
  last_stored s (e ∷ es) = last_stored (stored_after s e e.payload) es

-- The responses to the entries from those to the requests: the default for the other entries.
module _ (o : Openraft) {R X : Type 0} (default_response : X) where
  abbrev answer_of : EntryPayload o R → List X → X × List X
  answer_of (normal r) (x ∷ xs) = (x, xs)
  answer_of (normal r) [] = (default_response, [])
  answer_of blank xs = (default_response, xs)
  answer_of (membership m) xs = (default_response, xs)

  pub answers : List (Entry o R) → List X → List X
  answers [] xs = []
  answers (e ∷ es) xs = let (x, rest) = answer_of e.payload xs in x ∷ answers es rest

module _ (o : Openraft) (m : Machine) where
  -- One batch, from the cells and the store before it.
  pub record AppliesLog (cells : Cells m.State) (st : Store o) (es : List (Entry o m.Request))
      (responses : List m.Response) (cells' : Cells m.State) (st' : Store o) : Type 0 where
    pub state : cells' st.state ≡ (map_accum m.apply (cells st.state) (requests o es)).0
    pub others : (b : Arc) → st.state ≢ b → cells' b ≡ cells b
    pub answered :
        responses
        ≡ answers o m.default_response es (map_accum m.apply (cells st.state) (requests o es)).1
    pub store : st' ≡ record st {
      last_applied = last_id o st.last_applied es;
      last_membership = last_stored o st.last_membership es;
    }

  -- An entry in front of a batch.
  AppliesLog-cons :
      (cells : Cells m.State) (st : Store o) (log_id : o.LogId) (payload : EntryPayload o m.Request)
      (es : List (Entry o m.Request)) (responses : List m.Response) (cells' : Cells m.State)
      (st' : Store o)
      → let (x, cells₁, st₁) =
          apply_payload o m cells (record st { last_applied = some log_id }) log_id payload in
        AppliesLog cells₁ st₁ es responses cells' st'
        → AppliesLog cells st
            (record { log_id = log_id; payload = payload } ∷ es)
            (x ∷ responses)
            cells'
            st'
  unfolding apply requests last_id last_stored answers map_accum
  AppliesLog-cons cells st log_id blank es responses cells' st' h = record {
    state = h.state;
    others = h.others;
    answered = ap (λ xs. m.default_response ∷ xs) h.answered;
    store = h.store;
  }
  AppliesLog-cons cells st log_id (membership mem) es responses cells' st' h = record {
    state = h.state;
    others = h.others;
    answered = ap (λ xs. m.default_response ∷ xs) h.answered;
    store = h.store;
  }
  AppliesLog-cons cells st log_id (normal r) es responses cells' st' h =
      let (s, x) = m.apply (cells st.state) r in
      let written = write_self st.state s cells in
      record {
        state = h.state ∙ ap (λ t. (map_accum m.apply t (requests o es)).0) written;
        others = λ b ne. h.others b ne ∙ write_ne st.state b s cells ne;
        answered =
            ap (λ xs. x ∷ xs)
              (h.answered
                ∙ ap (λ t. answers o m.default_response es (map_accum m.apply t (requests o es)).1)
                    written);
        store = h.store;
      }

  -- A batch runs its requests in order on the store's own state and on no other, answers each entry
  -- in its place, and moves the last applied id and the membership to those of the last entries.
  pub apply-AppliesLog :
      (cells : Cells m.State) (st : Store o) (es : List (Entry o m.Request))
      → let (responses, cells', st') = apply o m cells st es in
        AppliesLog cells st es responses cells' st'
  unfolding apply requests last_id last_stored answers map_accum
  apply-AppliesLog cells st [] = record {
    state = refl;
    others = λ b ne. refl;
    answered = refl;
    store = refl;
  }
  apply-AppliesLog cells st (e ∷ es) =
      let (x, cells', st') = apply_entry o m cells st e in
      let (responses, cells'', st'') = apply o m cells' st' es in
      AppliesLog-cons cells st e.log_id e.payload es responses cells'' st''
        (apply-AppliesLog cells' st' es)

  -- The state behind the store's own handle after a batch.
  pub state-apply :
      (cells : Cells m.State) (st : Store o) (es : List (Entry o m.Request))
      → let (responses, cells', st') = apply o m cells st es in
        cells' st'.state ≡ (map_accum m.apply (cells st.state) (requests o es)).0
  state-apply cells st es =
      let a = apply-AppliesLog cells st es in
      ap (λ (s : Store o). (apply o m cells st es).1 s.state) a.store ∙ a.state

  -- Entries applied in two batches are applied as in one.
  pub apply-append :
      (cells : Cells m.State) (st : Store o) (es fs : List (Entry o m.Request))
      → let (xs, c₁, s₁) = apply o m cells st es in
        let (ys, c₂, s₂) = apply o m c₁ s₁ fs in apply o m cells st (es ++ fs) ≡ (xs ++ ys, c₂, s₂)
  unfolding apply
  apply-append cells st [] fs = refl
  apply-append cells st (e ∷ es) fs =
      let (x, c, s) = apply_entry o m cells st e in
      ap (λ (r : List m.Response × Cells m.State × Store o). (x ∷ r.0, r.1, r.2))
        (apply-append c s es fs)
