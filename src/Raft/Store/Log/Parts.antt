-- ===== src/Raft/Store/Log/Parts.antt =====
-- Logs that are put together from parts, and parts of a log.
use blun_mq.Base.{
  ℕ, ◌+◌, ◌≡◌, refl, sym, ◌∙◌, ap, subst, List, [], ◌∷◌, ◌++◌, length, append_assoc, append_inj,
  Option, none, some, arith,
}
use blun_mq.Raft.Openraft.{Openraft, Entry}
use blun_mq.Raft.LogStore.Append.{Run}
use blun_mq.Raft.Store.Log.{request_of, requests, last_id, last_stored, stored_after}

-- How many entries there are up to an id.
abbrev position : (o : Openraft) → Option o.LogId → ℕ
position o none = 0
position o (some id) = o.index id + 1

module _ (o : Openraft) {R : Type 0} where
  pub requests-append :
      (es fs : List (Entry o R)) → requests o (es ++ fs) ≡ requests o es ++ requests o fs
  unfolding requests
  requests-append [] fs = refl
  requests-append (e ∷ es) fs =
      ap (λ rs. request_of o e.payload ++ rs) (requests-append es fs)
      ∙ sym (append_assoc (request_of o e.payload) (requests o es) (requests o fs))

  pub last_id-append :
      (l : Option o.LogId) (es fs : List (Entry o R))
      → last_id o l (es ++ fs) ≡ last_id o (last_id o l es) fs
  unfolding last_id
  last_id-append l [] fs = refl
  last_id-append l (e ∷ es) fs = last_id-append (some e.log_id) es fs

  pub last_stored-append :
      (s : o.StoredMembership) (es fs : List (Entry o R))
      → last_stored o s (es ++ fs) ≡ last_stored o (last_stored o s es) fs
  unfolding last_stored
  last_stored-append s [] fs = refl
  last_stored-append s (e ∷ es) fs = last_stored-append (stored_after o s e e.payload) es fs

  position-last_id :
      (l : Option o.LogId) (es : List (Entry o R))
      → Run o (position o l) es
      → position o (last_id o l es) ≡ position o l + length es
  unfolding last_id
  position-last_id l [] run = omega arith
  position-last_id l (e ∷ es) (at, run) =
      let ih = position-last_id (some e.log_id) es (subst (λ n. Run o (n + 1) es) (sym at) run) in
      omega (arith, at, ih)

  pub Run-append :
      (i : ℕ) (es fs : List (Entry o R))
      → Run o i es
      → Run o (i + length es) fs
      → Run o i (es ++ fs)
  Run-append i [] fs run more = subst (λ n. Run o n fs) (omega arith) more
  Run-append i (e ∷ es) fs (at, run) more =
      (at, Run-append (i + 1) es fs run (subst (λ n. Run o n fs) (omega arith) more))

  Run-before : (i : ℕ) (es fs : List (Entry o R)) → Run o i (es ++ fs) → Run o i es
  Run-before i [] fs run = tt
  Run-before i (e ∷ es) fs (at, run) = (at, Run-before (i + 1) es fs run)

  -- The parts of a log up to the same id are the same.
  pub same_part :
      (bs cs : List (Entry o R)) {rest rest' : List (Entry o R)}
      → Run o 0 (bs ++ rest)
      → bs ++ rest ≡ cs ++ rest'
      → last_id o none bs ≡ last_id o none cs
      → (bs ≡ cs) × (rest ≡ rest')
  same_part bs cs {rest} {rest'} run h same =
      let as_many = position-last_id none bs (Run-before 0 bs rest run) in
      let as_many' = position-last_id none cs (Run-before 0 cs rest' (rw h at run)) in
      append_inj bs cs h (omega (arith, ap (position o) same, as_many, as_many'))
