-- ===== src/Jobs/Pairing/Siblings.antt =====
-- The check for a job that consumes the same inputs.
use sandman.Prelude.{
  Bytes, ℕ, ◌≡◌, ◌↔◌, refl, sym, ◌∙◌, inl, inr, true, false, not, ◌&&◌, ◌||◌, List, [], ◌∷◌, ◌++◌,
  if◌then◌else◌, eqs, eqs_iff, eqs_refl, Bool-cases, Elem, at_head, in_tail, All, arith,
}
use sandman.Prelude.Sort.{mem}
use sandman.Prelude.Unique.{IsUnique, mem-append, append-IsUnique, subset_length}
use sandman.Store.Data.{Commit}
use sandman.Jobs.Deletion.{Job}
use sandman.Jobs.Pairing.{
  ids_of, id_set, all_in, consumes, is_pending, running_with, has_running_job_with_inputs,
  new_job_rec,
}

same :
    (id c : Bytes) (set : List Bytes)
    → eqs id c ≡ true
    → (mem c set ≡ mem id set) × (eqs c [] ≡ eqs id [])
same id c set e = rw ((eqs_iff id c).0 e) (refl, refl)

id_set_lem :
    (c : Bytes) (set ids : List Bytes)
    → mem c (id_set set ids) ≡ (mem c set || (mem c ids && not (eqs c [])))
unfolding id_set mem
id_set_lem c set [] = ground arith
id_set_lem c set (id ∷ ids) =
    id_set_lem c (if eqs id [] || mem id set then set else set ++ id ∷ []) ids
    ∙ elim (Bool-cases (eqs id [] || mem id set)) [
      | inl b ↦ rw b (let e = same id c set in ground (arith, e))
      | inr b ↦ rw (b, mem-append c set (id ∷ [])) (let e = same id c set in ground (arith, e))
    ]

id_set-IsUnique : (set ids : List Bytes) → IsUnique set → IsUnique (id_set set ids)
unfolding id_set
id_set-IsUnique set [] u = u
id_set-IsUnique set (id ∷ ids) u = elim (Bool-cases (eqs id [] || mem id set)) [
  | inl b ↦ rw b (id_set-IsUnique set ids u)
  | inr b ↦ rw b (id_set-IsUnique (set ++ id ∷ []) ids (append-IsUnique id set (ground arith) u))
]

all_in_lem :
    (set ics : List Bytes) (c : Bytes) → all_in set ics ≡ true → mem c ics ≡ true → mem c set ≡ true
unfolding mem
all_in_lem set [] c h m = cc
all_in_lem set (ic ∷ ics) c h m = elim (Bool-cases (eqs ic c)) [
  | inl b ↦ rw⁻¹ ((eqs_iff ic c).0 b) (ground arith)
  | inr b ↦ all_in_lem set ics c (ground arith) (ground arith)
]

in_all :
    (set ics : List Bytes)
    → ((c : Bytes) → mem c ics ≡ true → mem c set ≡ true)
    → all_in set ics ≡ true
unfolding mem
in_all set [] h = refl
in_all set (ic ∷ ics) h =
    rw (h ic (rw (eqs_refl ic) refl)) (in_all set ics (λ c m. h c (ground arith)))

module _ (pipeline : Bytes) (heads : List Commit) where
  -- A job of the pipeline that is running or queued and consumes the heads: its inputs are the ids
  -- of the heads that are not empty.
  pub record IsSibling (j : Job) : Type 0 where
    pub owned : j.pipeline ≡ pipeline
    pub pending : is_pending j ≡ true
    pub same_inputs : (c : Bytes) → mem c j.input_commits ≡ (mem c (ids_of heads) && not (eqs c []))

  abbrev set : List Bytes
  set = id_set [] (ids_of heads)

  consumes_lem :
      (j : Job)
      → IsUnique j.input_commits
      → consumes set j ≡ true
      → (c : Bytes) → mem c j.input_commits ≡ mem c set
  unfolding mem
  consumes_lem j u h c = elim (Bool-cases (mem c j.input_commits)) [
    | inl e ↦ e ∙ sym (all_in_lem set j.input_commits c (ground arith) e)
    | inr e ↦ e ∙ sym (absent e)
  ]
    where
      absent : mem c j.input_commits ≡ false → mem c set ≡ false
      absent e = elim (Bool-cases (mem c set)) [
        | inr k ↦ k
        | inl k ↦ absurd (
            let l =
              subset_length (c ∷ j.input_commits) set (e, u)
                (λ d m. elim (Bool-cases (eqs c d)) [
                  | inl b ↦ rw⁻¹ ((eqs_iff c d).0 b) k
                  | inr b ↦ all_in_lem set j.input_commits d (ground arith) (ground arith)
                ]) in
            ground (arith, l, h))
      ]

  sibling_consumes :
      (j : Job)
      → IsUnique j.input_commits
      → ((c : Bytes) → mem c j.input_commits ≡ mem c set)
      → consumes set j ≡ true
  sibling_consumes j u h =
      let a = subset_length j.input_commits set u (λ c m. sym (h c) ∙ m) in
      let b =
        subset_length set j.input_commits (id_set-IsUnique [] (ids_of heads) tt) (λ c m. h c ∙ m) in
      let k = in_all set j.input_commits (λ c m. sym (h c) ∙ m) in ground (arith, a, b, k)

  found :
      (jobs : List Job)
      → All (λ (j : Job). IsUnique j.input_commits) jobs
      → running_with jobs pipeline set ≡ true
      → (j : Job) × Elem j jobs × IsSibling j
  unfolding running_with mem
  found [] u h = absurd (ground arith)
  found (j ∷ js) u h = elim (Bool-cases (not (eqs j.pipeline pipeline) || not (is_pending j))) [
    | inl b ↦ let r = found js u.1 (ground arith) in (r.0, in_tail r.1, r.2)
    | inr b ↦ elim (Bool-cases (consumes set j)) [
      | inl k ↦ (
        j,
        at_head,
        record {
          owned = (eqs_iff j.pipeline pipeline).0 (ground arith);
          pending = ground arith;
          same_inputs = λ c. consumes_lem j u.0 k c ∙ id_set_lem c [] (ids_of heads);
        },
      )
      | inr k ↦ let r = found js u.1 (ground (arith, h)) in (r.0, in_tail r.1, r.2)
    ]
  ]

  finds :
      (j : Job) (jobs : List Job)
      → All (λ (i : Job). IsUnique i.input_commits) jobs
      → Elem j jobs
      → IsSibling j
      → running_with jobs pipeline set ≡ true
  unfolding running_with mem
  finds j [] u e s = elim e [ ]
  finds j (i ∷ js) u at_head s =
      let k =
        sibling_consumes i u.0 (λ c. s.same_inputs c ∙ sym (id_set_lem c [] (ids_of heads))) in
      let o : eqs i.pipeline pipeline ≡ true = rw s.owned (eqs_refl pipeline) in
      rw (o, s.pending, k) refl
  finds j (i ∷ js) u (in_tail e) s = let r = finds j js u.1 e s in ground (arith, r)

  -- hasRunningJobWithInputs finds a job exactly when one of the jobs is of the pipeline, is running or
  -- queued, and consumes the ids of the heads that are not empty and no other commit, in any order,
  -- where each job lists each of its inputs once.
  pub has_running_job_with_inputs_lem :
      (jobs : List Job)
      → All (λ (j : Job). IsUnique j.input_commits) jobs
      → (has_running_job_with_inputs jobs pipeline heads ≡ true)
        ↔ ((j : Job) × Elem j jobs × IsSibling j)
  unfolding has_running_job_with_inputs
  has_running_job_with_inputs_lem jobs u = (found jobs u, λ r. finds r.0 jobs u r.1 r.2)

-- The jobs that newJobRec makes list each input once.
pub new_job_rec-IsUnique :
    (now pipeline : Bytes) (version : ℕ) (heads : List Commit) (id : Bytes)
    → IsUnique (new_job_rec now pipeline version heads id).input_commits
new_job_rec-IsUnique now pipeline version heads id = id_set-IsUnique [] (ids_of heads) tt
