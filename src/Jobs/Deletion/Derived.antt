-- ===== src/Jobs/Deletion/Derived.antt =====
-- The commits that deleteCommit removes against those derived from the commit.
use mathlib.Core.Path.{subst}
use sandman.Prelude.{
  Bytes, ℕ, zero, suc, ◌+◌, ◌≤◌, ◌≡◌, ◌↔◌, refl, sym, ap, ◌∙◌, inl, inr, Bool, true, false, ◌||◌,
  ◌&&◌, not, List, [], ◌∷◌, ◌++◌, length, if◌then◌else◌, eqs, eqs_iff, eqs_refl, Bool-cases, Elem,
  at_head, in_tail, arith,
}
use sandman.Prelude.Map.{Map, get, put, get-put}
use sandman.Prelude.Sort.{mem}
use sandman.Prelude.Unique.{IsUnique, mem-append, subset_length}
use sandman.Jobs.Deletion.{Job, outputs_at, add_inputs, by_input, visit, close_over, deletion_set}

-- The commit `root`, and the outputs of the jobs that consumed a commit derived from it.
pub data IsDerived (jobs : List Job) (root : Bytes) : Bytes → Type 0 where
  the_root : IsDerived jobs root root
  by_job :
      {c : Bytes} (j : Job)
      → Elem j jobs
      → mem c j.input_commits ≡ true
      → IsDerived jobs root c
      → IsDerived jobs root j.output_commit

-- Does some job consume `c` and put out `o`?
unfoldable pub consumed : List Job → Bytes → Bytes → Bool
unfolding mem
consumed [] c o = false
consumed (j ∷ js) c o = (mem c j.input_commits && eqs j.output_commit o) || consumed js c o

outputs_at-put :
    (e d : Bytes) (l : List Bytes) (m : Map (List Bytes))
    → outputs_at (put e l m) d ≡ (if eqs e d then l else outputs_at m d)
outputs_at-put e d l m =
    rw (outputs_at, get-put e d l m)
      (elim (Bool-cases (eqs e d)) [ inl b ↦ rw b refl | inr b ↦ rw b refl ])

mem-add_inputs :
    (ics : List Bytes) (out c o : Bytes) (m : Map (List Bytes))
    → mem o (outputs_at (add_inputs ics out m) c)
      ≡ (mem o (outputs_at m c) || (mem c ics && eqs out o))
unfolding add_inputs mem
mem-add_inputs [] out c o m = ground arith
mem-add_inputs (ic ∷ ics) out c o m =
    let p = outputs_at-put ic c (outputs_at m ic ++ out ∷ []) m in
    let a = mem-append o (outputs_at m ic) (out ∷ []) in
    mem-add_inputs ics out c o (put ic (outputs_at m ic ++ out ∷ []) m)
    ∙ elim (Bool-cases (eqs ic c)) [
      | inl b ↦ rw (p, b, a) (rw ((eqs_iff ic c).0 b) (ground arith))
      | inr b ↦ rw (p, b) refl
    ]

mem-by_input :
    (js : List Job) (c o : Bytes) (m : Map (List Bytes))
    → mem o (outputs_at (by_input js m) c) ≡ (mem o (outputs_at m c) || consumed js c o)
unfolding by_input consumed
mem-by_input [] c o m = ground arith
mem-by_input (j ∷ js) c o m =
    mem-by_input js c o (add_inputs j.input_commits j.output_commit m)
    ∙ rw (mem-add_inputs j.input_commits j.output_commit c o m) (ground arith)

consumed_job :
    (js : List Job) (c o : Bytes)
    → consumed js c o ≡ true
    → (j : Job) × Elem j js × (mem c j.input_commits ≡ true) × (j.output_commit ≡ o)
unfolding consumed
consumed_job [] c o h = absurd (ground arith)
consumed_job (j ∷ js) c o h = elim (Bool-cases (mem c j.input_commits && eqs j.output_commit o)) [
  | inl b ↦ (j, at_head, ground arith, (eqs_iff j.output_commit o).0 (ground arith))
  | inr b ↦ let r = consumed_job js c o (ground arith) in (r.0, in_tail r.1, r.2, r.3)
]

job_consumed :
    (j : Job) (js : List Job) (c : Bytes)
    → Elem j js
    → mem c j.input_commits ≡ true
    → consumed js c j.output_commit ≡ true
unfolding consumed
job_consumed j js c at_head h = rw (h, eqs_refl j.output_commit) refl
job_consumed j (i ∷ js) c (in_tail e) h = ground (arith, job_consumed j js c e h)

same_mem : (o x : Bytes) (l : List Bytes) → eqs o x ≡ true → mem x l ≡ mem o l
same_mem o x l e = rw ((eqs_iff o x).0 e) refl

visit_deleted :
    (outs deleted queue : List Bytes) (x : Bytes)
    → mem x (visit outs deleted queue).0 ≡ (mem x deleted || mem x outs)
unfolding visit mem
visit_deleted [] deleted queue x = ground arith
visit_deleted (o ∷ outs) deleted queue x =
    visit_deleted outs (if mem o deleted then deleted else o ∷ deleted)
      (if mem o deleted then queue else o ∷ queue) x
    ∙ elim (Bool-cases (mem o deleted)) [
      | inl b ↦ rw b (let s = same_mem o x deleted in ground (arith, s))
      | inr b ↦ rw b (let s = same_mem o x deleted in ground (arith, s))
    ]

visit_queue :
    (outs deleted queue : List Bytes) (x : Bytes)
    → mem x (visit outs deleted queue).1 ≡ (mem x queue || (mem x outs && not (mem x deleted)))
unfolding visit mem
visit_queue [] deleted queue x = ground arith
visit_queue (o ∷ outs) deleted queue x =
    visit_queue outs (if mem o deleted then deleted else o ∷ deleted)
      (if mem o deleted then queue else o ∷ queue) x
    ∙ elim (Bool-cases (mem o deleted)) [
      | inl b ↦ rw b (let s = same_mem o x deleted in ground (arith, s))
      | inr b ↦ rw b (let s = same_mem o x deleted in ground (arith, s))
    ]

visit-IsUnique :
    (outs deleted queue : List Bytes) → IsUnique deleted → IsUnique (visit outs deleted queue).0
unfolding visit mem
visit-IsUnique [] deleted queue u = u
visit-IsUnique (o ∷ outs) deleted queue u =
    visit-IsUnique outs (if mem o deleted then deleted else o ∷ deleted)
      (if mem o deleted then queue else o ∷ queue)
      (elim (Bool-cases (mem o deleted)) [ inl b ↦ rw b u | inr b ↦ rw b (b, u) ])

length-visit :
    (outs deleted queue : List Bytes)
    → length (visit outs deleted queue).1 + length deleted
      ≡ length queue + length (visit outs deleted queue).0
unfolding visit
length-visit [] deleted queue = refl
length-visit (o ∷ outs) deleted queue = elim (Bool-cases (mem o deleted)) [
  | inl b ↦ rw (length, b) (length-visit outs deleted queue)
  | inr b ↦ rw (length, b) (let h = length-visit outs (o ∷ deleted) (o ∷ queue) in omega (arith, h))
]

module _ (jobs : List Job) (root : Bytes) where
  abbrev inputs : Map (List Bytes)
  inputs = by_input jobs []

  mem-inputs : (c o : Bytes) → mem o (outputs_at inputs c) ≡ consumed jobs c o
  unfolding get mem
  mem-inputs c o = mem-by_input jobs c o []

  record IsClosing (deleted queue : List Bytes) : Type 0 where
    sound : (x : Bytes) → mem x deleted ≡ true → IsDerived jobs root x
    closed :
        (x o : Bytes)
        → mem x deleted ≡ true
        → mem x queue ≡ false
        → mem o (outputs_at inputs x) ≡ true
        → mem o deleted ≡ true
    stacked : (x : Bytes) → mem x queue ≡ true → mem x deleted ≡ true
    unique : IsUnique deleted
    started : mem root deleted ≡ true

  abbrev outputs : List Job → List Bytes
  outputs [] = []
  outputs (j ∷ js) = j.output_commit ∷ outputs js

  visit_step :
      (deleted queue : List Bytes) (cur : Bytes)
      → IsClosing deleted (cur ∷ queue)
      → IsClosing
          (visit (outputs_at inputs cur) deleted queue).0
          (visit (outputs_at inputs cur) deleted queue).1
  unfolding mem
  visit_step deleted queue cur i =
      let outs = outputs_at inputs cur in
      let d = visit_deleted outs deleted queue in
      let q = visit_queue outs deleted queue in
      record {
        sound = λ x h. elim (Bool-cases (mem x deleted)) [
          | inl b ↦ i.sound x b
          | inr b ↦
              let r = consumed_job jobs cur x (sym (mem-inputs cur x) ∙ ground (arith, d x)) in
              subst (IsDerived jobs root) r.3
                (by_job r.0 r.1 r.2 (i.sound cur (i.stacked cur (rw (eqs_refl cur) refl))))
        ];
        closed = λ x o h k m. elim (Bool-cases (eqs cur x)) [
          | inl e ↦ let n : mem o outs ≡ true = rw ((eqs_iff cur x).0 e) m in ground (arith, d o)
          | inr e ↦
              let n = i.closed x o (ground (arith, d x, q x)) (ground (arith, q x)) m in
              ground (arith, d o)
        ];
        stacked = λ x h. ground (arith, d x, q x, i.stacked x);
        unique = visit-IsUnique outs deleted queue i.unique;
        started = ground (arith, d root, i.started);
      }

  IsDerived-output : (x : Bytes) → IsDerived jobs root x → mem x (root ∷ outputs jobs) ≡ true
  unfolding mem
  IsDerived-output x the_root = rw (eqs_refl root) refl
  IsDerived-output x (by_job j e m h) = ground (arith, among j jobs e)
    where
      among : (i : Job) (js : List Job) → Elem i js → mem i.output_commit (outputs js) ≡ true
      among i js at_head = rw (eqs_refl i.output_commit) refl
      among i (k ∷ js) (in_tail f) = ground (arith, among i js f)

  length-outputs : (js : List Job) → length (outputs js) ≡ length js
  length-outputs [] = refl
  length-outputs (j ∷ js) = ap suc (length-outputs js)

  close_over-IsClosing :
      (k : ℕ) (deleted queue : List Bytes)
      → IsClosing deleted queue
      → length queue + suc (length jobs) ≤ k + length deleted
      → IsClosing (close_over k inputs deleted queue) []
  unfolding close_over
  close_over-IsClosing zero deleted [] i l = i
  close_over-IsClosing zero deleted (c ∷ queue) i l = absurd (
      let b =
        subset_length deleted (root ∷ outputs jobs) i.unique
          (λ x h. IsDerived-output x (i.sound x h)) in
      omega (arith, l, b, length-outputs jobs))
  close_over-IsClosing (suc k) deleted [] i l = i
  close_over-IsClosing (suc k) deleted (c ∷ queue) i l =
      let outs = outputs_at inputs c in
      close_over-IsClosing k (visit outs deleted queue).0 (visit outs deleted queue).1
        (visit_step deleted queue c i) (omega (arith, l, length-visit outs deleted queue))

  deletion_set-IsClosing : IsClosing (deletion_set jobs root) []
  unfolding deletion_set mem
  deletion_set-IsClosing =
      close_over-IsClosing (suc (length jobs)) (root ∷ []) (root ∷ [])
        (record {
          sound = λ x h. subst (IsDerived jobs root) ((eqs_iff root x).0 (ground arith)) the_root;
          closed = λ x o h k m. absurd (ground (arith, h, k));
          stacked = λ x h. h;
          unique = (refl, tt);
          started = rw (eqs_refl root) refl;
        })
        (omega arith)

  derived-deleted : (x : Bytes) → IsDerived jobs root x → mem x (deletion_set jobs root) ≡ true
  unfolding mem
  derived-deleted x the_root = deletion_set-IsClosing.started
  derived-deleted x (by_job {c} j e m h) =
      deletion_set-IsClosing.closed c j.output_commit (derived-deleted c h) refl
        (mem-inputs c j.output_commit ∙ job_consumed j jobs c e m)

  -- The commits that are marked are exactly those derived from the given one. The loop ends within
  -- as many rounds as there are jobs and one more.
  pub deletion_set_lem :
      (x : Bytes) → (mem x (deletion_set jobs root) ≡ true) ↔ IsDerived jobs root x
  deletion_set_lem x = (deletion_set-IsClosing.sound x, derived-deleted x)
