-- ===== src/Transactions/Finish/Atomic.antt =====
-- A transaction that fails (finishTransaction with rollbackTx).
use sandman.Prelude.{
  Bytes, ℕ, ◌≤◌, ◌≡◌, ◌⊎◌, refl, sym, ap, ◌∙◌, true, false, ◌&&◌, Option, none, some, List, [], ◌∷◌,
  Bool-cases, inl, inr, eqs, eqs_iff, some_inj, arith,
}
use sandman.Prelude.Map.{get}
use sandman.Prelude.Result.{Result, ok, err, Done}
use sandman.Pipelines.Declared.{Pipeline}
use sandman.Pipelines.Records.{PipelineRec, rec_in, Pipes, Outside, load_pipeline, archived}
use sandman.Pipelines.Applying.{cancel_pipeline_jobs, apply_create, apply_update}
use sandman.Pipelines.Validate.Sides.{is_ok}
use sandman.Transactions.Check.{Kind, create, update, other, TxOp, TxError, of_create, of_update}
use sandman.Transactions.Finish.{go_on, apply_found, apply_kind, apply_ops}
use sandman.Transactions.Finish.Undo.{is_create, first_of, no_create, IsSame, archived_same}
use sandman.Transactions.Finish.Applied.{apply_create_other, apply_update_other, apply_update_own}

-- Whether a call succeeds does not depend on what it returns.
is_ok_same {ℓ κ μ ν} :
    {A : Type ℓ} {B : Type κ} {E : Type μ} {F : Type ν} (r : Result E A) (f : E → F) (g : A → B)
    → is_ok {E = F} {A = B} (elim r [ err e ↦ err (f e) | ok a ↦ ok (g a) ]) ≡ is_ok r
is_ok_same (ok a) f g = refl
is_ok_same (err e) f g = refl

module _ (o : Outside) (n : Bytes) where
  apply_found_other :
      (d : Pipes) (p : Pipeline) (r : Option PipelineRec)
      → (is_ok (apply_found o d p r).1 ≡ false) ⊎ (eqs p.name n ≡ false)
      → IsSame n d (apply_found o d p r).0
  apply_found_other d p none h = (refl, refl)
  apply_found_other d p (some rec) (inl h) =
      let e = cancel_pipeline_jobs d p.name in
      apply_update_other o n e rec p
        (inl (sym (is_ok_same (apply_update o e rec p).1 of_update (λ r. r.spec_commit)) ∙ h))
  apply_found_other d p (some rec) (inr h) =
      apply_update_other o n (cancel_pipeline_jobs d p.name) rec p (inr h)

  apply_kind_other :
      (d : Pipes) (k : Kind) (p : Pipeline)
      → (is_ok (apply_kind o d k p).1 ≡ false) ⊎ (eqs p.name n ≡ false)
      → IsSame n d (apply_kind o d k p).0
  apply_kind_other d create p (inl h) =
      apply_create_other o n d p
        (inl (sym (is_ok_same (apply_create o d p).1 of_create (λ r. r.spec_commit)) ∙ h))
  apply_kind_other d create p (inr h) = apply_create_other o n d p (inr h)
  apply_kind_other d update p h = apply_found_other d p (load_pipeline d p.name) h
  apply_kind_other d (other k) p h = (refl, refl)

  -- The archive of a version that the name has had, and a version that is not lower.
  abbrev HasArchive : Pipes → ℕ → Type 0
  HasArchive d b = (rec : PipelineRec) × (load_pipeline d n ≡ some rec) × (b ≤ rec.version)

  apply_found_own :
      (d : Pipes) (p : Pipeline) (b : ℕ) (rec : PipelineRec)
      → is_ok (apply_found o d p (some rec)).1 ≡ true
      → p.name ≡ n
      → b ≤ rec.version
      → (archived (apply_found o d p (some rec)).0 n b ≡ archived d n b)
        × HasArchive (apply_found o d p (some rec)).0 b
  apply_found_own d p b rec h e l =
      let c = cancel_pipeline_jobs d p.name in
      let (a, r) =
        apply_update_own o n c rec p b
          (sym (is_ok_same (apply_update o c rec p).1 of_update (λ r. r.spec_commit)) ∙ h) e l in
      (a, (r.0, r.1, omega (arith, l, r.2)))

  same_load : (d e : Pipes) → IsSame n d e → load_pipeline e n ≡ load_pipeline d n
  unfolding load_pipeline
  same_load d e h = ap rec_in h.0

  apply_found_kept :
      (d : Pipes) (p : Pipeline) (b : ℕ) (r : Option PipelineRec) (rec : PipelineRec)
      → r ≡ some rec
      → is_ok (apply_found o d p r).1 ≡ true
      → p.name ≡ n
      → b ≤ rec.version
      → (archived (apply_found o d p r).0 n b ≡ archived d n b)
        × HasArchive (apply_found o d p r).0 b
  apply_found_kept d p b none rec q h e l = cc
  apply_found_kept d p b (some r) rec q h e l = apply_found_own d p b r h e (
      let v : r.version ≡ rec.version = ap (λ (x : PipelineRec). x.version) (some_inj q) in
      omega (arith, v, l))

  apply_own :
      (d : Pipes) (k : Kind) (p : Pipeline) (b : ℕ)
      → is_ok (apply_kind o d k p).1 ≡ true
      → eqs p.name n ≡ true
      → is_create k ≡ false
      → HasArchive d b
      → (archived (apply_kind o d k p).0 n b ≡ archived d n b) × HasArchive (apply_kind o d k p).0 b
  apply_own d create p b h e c a = cc
  apply_own d update p b h e c a =
      let same = (eqs_iff p.name n).0 e in
      apply_found_kept d p b (load_pipeline d p.name) a.0 (ap (load_pipeline d) same ∙ a.1) h same
        a.2
  apply_own d (other k) p b h e c a = (refl, a)

  apply_kind_kept :
      (d : Pipes) (k : Kind) (p : Pipeline) (b : ℕ)
      → is_ok (apply_kind o d k p).1 ≡ true
      → eqs p.name n && is_create k ≡ false
      → HasArchive d b
      → (archived (apply_kind o d k p).0 n b ≡ archived d n b) × HasArchive (apply_kind o d k p).0 b
  apply_kind_kept d k p b h c a = elim (Bool-cases (eqs p.name n)) [
    | inl e ↦ apply_own d k p b h e (ground arith) a
    | inr e ↦
        let s = apply_kind_other d k p (inr e) in
        (
          archived_same n b d (apply_kind o d k p).0 s.1,
          (a.0, same_load d (apply_kind o d k p).0 s ∙ a.1, a.2),
        )
  ]

  -- What the operations that took effect are: those before the first that fails.
  first_of-go_on :
      (op : TxOp) (d : Pipes) (rest : Pipes × (List TxOp × Result TxError Done))
      (r : Result TxError Bytes) (ops : List TxOp)
      → (first_of n rest.1.0 ≡ none) ⊎ (first_of n rest.1.0 ≡ first_of n ops)
      → (first_of n (go_on op d rest r).1.0 ≡ none)
        ⊎ (first_of n (go_on op d rest r).1.0 ≡ first_of n (op ∷ ops))
  first_of-go_on op d rest (err e) ops h = inl refl
  first_of-go_on op d rest (ok c) ops h = ground (arith, h)

  pub first_of-applied :
      (d : Pipes) (ops : List TxOp)
      → (first_of n (apply_ops o d ops).1.0 ≡ none)
        ⊎ (first_of n (apply_ops o d ops).1.0 ≡ first_of n ops)
  unfolding apply_ops
  first_of-applied d [] = inl refl
  first_of-applied d (op ∷ ops) =
      let r = apply_kind o d op.kind op.spec in
      first_of-go_on op r.0 (apply_ops o r.0 ops) r.1 ops (first_of-applied r.0 ops)

  no_create-go_on :
      (op : TxOp) (d : Pipes) (rest : Pipes × (List TxOp × Result TxError Done))
      (r : Result TxError Bytes)
      → no_create n rest.1.0 ≡ true
      → eqs op.spec.name n && is_create op.kind ≡ false
      → no_create n (go_on op d rest r).1.0 ≡ true
  no_create-go_on op d rest (err e) h k = refl
  no_create-go_on op d rest (ok c) h k = ground arith

  pub no_create-applied :
      (d : Pipes) (ops : List TxOp)
      → no_create n ops ≡ true
      → no_create n (apply_ops o d ops).1.0 ≡ true
  unfolding apply_ops
  no_create-applied d [] h = refl
  no_create-applied d (op ∷ ops) h =
      let r = apply_kind o d op.kind op.spec in
      no_create-go_on op r.0 (apply_ops o r.0 ops) r.1 (no_create-applied r.0 ops (ground arith))
        (ground arith)

  -- A name that no operation that took effect is on keeps its record.
  recs_go_on :
      (op : TxOp) (d e : Pipes) (rest : Pipes × (List TxOp × Result TxError Done))
      (r : Result TxError Bytes)
      → ((is_ok r ≡ false) ⊎ (eqs op.spec.name n ≡ false) → get n e.recs ≡ get n d.recs)
      → (first_of n rest.1.0 ≡ none → get n rest.0.recs ≡ get n e.recs)
      → first_of n (go_on op e rest r).1.0 ≡ none
      → get n (go_on op e rest r).0.recs ≡ get n d.recs
  recs_go_on op d e rest (err x) h k f = h (inl refl)
  recs_go_on op d e rest (ok c) h k f = k (ground arith) ∙ h (inr (ground arith))

  pub recs-applied :
      (d : Pipes) (ops : List TxOp)
      → first_of n (apply_ops o d ops).1.0 ≡ none
      → get n (apply_ops o d ops).0.recs ≡ get n d.recs
  unfolding apply_ops
  recs-applied d [] f = refl
  recs-applied d (op ∷ ops) f =
      let r = apply_kind o d op.kind op.spec in
      recs_go_on op d r.0 (apply_ops o r.0 ops) r.1 (λ h. (apply_kind_other d op.kind op.spec h).0)
        (recs-applied r.0 ops) f

  -- A name that is not created keeps the versions in its archive.
  archived-go_on :
      (op : TxOp) (d e : Pipes) (rest : Pipes × (List TxOp × Result TxError Done))
      (r : Result TxError Bytes) (b : ℕ)
      → (is_ok r ≡ false → archived e n b ≡ archived d n b)
      → (is_ok r ≡ true → archived rest.0 n b ≡ archived d n b)
      → archived (go_on op e rest r).0 n b ≡ archived d n b
  archived-go_on op d e rest (err x) b h k = h refl
  archived-go_on op d e rest (ok c) b h k = k refl

  pub archived-applied :
      (d : Pipes) (ops : List TxOp) (b : ℕ)
      → no_create n ops ≡ true
      → HasArchive d b
      → archived (apply_ops o d ops).0 n b ≡ archived d n b
  unfolding apply_ops
  archived-applied d [] b h a = refl
  archived-applied d (op ∷ ops) b h a =
      let r = apply_kind o d op.kind op.spec in
      archived-go_on op d r.0 (apply_ops o r.0 ops) r.1 b
        (λ f. archived_same n b d r.0 (apply_kind_other d op.kind op.spec (inl f)).1)
        (λ s.
          let kept = apply_kind_kept d op.kind op.spec b s (ground arith) a in
          archived-applied r.0 ops b (ground arith) kept.1 ∙ kept.0)
