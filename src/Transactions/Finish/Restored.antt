-- ===== src/Transactions/Finish/Restored.antt =====
-- A transaction that fails leaves the records of the pipelines as they were (finishTransaction).
use mathlib.Core.Path.{subst}
use sandman.Prelude.{
  Bytes, ℕ, true, ◌≡◌, refl, sym, ap, ◌∙◌, Option, none, some, List, [], ◌∷◌, inl, inr, some_inj,
  arith,
}
use sandman.Prelude.Map.{Map, get, keys}
use sandman.Prelude.Result.{Result, ok, err, Done}
use sandman.Pipelines.Records.{PipelineRec, rec_in, Pipes, Outside, load_pipeline, archived}
use sandman.Transactions.Check.{
  Kind, update, TxOp, TxError, TxDaemon, check_ops, load_tx_ops, missing_repo, final_specs,
  deps_from,
}
use sandman.Transactions.Topo.{topo_order}
use sandman.Transactions.Finish.{
  apply_ops, rollback_tx, end_tx, schedule_all, plan_all, finish_checked, finish_loaded,
  finish_transaction,
}
use sandman.Transactions.Finish.Undo.{
  first_of, no_create, rollback_none, rollback_create, rollback_update,
}
use sandman.Transactions.Finish.Atomic.{
  first_of-applied, no_create-applied, recs-applied, archived-applied,
}
use sandman.Transactions.Finish.Planned.{first_fits}

-- The head record of a pipeline is the one that stands in its archive.
abbrev IsArchivedAs : Pipes → Bytes → Option PipelineRec → Type 0
IsArchivedAs d n none = Unit
IsArchivedAs d n (some rec) = archived d n rec.version ≡ some rec

abbrev pub IsArchived : Pipes → Bytes → Type 0
IsArchived d n = IsArchivedAs d n (load_pipeline d n)

module _ (o : Outside) (d : Pipes) (n : Bytes) where
  own_archive :
      (r : Option PipelineRec) (rec : PipelineRec)
      → r ≡ some rec
      → IsArchivedAs d n r
      → archived d n rec.version ≡ some rec
  own_archive none rec e a = cc
  own_archive (some r) rec e a =
      subst (λ (x : PipelineRec). archived d n x.version ≡ some x) (some_inj e) a

  -- A name that the first operation on it updates comes back from its archive.
  updated_back :
      (ops : List TxOp) (rec old : PipelineRec)
      → first_of n (apply_ops o d ops).1.0 ≡ first_of n ops
      → first_of n ops ≡ some (update, rec.version)
      → load_pipeline d n ≡ some rec
      → no_create n ops ≡ true
      → archived d n rec.version ≡ some old
      → load_pipeline (rollback_tx o.env (apply_ops o d ops).0 (apply_ops o d ops).1.0) n ≡ some old
  unfolding load_pipeline
  updated_back ops rec old same f l c a =
      let r = apply_ops o d ops in
      ap rec_in (
        rollback_update n o.env r.0 r.1.0 rec.version old (same ∙ f) (no_create-applied o n d ops c)
          (archived-applied o n d ops rec.version c (rec, l, omega arith) ∙ a))

  -- Let the checks pass a list of operations, and a pipeline have a record whose version stands in
  -- its archive. Where an operation that took effect is on the pipeline, the rollback brings back
  -- what the archive holds, also where the record had changed since, as when it was stopped.
  pub rollback_tx-archived :
      (ops : List TxOp) (end : Map ℕ) (rec old : PipelineRec) (x : Kind × ℕ)
      → check_ops o d [] ops ≡ ok end
      → load_pipeline d n ≡ some rec
      → archived d n rec.version ≡ some old
      → first_of n (apply_ops o d ops).1.0 ≡ some x
      → load_pipeline (rollback_tx o.env (apply_ops o d ops).0 (apply_ops o d ops).1.0) n ≡ some old
  unfolding get
  rollback_tx-archived ops end rec old x h l a e = elim (first_of-applied o n d ops) [
    | inl f ↦ absurd (ground (arith, e, f))
    | inr same ↦ elim (first_fits o d n [] ops end h refl) [
      | inl f ↦ absurd (ground (arith, e, f, same))
      | inr (inl (b, f, m)) ↦ absurd (ground (arith, l, m))
      | inr (inr (r, f, m, c)) ↦
          let eq : r ≡ rec = some_inj (sym m ∙ l) in
          updated_back ops r old same f m c
            (ap (λ (y : PipelineRec). archived d n y.version) eq ∙ a)
    ]
  ]

  restored :
      (ops : List TxOp) (end : Map ℕ)
      → check_ops o d [] ops ≡ ok end
      → IsArchived d n
      → load_pipeline (rollback_tx o.env (apply_ops o d ops).0 (apply_ops o d ops).1.0) n
        ≡ load_pipeline d n
  unfolding load_pipeline get
  restored ops end h a =
      let r = apply_ops o d ops in
      let untouched = λ (f : first_of n r.1.0 ≡ none).
        ap rec_in (rollback_none n o.env r.0 r.1.0 f ∙ recs-applied o n d ops f) in
      elim (first_of-applied o n d ops) [
        | inl f ↦ untouched f
        | inr same ↦ elim (first_fits o d n [] ops end h refl) [
          | inl f ↦ untouched (same ∙ f)
          | inr (inl (b, f, l)) ↦ ap rec_in (rollback_create n o.env r.0 r.1.0 b (same ∙ f)) ∙ sym l
          | inr (inr (rec, f, l, c)) ↦
              updated_back ops rec rec same f l c (own_archive (load_pipeline d n) rec l a) ∙ sym l
        ]
      ]

module _ (o : Outside) (t : TxDaemon) (id n : Bytes) where
  end_tx-restored :
      (names order : List Bytes) (d : Pipes) (applied : List TxOp) (r : Result TxError Done)
      (e : TxError)
      → load_pipeline (rollback_tx o.env d applied) n ≡ load_pipeline t.pipes n
      → (end_tx o t id names order d applied r).1 ≡ err e
      → load_pipeline (end_tx o t id names order d applied r).0.pipes n ≡ load_pipeline t.pipes n
  end_tx-restored names order d applied (err x) e h k = h
  end_tx-restored names order d applied (ok done) e h k = cc

  module _ (ops : List TxOp) (e : TxError) (a : IsArchived t.pipes n) where
    schedule_all-restored :
        (names : List Bytes) (order : Option (List Bytes)) (end : Map ℕ)
        → check_ops o t.pipes [] ops ≡ ok end
        → (schedule_all o t id ops names order).1 ≡ err e
        → load_pipeline (schedule_all o t id ops names order).0.pipes n ≡ load_pipeline t.pipes n
    schedule_all-restored names none end c h = refl
    schedule_all-restored names (some order) end c h =
        let r = apply_ops o t.pipes ops in
        end_tx-restored names order r.0 r.1.0 r.1.1 e (restored o t.pipes n ops end c a) h

    plan_all-restored :
        (missing : Option Bytes) (end : Map ℕ)
        → check_ops o t.pipes [] ops ≡ ok end
        → (plan_all o t id ops missing).1 ≡ err e
        → load_pipeline (plan_all o t id ops missing).0.pipes n ≡ load_pipeline t.pipes n
    plan_all-restored (some repo) end c h = refl
    plan_all-restored none end c h =
        let final = final_specs ops [] in
        schedule_all-restored (keys final) (topo_order (keys final) (deps_from final final)) end c h

    finish_checked-restored :
        (r : Result TxError (Map ℕ))
        → check_ops o t.pipes [] ops ≡ r
        → (finish_checked o t id ops r).1 ≡ err e
        → load_pipeline (finish_checked o t id ops r).0.pipes n ≡ load_pipeline t.pipes n
    finish_checked-restored (err x) c h = refl
    finish_checked-restored (ok end) c h =
        plan_all-restored (missing_repo t.pipes.daemon.store end ops) end c h

  finish_loaded-restored :
      (r : Result TxError (List TxOp)) (e : TxError)
      → IsArchived t.pipes n
      → (finish_loaded o t id r).1 ≡ err e
      → load_pipeline (finish_loaded o t id r).0.pipes n ≡ load_pipeline t.pipes n
  finish_loaded-restored (err x) e a h = refl
  finish_loaded-restored (ok []) e a h = refl
  finish_loaded-restored (ok (op ∷ ops)) e a h =
      finish_checked-restored (op ∷ ops) e a (check_ops o t.pipes [] (op ∷ ops)) refl h

-- A transaction that ends in an error, whatever operation of it failed and however many took effect
-- before, leaves every pipeline whose record stands in its archive with the record that it had, and
-- one that had none without one.
pub finish_transaction-restored :
    (o : Outside) (t : TxDaemon) (id n : Bytes) (e : TxError)
    → IsArchived t.pipes n
    → (finish_transaction o t id).1 ≡ err e
    → load_pipeline (finish_transaction o t id).0.pipes n ≡ load_pipeline t.pipes n
unfolding finish_transaction
finish_transaction-restored o t id n e a h =
    finish_loaded-restored o t id n (load_tx_ops t id) e a h
