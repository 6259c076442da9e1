-- ===== src/Transactions/Finish/Planned.antt =====
-- What the checks of a transaction make sure of (the first phase of finishTransaction).
use mathlib.Core.Path.{subst}
use sandman.Prelude.{
  Bytes, ℕ, ◌≡◌, ◌⊎◌, refl, sym, ap, ◌∙◌, true, false, none, some, List, [], ◌∷◌, Bool-cases,
  Option-cases, inl, inr, eqs, eqs_iff, is_some, arith, ==_iff,
}
use sandman.Prelude.Map.{Map, get, put, get-put}
use sandman.Prelude.Result.{Result, ok, err, Done, chain_ok, Result-cases}
use sandman.Pipelines.Spec.{PipelineError, validate_pipeline_spec}
use sandman.Pipelines.Records.{PipelineRec, Pipes, Outside, load_pipeline}
use sandman.Transactions.Check.{
  Kind, create, update, other, TxOp, TxError, bad_spec, check_create, check_update, check_kind,
  check_ops, live_version,
}
use sandman.Transactions.Finish.Undo.{is_create, first_of, no_create}

bad_spec_ok :
    (r : Result PipelineError Done) (q : Result TxError (Map ℕ)) (m : Map ℕ)
    → elim r as (λ x. Result TxError (Map ℕ)) [ err e ↦ err (bad_spec e) | ok done ↦ q ] ≡ ok m
    → q ≡ ok m
bad_spec_ok (ok done) q m h = h
bad_spec_ok (err e) q m h = cc

check_kind_touched :
    (d : Pipes) (st : Map ℕ) (k : Kind) (name : Bytes) (b v : ℕ)
    → is_some (get name st) ≡ true
    → check_kind d st k name b ≡ ok v
    → is_create k ≡ false
check_kind_touched d st create name b v h e = ground arith
check_kind_touched d st update name b v h e = refl
check_kind_touched d st (other k) name b v h e = refl

check_create_free :
    (d : Pipes) (st : Map ℕ) (name : Bytes) (v : ℕ)
    → check_create d st name ≡ ok v
    → load_pipeline d name ≡ none
check_create_free d st name v h = ground arith

live_version_lem :
    (d : Pipes) (name : Bytes) (b v : ℕ)
    → live_version d name b ≡ ok v
    → (rec : PipelineRec) × (load_pipeline d name ≡ some rec) × (rec.version ≡ b)
live_version_lem d name b v h = elim (Option-cases (load_pipeline d name)) [
  | inl e ↦ absurd (ground (arith, e, h))
  | inr (rec, e) ↦ (rec, e, ground (arith, e, h, ==_iff rec.version b))
]

check_update_lem :
    (d : Pipes) (st : Map ℕ) (name : Bytes) (b v : ℕ)
    → get name st ≡ none
    → check_update d st name b ≡ ok v
    → (rec : PipelineRec) × (load_pipeline d name ≡ some rec) × (rec.version ≡ b)
check_update_lem d st name b v e h = elim (Result-cases (live_version d name b)) [
  | inl (x, q) ↦ absurd (ground (arith, e, h, q))
  | inr (w, q) ↦ live_version_lem d name b w q
]

module _ (o : Outside) (d : Pipes) (n : Bytes) where
  check_ops_touched :
      (st : Map ℕ) (ops : List TxOp) (end : Map ℕ)
      → check_ops o d st ops ≡ ok end
      → is_some (get n st) ≡ true
      → no_create n ops ≡ true
  unfolding check_ops
  check_ops_touched st [] end h k = refl
  check_ops_touched st (op ∷ ops) end h k =
      let next = λ (v : ℕ). check_ops o d (put op.spec.name v st) ops in
      let (v, e, r) =
        chain_ok (check_kind d st op.kind op.spec.name op.baseline) next end
          (bad_spec_ok (validate_pipeline_spec o.decoders op.spec) _ end h) in
      let rest =
        check_ops_touched (put op.spec.name v st) ops end r
          (ground (arith, get-put op.spec.name n v st)) in
      elim (Bool-cases (eqs op.spec.name n)) [
        | inl s ↦
            let same : is_some (get op.spec.name st) ≡ true =
              ap (λ (m : Bytes). is_some (get m st)) ((eqs_iff op.spec.name n).0 s) ∙ k in
            let c = check_kind_touched d st op.kind op.spec.name op.baseline v same e in
            ground (arith, rest, c)
        | inr s ↦ ground (arith, rest, s)
      ]

  -- What the checks make sure of for the first operation on a name.
  abbrev pub FirstFits : List TxOp → Type 0
  FirstFits ops =
      (first_of n ops ≡ none)
      ⊎ ((b : ℕ) × (first_of n ops ≡ some (create, b)) × (load_pipeline d n ≡ none))
      ⊎ ((rec : PipelineRec) × (first_of n ops ≡ some (update, rec.version))
          × (load_pipeline d n ≡ some rec)
          × (no_create n ops ≡ true))

  first_of_head :
      (op : TxOp) (ops : List TxOp)
      → op.spec.name ≡ n
      → first_of n (op ∷ ops) ≡ some (op.kind, op.baseline)
  first_of_head op ops s =
      let e : eqs op.spec.name n ≡ true = (eqs_iff op.spec.name n).1 s in ground arith

  FirstFits-other :
      (op : TxOp) (ops : List TxOp)
      → eqs op.spec.name n ≡ false
      → FirstFits ops
      → FirstFits (op ∷ ops)
  FirstFits-other op ops s (inl h) = inl (ground arith)
  FirstFits-other op ops s (inr (inl (b, h, l))) = inr (inl (b, ground arith, l))
  FirstFits-other op ops s (inr (inr (rec, h, l, c))) =
      inr (inr (rec, ground (arith, h), l, ground (arith, c)))

  FirstFits-own :
      (st : Map ℕ) (op : TxOp) (ops : List TxOp) (k : Kind) (v : ℕ)
      → op.kind ≡ k
      → op.spec.name ≡ n
      → get n st ≡ none
      → check_kind d st k n op.baseline ≡ ok v
      → no_create n ops ≡ true
      → FirstFits (op ∷ ops)
  FirstFits-own st op ops create v q s e h c = inr (
      inl (
        op.baseline,
        first_of_head op ops s ∙ ap (λ (x : Kind). some (x, op.baseline)) q,
        check_create_free d st n v h,
      ))
  FirstFits-own st op ops update v q s e h c =
      let (rec, l, x) = check_update_lem d st n op.baseline v e h in
      let f = ap is_create q in
      inr (
        inr (
          rec,
          first_of_head op ops s
              ∙ ap (λ (y : Kind). some (y, op.baseline)) q
              ∙ ap (λ (b : ℕ). some (update, b)) (sym x),
          l,
          ground (arith, c, f),
        ))
  FirstFits-own st op ops (other k) v q s e h c = cc

  pub first_fits :
      (st : Map ℕ) (ops : List TxOp) (end : Map ℕ)
      → check_ops o d st ops ≡ ok end
      → get n st ≡ none
      → FirstFits ops
  unfolding check_ops
  first_fits st [] end h k = inl refl
  first_fits st (op ∷ ops) end h k =
      let next = λ (v : ℕ). check_ops o d (put op.spec.name v st) ops in
      let (v, e, r) =
        chain_ok (check_kind d st op.kind op.spec.name op.baseline) next end
          (bad_spec_ok (validate_pipeline_spec o.decoders op.spec) _ end h) in
      elim (Bool-cases (eqs op.spec.name n)) [
        | inl s ↦
            let same = (eqs_iff op.spec.name n).0 s in
            let c =
              check_ops_touched (put op.spec.name v st) ops end r
                (ground (arith, get-put op.spec.name n v st, s)) in
            FirstFits-own st op ops op.kind v refl same k
              (subst (λ (m : Bytes). check_kind d st op.kind m op.baseline ≡ ok v) same e) c
        | inr s ↦
            FirstFits-other op ops s
              (first_fits (put op.spec.name v st) ops end r (get-put op.spec.name n v st ∙ rw s k))
      ]
