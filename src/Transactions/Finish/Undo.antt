-- ===== src/Transactions/Finish/Undo.antt =====
-- What rollbackTx leaves of a pipeline's record.
use sandman.Prelude.{
  Bytes, ℕ, ◌≡◌, refl, ap, ◌∙◌, Bool, true, false, not, ◌&&◌, Option, none, some, List, [], ◌∷◌,
  if◌then◌else◌, Bool-cases, inl, inr, eqs, eqs_iff, some_inj, arith,
}
use sandman.Prelude.Decimal.{digits}
use sandman.Prelude.Map.{Map, get, get-put, get-remove, get-put_self}
use sandman.Store.Data.{Env}
use sandman.Pipelines.Records.{PipelineRec, readable, Pipes, archived}
use sandman.Transactions.Check.{Kind, create, update, other, TxOp}
use sandman.Transactions.Finish.{put_archived, undo_kind, drop_spec_commit, undo, rollback_tx}

abbrev pub is_create : Kind → Bool
is_create create = true
is_create update = false
is_create (other k) = false

-- The first operation on a name, and whether a name is never created.
abbrev pub first_of : Bytes → List TxOp → Option (Kind × ℕ)
first_of n [] = none
first_of n (op ∷ ops) =
    let rest = first_of n ops in if eqs op.spec.name n then some (op.kind, op.baseline) else rest

abbrev pub no_create : Bytes → List TxOp → Bool
no_create n [] = true
no_create n (op ∷ ops) = not (eqs op.spec.name n && is_create op.kind) && no_create n ops

-- Two states with the same files of a pipeline.
abbrev pub IsSame : Bytes → Pipes → Pipes → Type 0
IsSame n d e = (get n e.recs ≡ get n d.recs) × (get n e.versions ≡ get n d.versions)

drop_spec_commit-recs :
    (env : Env) (d : Pipes) (c : Bytes)
    → ((drop_spec_commit env d c).recs ≡ d.recs)
      × ((drop_spec_commit env d c).versions ≡ d.versions)
drop_spec_commit-recs env d c = ground arith

pub archived_same :
    (n : Bytes) (b : ℕ) (d e : Pipes)
    → get n e.versions ≡ get n d.versions
    → archived e n b ≡ archived d n b
archived_same n b d e h =
    ap (λ (m : Option (Map PipelineRec)). get (digits b) (elim m [ none ↦ [] | some v ↦ v ])) h

module _ (n : Bytes) where
  put_archived_other :
      (d : Pipes) (name : Bytes) (a : Option PipelineRec)
      → eqs name n ≡ false
      → IsSame n d (put_archived d name a)
  put_archived_other d name none h = (refl, refl)
  put_archived_other d name (some rec) h = (get-put name n (readable rec) d.recs ∙ rw h refl, refl)

  put_archived_versions :
      (d : Pipes) (name : Bytes) (a : Option PipelineRec)
      → (put_archived d name a).versions ≡ d.versions
  put_archived_versions d name none = refl
  put_archived_versions d name (some rec) = refl

  undo_kind_other :
      (d : Pipes) (k : Kind) (name : Bytes) (b : ℕ)
      → eqs name n ≡ false
      → IsSame n d (undo_kind d k name b)
  undo_kind_other d create name b h =
      (get-remove name n d.recs ∙ rw h refl, get-remove name n d.versions ∙ rw h refl)
  undo_kind_other d update name b h = put_archived_other d name (archived d name b) h
  undo_kind_other d (other k) name b h = (refl, refl)

  undo_kind_versions :
      (d : Pipes) (k : Kind) (name : Bytes) (b : ℕ)
      → eqs name n && is_create k ≡ false
      → get n (undo_kind d k name b).versions ≡ get n d.versions
  undo_kind_versions d create name b h = ground (arith, get-remove name n d.versions)
  undo_kind_versions d update name b h =
      ap (get n) (put_archived_versions d name (archived d name b))
  undo_kind_versions d (other k) name b h = refl

  undo_kind_create :
      (d : Pipes) (k : Kind) (name : Bytes) (b : ℕ)
      → eqs name n ≡ true
      → k ≡ create
      → get n (undo_kind d k name b).recs ≡ none
  undo_kind_create d k name b h e = rw e (get-remove name n d.recs ∙ rw h refl)

  undo_kind_update :
      (d : Pipes) (k : Kind) (name : Bytes) (b : ℕ) (rec : PipelineRec)
      → name ≡ n
      → k ≡ update
      → archived d n b ≡ some rec
      → get n (undo_kind d k name b).recs ≡ some (readable rec)
  undo_kind_update d k name b rec h e a =
      rw (e, h)
        (ap (λ (x : Option PipelineRec). get n (put_archived d n x).recs) a
          ∙ get-put_self n (readable rec) d.recs)

  first_op :
      (c : Bool) (x y : Kind × ℕ) (r : Option (Kind × ℕ))
      → c ≡ true
      → (if c then some x else r) ≡ some y
      → x ≡ y
  first_op true x y r e h = some_inj h
  first_op false x y r e h = cc

  module _ (env : Env) where
    undo_recs :
        (d : Pipes) (op : TxOp)
        → get n (undo env d op).recs ≡ get n (undo_kind d op.kind op.spec.name op.baseline).recs
    undo_recs d op =
        ap (get n)
          (drop_spec_commit-recs env (undo_kind d op.kind op.spec.name op.baseline)
            op.spec_commit).0

    undo_versions :
        (d : Pipes) (op : TxOp)
        → get n (undo env d op).versions
          ≡ get n (undo_kind d op.kind op.spec.name op.baseline).versions
    undo_versions d op =
        ap (get n)
          (drop_spec_commit-recs env (undo_kind d op.kind op.spec.name op.baseline)
            op.spec_commit).1

    -- The archive of a name that no operation creates.
    rollback_versions :
        (d : Pipes) (ops : List TxOp)
        → no_create n ops ≡ true
        → get n (rollback_tx env d ops).versions ≡ get n d.versions
    unfolding rollback_tx
    rollback_versions d [] h = refl
    rollback_versions d (op ∷ ops) h =
        undo_versions (rollback_tx env d ops) op
        ∙ undo_kind_versions (rollback_tx env d ops) op.kind op.spec.name op.baseline (ground arith)
        ∙ rollback_versions d ops (ground arith)

    -- A name that no operation is on.
    pub rollback_none :
        (d : Pipes) (ops : List TxOp)
        → first_of n ops ≡ none
        → get n (rollback_tx env d ops).recs ≡ get n d.recs
    unfolding rollback_tx
    rollback_none d [] h = refl
    rollback_none d (op ∷ ops) h =
        undo_recs (rollback_tx env d ops) op
        ∙ (undo_kind_other (rollback_tx env d ops) op.kind op.spec.name op.baseline
            (ground arith)).0
        ∙ rollback_none d ops (ground arith)

    -- A name that the first operation on it creates.
    pub rollback_create :
        (d : Pipes) (ops : List TxOp) (b : ℕ)
        → first_of n ops ≡ some (create, b)
        → get n (rollback_tx env d ops).recs ≡ none
    unfolding rollback_tx
    rollback_create d [] b h = cc
    rollback_create d (op ∷ ops) b h = elim (Bool-cases (eqs op.spec.name n)) [
      | inl e ↦
          undo_recs (rollback_tx env d ops) op
          ∙ undo_kind_create (rollback_tx env d ops) op.kind op.spec.name op.baseline e (
              ap (λ (p : Kind × ℕ). p.0)
                (first_op (eqs op.spec.name n) (op.kind, op.baseline) (create, b) (first_of n ops) e
                  h))
      | inr e ↦
          undo_recs (rollback_tx env d ops) op
          ∙ (undo_kind_other (rollback_tx env d ops) op.kind op.spec.name op.baseline e).0
          ∙ rollback_create d ops b (ground arith)
    ]

    -- A name that the first operation on it updates, and none creates.
    pub rollback_update :
        (d : Pipes) (ops : List TxOp) (b : ℕ) (rec : PipelineRec)
        → first_of n ops ≡ some (update, b)
        → no_create n ops ≡ true
        → archived d n b ≡ some rec
        → get n (rollback_tx env d ops).recs ≡ some (readable rec)
    unfolding rollback_tx
    rollback_update d [] b rec h k a = cc
    rollback_update d (op ∷ ops) b rec h k a = elim (Bool-cases (eqs op.spec.name n)) [
      | inl e ↦
          let x =
            first_op (eqs op.spec.name n) (op.kind, op.baseline) (update, b) (first_of n ops) e h in
          let before =
            archived_same n op.baseline d (rollback_tx env d ops)
              (rollback_versions d ops (ground (arith, k))) in
          undo_recs (rollback_tx env d ops) op
          ∙ undo_kind_update (rollback_tx env d ops) op.kind op.spec.name op.baseline rec
              ((eqs_iff op.spec.name n).0 e) (ap (λ (p : Kind × ℕ). p.0) x)
              (before ∙ ap (λ (p : Kind × ℕ). archived d n p.1) x ∙ a)
      | inr e ↦
          undo_recs (rollback_tx env d ops) op
          ∙ (undo_kind_other (rollback_tx env d ops) op.kind op.spec.name op.baseline e).0
          ∙ rollback_update d ops b rec (ground arith) (ground arith) a
    ]
