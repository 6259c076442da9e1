-- ===== src/Transactions/Check.antt =====
-- A transaction's operations, their staging, and the checks before any of them is applied (txOp,
-- stageTxOp, loadTxOps, startTransaction, deleteTransaction and the first phase of
-- finishTransaction of transaction.go). The operations' files stand in the order of their names,
-- and one that does not decode is `none`.
use sandman.Prelude.{
  Bytes, ℕ, ◌+◌, Bool, true, false, not, ◌&&◌, ◌||◌, Option, none, some, List, [], ◌∷◌, ◌++◌,
  if◌then◌else◌, eqs, ◌==◌,
}
use sandman.Prelude.{is_some}
use sandman.Prelude.Map.{Map, get, put, remove}
use sandman.Prelude.Result.{Result, ok, err, Done}
use sandman.Store.Data.{Store, Error}
use sandman.Pipelines.Inputs.{Inputs, no_inputs, one_more, fields_of, input_sides}
use sandman.Pipelines.Spec.{PipelineError, validate_pipeline_spec}
use sandman.Pipelines.Declared.{Pipeline}
use sandman.Pipelines.Records.{PipelineRec, Pipes, Outside, load_pipeline}
use sandman.Pipelines.Applying.{UpdateError}

pub data Kind : Type 0 where
  create : Kind
  update : Kind
  other : Bytes → Kind

pub record TxOp : Type 0 where
  pub kind : Kind
  pub spec : Pipeline
  pub baseline : ℕ
  pub spec_commit : Bytes

pub data TxError : Type 0 where
  tx_not_found : Bytes → TxError
  tx_corrupt : Bytes → TxError
  tx_empty : Bytes → TxError
  bad_spec : PipelineError → TxError
  staged_twice : Bytes → TxError
  already_exists : Bytes → TxError
  tx_incomplete : Bytes → TxError
  pipeline_not_found : Bytes → TxError
  modified_outside : Bytes → TxError
  unknown_operation : Bytes → TxError
  input_not_found : Bytes → TxError
  tx_cycle : TxError
  of_create : Error → TxError
  of_update : UpdateError → TxError
  vanished : Bytes → TxError

-- The daemon with its open transactions and the holds on triggers.
pub record TxDaemon : Type 0 where
  pub pipes : Pipes
  pub txs : Map (List (Option TxOp))
  pub hold : Map Bool
  pub pending : Map Bool

abbrev pub version_at : Option PipelineRec → ℕ
version_at none = 0
version_at (some r) = r.version

abbrev pub staged_op : Pipes → Pipeline → TxOp
staged_op d p = record {
  kind = if p.update then update else create;
  spec = p;
  baseline = if p.update then version_at (load_pipeline d p.name) else 0;
  spec_commit = [];
}

unfoldable pub stage_tx_op : Outside → TxDaemon → Bytes → Pipeline → TxDaemon × Result TxError Done
stage_tx_op o t id p = elim (get id t.txs) [
  | none ↦ (t, err (tx_not_found id))
  | some ops ↦ elim (validate_pipeline_spec o.decoders p) [
    | err e ↦ (t, err (bad_spec e))
    | ok done ↦ (record t { txs = put id (ops ++ some (staged_op t.pipes p) ∷ []) t.txs }, ok tt)
  ]
]

abbrev pub all_readable : List (Option TxOp) → Option (List TxOp)
all_readable [] = some []
all_readable (none ∷ ops) = none
all_readable (some op ∷ ops) = elim (all_readable ops) [ none ↦ none | some l ↦ some (op ∷ l) ]

unfoldable pub load_tx_ops : TxDaemon → Bytes → Result TxError (List TxOp)
load_tx_ops t id = elim (get id t.txs) [
  | none ↦ err (tx_not_found id)
  | some files ↦ elim (all_readable files) [ none ↦ err (tx_corrupt id) | some ops ↦ ok ops ]
]

-- Phase 1: the version that a name will have, or what refuses the operation.
abbrev pub check_create : Pipes → Map ℕ → Bytes → Result TxError ℕ
check_create d st name =
    if is_some (get name st)
    then err (staged_twice name)
    else if is_some (load_pipeline d name)
    then err (already_exists name)
    else ok 1

abbrev pub live_version : Pipes → Bytes → ℕ → Result TxError ℕ
live_version d name baseline = elim (load_pipeline d name) [
  | none ↦
      if is_some (get name d.recs) then err (tx_incomplete name) else err (pipeline_not_found name)
  | some r ↦ if r.version == baseline then ok r.version else err (modified_outside name)
]

abbrev pub check_update : Pipes → Map ℕ → Bytes → ℕ → Result TxError ℕ
check_update d st name baseline = elim (get name st) [
  | some v ↦ ok (v + 1)
  | none ↦ elim (live_version d name baseline) [ err e ↦ err e | ok v ↦ ok (v + 1) ]
]

abbrev pub check_kind : Pipes → Map ℕ → Kind → Bytes → ℕ → Result TxError ℕ
check_kind d st create name baseline = check_create d st name
check_kind d st update name baseline = check_update d st name baseline
check_kind d st (other k) name baseline = err (unknown_operation k)

unfoldable pub check_ops : Outside → Pipes → Map ℕ → List TxOp → Result TxError (Map ℕ)
check_ops o d st [] = ok st
check_ops o d st (op ∷ ops) = elim (validate_pipeline_spec o.decoders op.spec) [
  | err e ↦ err (bad_spec e)
  | ok done ↦ elim (check_kind d st op.kind op.spec.name op.baseline) [
    | err e ↦ err e
    | ok v ↦ check_ops o d (put op.spec.name v st) ops
  ]
]

-- The repositories of the sides. The one of a side without a repository is the directory of all.
abbrev pub missing_side : Store → Map ℕ → Inputs → Option Bytes
missing_side s st no_inputs = none
missing_side s st (one_more i is) =
    let rest = missing_side s st is in
    let repo = (fields_of i).repo in
    if is_some (get repo st) || (eqs repo [] || is_some (get repo s.repos)) then rest else some repo

unfoldable pub missing_repo : Store → Map ℕ → List TxOp → Option Bytes
missing_repo s st [] = none
missing_repo s st (op ∷ ops) = elim (missing_side s st (input_sides op.spec.input)) [
  | some repo ↦ some repo
  | none ↦ missing_repo s st ops
]

abbrev pub final_specs : List TxOp → Map Pipeline → Map Pipeline
final_specs [] m = m
final_specs (op ∷ ops) m = final_specs ops (put op.spec.name op.spec m)

abbrev pub deps_in : Map Pipeline → Bytes → Inputs → List Bytes
deps_in final name no_inputs = []
deps_in final name (one_more i is) =
    let rest = deps_in final name is in
    let repo = (fields_of i).repo in
    if is_some (get repo final) && not (eqs repo name) then repo ∷ rest else rest

abbrev pub deps_from : Map Pipeline → Map Pipeline → Map (List Bytes)
deps_from final [] = []
deps_from final ((name, spec) ∷ m) =
    (name, deps_in final name (input_sides spec.input)) ∷ deps_from final m

-- txNoteTrigger
unfoldable pub note_trigger : TxDaemon → Bytes → TxDaemon × Bool
note_trigger t name = elim (get name t.hold) [
  | none ↦ (t, false)
  | some b ↦ if b then (record t { pending = put name true t.pending }, true) else (t, false)
]

unfoldable pub start_transaction : TxDaemon → Bytes → TxDaemon
start_transaction t id = record t {
  txs = put id (elim (get id t.txs) [ none ↦ [] | some ops ↦ ops ]) t.txs;
}

unfoldable pub delete_transaction : TxDaemon → Bytes → TxDaemon × Result TxError Done
delete_transaction t id =
    if is_some (get id t.txs)
    then (record t { txs = remove id t.txs }, ok tt)
    else (t, err (tx_not_found id))
