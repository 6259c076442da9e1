-- ===== src/Transactions/Finish.antt =====
-- The second phase of finishTransaction, and rollbackTx (transaction.go).
pub mod Undo
pub mod Applied
pub mod Atomic
pub mod Planned
pub mod Restored
use sandman.Prelude.{
  Bytes, codes, ℕ, zero, suc, ◌+◌, Bool, true, false, not, ◌&&◌, ◌||◌, Option, none, some, List, [],
  ◌∷◌, ◌++◌, if◌then◌else◌, eqs, ◌==◌,
}
use sandman.Prelude.{is_some}
use sandman.Prelude.Map.{Map, get, put, remove, keys}
use sandman.Prelude.Result.{Result, ok, err, Done}
use sandman.Store.Data.{Env, Store, Error}
use sandman.Jobs.Deletion.{DaemonState, delete_commit}
use sandman.Pipelines.Inputs.{Input, Inputs, no_inputs, one_more, fields_of, input_sides}
use sandman.Pipelines.Spec.{PipelineError, validate_pipeline_spec}
use sandman.Pipelines.Declared.{Pipeline}
use sandman.Pipelines.Records.{
  PipelineRec, RecFile, readable, corrupt, Pipes, Outside, load_pipeline, archived,
}
use sandman.Pipelines.Applying.{UpdateError, apply_create, apply_update, cancel_pipeline_jobs}
use sandman.Transactions.Topo.{topo_order}
use sandman.Transactions.Check.{
  Kind, create, update, other, TxOp, TxError, TxDaemon, tx_empty, input_not_found, tx_cycle,
  of_create, of_update, vanished, load_tx_ops, check_ops, missing_repo, final_specs, deps_from,
}

-- Phase 2: one operation, with the spec commit that it wrote.
abbrev pub apply_found :
    Outside → Pipes → Pipeline → Option PipelineRec → Pipes × Result TxError Bytes
apply_found o d p none = (d, err (vanished p.name))
apply_found o d p (some rec) =
    let r = apply_update o (cancel_pipeline_jobs d p.name) rec p in
    (r.0, elim r.1 [ err e ↦ err (of_update e) | ok new ↦ ok new.spec_commit ])

abbrev pub apply_kind : Outside → Pipes → Kind → Pipeline → Pipes × Result TxError Bytes
apply_kind o d create p =
    let r = apply_create o d p in
    (r.0, elim r.1 [ err e ↦ err (of_create e) | ok rec ↦ ok rec.spec_commit ])
apply_kind o d update p = apply_found o d p (load_pipeline d p.name)
apply_kind o d (other k) p = (d, ok [])

-- The operations that took effect, each with its spec commit.
abbrev pub go_on :
    TxOp
    → Pipes
    → Pipes × (List TxOp × Result TxError Done)
    → Result TxError Bytes
    → Pipes × (List TxOp × Result TxError Done)
go_on op d rest (err e) = (d, ([], err e))
go_on op d rest (ok c) = (rest.0, (record op { spec_commit = c } ∷ rest.1.0, rest.1.1))

unfoldable pub apply_ops : Outside → Pipes → List TxOp → Pipes × (List TxOp × Result TxError Done)
apply_ops o d [] = (d, ([], ok tt))
apply_ops o d (op ∷ ops) =
    let r = apply_kind o d op.kind op.spec in go_on op r.0 (apply_ops o r.0 ops) r.1

abbrev pub remove_rec : Pipes → Bytes → Pipes
remove_rec d name = record d { recs = remove name d.recs; versions = remove name d.versions }

abbrev pub put_archived : Pipes → Bytes → Option PipelineRec → Pipes
put_archived d name none = d
put_archived d name (some rec) = record d { recs = put name (readable rec) d.recs }

abbrev pub restore_rec : Pipes → Bytes → ℕ → Pipes
restore_rec d name baseline = put_archived d name (archived d name baseline)

abbrev pub undo_kind : Pipes → Kind → Bytes → ℕ → Pipes
undo_kind d create name baseline = remove_rec d name
undo_kind d update name baseline = restore_rec d name baseline
undo_kind d (other k) name baseline = d

-- The error of deleteCommit is dropped.
abbrev pub drop_spec_commit : Env → Pipes → Bytes → Pipes
drop_spec_commit env d c =
    if eqs c [] then d else record d { daemon = (delete_commit env d.daemon c).0 }

abbrev pub undo : Env → Pipes → TxOp → Pipes
undo env d op = drop_spec_commit env (undo_kind d op.kind op.spec.name op.baseline) op.spec_commit

-- rollbackTx: the last operation first.
unfoldable pub rollback_tx : Env → Pipes → List TxOp → Pipes
rollback_tx env d [] = d
rollback_tx env d (op ∷ ops) = undo env (rollback_tx env d ops) op

abbrev pub set_all : List Bytes → Bool → Map Bool → Map Bool
set_all [] b m = m
set_all (n ∷ ns) b m = set_all ns b (put n b m)

-- txAbortHolds
abbrev pub abort_holds : TxDaemon → List Bytes → TxDaemon
abort_holds t names = record t {
  hold = set_all names false t.hold;
  pending = set_all names false t.pending;
}

-- The end of phase 2. The order is what the coordinator, which is spawned here, schedules by.
abbrev pub end_tx :
    Outside
    → TxDaemon
    → Bytes
    → List Bytes
    → List Bytes
    → Pipes
    → List TxOp
    → Result TxError Done
    → TxDaemon × Result TxError (List Bytes)
end_tx o t id names order d applied (err e) =
    (record (abort_holds t names) { pipes = rollback_tx o.env d applied }, err e)
end_tx o t id names order d applied (ok done) =
    (record t { pipes = d; hold = set_all names true t.hold; txs = remove id t.txs }, ok order)

abbrev pub schedule_all :
    Outside
    → TxDaemon
    → Bytes
    → List TxOp
    → List Bytes
    → Option (List Bytes)
    → TxDaemon × Result TxError (List Bytes)
schedule_all o t id ops names none = (t, err tx_cycle)
schedule_all o t id ops names (some order) =
    let r = apply_ops o t.pipes ops in end_tx o t id names order r.0 r.1.0 r.1.1

abbrev pub plan_all :
    Outside → TxDaemon → Bytes → List TxOp → Option Bytes → TxDaemon × Result TxError (List Bytes)
plan_all o t id ops (some repo) = (t, err (input_not_found repo))
plan_all o t id ops none =
    let final = final_specs ops [] in
    schedule_all o t id ops (keys final) (topo_order (keys final) (deps_from final final))

abbrev pub finish_checked :
    Outside
    → TxDaemon
    → Bytes
    → List TxOp
    → Result TxError (Map ℕ)
    → TxDaemon × Result TxError (List Bytes)
finish_checked o t id ops (err e) = (t, err e)
finish_checked o t id ops (ok st) = plan_all o t id ops (missing_repo t.pipes.daemon.store st ops)

abbrev pub finish_loaded :
    Outside → TxDaemon → Bytes → Result TxError (List TxOp) → TxDaemon × Result TxError (List Bytes)
finish_loaded o t id (err e) = (t, err e)
finish_loaded o t id (ok []) = (t, err (tx_empty id))
finish_loaded o t id (ok (op ∷ ops)) =
    finish_checked o t id (op ∷ ops) (check_ops o t.pipes [] (op ∷ ops))

unfoldable pub finish_transaction :
    Outside → TxDaemon → Bytes → TxDaemon × Result TxError (List Bytes)
finish_transaction o t id = finish_loaded o t id (load_tx_ops t id)
