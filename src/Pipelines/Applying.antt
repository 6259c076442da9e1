-- ===== src/Pipelines/Applying.antt =====
-- Applying a creation or an update of a pipeline (applyCreate and applyUpdate of pipeline.go,
-- cancelPipelineJobs of jobs.go).
use sandman.Prelude.{
  Bytes, ◌+◌, Bool, true, false, not, ◌&&◌, Option, none, some, List, [], ◌∷◌, if◌then◌else◌, eqs,
}
use sandman.Prelude.{is_some}
use sandman.Prelude.Map.{Map, get, put, remove}
use sandman.Prelude.Result.{Result, ok, err, Done}
use sandman.Store.Data.{Store, Env, Error}
use sandman.Store.Repos.{create_repo}
use sandman.Jobs.Pairing.{state_running}
use sandman.Pipelines.Inputs.{
  InputFields, Input, Inputs, no_inputs, one_more, fields_of, input_sides,
}
use sandman.Pipelines.Derive.{
  has_text, cron_repo, derive_cron_repos, derive_git_repos, derive_trigger_branches,
}
use sandman.Pipelines.Declared.{Transform, Pipeline}
use sandman.Pipelines.Records.{
  Outside, PipelineRec, Pipes, Running, archive_version, reason_no_command, save_pipeline,
  state_failure, state_paused, with_store, write_spec_commit,
}

-- The derivations of applyCreate and applyUpdate, in their order.
abbrev pub derive_input : Env → Bytes → Store → Option Input → Store × Option Input
derive_input env name s i =
    let cron = derive_cron_repos env name s i in
    let git = derive_git_repos env cron.0 cron.1 in (git.0, derive_trigger_branches name git.1)

abbrev pub start_ticker : Outside → Bytes → InputFields → Map Bytes → Map Bytes
start_ticker o pipeline f tickers =
    if not (o.ticks f.cron)
    then tickers
    else if is_some (get (cron_repo pipeline f.name) tickers)
    then tickers
    else put (cron_repo pipeline f.name) pipeline tickers

unfoldable pub start_tickers : Outside → Bytes → Inputs → Map Bytes → Map Bytes
start_tickers o pipeline no_inputs tickers = tickers
start_tickers o pipeline (one_more i is) tickers =
    start_tickers o pipeline is (
      if has_text (fields_of i).cron
      then start_ticker o pipeline (fields_of i) tickers
      else tickers)

abbrev pub is_nil {ℓ} : {A : Type ℓ} → List A → Bool
is_nil [] = true
is_nil (x ∷ xs) = false

abbrev pub no_command : Option Transform → Bool
no_command none = false
no_command (some t) = is_nil t.cmd && not (is_nil t.stdin)

-- The output repository: one that is there is taken as it is.
abbrev pub ensure_repo : Env → Store → Bytes → Store × Result Error Done
ensure_repo env s name = if is_some (get name s.repos) then (s, ok tt) else create_repo env s name

abbrev pub initial_rec : Pipeline → PipelineRec
initial_rec p = record {
  pipeline = p;
  state = if no_command p.transform then state_failure else state_running;
  reason = if no_command p.transform then reason_no_command else [];
  stopped = false;
  stopped_at = [];
  version = 1;
  spec_commit = [];
}

-- The end that applyCreate and applyUpdate share: the spec commit, the archive and the record.
unfoldable pub commit_rec : Outside → Pipes → Bytes → PipelineRec → Pipes × PipelineRec
commit_rec o d name rec =
    let w = write_spec_commit o d name rec.pipeline rec.version in
    let done = record rec { spec_commit = w.1 } in
    (save_pipeline (archive_version w.0 done) done, done)

-- applyCreate behind the derivations, with the output repository.
abbrev pub create_rest :
    Outside → Pipes → Pipeline → Result Error Done → Pipes × Result Error PipelineRec
create_rest o d p (err x) = (d, err x)
create_rest o d p (ok done) =
    let t = record d { tickers = start_tickers o p.name (input_sides p.input) d.tickers } in
    let c = commit_rec o t p.name (initial_rec p) in (c.0, ok c.1)

abbrev pub create_derived : Outside → Pipes → Pipeline → Pipes × Result Error PipelineRec
create_derived o d p =
    let r = ensure_repo o.env d.daemon.store p.name in create_rest o (with_store d r.0) p r.1

unfoldable pub apply_create : Outside → Pipes → Pipeline → Pipes × Result Error PipelineRec
apply_create o d p =
    let i = derive_input o.env p.name d.daemon.store p.input in
    create_derived o (with_store d i.0) (record p { update = false; input = i.1 })

-- A failed update, and a record's next version.
pub data UpdateError : Type 0 where
  stats_disabled : UpdateError

abbrev pub next_rec : PipelineRec → Pipeline → PipelineRec
next_rec existing p = record {
  pipeline = p;
  state =
      if no_command p.transform
      then state_failure
      else if existing.stopped
      then state_paused
      else state_running;
  reason = if no_command p.transform then reason_no_command else [];
  stopped = existing.stopped;
  stopped_at = existing.stopped_at;
  version = existing.version + 1;
  spec_commit = [];
}

abbrev pub drop_dedup : Outside → PipelineRec → Pipeline → Map Bytes → Map Bytes
drop_dedup o existing p dedup =
    if o.same_input existing.pipeline.input p.input
    then dedup
    else remove existing.pipeline.name dedup

abbrev pub update_rest :
    Outside → Pipes → PipelineRec → Pipeline → Pipes × Result UpdateError PipelineRec
update_rest o d existing p =
    let e = record d {
      tickers = start_tickers o p.name (input_sides p.input) d.tickers;
      dedup = drop_dedup o existing p d.dedup;
    } in
    let c = commit_rec o e existing.pipeline.name (next_rec existing p) in (c.0, ok c.1)

abbrev pub update_derived :
    Outside → Pipes → PipelineRec → Pipeline → Pipes × Result UpdateError PipelineRec
update_derived o d existing p =
    let i = derive_input o.env p.name d.daemon.store p.input in
    update_rest o (with_store d i.0) existing (record p { update = false; input = i.1 })

unfoldable pub apply_update :
    Outside → Pipes → PipelineRec → Pipeline → Pipes × Result UpdateError PipelineRec
apply_update o d existing p =
    if existing.pipeline.enable_stats && not p.enable_stats
    then (d, err stats_disabled)
    else update_derived o d existing p

-- cancelPipelineJobs marks the handles of the pipeline's running jobs.
abbrev pub cancel_running : Map Running → Bytes → Map Running
cancel_running [] pipeline = []
cancel_running ((id, r) ∷ m) pipeline =
    let rest = cancel_running m pipeline in
    (id, if eqs r.pipeline pipeline then record r { cancelled = true } else r) ∷ rest

abbrev pub cancel_pipeline_jobs : Pipes → Bytes → Pipes
cancel_pipeline_jobs d pipeline = record d { running = cancel_running d.running pipeline }
