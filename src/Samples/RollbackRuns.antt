-- ===== src/Samples/RollbackRuns.antt =====
-- The theorem on failing transactions, run on one that creates a pipeline and then fails to update
-- another, because the update would disable its statistics.
use sandman.Prelude.{
  Bytes, codes, ◌≡◌, refl, true, false, Option, none, some, List, [], ◌∷◌, eqs, lts,
}
use sandman.Prelude.Map.{get, put, keys}
use sandman.Prelude.Result.{ok, err}
use sandman.Prelude.Decimal.{plus, digits, digits_from}
use sandman.Store.Names.{valid_name}
use sandman.Store.Repos.{create_repo}
use sandman.Pipelines.Inputs.{input_sides}
use sandman.Pipelines.Customization.{parse_customization, remarshal}
use sandman.Pipelines.Derive.{derive_cron_repos, derive_git_repos, derive_trigger_branches}
use sandman.Transactions.Topo.{topo_order}
use sandman.Pipelines.Spec.{validate_pipeline_spec}
use sandman.Pipelines.Declared.{Transform, Pipeline}
use sandman.Pipelines.Records.{
  archived, PipelineRec, Pipes, Outside, load_pipeline, readable, write_spec_commit,
  archive_version,
}
use sandman.Pipelines.Applying.{
  stats_disabled, apply_create, apply_update, commit_rec, start_tickers,
}
use sandman.Transactions.Check.{
  TxOp, TxDaemon, load_tx_ops, check_ops, missing_repo, create, update, of_update,
}
use sandman.Transactions.Finish.{finish_transaction, apply_ops, rollback_tx}
use sandman.Transactions.Finish.Restored.{
  IsArchived, finish_transaction-restored, rollback_tx-archived,
}
use sandman.Transactions.Finish.Undo.{first_of}
use sandman.Samples.{plain_env, empty_store}

abbrev transform : Transform
transform = record {
  image = [];
  cmd = codes "c" ∷ [];
  stdin = [];
  err_cmd = [];
  err_stdin = [];
  env = [];
  user = [];
  workdir = [];
  accept_return_code = plus 0;
  datum_tries = plus 0;
  datum_timeout = [];
  job_timeout = [];
  pod_spec = [];
  pod_patch = [];
  secrets = [];
  resource_requests = none;
  resource_limits = none;
}

abbrev spout_pipeline : Bytes → Pipeline
spout_pipeline name = record {
  name = name;
  description = [];
  transform = some transform;
  input = none;
  parallelism = none;
  chunk_spec = none;
  max_queue_size = plus 0;
  autoscaling = false;
  standby = false;
  output_branch = [];
  update = false;
  reprocess = false;
  enable_stats = false;
  placement = [];
  framework = [];
  spout = some (record { overwrite = false; marker = [] });
  service = none;
  egress = none;
}

abbrev counted : Pipeline
counted = record (spout_pipeline (codes "a")) { enable_stats = true }

abbrev old_rec : PipelineRec
old_rec = record {
  pipeline = counted;
  state = codes "running";
  reason = [];
  stopped = false;
  stopped_at = [];
  version = 1;
  spec_commit = [];
}

abbrev pipes : Pipes
pipes = record {
  daemon = record { store = empty_store; jobs = []; logs = [] };
  recs = (codes "a", readable old_rec) ∷ [];
  versions = (codes "a", (codes "1", old_rec) ∷ []) ∷ [];
  dedup = [];
  tickers = [];
  running = [];
  issued = 0;
}

abbrev ops : List (Option TxOp)
ops =
    some
      (record { kind = create; spec = spout_pipeline (codes "b"); baseline = 0; spec_commit = [] })
    ∷ some (record {
      kind = update;
      spec = spout_pipeline (codes "a");
      baseline = 1;
      spec_commit = [];
    })
    ∷ []

abbrev daemon : TxDaemon
daemon = record { pipes = pipes; txs = (codes "t", ops) ∷ []; hold = []; pending = [] }

abbrev outside : Outside
outside = record {
  env = plain_env;
  decoders = record {
    parse_url = λ u. none;
    valid_json = λ s. true;
    decode_object = λ s. none;
    decode_list = λ s. none;
    decode_op = λ j. none;
    decode_custom = λ m. some (record { env = []; volumes = []; workdir = [] });
  };
  marshal = λ p. none;
  same_input = λ i j. true;
  ticks = λ s. true;
  new_id = λ n. digits n;
  now = λ n. [];
}

stands_in_archive : IsArchived pipes (codes "a")
unfolding load_pipeline get eqs digits digits_from
stands_in_archive = refl

ends_in_error : (finish_transaction outside daemon (codes "t")).1 ≡ err (of_update stats_disabled)
unfolding finish_transaction load_pipeline get eqs digits load_tx_ops check_ops
    validate_pipeline_spec valid_name parse_customization remarshal put missing_repo input_sides
    topo_order keys lts apply_ops apply_create apply_update commit_rec write_spec_commit
    archive_version create_repo derive_cron_repos derive_git_repos derive_trigger_branches
    start_tickers digits_from
ends_in_error = refl

finish_transaction-restored_example :
    load_pipeline (finish_transaction outside daemon (codes "t")).0.pipes (codes "a")
    ≡ load_pipeline pipes (codes "a")
finish_transaction-restored_example =
    finish_transaction-restored outside daemon (codes "t") (codes "a") (of_update stats_disabled)
      stands_in_archive ends_in_error

-- The first of two updates takes effect, on a pipeline that was stopped since its version was
-- archived.
abbrev stopped_rec : PipelineRec
stopped_rec = record old_rec { stopped = true; state = codes "paused" }

abbrev stopped_pipes : Pipes
stopped_pipes = record pipes { recs = (codes "a", readable stopped_rec) ∷ [] }

abbrev two_updates : List TxOp
two_updates =
    record { kind = update; spec = counted; baseline = 1; spec_commit = [] }
    ∷ record { kind = update; spec = spout_pipeline (codes "a"); baseline = 1; spec_commit = [] }
    ∷ []

checked : check_ops outside stopped_pipes [] two_updates ≡ ok ((codes "a", 3) ∷ [])
unfolding check_ops load_pipeline get eqs digits digits_from validate_pipeline_spec valid_name
    parse_customization remarshal put lts
checked = refl

stands : load_pipeline stopped_pipes (codes "a") ≡ some stopped_rec
unfolding load_pipeline get eqs
stands = refl

was_running : archived stopped_pipes (codes "a") 1 ≡ some old_rec
unfolding get eqs digits digits_from
was_running = refl

took_effect :
    first_of (codes "a") (apply_ops outside stopped_pipes two_updates).1.0 ≡ some (update, 1)
unfolding apply_ops load_pipeline get eqs digits digits_from put lts apply_update commit_rec
    write_spec_commit archive_version derive_cron_repos derive_git_repos derive_trigger_branches
    start_tickers input_sides
took_effect = refl

rollback_tx-archived_example :
    load_pipeline
      (rollback_tx plain_env
        (apply_ops outside stopped_pipes two_updates).0
        (apply_ops outside stopped_pipes two_updates).1.0)
      (codes "a")
    ≡ some old_rec
rollback_tx-archived_example =
    rollback_tx-archived outside stopped_pipes (codes "a") two_updates ((codes "a", 3) ∷ [])
      stopped_rec old_rec (update, 1) checked stands was_running took_effect
