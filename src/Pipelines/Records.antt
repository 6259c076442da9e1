-- ===== src/Pipelines/Records.antt =====
-- The records of pipelines (pipelineRec, writeSpecCommit, archiveVersion, savePipeline and
-- loadPipeline). Writing a file of the state directory is taken to succeed. encoding/json,
-- reflect.DeepEqual, the ids drawn and the clock are parameters. A running job is its handle, which
-- a cancel marks.
use sandman.Prelude.{Bytes, codes, ℕ, suc, Bool, false, Option, none, some, [], ◌++◌}
use sandman.Prelude.Decimal.{digits}
use sandman.Prelude.Map.{Map, get, put}
use sandman.Prelude.Result.{ok, err}
use sandman.Store.Data.{Store, Env}
use sandman.Store.Commits.{start_commit, overwrite_file}
use sandman.Store.Commits.Finish.{finish_commit}
use sandman.Store.Records.{spec_repo}
use sandman.Jobs.Deletion.{DaemonState}
use sandman.Pipelines.Inputs.{Input, master}
use sandman.Pipelines.Spec.{Decoders}
use sandman.Pipelines.Declared.{Pipeline}

pub record PipelineRec : Type 0 where
  pub pipeline : Pipeline
  pub state : Bytes
  pub reason : Bytes
  pub stopped : Bool
  pub stopped_at : Bytes
  pub version : ℕ
  pub spec_commit : Bytes

-- A record file, which may be one that does not decode.
pub data RecFile : Type 0 where
  readable : PipelineRec → RecFile
  corrupt : RecFile

pub record Running : Type 0 where
  pub pipeline : Bytes
  pub cancelled : Bool

-- The files under pipelines/ and pipelines/versions/, the dedup tables, the cron tickers by their
-- repositories with their owners, the running jobs, and the number of ids drawn.
pub record Pipes : Type 0 where
  pub daemon : DaemonState
  pub recs : Map RecFile
  pub versions : Map (Map PipelineRec)
  pub dedup : Map Bytes
  pub tickers : Map Bytes
  pub running : Map Running
  pub issued : ℕ

pub record Outside : Type 0 where
  pub env : Env
  pub decoders : Decoders
  pub marshal : Pipeline → Option Bytes
  pub same_input : Option Input → Option Input → Bool
  pub ticks : Bytes → Bool
  pub new_id : ℕ → Bytes
  pub now : ℕ → Bytes

abbrev pub state_paused : Bytes
state_paused = codes "paused"

abbrev pub state_failure : Bytes
state_failure = codes "failure"

abbrev pub reason_no_command : Bytes
reason_no_command = codes "no command specified but stdin lines provided"

abbrev pub rec_in : Option RecFile → Option PipelineRec
rec_in none = none
rec_in (some corrupt) = none
rec_in (some (readable r)) = some r

unfoldable pub load_pipeline : Pipes → Bytes → Option PipelineRec
load_pipeline d name = rec_in (get name d.recs)

abbrev pub save_pipeline : Pipes → PipelineRec → Pipes
save_pipeline d rec = record d { recs = put rec.pipeline.name (readable rec) d.recs }

abbrev pub versions_of : Map (Map PipelineRec) → Bytes → Map PipelineRec
versions_of m name = elim (get name m) [ none ↦ [] | some v ↦ v ]

abbrev pub archived : Pipes → Bytes → ℕ → Option PipelineRec
archived d name version = get (digits version) (versions_of d.versions name)

unfoldable pub archive_version : Pipes → PipelineRec → Pipes
archive_version d rec =
    let name = rec.pipeline.name in
    record d {
      versions = put name (put (digits rec.version) rec (versions_of d.versions name)) d.versions;
    }

abbrev pub with_store : Pipes → Store → Pipes
with_store d s = record d { daemon = record d.daemon { store = s } }

abbrev pub spec_message : Bytes → ℕ → Bytes
spec_message name version = codes "pipeline " ++ name ++ codes " v" ++ digits version

-- writeSpecCommit: what it leaves in the store, and the commit's id, empty where a call failed.
abbrev pub finish_spec : Env → Store → Bytes → Store × Bytes
finish_spec env s id =
    let r = finish_commit env s id [] false in (r.0, elim r.1 [ err e ↦ [] | ok cm ↦ id ])

abbrev pub write_spec : Env → Store → Bytes → Bytes → Store × Bytes
write_spec env s id content =
    let r = overwrite_file env s id (codes "spec.json") content in
    elim r.1 [ err e ↦ (r.0, []) | ok done ↦ finish_spec env r.0 id ]

abbrev pub start_spec : Env → Store → Bytes → Bytes → Bytes → Bytes → Store × Bytes
start_spec env s id now message content =
    let r = start_commit s id now spec_repo master message in
    elim r.1 [ err e ↦ (r.0, []) | ok cm ↦ write_spec env r.0 cm.id content ]

abbrev pub write_marshalled : Outside → Pipes → Bytes → Option Bytes → Pipes × Bytes
write_marshalled o d message none = (d, [])
write_marshalled o d message (some b) =
    let r = start_spec o.env d.daemon.store (o.new_id d.issued) (o.now d.issued) message b in
    (record (with_store d r.0) { issued = suc d.issued }, r.1)

unfoldable pub write_spec_commit : Outside → Pipes → Bytes → Pipeline → ℕ → Pipes × Bytes
write_spec_commit o d name spec version =
    write_marshalled o d (spec_message name version) (o.marshal spec)
