-- ===== src/Jobs/Pairing.antt =====
-- The inputs that a job pairs (newJobRec, hasRunningJobWithInputs, hasJobWithExactInputs and
-- jobByOutput of jobs.go).
pub mod Siblings
use sandman.Prelude.{
  Bytes, codes, ℕ, zero, suc, Bool, true, false, not, ◌&&◌, ◌||◌, Option, none, some, List, [], ◌∷◌,
  ◌++◌, length, if◌then◌else◌, ◌==◌, eqs, slash,
}
use sandman.Prelude.Map.{Map, get, put}
use sandman.Prelude.Sort.{mem}
use sandman.Store.Data.{Store, Commit}
use sandman.Store.Records.{load_commit_by_id}
use sandman.Jobs.Deletion.{Job}

abbrev pub state_running : Bytes
state_running = codes "running"

abbrev pub state_queued : Bytes
state_queued = codes "queued"

abbrev pub ids_of : List Commit → List Bytes
ids_of [] = []
ids_of (h ∷ hs) = h.id ∷ ids_of hs

-- The ids that are not empty, each once, behind those of `set`.
unfoldable pub id_set : List Bytes → List Bytes → List Bytes
unfolding mem eqs
id_set set [] = set
id_set set (id ∷ ids) = id_set (if eqs id [] || mem id set then set else set ++ id ∷ []) ids

-- newJobRec, but for the snapshots of the pipeline's specification.
abbrev pub new_job_rec : Bytes → Bytes → ℕ → List Commit → Bytes → Job
new_job_rec now pipeline version heads id = record {
  id = id;
  pipeline = pipeline;
  state = state_queued;
  reason = [];
  input_commits = id_set [] (ids_of heads);
  output_commit = [];
  started = now;
  finished = [];
  version = version;
  stats_commit = [];
  processed = 0;
  recovered = 0;
  failed = 0;
  skipped = 0;
}

abbrev pub all_in : List Bytes → List Bytes → Bool
all_in set [] = true
all_in set (ic ∷ ics) = mem ic set && all_in set ics

abbrev pub consumes : List Bytes → Job → Bool
consumes set j = (length j.input_commits == length set) && all_in set j.input_commits

abbrev pub is_pending : Job → Bool
is_pending j = eqs j.state state_running || eqs j.state state_queued

unfoldable pub running_with : List Job → Bytes → List Bytes → Bool
unfolding mem eqs
running_with [] pipeline set = false
running_with (j ∷ js) pipeline set =
    let rest = running_with js pipeline set in
    if not (eqs j.pipeline pipeline) || not (is_pending j)
    then rest
    else if consumes set j
    then true
    else rest

unfoldable pub has_running_job_with_inputs : List Job → Bytes → List Commit → Bool
unfolding running_with id_set
has_running_job_with_inputs jobs pipeline heads =
    running_with jobs pipeline (id_set [] (ids_of heads))

unfoldable pub exact_with : List Job → Bytes → List Bytes → Bytes → Bool
unfolding mem eqs
exact_with [] pipeline set exclude = false
exact_with (j ∷ js) pipeline set exclude =
    let rest = exact_with js pipeline set exclude in
    if eqs j.id exclude || not (eqs j.pipeline pipeline)
    then rest
    else if consumes set j
    then true
    else rest

unfoldable pub has_job_with_exact_inputs : List Job → Bytes → List Bytes → Bytes → Bool
unfolding exact_with id_set
has_job_with_exact_inputs jobs pipeline ids exclude =
    exact_with jobs pipeline (id_set [] ids) exclude

unfoldable pub job_by_output : List Job → Bytes → Option Job
unfolding eqs
job_by_output [] id = none
job_by_output (j ∷ js) id =
    let rest = job_by_output js id in if eqs j.output_commit id then some j else rest
