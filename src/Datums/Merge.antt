-- ===== src/Datums/Merge.antt =====
-- mergeOutputs and mergeFile: a job's output from the records of its datums. The output directory
-- is the map of its files; a directory is there when a file lies below it.
pub mod Contents
use sandman.Prelude.{
  Bytes, codes, ℕ, Bool, true, false, not, ◌&&◌, ◌||◌, Option, none, some, List, [], ◌∷◌, ◌++◌,
  if◌then◌else◌, eqs, has_prefix, is_some, slash,
}
use sandman.Prelude.Map.{Map, get, put, keys}
use sandman.Prelude.Sort.{mem}
use sandman.Prelude.Result.{Result, ok, err}
use sandman.Store.Data.{Store}
use sandman.Store.Records.{read_blob}
use sandman.Datums.{FileRef, Datum}
use sandman.Datums.Enumerate.{dirs_above}

-- The times and the process time, which is a floating-point number, are left as they are printed.
pub record DatumState : Type 0 where
  pub hash : Bytes
  pub outcome : Bytes
  pub input_files : List FileRef
  pub files : List FileRef
  pub tries : ℕ
  pub started : Bytes
  pub finished : Bytes
  pub process_time : Bytes
  pub worker : ℕ
  pub reason : Bytes
  pub transform_hash : Bytes

abbrev pub state_success : Bytes
state_success = codes "success"

abbrev pub state_recovered : Bytes
state_recovered = codes "recovered"

abbrev pub state_skipped : Bytes
state_skipped = codes "skipped"

-- The record that a missing key of the table stands for.
abbrev pub no_state : DatumState
no_state = record {
  hash = [];
  outcome = [];
  input_files = [];
  files = [];
  tries = 0;
  started = [];
  finished = [];
  process_time = [];
  worker = 0;
  reason = [];
  transform_hash = [];
}

-- What the merge reads of the job: its table of datums and its transform.
pub record JobExec : Type 0 where
  pub dedup : Map DatumState
  pub transform_hash : Bytes

abbrev pub state_of : JobExec → Bytes → DatumState
state_of jx id = elim (get id jx.dedup) [ none ↦ no_state | some st ↦ st ]

pub data MergeError : Type 0 where
  unread : Bytes → MergeError
  output_conflict : Bytes → MergeError

-- Does one of the paths hold a file?
unfoldable pub any_file : List Bytes → Map Bytes → Bool
unfolding get
any_file [] out = false
any_file (d ∷ ds) out = is_some (get d out) || any_file ds out

unfoldable pub any_below : Bytes → List Bytes → Bool
unfolding has_prefix
any_below p [] = false
any_below p (k ∷ ks) = has_prefix (p ++ slash ∷ []) k || any_below p ks

-- What the file holds so far, nothing where there is none.
abbrev pub content_of : Option Bytes → Bytes
content_of none = []
content_of (some b) = b

unfoldable pub merge_file : Store → Map Bytes → FileRef → Result MergeError (Map Bytes)
unfolding any_file any_below read_blob dirs_above put
merge_file s out f = elim (read_blob s f.hash) [
  | none ↦ err (unread f.hash)
  | some data_read ↦
      if any_file (dirs_above [] f.path) out || any_below f.path (keys out)
      then err (output_conflict f.path)
      else ok (put f.path (content_of (get f.path out) ++ data_read) out)
]

unfoldable pub merge_files : Store → Map Bytes → List FileRef → Result MergeError (Map Bytes)
unfolding merge_file
merge_files s out [] = ok out
merge_files s out (f ∷ fs) = elim (merge_file s out f) [
  | err e ↦ err e
  | ok now ↦ merge_files s now fs
]

abbrev pub paths_of : List FileRef → List Bytes
paths_of [] = []
paths_of (f ∷ fs) = f.path ∷ paths_of fs

abbrev pub has_run : Bytes → Bool
has_run o = eqs o state_success || eqs o state_recovered

-- The paths that a datum which ran has written.
unfoldable pub fresh_paths : JobExec → List Bytes → List Datum → List Bytes
unfolding mem get
fresh_paths jx skipped [] = []
fresh_paths jx skipped (dt ∷ dts) =
    let rest = fresh_paths jx skipped dts in
    let st = state_of jx dt.id in
    if mem dt.id skipped
    then rest
    else if has_run st.outcome
    then paths_of st.files ++ rest
    else rest

-- The carried files, but for the stale ones at a fresh path.
abbrev pub carried : List Bytes → Bool → List FileRef → List FileRef
carried fresh stale [] = []
carried fresh stale (f ∷ fs) =
    let rest = carried fresh stale fs in if mem f.path fresh && stale then rest else f ∷ rest

abbrev pub is_stale : JobExec → DatumState → Bool
is_stale jx st = not (eqs st.transform_hash []) && not (eqs st.transform_hash jx.transform_hash)

-- The files that the loop merges for one datum.
abbrev pub contributed : JobExec → List Bytes → List Bytes → Datum → List FileRef
contributed jx skipped fresh dt =
    let st = state_of jx dt.id in
    if mem dt.id skipped
    then carried fresh (is_stale jx st) st.files
    else if has_run st.outcome || eqs st.outcome state_skipped
    then st.files
    else []

unfoldable pub merge_loop :
    Store
    → JobExec
    → List Bytes
    → List Bytes
    → Map Bytes
    → List Datum
    → Result MergeError (Map Bytes)
unfolding merge_files mem eqs
merge_loop s jx skipped fresh out [] = ok out
merge_loop s jx skipped fresh out (dt ∷ dts) =
    elim (merge_files s out (contributed jx skipped fresh dt)) [
      | err e ↦ err e
      | ok now ↦ merge_loop s jx skipped fresh now dts
    ]

-- Into an empty output directory.
unfoldable pub merge_outputs :
    Store → JobExec → List Datum → List Bytes → Result MergeError (Map Bytes)
unfolding merge_loop fresh_paths
merge_outputs s jx datums skipped =
    merge_loop s jx skipped (fresh_paths jx skipped datums) [] datums
