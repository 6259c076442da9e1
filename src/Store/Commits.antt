-- ===== src/Store/Commits.antt =====
-- The operations on commits (store.go, "commits"). An operation returns the store that it leaves,
-- also beside an error: what was written before the error stays written.
pub mod Inversion
pub mod Outcome
pub mod Bulk
pub mod Results
pub mod Finish
pub mod Copy
use sandman.Prelude.{
  Bytes, codes, ℕ, Bool, true, false, not, ◌||◌, Option, none, some, List, [], ◌∷◌, ◌++◌,
  if◌then◌else◌, eqs, length,
}
use sandman.Prelude.Map.{Map, get, put, keys}
use sandman.Prelude.Sort.{sort, mem}
use sandman.Prelude.Result.{Result, ok, err, Done}
use sandman.Store.Data.{
  FileOp, CommitRec, Repo, Store, Env, Error, Commit, invalid_repo_name, invalid_path,
  commit_not_found, not_open, already_finished,
}
use sandman.Store.Names.{valid_name, valid_path, check_commit_case, check_paths_case}
use sandman.Store.Records.{
  default_branch_name, repo_of, deletion_op, overwrite_op, append_op, deletion_ops, load_commit,
  save_commit, write_blob, load_commit_by_id, to_commit,
}
use sandman.Store.View.{View, resolve_view, head_of}

abbrev pub branch_or_default : Bytes → Bytes
branch_or_default branch = if eqs branch [] then default_branch_name else branch

-- The record of StartCommit. `id` is the fresh id of newCommitID and `now` the time of Now.
abbrev pub new_commit : Store → Bytes → Bytes → Bytes → Bytes → Bytes → CommitRec
new_commit s id now repo branch description = record {
  id = id;
  repo = repo;
  branch = branch;
  description = description;
  parent_id = head_of s repo branch;
  started = true;
  created_at = now;
  finished = false;
  empty = false;
  ops = [];
  provenance = [];
  files = [];
  deleted = [];
}

unfoldable pub start_commit :
    Store → Bytes → Bytes → Bytes → Bytes → Bytes → Store × Result Error Commit
unfolding save_commit to_commit
start_commit s id now repo branch description =
    if not (valid_name repo)
    then (s, err (invalid_repo_name repo))
    else (let rec = new_commit s id now repo (branch_or_default branch) description in
        (save_commit s rec, ok (to_commit rec)))

-- The record of a commit that takes writes.
unfoldable pub open_commit : Store → Bytes → Result Error CommitRec
open_commit s id = elim (load_commit_by_id s id) [
  | none ↦ err (commit_not_found id)
  | some rec ↦ if not rec.started || rec.finished then err (not_open id) else ok rec
]

abbrev pub add_op : CommitRec → FileOp → CommitRec
add_op rec op = record rec { ops = rec.ops ++ op ∷ [] }

-- The part that PutFile and OverwriteFile share, after the path is checked.
unfoldable pub write_file :
    Env → (Bytes → Bytes → ℕ → FileOp) → Store → Bytes → Bytes → Bytes → Store × Result Error Done
write_file env make s id p content = elim (open_commit s id) [
  | err e ↦ (s, err e)
  | ok rec ↦ elim (check_commit_case env (keys (resolve_view s rec)) p) [
    | some e ↦ (s, err e)
    | none ↦
        let w = write_blob env s content in
        (save_commit w.0 (add_op rec (make p w.1 (length content))), ok tt)
  ]
]

unfoldable pub put_file : Env → Store → Bytes → Bytes → Bytes → Store × Result Error Done
unfolding write_file
put_file env s id p content =
    if not (valid_path p)
    then (s, err (invalid_path p))
    else write_file env append_op s id p content

unfoldable pub overwrite_file : Env → Store → Bytes → Bytes → Bytes → Store × Result Error Done
unfolding write_file
overwrite_file env s id p content =
    if not (valid_path p)
    then (s, err (invalid_path p))
    else write_file env overwrite_op s id p content

unfoldable pub delete_file : Store → Bytes → Bytes → Store × Result Error Done
delete_file s id p =
    if not (valid_path p) then (s, err (invalid_path p)) else elim (open_commit s id) [
      | err e ↦ (s, err e)
      | ok rec ↦ (save_commit s (add_op rec (deletion_op p)), ok tt)
    ]

-- The paths of `ps` that are not among `new_paths`.
unfoldable pub absent : List Bytes → List Bytes → List Bytes
absent new_paths [] = []
absent new_paths (p ∷ ps) =
    let rest = absent new_paths ps in if mem p new_paths then rest else p ∷ rest

abbrev pub parent_view : Store → CommitRec → View
parent_view s rec =
    if eqs rec.parent_id []
    then []
    else elim (load_commit s rec.repo rec.parent_id) [ none ↦ [] | some p ↦ resolve_view s p ]

-- TombstoneRemoved. `walked` holds the paths that the walk of outDir visits; its error is dropped.
unfoldable pub tombstone_removed : Store → Bytes → List Bytes → Store × Result Error Done
unfolding absent
tombstone_removed s id walked = elim (load_commit_by_id s id) [
  | none ↦ (s, err (commit_not_found id))
  | some rec ↦
      let removed = sort (absent walked (keys (parent_view s rec))) in
      (save_commit s (record rec { ops = rec.ops ++ deletion_ops removed }), ok tt)
]

-- Stores each visited file, and collects its overwrite.
unfoldable pub store_files : Env → Store → List (Bytes × Bytes) → Store × List FileOp
store_files env s [] = (s, [])
store_files env s ((rel, content) ∷ rest) =
    let w = write_blob env s content in
    let (s', ops) = store_files env w.0 rest in (s', overwrite_op rel w.1 (length content) ∷ ops)

abbrev pub op_paths : List FileOp → List Bytes
op_paths [] = []
op_paths (op ∷ ops) = op.path ∷ op_paths ops

-- AddFilesFromDir. `visited` holds the files that the walk of `dir` visits with their content, and
-- `walk_err` the error that ended it.
unfoldable pub add_files_from_dir :
    Env → Store → Bytes → List (Bytes × Bytes) → Option Error → Store × Result Error Done
unfolding store_files
add_files_from_dir env s id visited walk_err = elim (open_commit s id) [
  | err e ↦ (s, err e)
  | ok rec ↦
      let w = store_files env s visited in
      elim walk_err [
        | some e ↦ (w.0, err e)
        | none ↦ elim (check_paths_case env (keys (resolve_view w.0 rec)) (op_paths w.1)) [
          | some e ↦ (w.0, err e)
          | none ↦ (save_commit w.0 (record rec { ops = rec.ops ++ w.1 }), ok tt)
        ]
      ]
]

unfoldable pub reparent : Store → Bytes → Bytes → Store × Result Error Done
reparent s id parent_id = if eqs parent_id [] then (s, ok tt) else elim (load_commit_by_id s id) [
  | none ↦ (s, err (commit_not_found id))
  | some rec ↦
      if rec.finished
      then (s, err (already_finished id))
      else if eqs rec.parent_id parent_id
      then (s, ok tt)
      else (save_commit s (record rec { parent_id = parent_id }), ok tt)
]

unfoldable pub inspect_commit : Store → Bytes → Result Error Commit
inspect_commit s id = elim (load_commit_by_id s id) [
  | none ↦ err (commit_not_found id)
  | some rec ↦ ok (to_commit rec)
]
