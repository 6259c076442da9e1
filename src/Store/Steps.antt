-- ===== src/Store/Steps.antt =====
-- The operations of the store as steps, and a run of them.
mod Loads
pub mod Consistent
pub mod Frozen
use sandman.Prelude.{Bytes, Bool, Option, List, [], ◌∷◌}
use sandman.Store.Data.{Store, Env, Error}
use sandman.Store.Commits.{
  start_commit, put_file, overwrite_file, delete_file, tombstone_removed, add_files_from_dir,
  reparent,
}
use sandman.Store.Commits.Finish.{finish_commit}
use sandman.Store.Commits.Copy.{copy_file}
use sandman.Store.Repos.{create_repo, delete_repo, delete_branch}
use sandman.Store.Tags.{put_tag, delete_tag}

-- The arguments are those of the operations.
pub data Op : Type 0 where
  start : Bytes → Bytes → Bytes → Bytes → Bytes → Op
  append overwrite : Bytes → Bytes → Bytes → Op
  delete : Bytes → Bytes → Op
  tombstone : Bytes → List Bytes → Op
  add_files : Bytes → List (Bytes × Bytes) → Option Error → Op
  copy : Bytes → Bytes → Bytes → Bytes → Bool → Op
  retarget : Bytes → Bytes → Op
  finish : Bytes → Bytes → Bool → Op
  make_repo : Bytes → Op
  drop_repo : Bytes → Bool → Op
  drop_branch : Bytes → Bytes → Op
  tag : Bytes → Bytes → Op
  untag : Bytes → Op

unfoldable pub step : Env → Store → Op → Store
step env s (start id now repo branch description) =
    (start_commit s id now repo branch description).0
step env s (append id p content) = (put_file env s id p content).0
step env s (overwrite id p content) = (overwrite_file env s id p content).0
step env s (delete id p) = (delete_file s id p).0
step env s (tombstone id walked) = (tombstone_removed s id walked).0
step env s (add_files id visited walk_err) = (add_files_from_dir env s id visited walk_err).0
step env s (copy dst_id dst_path src_id src_path over) =
    (copy_file env s dst_id dst_path src_id src_path over).0
step env s (retarget id parent) = (reparent s id parent).0
step env s (finish id description empty) = (finish_commit env s id description empty).0
step env s (make_repo name) = (create_repo env s name).0
step env s (drop_repo name force) = (delete_repo s name force).0
step env s (drop_branch repo branch) = (delete_branch s repo branch).0
step env s (tag name content) = (put_tag env s name content).0
step env s (untag name) = (delete_tag s name).0

unfoldable pub run : Env → Store → List Op → Store
run env s [] = s
run env s (op ∷ ops) = run env (step env s op) ops
