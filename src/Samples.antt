-- ===== src/Samples.antt =====
-- The data on which the theorems are run, and the store that the runs start from.
mod ProtocolRuns
mod StoreRuns
mod TriggerRuns
mod WalkRuns
mod HostRuns
mod PeerRuns
mod DatumRuns
mod GateRuns
mod TxRuns
mod PairingRuns
mod MergeRuns
mod DeletionRuns
mod PipelineRuns
mod RollbackRuns
use sandman.Prelude.{
  Bytes, codes, ◌≡◌, refl, false, true, some, lts, none, List, [], ◌∷◌, eqs, arith,
}
use mathlib.Core.Path.{subst}
use sandman.Prelude.Map.{get, put, keys}
use sandman.Store.Data.{CommitRec, Repo, Store, Env}
use sandman.Store.Records.{
  default_branch_name, append_op, load_commit, load_commit_by_id, decode, write_blob,
}
use sandman.Store.Names.{valid_name, valid_path, check_commit_case, case_name_collision}
use sandman.Store.Commits.{start_commit, put_file, open_commit}
use sandman.Store.Commits.Finish.{finish_commit, set_head, normalize_marker, commit_writes_marker}
use sandman.Store.View.{head_of, path_conflict, resolve_view}
use sandman.Store.Repos.{create_repo}
use sandman.Store.Records.Blobs.{IsInjective}
use sandman.Store.Steps.{Op, start, append, overwrite, delete, finish, make_repo, run, step}
use sandman.Store.Steps.Consistent.{run-IsConsistent}
use sandman.Store.Invariant.{IsConsistent}

-- A digest without collisions, on a file system that keeps case apart.
abbrev pub plain_env : Env
plain_env = record { sha256 = λ x. x; folds = false; to_lower = λ x. x; equal_fold = eqs }

pub plain_env-IsInjective : IsInjective plain_env.sha256
plain_env-IsInjective x y h = h

abbrev pub empty_store : Store
empty_store = record { repos = []; objects = []; tags = []; pipelines = [] }

pub empty_store-IsConsistent : IsConsistent plain_env empty_store
unfolding load_commit get
empty_store-IsConsistent = record {
  placed = λ r i x h. absurd (ground arith);
  stored = λ h c e. absurd (ground arith);
  sealed = λ r i x h. absurd (ground arith);
  backed = λ r i x h. absurd (ground arith);
}

abbrev pub data_repo : Bytes
data_repo = codes "d"

abbrev pub first_id : Bytes
first_id = codes "1"

abbrev pub second_id : Bytes
second_id = codes "2"

abbrev pub a_path : Bytes
a_path = codes "a"

-- One finished commit with a file, and an open child of it.
abbrev pub sample_ops : List Op
sample_ops =
    make_repo data_repo
    ∷ start first_id [] data_repo [] []
    ∷ append first_id a_path (codes "x")
    ∷ finish first_id [] false
    ∷ start second_id [] data_repo [] []
    ∷ []

abbrev pub no_ops : Bytes → Bytes → CommitRec
no_ops id parent = record {
  id = id;
  repo = data_repo;
  branch = default_branch_name;
  description = [];
  parent_id = parent;
  started = true;
  created_at = [];
  finished = false;
  empty = false;
  ops = [];
  provenance = [];
  files = [];
  deleted = [];
}

abbrev pub first_rec : CommitRec
first_rec = record (no_ops first_id []) {
  ops = append_op a_path (codes "x") 1 ∷ [];
  finished = true;
}

abbrev pub second_rec : CommitRec
second_rec = no_ops second_id first_id

-- What the run leaves.
abbrev pub sample_store : Store
sample_store = record empty_store {
  repos =
      (
        data_repo,
        record {
          commits = (first_id, first_rec) ∷ (second_id, second_rec) ∷ [];
          refs = (default_branch_name, first_id) ∷ [];
          primary = some default_branch_name;
        },
      )
      ∷ [];
  objects = (codes "x", codes "x") ∷ [];
}

run-sample_ops : run plain_env empty_store sample_ops ≡ sample_store
unfolding run step head_of create_repo start_commit put_file finish_commit set_head normalize_marker
    valid_name valid_path load_commit_by_id load_commit decode open_commit check_commit_case
    write_blob case_name_collision commit_writes_marker path_conflict resolve_view get put keys lts
run-sample_ops = refl

pub sample_store-IsConsistent : IsConsistent plain_env sample_store
sample_store-IsConsistent = subst (IsConsistent plain_env) run-sample_ops (
    run-IsConsistent plain_env plain_env-IsInjective empty_store sample_ops
      empty_store-IsConsistent)
