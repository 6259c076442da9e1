-- ===== src/Store/Records.antt =====
-- Records and blobs on disk (store.go, "low-level record I/O"). A write to disk succeeds; a read
-- fails when the file is not there.
pub mod Saved
pub mod Blobs
use sandman.Prelude.{
  Bytes, codes, Bool, true, false, Option, none, some, List, [], ◌∷◌, ◌++◌, if◌then◌else◌,
  has_prefix, is_some, suc, ℕ, length,
}
use sandman.Prelude.Map.{Map, get, put}
use sandman.Prelude.Result.{Result, ok, err, Done}
use sandman.Store.Data.{
  FileEntry, FileOp, CommitRec, Repo, Store, Env, Error, Commit, commit_not_found, not_open,
}

abbrev pub default_branch_name : Bytes
default_branch_name = codes "master"

abbrev pub spec_repo : Bytes
spec_repo = codes "spec"

abbrev pub no_repo : Repo
no_repo = record { commits = []; refs = []; primary = none }

abbrev pub repo_of : Option Repo → Repo
repo_of none = no_repo
repo_of (some r) = r

-- The legacy records: deletions first, then each file as an overwrite.
abbrev pub deletion_op : Bytes → FileOp
deletion_op p = record { path = p; sha = []; size = 0; overwrite = false; delete = true }

abbrev pub overwrite_op : Bytes → Bytes → ℕ → FileOp
overwrite_op p h n = record { path = p; sha = h; size = n; overwrite = true; delete = false }

abbrev pub append_op : Bytes → Bytes → ℕ → FileOp
append_op p h n = record { path = p; sha = h; size = n; overwrite = false; delete = false }

abbrev pub deletion_ops : List Bytes → List FileOp
deletion_ops [] = []
deletion_ops (p ∷ ps) = deletion_op p ∷ deletion_ops ps

abbrev pub file_ops : List FileEntry → List FileOp
file_ops [] = []
file_ops (f ∷ fs) = overwrite_op f.path f.sha f.size ∷ file_ops fs

abbrev pub decode_legacy : List FileOp → CommitRec → CommitRec
decode_legacy [] rec = record rec {
  ops = deletion_ops rec.deleted ++ file_ops rec.files;
  files = [];
  deleted = [];
}
decode_legacy (op ∷ ops) rec = rec

-- What json.Unmarshal and the conversion make of a stored record.
unfoldable pub decode : CommitRec → CommitRec
decode rec = decode_legacy rec.ops rec

abbrev pub commits_of : Store → Bytes → Map CommitRec
commits_of s repo = (repo_of (get repo s.repos)).commits

abbrev pub decoded : Option CommitRec → Option CommitRec
decoded none = none
decoded (some rec) = some (decode rec)

unfoldable pub load_commit : Store → Bytes → Bytes → Option CommitRec
load_commit s repo id = decoded (get id (commits_of s repo))

-- Makes the directory commits/ of rec.Repo where it is missing.
unfoldable pub save_commit : Store → CommitRec → Store
save_commit s rec =
    let r = repo_of (get rec.repo s.repos) in
    record s { repos = put rec.repo (record r { commits = put rec.id rec r.commits }) s.repos }

-- The content is stored once under its digest.
unfoldable pub write_blob : Env → Store → Bytes → Store × Bytes
write_blob env s content =
    let sha = env.sha256 content in
    elim (get sha s.objects) [
      | some old ↦ (s, sha)
      | none ↦ (record s { objects = put sha content s.objects }, sha)
    ]

unfoldable pub read_blob : Store → Bytes → Option Bytes
read_blob s sha = get sha s.objects

-- The repositories in the order of their names; hidden directories are passed over.
unfoldable pub load_in : List Bytes → Store → Bytes → Option CommitRec
load_in [] s id = none
load_in (name ∷ names) s id =
    let rest = load_in names s id in
    if has_prefix (codes ".") name
    then rest
    else elim (load_commit s name id) [ some rec ↦ some rec | none ↦ rest ]

unfoldable pub repo_names : Map Repo → List Bytes
repo_names [] = []
repo_names ((name, r) ∷ rs) = name ∷ repo_names rs

unfoldable pub load_commit_by_id : Store → Bytes → Option CommitRec
unfolding load_in repo_names
load_commit_by_id s id = load_in (repo_names s.repos) s id

-- (rec *CommitRec) Commit()
unfoldable pub to_commit : CommitRec → Commit
to_commit rec = record {
  id = rec.id;
  repo = rec.repo;
  branch = rec.branch;
  description = rec.description;
  started = rec.started;
  created_at = rec.created_at;
  finished = rec.finished;
  empty = rec.empty;
  parent_id = rec.parent_id;
  provenance = rec.provenance;
}
