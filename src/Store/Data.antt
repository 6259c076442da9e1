-- ===== src/Store/Data.antt =====
-- The records of internal/store/store.go, and the state that it keeps on disk.
use sandman.Prelude.{Bytes, ℕ, Bool, Option, List}
use sandman.Prelude.Map.{Map}

-- fileEntry, of the records written before the append model
pub record FileEntry : Type 0 where
  pub path : Bytes
  pub sha : Bytes
  pub size : ℕ

pub record FileOp : Type 0 where
  pub path : Bytes
  pub sha : Bytes
  pub size : ℕ
  pub overwrite : Bool
  pub delete : Bool

pub record ViewPart : Type 0 where
  pub sha : Bytes
  pub size : ℕ
  pub overwrite : Bool

pub record ViewEntry : Type 0 where
  pub parts : List ViewPart

pub record CommitRec : Type 0 where
  pub id : Bytes
  pub repo : Bytes
  pub branch : Bytes
  pub description : Bytes
  pub parent_id : Bytes
  pub started : Bool
  pub created_at : Bytes
  pub finished : Bool
  pub empty : Bool
  pub ops : List FileOp
  pub provenance : List Bytes
  pub files : List FileEntry
  pub deleted : List Bytes

-- One directory repos/<name>: commits/<id>.json, refs/<branch>, default.
pub record Repo : Type 0 where
  pub commits : Map CommitRec
  pub refs : Map Bytes
  pub primary : Option Bytes

-- repos/, repos/.objects/, tags/, and the names of the files pipelines/<name>.json.
pub record Store : Type 0 where
  pub repos : Map Repo
  pub objects : Map Bytes
  pub tags : Map Bytes
  pub pipelines : List Bytes

-- What the operations take from outside: the digest of crypto/sha256, whether the file system of
-- the state directory folds case (casefs.go probes it), and the folding of Go's unicode tables.
pub record Env : Type 0 where
  pub sha256 : Bytes → Bytes
  pub folds : Bool
  pub to_lower : Bytes → Bytes
  pub equal_fold : Bytes → Bytes → Bool

-- The errors, one for each message; those made by `notFound` end in `_not_found`.
pub data Error : Type 0 where
  invalid_repo_name : Bytes → Error
  invalid_tag_name : Bytes → Error
  invalid_branch_name : Bytes → Error
  invalid_path : Bytes → Error
  repo_not_found : Bytes → Error
  commit_not_found : Bytes → Error
  branch_not_found : Bytes → Error
  path_not_found : Bytes → Error
  file_not_found : Bytes → Error
  tag_not_found : Bytes → Error
  repo_exists : Bytes → Error
  path_exists : Bytes → Error
  not_open : Bytes → Error
  already_finished : Bytes → Error
  type_conflict : Bytes → Error
  case_collision : Bytes → Error
  spec_protected : Error
  force_required : Bytes → Error
  default_branch : Bytes → Error
  no_head : Bytes → Error
  blob_missing : Bytes → Error
  write_ref : Bytes → Error

-- client.Commit, client.Repo, client.Branch, client.FileInfo, DatumRef and tagInfo
pub record Commit : Type 0 where
  pub id : Bytes
  pub repo : Bytes
  pub branch : Bytes
  pub description : Bytes
  pub started : Bool
  pub created_at : Bytes
  pub finished : Bool
  pub empty : Bool
  pub parent_id : Bytes
  pub provenance : List Bytes

pub record RepoInfo : Type 0 where
  pub name : Bytes
  pub branches : List Bytes
  pub size_bytes : ℕ

pub record BranchInfo : Type 0 where
  pub repo : Bytes
  pub branch : Bytes
  pub head : Bytes

pub record FileInfo : Type 0 where
  pub path : Bytes
  pub size : ℕ
  pub hash : Bytes

pub record DatumRef : Type 0 where
  pub path : Bytes
  pub hash : Bytes

pub record TagInfo : Type 0 where
  pub name : Bytes
  pub ref : Bytes
