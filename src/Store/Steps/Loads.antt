-- ===== src/Store/Steps/Loads.antt =====
-- The loads after an operation on repositories, branches or tags.
use sandman.Prelude.{Bytes, ◌≡◌, ap, inl, inr, Bool, some, arith, eqs_iff, Option-cases}
use sandman.Prelude.Map.{Map, get, remove, get-put, get-remove}
use sandman.Store.Data.{CommitRec, Store, Env}
use sandman.Store.Records.{no_repo, load_commit, decoded, commits_of}
use sandman.Store.Repos.{create_repo, delete_repo, delete_branch}

module _ (s t : Store) (r : Bytes) where
  -- Loads follow the commits of each repository.
  load_of_commits :
      commits_of t r ≡ commits_of s r → (i : Bytes) → load_commit t r i ≡ load_commit s r i
  unfolding load_commit
  load_of_commits e i = ap (λ (m : Map CommitRec). decoded (get i m)) e

module _ (env : Env) (s : Store) (name : Bytes) where
  commits-create_repo : (r : Bytes) → commits_of (create_repo env s name).0 r ≡ commits_of s r
  unfolding create_repo
  commits-create_repo r = ground (arith, eqs_iff name r, get-put name r no_repo s.repos)

  pub load_commit-create_repo :
      (r i : Bytes) → load_commit (create_repo env s name).0 r i ≡ load_commit s r i
  load_commit-create_repo r = load_of_commits s (create_repo env s name).0 r (commits-create_repo r)

  pub objects-create_repo : (create_repo env s name).0.objects ≡ s.objects
  unfolding create_repo
  objects-create_repo = ground arith

module _ (s : Store) (repo branch : Bytes) where
  commits-delete_branch :
      (r : Bytes) → commits_of (delete_branch s repo branch).0 r ≡ commits_of s r
  unfolding delete_branch
  commits-delete_branch r = elim (Option-cases (get repo s.repos)) [
    | inl e ↦ ground (arith, e)
    | inr (x, e) ↦ ground (
      arith,
      e,
      eqs_iff repo r,
      get-put repo r (record x { refs = remove branch x.refs }) s.repos,
    )
  ]

  pub load_commit-delete_branch :
      (r i : Bytes) → load_commit (delete_branch s repo branch).0 r i ≡ load_commit s r i
  load_commit-delete_branch r =
      load_of_commits s (delete_branch s repo branch).0 r (commits-delete_branch r)

  pub objects-delete_branch : (delete_branch s repo branch).0.objects ≡ s.objects
  unfolding delete_branch
  objects-delete_branch = ground arith

module _ (s : Store) (name : Bytes) (force : Bool) where
  pub objects-delete_repo : (delete_repo s name force).0.objects ≡ s.objects
  unfolding delete_repo
  objects-delete_repo = ground arith

  pub load_commit-delete_repo :
      (r i : Bytes) (x : CommitRec)
      → load_commit (delete_repo s name force).0 r i ≡ some x
      → load_commit s r i ≡ some x
  unfolding delete_repo load_commit get
  load_commit-delete_repo r i x h = ground (arith, eqs_iff name r, get-remove name r s.repos)
