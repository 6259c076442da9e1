-- ===== src/Store/Records/Blobs.antt =====
-- The content-addressed objects: what a blob write keeps and what it makes readable.
use sandman.Prelude.{Bytes, ◌≡◌, refl, ap, ◌∙◌, Option, none, some, List, [], ◌∷◌, arith, eqs_iff}
use sandman.Prelude.Map.{get, get-put}
use sandman.Store.Data.{Store, Env}
use sandman.Store.Records.{load_commit, write_blob, load_in, load_commit_by_id, repo_names}

-- Every object stands under the digest of its content.
abbrev pub IsStored : Env → Store → Type 0
IsStored env s = (h c : Bytes) → get h s.objects ≡ some c → env.sha256 c ≡ h

abbrev pub IsInjective : (Bytes → Bytes) → Type 0
IsInjective f = (x y : Bytes) → f x ≡ f y → x ≡ y

module _ (env : Env) (s : Store) (content : Bytes) where
  pub sha-write_blob : (write_blob env s content).1 ≡ env.sha256 content
  unfolding write_blob
  sha-write_blob = ground arith

  pub repos-write_blob : (write_blob env s content).0.repos ≡ s.repos
  unfolding write_blob
  repos-write_blob = ground arith

  -- A write loses no object.
  pub get-write_blob_old :
      (h c : Bytes) → get h s.objects ≡ some c → get h (write_blob env s content).0.objects ≡ some c
  unfolding write_blob
  get-write_blob_old h c e =
      ground
        (arith, get-put (env.sha256 content) h content s.objects, eqs_iff (env.sha256 content) h)

  pub get-write_blob_new :
      IsInjective env.sha256
      → IsStored env s
      → get (env.sha256 content) (write_blob env s content).0.objects ≡ some content
  unfolding write_blob
  get-write_blob_new inj stored = go (get (env.sha256 content) s.objects) refl
    where
      go :
          (o : Option Bytes)
          → get (env.sha256 content) s.objects ≡ o
          → get (env.sha256 content) (write_blob env s content).0.objects ≡ some content
      go none e = ground (
        arith,
        e,
        get-put (env.sha256 content) (env.sha256 content) content s.objects,
        eqs_iff (env.sha256 content) (env.sha256 content),
      )
      go (some old) e = ground (arith, e, inj old content (stored (env.sha256 content) old e))

  pub write_blob-IsStored : IsStored env s → IsStored env (write_blob env s content).0
  unfolding write_blob
  write_blob-IsStored stored h c e = ground (
    arith,
    get-put (env.sha256 content) h content s.objects,
    eqs_iff (env.sha256 content) h,
    stored h c,
  )

-- Loading reads the repositories alone.
pub load_commit-repos :
    (s t : Store) (r i : Bytes) → t.repos ≡ s.repos → load_commit t r i ≡ load_commit s r i
unfolding load_commit
load_commit-repos s t r i e = rw e refl

load_in-repos :
    (names : List Bytes) (s t : Store) (id : Bytes)
    → t.repos ≡ s.repos
    → load_in names t id ≡ load_in names s id
unfolding load_in
load_in-repos [] s t id e = refl
load_in-repos (name ∷ names) s t id e =
    ground (arith, load_commit-repos s t name id e, load_in-repos names s t id e)

pub by_id-repos :
    (s t : Store) (id : Bytes) → t.repos ≡ s.repos → load_commit_by_id t id ≡ load_commit_by_id s id
unfolding load_commit_by_id
by_id-repos s t id e =
    ap (λ m. load_in (repo_names m) t id) e ∙ load_in-repos (repo_names s.repos) s t id e
