-- ===== src/Store/RoundTrip.antt =====
-- What a read returns after a write into an open commit.
use sandman.Prelude.{
  Bytes, ℕ, ◌≡◌, refl, sym, ap, ◌∙◌, false, Option, none, some, List, [], ◌∷◌, arith, length,
  eqs_refl,
}
use sandman.Prelude.Map.{get}
use sandman.Prelude.Result.{Result, ok, err}
use sandman.Store.Data.{FileOp, ViewEntry, CommitRec, Store, Env, Error, file_not_found}
use sandman.Store.Records.{
  save_commit, write_blob, read_blob, load_commit_by_id, overwrite_op, deletion_op,
}
use sandman.Store.Records.Saved.{load_by_id, load_commit-IsCurrent, append-IsCurrent, by_id-save}
use sandman.Store.Records.Blobs.{
  IsStored, IsInjective, sha-write_blob, repos-write_blob, get-write_blob_new, load_commit-repos,
  by_id-repos,
}
use sandman.Store.View.{View, bytes_from, entry_bytes, resolve_view}
use sandman.Store.View.Replay.{
  path_op, path_replay, path_chain, get-replay_chain, path_replay-append,
}
use sandman.Store.View.Ancestry.{older_of, resolve_view_open}
use sandman.Store.Invariant.{IsConsistent}
use sandman.Store.Commits.{add_op, overwrite_file, delete_file}
use sandman.Store.Commits.Inversion.{IsOpen, after_write, overwrite_file_ok, delete_file_ok}
use sandman.Store.Files.{get_file}

-- A read at the entry of one path.
unfoldable pub read_entry : Store → Bytes → Option ViewEntry → Result Error Bytes
read_entry s p none = err (file_not_found p)
read_entry s p (some e) = entry_bytes s e

pub get_file_entry :
    (s : Store) (id p : Bytes) {rec : CommitRec}
    → load_commit_by_id s id ≡ some rec
    → get_file s id p ≡ read_entry s p (get p (resolve_view s rec))
unfolding get_file read_entry
get_file_entry s id p {rec} h = ground arith

-- A read through an open commit, by what its own operations make of the path.
pub get_file_open :
    (s : Store) (id p : Bytes) {rec : CommitRec}
    → load_commit_by_id s id ≡ some rec
    → rec.empty ≡ false
    → get_file s id p ≡ read_entry s p (path_chain p (rec ∷ older_of s rec))
get_file_open s id p {rec} h e =
    get_file_entry s id p h
    ∙ ap (λ (v : View). read_entry s p (get p v)) (resolve_view_open s rec e)
    ∙ ap (read_entry s p) (get-replay_chain p (rec ∷ older_of s rec))

pub path_chain_add :
    (p : Bytes) (rec : CommitRec) (op : FileOp) (cs : List CommitRec)
    → path_chain p (add_op rec op ∷ cs) ≡ path_op p (path_chain p (rec ∷ cs)) op
unfolding path_chain path_replay
path_chain_add p rec op cs = path_replay-append p (path_chain p cs) rec.ops (op ∷ [])

-- An open commit in a consistent store is no barrier.
pub IsOpen-empty :
    (env : Env) (s : Store) (id : Bytes) (rec : CommitRec)
    → IsConsistent env s
    → IsOpen s id rec
    → rec.empty ≡ false
IsOpen-empty env s id rec c o =
    ground (arith, c.sealed rec.repo id rec (load_by_id s c.placed id o.found).0)

-- The commit is found again, with the operation added, after its record is saved.
module _ (env : Env) (s t : Store) (id : Bytes) (rec : CommitRec) (op : FileOp) where
  pub add_op_found :
      IsConsistent env s
      → IsOpen s id rec
      → t.repos ≡ s.repos
      → load_commit_by_id (save_commit t (add_op rec op)) id ≡ some (add_op rec op)
  add_op_found c o e =
      by_id-save t (λ r i x h. c.placed r i x (sym (load_commit-repos s t r i e) ∙ h)) id
        (by_id-repos s t id e ∙ o.found) (add_op rec op) refl (load_by_id s c.placed id o.found).1
        (append-IsCurrent rec (op ∷ [])
          (load_commit-IsCurrent s rec.repo id (load_by_id s c.placed id o.found).0))

  get_file_added :
      (p : Bytes)
      → IsConsistent env s
      → IsOpen s id rec
      → t.repos ≡ s.repos
      → get_file (save_commit t (add_op rec op)) id p
        ≡ read_entry (save_commit t (add_op rec op)) p (
            path_op p
              (path_chain p (rec ∷ older_of (save_commit t (add_op rec op)) (add_op rec op)))
              op)
  get_file_added p c o e =
      get_file_open (save_commit t (add_op rec op)) id p (add_op_found c o e)
        (IsOpen-empty env s id rec c o)
      ∙ ap (read_entry (save_commit t (add_op rec op)) p)
          (path_chain_add p rec op (older_of (save_commit t (add_op rec op)) (add_op rec op)))

pub objects-save : (s : Store) (rec : CommitRec) → (save_commit s rec).objects ≡ s.objects
unfolding save_commit
objects-save s rec = refl

module _ (env : Env) (s : Store) (id p content : Bytes) where
  -- The blob of a write can be read back from the store that the write leaves.
  pub read_written :
      IsInjective env.sha256
      → IsStored env s
      → (make : Bytes → Bytes → ℕ → FileOp) (rec : CommitRec)
      → read_blob (after_write env make s rec p content) (write_blob env s content).1 ≡ some content
  unfolding read_blob save_commit
  read_written inj stored make rec =
      ground (arith, sha-write_blob env s content, get-write_blob_new env s content inj stored)

  overwritten :
      IsInjective env.sha256
      → IsStored env s
      → (rec : CommitRec) (old : Option ViewEntry)
      → read_entry
          (after_write env overwrite_op s rec p content)
          p
          (path_op p old (overwrite_op p (write_blob env s content).1 (length content)))
        ≡ ok content
  unfolding read_entry path_op entry_bytes bytes_from
  overwritten inj stored rec old =
      ground (arith, eqs_refl p, read_written inj stored overwrite_op rec)

  -- After an OverwriteFile that returns no error, reading the path in the open commit returns
  -- exactly the written bytes, whatever the commit and its ancestry held there before.
  pub get_file-overwrite_file :
      IsInjective env.sha256
      → IsConsistent env s
      → (overwrite_file env s id p content).1 ≡ ok tt
      → get_file (overwrite_file env s id p content).0 id p ≡ ok content
  get_file-overwrite_file inj c h =
      let (rec, o, e) = overwrite_file_ok env s id p content h in
      ap (λ (t : Store). get_file t id p) e
      ∙ get_file_added env s (write_blob env s content).0 id rec
          (overwrite_op p (write_blob env s content).1 (length content)) p c o
          (repos-write_blob env s content)
      ∙ overwritten inj c.stored rec _

module _ (env : Env) (s : Store) (id p : Bytes) where
  deleted_entry :
      (t : Store) (old : Option ViewEntry)
      → read_entry t p (path_op p old (deletion_op p)) ≡ err (file_not_found p)
  unfolding read_entry path_op
  deleted_entry t old = ground (arith, eqs_refl p)

  -- After a DeleteFile that returns no error, the path is not found in the open commit, whether its
  -- content came from the commit or from its ancestry.
  pub get_file-delete_file :
      IsConsistent env s
      → (delete_file s id p).1 ≡ ok tt
      → get_file (delete_file s id p).0 id p ≡ err (file_not_found p)
  get_file-delete_file c h =
      let (rec, o, e) = delete_file_ok s id p h in
      ap (λ (t : Store). get_file t id p) e
      ∙ get_file_added env s s id rec (deletion_op p) p c o refl
      ∙ deleted_entry (save_commit s (add_op rec (deletion_op p))) _
