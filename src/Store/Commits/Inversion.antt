-- ===== src/Store/Commits/Inversion.antt =====
-- What an operation on an open commit has found and written when it returns no error.
use sandman.Prelude.{
  Bytes, ℕ, ◌≡◌, refl, true, false, Option, none, some, arith, length, Bool-cases, inl, inr,
}
use sandman.Prelude.Result.{Result, ok, err}
use sandman.Store.Data.{FileOp, CommitRec, Store, Env, Error}
use sandman.Store.Names.{valid_path}
use sandman.Store.Records.{
  save_commit, write_blob, load_commit_by_id, append_op, overwrite_op, deletion_op,
}
use sandman.Store.Commits.{open_commit, add_op, write_file, put_file, overwrite_file, delete_file}

-- `rec` takes writes.
pub record IsOpen (s : Store) (id : Bytes) (rec : CommitRec) : Type 0 where
  pub found : load_commit_by_id s id ≡ some rec
  pub started : rec.started ≡ true
  pub unfinished : rec.finished ≡ false

pub open_commit-IsOpen :
    (s : Store) (id : Bytes) (rec : CommitRec) → open_commit s id ≡ ok rec → IsOpen s id rec
unfolding open_commit
open_commit-IsOpen s id rec h = go (load_commit_by_id s id) refl
  where
    go : (o : Option CommitRec) → load_commit_by_id s id ≡ o → IsOpen s id rec
    go none e = ground arith
    go (some x) e = ground arith

-- The state after a write: the blob, then the record with one more operation.
abbrev pub after_write :
    Env → (Bytes → Bytes → ℕ → FileOp) → Store → CommitRec → Bytes → Bytes → Store
after_write env make s rec p content =
    save_commit (write_blob env s content).0
      (add_op rec (make p (write_blob env s content).1 (length content)))

pub write_file_ok :
    (env : Env) (make : Bytes → Bytes → ℕ → FileOp) (s : Store) (id p content : Bytes)
    → (write_file env make s id p content).1 ≡ ok tt
    → (rec : CommitRec) × IsOpen s id rec
      × ((write_file env make s id p content).0 ≡ after_write env make s rec p content)
unfolding write_file
write_file_ok env make s id p content h = go (open_commit s id) refl
  where
    go :
        (o : Result Error CommitRec)
        → open_commit s id ≡ o
        → (rec : CommitRec) × IsOpen s id rec
          × ((write_file env make s id p content).0 ≡ after_write env make s rec p content)
    go (err x) e = absurd (ground arith)
    go (ok rec) e = (rec, open_commit-IsOpen s id rec e, ground arith)

pub put_file_ok :
    (env : Env) (s : Store) (id p content : Bytes)
    → (put_file env s id p content).1 ≡ ok tt
    → (rec : CommitRec) × IsOpen s id rec
      × ((put_file env s id p content).0 ≡ after_write env append_op s rec p content)
unfolding put_file
put_file_ok env s id p content h = elim (Bool-cases (valid_path p)) [
  | inl v ↦ rw v (write_file_ok env append_op s id p content (rw v at h))
  | inr v ↦ absurd (ground arith)
]

pub overwrite_file_ok :
    (env : Env) (s : Store) (id p content : Bytes)
    → (overwrite_file env s id p content).1 ≡ ok tt
    → (rec : CommitRec) × IsOpen s id rec
      × ((overwrite_file env s id p content).0 ≡ after_write env overwrite_op s rec p content)
unfolding overwrite_file
overwrite_file_ok env s id p content h = elim (Bool-cases (valid_path p)) [
  | inl v ↦ rw v (write_file_ok env overwrite_op s id p content (rw v at h))
  | inr v ↦ absurd (ground arith)
]

pub delete_file_ok :
    (s : Store) (id p : Bytes)
    → (delete_file s id p).1 ≡ ok tt
    → (rec : CommitRec) × IsOpen s id rec
      × ((delete_file s id p).0 ≡ save_commit s (add_op rec (deletion_op p)))
unfolding delete_file
delete_file_ok s id p h = go (open_commit s id) refl
  where
    go :
        (o : Result Error CommitRec)
        → open_commit s id ≡ o
        → (rec : CommitRec) × IsOpen s id rec
          × ((delete_file s id p).0 ≡ save_commit s (add_op rec (deletion_op p)))
    go (err x) e = absurd (ground arith)
    go (ok rec) e = (rec, open_commit-IsOpen s id rec e, ground arith)
