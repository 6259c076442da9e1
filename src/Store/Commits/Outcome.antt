-- ===== src/Store/Commits/Outcome.antt =====
-- The store that an operation leaves: the one it found, or that with one record saved.
use sandman.Prelude.{
  Bytes, ℕ, ◌≡◌, refl, ◌⊎◌, inl, inr, false, ◌||◌, some, List, [], ◌++◌, arith, eqs, Bool-cases,
  Option-cases,
}
use sandman.Prelude.Map.{keys}
use sandman.Prelude.Sort.{sort}
use sandman.Prelude.Result.{ok, Result-cases}
use sandman.Store.Data.{FileOp, CommitRec, Store, Env}
use sandman.Store.Names.{valid_path, valid_name, check_commit_case}
use sandman.Store.Records.{
  save_commit, load_commit_by_id, append_op, overwrite_op, deletion_op, deletion_ops,
}
use sandman.Store.View.{resolve_view}
use sandman.Store.Commits.{
  new_commit, branch_or_default, start_commit, open_commit, add_op, write_file, put_file,
  overwrite_file, delete_file, absent, parent_view, tombstone_removed, reparent,
}
use sandman.Store.Commits.Inversion.{open_commit-IsOpen, after_write}

-- `t` is `s`, or is made from an unfinished commit of `s`.
abbrev pub Outcome : Store → Bytes → (CommitRec → Store) → Store → Type 0
Outcome s id after t =
    (t ≡ s)
    ⊎ ((rec : CommitRec) × (load_commit_by_id s id ≡ some rec)
        × (rec.finished ≡ false)
        × (t ≡ after rec))

of_open :
    (s t : Store) (id : Bytes) (after : CommitRec → Store) (rec : CommitRec)
    → open_commit s id ≡ ok rec
    → t ≡ after rec
    → Outcome s id after t
of_open s t id after rec q e =
    let o = open_commit-IsOpen s id rec q in inr (rec, o.found, o.unfinished, e)

module _ (env : Env) (s : Store) (id p content : Bytes) where
  write_file-Outcome :
      (make : Bytes → Bytes → ℕ → FileOp)
      → Outcome s id
          (λ rec. after_write env make s rec p content)
          (write_file env make s id p content).0
  unfolding write_file
  write_file-Outcome make = elim (Result-cases (open_commit s id)) [
    | inl (e, q) ↦ inl (ground arith)
    | inr (rec, q) ↦ elim (Option-cases (check_commit_case env (keys (resolve_view s rec)) p)) [
      | inl n ↦ of_open s _ id _ rec q (ground arith)
      | inr (x, n) ↦ inl (ground arith)
    ]
  ]

  pub put_file-Outcome :
      Outcome s id
        (λ rec. after_write env append_op s rec p content)
        (put_file env s id p content).0
  unfolding put_file
  put_file-Outcome = elim (Bool-cases (valid_path p)) [
    | inl v ↦ rw v (write_file-Outcome append_op)
    | inr v ↦ inl (rw v refl)
  ]

  pub overwrite_file-Outcome :
      Outcome s id
        (λ rec. after_write env overwrite_op s rec p content)
        (overwrite_file env s id p content).0
  unfolding overwrite_file
  overwrite_file-Outcome = elim (Bool-cases (valid_path p)) [
    | inl v ↦ rw v (write_file-Outcome overwrite_op)
    | inr v ↦ inl (rw v refl)
  ]

module _ (s : Store) (id : Bytes) where
  pub delete_file-Outcome :
      (p : Bytes)
      → Outcome s id (λ rec. save_commit s (add_op rec (deletion_op p))) (delete_file s id p).0
  unfolding delete_file
  delete_file-Outcome p = elim (Result-cases (open_commit s id)) [
    | inl (e, q) ↦ inl (ground arith)
    | inr (rec, q) ↦ elim (Bool-cases (valid_path p)) [
      | inl v ↦ of_open s _ id _ rec q (ground arith)
      | inr v ↦ inl (ground arith)
    ]
  ]

  -- TombstoneRemoved writes into a finished commit too.
  pub tombstone_removed_outcome :
      (walked : List Bytes)
      → ((tombstone_removed s id walked).0 ≡ s)
        ⊎ ((rec : CommitRec) × (load_commit_by_id s id ≡ some rec)
            × ((tombstone_removed s id walked).0
                ≡ save_commit s (record rec {
                  ops = rec.ops ++ deletion_ops (sort (absent walked (keys (parent_view s rec))));
                })))
  unfolding tombstone_removed
  tombstone_removed_outcome walked = elim (Option-cases (load_commit_by_id s id)) [
    | inl n ↦ inl (ground arith)
    | inr (rec, n) ↦ inr (rec, n, ground arith)
  ]

  pub reparent-Outcome :
      (parent : Bytes)
      → Outcome s id
          (λ rec. save_commit s (record rec { parent_id = parent }))
          (reparent s id parent).0
  unfolding reparent
  reparent-Outcome parent = elim (Option-cases (load_commit_by_id s id)) [
    | inl n ↦ inl (ground arith)
    | inr (rec, n) ↦
        elim (Bool-cases (eqs parent [] || (rec.finished || eqs rec.parent_id parent))) [
          | inl v ↦ inl (ground arith)
          | inr v ↦ inr (rec, n, ground arith, ground arith)
        ]
  ]

pub start_commit_outcome :
    (s : Store) (id now repo branch description : Bytes)
    → ((start_commit s id now repo branch description).0 ≡ s)
      ⊎ ((start_commit s id now repo branch description).0
          ≡ save_commit s (new_commit s id now repo (branch_or_default branch) description))
unfolding start_commit
start_commit_outcome s id now repo branch description = elim (Bool-cases (valid_name repo)) [
  | inl v ↦ inr (rw v refl)
  | inr v ↦ inl (rw v refl)
]
