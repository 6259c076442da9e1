-- ===== src/Store/Commits/Results.antt =====
-- The stores that AddFilesFromDir, CopyFile and FinishCommit leave, error branches included.
use sandman.Prelude.{
  Bytes, ◌≡◌, refl, ◌⊎◌, inl, inr, Bool, true, false, not, ◌||◌, Option, none, some, List, [], ◌∷◌,
  ◌++◌, arith, eqs, Bool-cases, Option-cases,
}
use mathlib.Core.Path.{subst}
use sandman.Prelude.Map.{keys}
use sandman.Prelude.Result.{Result, ok, err, Done, Result-cases}
use sandman.Store.Data.{FileOp, CommitRec, Store, Env, Error}
use sandman.Store.Names.{valid_path, check_paths_case}
use sandman.Store.Records.{save_commit, load_commit_by_id}
use sandman.Store.View.{View, resolve_view, path_conflict}
use sandman.Store.Commits.{open_commit, store_files, op_paths, add_files_from_dir}
use sandman.Store.Commits.Inversion.{open_commit-IsOpen}
use sandman.Store.Commits.Finish.{
  set_head, normalize_marker, described, report, close_commit, finish_commit,
}
use sandman.Store.Commits.Copy.{
  Move, moves_of, dst_paths, existing, copy_moves, copy_all, copy_found, copy_into, copy_file,
}

module _ (env : Env) (s : Store) (id : Bytes) (visited : List (Bytes × Bytes)) where
  abbrev stored : Store
  stored = (store_files env s visited).0

  pub add_files_outcome :
      (walk_err : Option Error)
      → ((add_files_from_dir env s id visited walk_err).0 ≡ s)
        ⊎ (((add_files_from_dir env s id visited walk_err).0 ≡ stored)
            ⊎ ((rec : CommitRec) × (load_commit_by_id s id ≡ some rec)
                × (rec.finished ≡ false)
                × ((add_files_from_dir env s id visited walk_err).0
                    ≡ save_commit stored
                        (record rec { ops = rec.ops ++ (store_files env s visited).1 }))))
  unfolding add_files_from_dir
  add_files_outcome (some e) = elim (Result-cases (open_commit s id)) [
    | inl (x, q) ↦ inl (ground arith)
    | inr (rec, q) ↦ inr (inl (ground arith))
  ]
  add_files_outcome none = elim (Result-cases (open_commit s id)) [
    | inl (x, q) ↦ inl (ground arith)
    | inr (rec, q) ↦
        let o = open_commit-IsOpen s id rec q in
        elim (Option-cases (
          check_paths_case env (keys (resolve_view stored rec))
            (op_paths (store_files env s visited).1))) [
              | inl n ↦ inr (inr (rec, o.found, o.unfinished, ground arith))
              | inr (x, n) ↦ inr (inl (ground arith))
            ]
  ]

-- What a copy into `dst_rec` leaves.
abbrev pub CopyOutcome : Env → Store → CommitRec → View → Bool → List Move → Store → Type 0
CopyOutcome env s dst_rec v over ms t =
    (t ≡ s)
    ⊎ ((t ≡ (copy_moves env s v over ms).0)
        ⊎ ((ops : List FileOp) × ((copy_moves env s v over ms).1 ≡ ok ops)
            × (t
                ≡ save_commit (copy_moves env s v over ms).0
                    (record dst_rec { ops = dst_rec.ops ++ ops }))))

module _ (env : Env) (s : Store) (over : Bool) where
  copy_all_outcome :
      (dst_rec : CommitRec) (v : View) (ms : List Move)
      → CopyOutcome env s dst_rec v over ms (copy_all env s dst_rec v over ms).0
  unfolding copy_all
  copy_all_outcome dst_rec v ms =
      elim (Option-cases (check_paths_case env (keys (resolve_view s dst_rec)) (dst_paths ms))) [
        | inr (x, n) ↦ inl (ground arith)
        | inl n ↦ elim (Option-cases (existing over (resolve_view s dst_rec) ms)) [
          | inr (x, k) ↦ inl (ground arith)
          | inl k ↦ elim (Result-cases (copy_moves env s v over ms).1) [
            | inl (x, q) ↦ inr (inl (ground arith))
            | inr (ops, q) ↦ inr (inr (ops, q, ground arith))
          ]
        ]
      ]

  copy_found_outcome :
      (dst_rec : CommitRec) (v : View) (src_path : Bytes) (ms : List Move)
      → CopyOutcome env s dst_rec v over ms (copy_found env s dst_rec v src_path over ms).0
  unfolding copy_found
  copy_found_outcome dst_rec v src_path [] = inl refl
  copy_found_outcome dst_rec v src_path (m ∷ ms) = copy_all_outcome dst_rec v (m ∷ ms)

  pub copy_file_outcome :
      (dst_id dst_path src_id src_path : Bytes)
      → ((copy_file env s dst_id dst_path src_id src_path over).0 ≡ s)
        ⊎ ((dst_rec src_rec : CommitRec) × (load_commit_by_id s dst_id ≡ some dst_rec)
            × (dst_rec.finished ≡ false)
            × (load_commit_by_id s src_id ≡ some src_rec)
            × CopyOutcome env s dst_rec
                (resolve_view s src_rec)
                over
                (moves_of (resolve_view s src_rec) src_path dst_path)
                (copy_file env s dst_id dst_path src_id src_path over).0)
  unfolding copy_file copy_into
  copy_file_outcome dst_id dst_path src_id src_path = elim (Result-cases (open_commit s dst_id)) [
    | inl (x, q) ↦ inl (ground arith)
    | inr (dst_rec, q) ↦ elim (Option-cases (load_commit_by_id s src_id)) [
      | inl n ↦ inl (ground arith)
      | inr (src_rec, n) ↦ elim (Bool-cases (valid_path dst_path)) [
        | inr v ↦ inl (ground arith)
        | inl v ↦
            let o = open_commit-IsOpen s dst_id dst_rec q in
            let view = resolve_view s src_rec in
            let ms = moves_of view src_path dst_path in
            inr (
              dst_rec,
              src_rec,
              o.found,
              o.unfinished,
              n,
              subst (CopyOutcome env s dst_rec view over ms) (ground arith)
                  (copy_found_outcome dst_rec view src_path ms),
            )
      ]
    ]
  ]

pub report_state : (rec : CommitRec) (r : Store × Result Error Done) → (report rec r).0 ≡ r.0
report_state rec (s, ok x) = refl
report_state rec (s, err e) = refl

-- What closing the commit `rec` leaves, with its new description.
module _ (env : Env) (s : Store) (id description : Bytes) (empty : Bool) where
  abbrev marked : CommitRec → Store × CommitRec
  marked rec =
      normalize_marker env s (resolve_view s (described rec description))
        (described rec description)

  abbrev pub closed : CommitRec → CommitRec
  closed rec = record (marked rec).1 { empty = empty; finished = true }

  pub finish_commit_outcome :
      ((finish_commit env s id description empty).0 ≡ s)
      ⊎ ((rec : CommitRec) × (load_commit_by_id s id ≡ some rec)
          × (rec.finished ≡ false)
          × (((finish_commit env s id description empty).0 ≡ (marked rec).0)
              ⊎ ((finish_commit env s id description empty).0
                  ≡ (set_head env
                      (save_commit (marked rec).0 (closed rec))
                      (closed rec).repo
                      (closed rec).branch
                      (closed rec).id).0)))
  unfolding finish_commit close_commit
  finish_commit_outcome = elim (Option-cases (load_commit_by_id s id)) [
    | inl n ↦ inl (ground arith)
    | inr (rec, n) ↦ elim (Bool-cases (not rec.started || rec.finished)) [
      | inl v ↦ inl (ground arith)
      | inr v ↦
          let d = described rec description in
          let r =
            set_head env (save_commit (marked rec).0 (closed rec)) (closed rec).repo
              (closed rec).branch (closed rec).id in
          elim (Bool-cases (eqs (path_conflict (resolve_view s d)) [])) [
            | inl e ↦ inr (rec, n, ground arith, inr (ground (arith, report_state (closed rec) r)))
            | inr e ↦ inr (rec, n, ground arith, inl (ground arith))
          ]
    ]
  ]
