-- ===== src/Store/Steps/Frozen.antt =====
-- The records of finished commits over a run of operations.
use sandman.Prelude.{
  Bytes, ◌≡◌, refl, sym, ◌∙◌, inl, inr, Bool, true, false, ◌&&◌, Option, none, some, List, [], ◌∷◌,
  ◌++◌, arith, eqs, eqs_iff, Bool-cases,
}
use mathlib.Core.Path.{subst}
use sandman.Store.Data.{CommitRec, Store, Env, Error}
use sandman.Store.Records.{load_commit, save_commit, write_blob, load_commit_by_id}
use sandman.Store.Records.Saved.{load_by_id, load_commit-save}
use sandman.Store.Records.Blobs.{IsInjective, load_commit-repos, repos-write_blob}
use sandman.Store.View.{resolve_view}
use sandman.Store.Invariant.{IsConsistent}
use sandman.Store.Invariant.Readable.{resolve_view-IsBackedView}
use sandman.Store.Commits.{new_commit, branch_or_default, store_files, add_files_from_dir}
use sandman.Store.Commits.Outcome.{
  start_commit_outcome, put_file-Outcome, overwrite_file-Outcome, delete_file-Outcome,
  tombstone_removed_outcome, reparent-Outcome,
}
use sandman.Store.Commits.Results.{
  add_files_outcome, copy_file_outcome, closed, finish_commit_outcome,
}
use sandman.Store.Commits.Bulk.{
  store_files_lem, copy_moves_lem, normalize_marker-IsMarked, load_commit-set_head,
}
use sandman.Store.Commits.Finish.{normalize_marker, described, finish_commit}
use sandman.Store.Commits.Copy.{moves_of, copy_moves, copy_file}
use sandman.Store.Repos.{create_repo, delete_branch}
use sandman.Store.Tags.{put_tag, delete_tag}
use sandman.Store.Steps.{
  Op, start, append, overwrite, delete, tombstone, add_files, copy, retarget, finish, make_repo,
  drop_repo, drop_branch, tag, untag, step, run,
}
use sandman.Store.Steps.Consistent.{
  step-IsConsistent, rec_loaded, rec-IsCurrent, rec-IsBacked, described-IsCurrent,
  described-IsBacked,
}
use sandman.Store.Steps.Loads.{load_commit-create_repo, load_commit-delete_branch}

-- Every finished commit of `s` is in `t`, field for field.
abbrev pub IsFrozen : Store → Store → Type 0
IsFrozen s t =
    (r i : Bytes) (x : CommitRec)
    → load_commit s r i ≡ some x
    → x.finished ≡ true
    → load_commit t r i ≡ some x

-- What the callers of the store see to: the id of a new commit is fresh, tombstones go into a commit
-- that is not finished, and no repository is deleted.
abbrev pub IsAllowed : Store → Op → Type 0
IsAllowed s (start id now repo branch description) = load_commit s repo id ≡ none
IsAllowed s (tombstone id walked) =
    (rec : CommitRec) → load_commit_by_id s id ≡ some rec → rec.finished ≡ false
IsAllowed s (drop_repo name force) = ⊥
IsAllowed s _ = Unit

same-IsFrozen :
    (s t : Store) → ((r i : Bytes) → load_commit t r i ≡ load_commit s r i) → IsFrozen s t
same-IsFrozen s t e r i x h f = e r i ∙ h

-- Saving over a record that is not finished, or is not there, touches no finished one.
save-IsFrozen :
    (s t : Store) (rec : CommitRec)
    → ((r i : Bytes) → load_commit t r i ≡ load_commit s r i)
    → ((x : CommitRec) → load_commit s rec.repo rec.id ≡ some x → x.finished ≡ false)
    → IsFrozen s (save_commit t rec)
save-IsFrozen s t rec e unfinished r i x h f = elim (Bool-cases (eqs rec.repo r && eqs rec.id i)) [
  | inl q ↦ absurd (ground (arith, eqs_iff rec.repo r, eqs_iff rec.id i, unfinished x))
  | inr q ↦ load_commit-save t rec r i ∙ rw q (e r i ∙ h)
]

module _ (env : Env) (inj : IsInjective env.sha256) (s : Store) (c : IsConsistent env s) where
  frozen : {t u : Store} → t ≡ u → IsFrozen s u → IsFrozen s t
  frozen e h = subst (IsFrozen s) (sym e) h

  abbrev LoadsKept : Store → Type 0
  LoadsKept t = (r i : Bytes) → load_commit t r i ≡ load_commit s r i

  unchanged : IsFrozen s s
  unchanged r i x h f = h

  -- A save of the record `x` that stands where the unfinished `rec` was found.
  over_found :
      (t : Store) (id : Bytes) (rec x : CommitRec)
      → t.repos ≡ s.repos
      → load_commit_by_id s id ≡ some rec
      → rec.finished ≡ false
      → x.repo ≡ rec.repo
      → x.id ≡ rec.id
      → IsFrozen s (save_commit t x)
  over_found t id rec x e found unfinished er ei =
      save-IsFrozen s t x (λ r i. load_commit-repos s t r i e)
        (λ y h. ground (
          arith,
          er,
          ei,
          (load_by_id s c.placed id found).1,
          rec_loaded env s id rec c found,
          unfinished,
        ))

  finish-IsFrozen :
      (id description : Bytes) (empty : Bool)
      → IsFrozen s (finish_commit env s id description empty).0
  finish-IsFrozen id description empty = elim (finish_commit_outcome env s id description empty) [
    | inl e ↦ frozen e unchanged
    | inr (rec, found, un, o) ↦
        let d = described rec description in
        let m =
          normalize_marker-IsMarked env inj s (resolve_view s d) d c
            (described-IsCurrent env inj s c rec description (rec-IsCurrent env s id rec c found))
            (described-IsBacked env inj s c rec description (rec-IsBacked env s id rec c found)) in
        let n = normalize_marker env s (resolve_view s d) d in
        let x = closed env s id description empty rec in
        elim o [
          | inl e ↦
              frozen e (same-IsFrozen s n.0 (λ r i. load_commit-repos s n.0 r i m.grows.repos_kept))
          | inr e ↦ frozen e (λ r i y h f.
              load_commit-set_head env (save_commit n.0 x) x.repo x.branch x.id r i
              ∙ over_found n.0 id rec x m.grows.repos_kept found un
                  (m.same_repo ∙ described_repo rec description)
                  (m.same_id ∙ described_id rec description) r i y h f)
        ]
  ]
    where
      described_repo : (rec : CommitRec) (d : Bytes) → (described rec d).repo ≡ rec.repo
      described_repo rec d = ground arith

      described_id : (rec : CommitRec) (d : Bytes) → (described rec d).id ≡ rec.id
      described_id rec d = ground arith

  copy-IsFrozen :
      (dst_id dst_path src_id src_path : Bytes) (over : Bool)
      → IsFrozen s (copy_file env s dst_id dst_path src_id src_path over).0
  copy-IsFrozen dst_id dst_path src_id src_path over =
      elim (copy_file_outcome env s over dst_id dst_path src_id src_path) [
        | inl e ↦ frozen e unchanged
        | inr (dst_rec, src_rec, found, un, src_found, o) ↦
            let v = resolve_view s src_rec in
            let ms = moves_of v src_path dst_path in
            let t = (copy_moves env s v over ms).0 in
            let (g, _, _, _) = copy_moves_lem env inj over v ms s c (
              resolve_view-IsBackedView env s c src_rec
                (rec-IsBacked env s src_id src_rec c src_found)) in
            elim o [
              | inl e ↦ frozen e unchanged
              | inr (inl e) ↦
                  frozen e (same-IsFrozen s t (λ r i. load_commit-repos s t r i g.repos_kept))
              | inr (inr (ops, q, e)) ↦ frozen e (
                  over_found t dst_id dst_rec (record dst_rec { ops = dst_rec.ops ++ ops })
                    g.repos_kept found un refl refl)
            ]
      ]

  add_files-IsFrozen :
      (id : Bytes) (visited : List (Bytes × Bytes)) (walk_err : Option Error)
      → IsFrozen s (add_files_from_dir env s id visited walk_err).0
  add_files-IsFrozen id visited walk_err =
      let (g, _) = store_files_lem env inj visited s c in
      let w = store_files env s visited in
      elim (add_files_outcome env s id visited walk_err) [
        | inl e ↦ frozen e unchanged
        | inr (inl e) ↦
            frozen e (same-IsFrozen s w.0 (λ r i. load_commit-repos s w.0 r i g.repos_kept))
        | inr (inr (rec, found, un, e)) ↦ frozen e (
            over_found w.0 id rec (record rec { ops = rec.ops ++ w.1 }) g.repos_kept found un refl
              refl)
      ]

  put_tag_repos : (name content : Bytes) → (put_tag env s name content).0.repos ≡ s.repos
  unfolding put_tag
  put_tag_repos name content = ground (arith, repos-write_blob env s content)

  delete_tag_repos : (name : Bytes) → (delete_tag s name).0.repos ≡ s.repos
  unfolding delete_tag
  delete_tag_repos name = ground arith

  pub step-IsFrozen : (op : Op) → IsAllowed s op → IsFrozen s (step env s op)
  unfolding step
  step-IsFrozen (start id now repo branch description) fresh =
      elim (start_commit_outcome s id now repo branch description) [
        | inl e ↦ frozen e unchanged
        | inr e ↦ frozen e (
            save-IsFrozen s s (new_commit s id now repo (branch_or_default branch) description)
              (λ r i. refl) (λ x h. ground (arith, fresh)))
      ]
  step-IsFrozen (append id p content) _ = elim (put_file-Outcome env s id p content) [
    | inl e ↦ frozen e unchanged
    | inr (rec, found, un, e) ↦ frozen e (
        over_found (write_blob env s content).0 id rec _ (repos-write_blob env s content) found un
          refl refl)
  ]
  step-IsFrozen (overwrite id p content) _ = elim (overwrite_file-Outcome env s id p content) [
    | inl e ↦ frozen e unchanged
    | inr (rec, found, un, e) ↦ frozen e (
        over_found (write_blob env s content).0 id rec _ (repos-write_blob env s content) found un
          refl refl)
  ]
  step-IsFrozen (delete id p) _ = elim (delete_file-Outcome s id p) [
    | inl e ↦ frozen e unchanged
    | inr (rec, found, un, e) ↦ frozen e (over_found s id rec _ refl found un refl refl)
  ]
  step-IsFrozen (tombstone id walked) allowed = elim (tombstone_removed_outcome s id walked) [
    | inl e ↦ frozen e unchanged
    | inr (rec, found, e) ↦
        frozen e (over_found s id rec _ refl found (allowed rec found) refl refl)
  ]
  step-IsFrozen (add_files id visited walk_err) _ = add_files-IsFrozen id visited walk_err
  step-IsFrozen (copy dst_id dst_path src_id src_path over) _ =
      copy-IsFrozen dst_id dst_path src_id src_path over
  step-IsFrozen (retarget id parent) _ = elim (reparent-Outcome s id parent) [
    | inl e ↦ frozen e unchanged
    | inr (rec, found, un, e) ↦ frozen e (over_found s id rec _ refl found un refl refl)
  ]
  step-IsFrozen (finish id description empty) _ = finish-IsFrozen id description empty
  step-IsFrozen (make_repo name) _ =
      same-IsFrozen s (create_repo env s name).0 (load_commit-create_repo env s name)
  step-IsFrozen (drop_repo name force) h = absurd h
  step-IsFrozen (drop_branch repo branch) _ =
      same-IsFrozen s (delete_branch s repo branch).0 (load_commit-delete_branch s repo branch)
  step-IsFrozen (tag name content) _ =
      same-IsFrozen s (put_tag env s name content).0
        (λ r i. load_commit-repos s (put_tag env s name content).0 r i (put_tag_repos name content))
  step-IsFrozen (untag name) _ =
      same-IsFrozen s (delete_tag s name).0
        (λ r i. load_commit-repos s (delete_tag s name).0 r i (delete_tag_repos name))

-- Each operation is allowed where it is made.
abbrev pub AreAllowed : Env → Store → List Op → Type 0
AreAllowed env s [] = Unit
AreAllowed env s (op ∷ ops) = IsAllowed s op × AreAllowed env (step env s op) ops

-- From a consistent store, over any sequence of operations in which the id of each new commit is
-- fresh in its repository, TombstoneRemoved is called on unfinished commits alone and no repository
-- is deleted, the record of every finished commit stays as it is, if the digest has no collisions.
pub run-IsFrozen :
    (env : Env)
    → IsInjective env.sha256
    → (s : Store) (ops : List Op) → IsConsistent env s
    → AreAllowed env s ops
    → IsFrozen s (run env s ops)
unfolding run
run-IsFrozen env inj s [] c a r i x h f = h
run-IsFrozen env inj s (op ∷ ops) c a r i x h f =
    run-IsFrozen env inj (step env s op) ops (step-IsConsistent env inj s c op) a.1 r i x
      (step-IsFrozen env inj s c op a.0 r i x h f) f
