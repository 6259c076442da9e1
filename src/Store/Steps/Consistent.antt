-- ===== src/Store/Steps/Consistent.antt =====
-- The consistency of the store over a run of operations.
use sandman.Prelude.{
  Bytes, ◌≡◌, refl, sym, ◌∙◌, inl, inr, Bool, true, false, Option, some, List, [], ◌∷◌, ◌++◌, arith,
  length, All, All-append, eqs, Bool-cases, not, ◌&&◌, is_some,
}
use mathlib.Core.Path.{subst}
use sandman.Prelude.Map.{get, put, keys, remove}
use sandman.Prelude.Sort.{sort}
use sandman.Prelude.Result.{Result, ok}
use sandman.Store.Data.{FileOp, CommitRec, Store, Env, Error}
use sandman.Store.Names.{valid_name, case_name_collision}
use sandman.Store.Records.{
  decode, load_commit, save_commit, write_blob, load_commit_by_id, deletion_op, deletion_ops,
}
use sandman.Store.Records.Saved.{
  IsCurrent, decode-IsCurrent, load_by_id, load_commit-IsCurrent, append-IsCurrent,
  retouch-IsCurrent,
}
use sandman.Store.Records.Blobs.{IsInjective, load_commit-repos}
use sandman.Store.View.{resolve_view}
use sandman.Store.Invariant.{IsBacked, IsConsistent}
use sandman.Store.Invariant.Readable.{resolve_view-IsBackedView}
use sandman.Store.Invariant.Transfer.{
  All-Extends, save_commit-IsConsistent, shrink-IsConsistent, write_blob-IsConsistent,
  written_backed,
}
use sandman.Store.Commits.{
  new_commit, branch_or_default, start_commit, absent, parent_view, store_files, add_files_from_dir,
  reparent,
}
use sandman.Store.Commits.Outcome.{
  start_commit_outcome, put_file-Outcome, overwrite_file-Outcome, delete_file-Outcome,
  tombstone_removed_outcome, reparent-Outcome,
}
use sandman.Store.Commits.Results.{
  add_files_outcome, copy_file_outcome, closed, finish_commit_outcome,
}
use sandman.Store.Commits.Bulk.{
  Grows, Grows-refl, Grows-write, store_files_lem, copy_moves_lem, normalize_marker-IsMarked,
  objects-set_head, load_commit-set_head,
}
use sandman.Store.Commits.Finish.{set_head, normalize_marker, described, finish_commit}
use sandman.Store.Commits.Copy.{moves_of, copy_moves, copy_file}
use sandman.Store.Repos.{create_repo, delete_repo, delete_branch}
use sandman.Store.Tags.{put_tag, delete_tag}
use sandman.Store.Steps.{
  Op, start, append, overwrite, delete, tombstone, add_files, copy, retarget, finish, make_repo,
  drop_repo, drop_branch, tag, untag, step, run,
}
use sandman.Store.Steps.Loads.{
  load_commit-create_repo, objects-create_repo, load_commit-delete_branch, objects-delete_branch,
  load_commit-delete_repo, objects-delete_repo,
}

-- A loaded record with more backed operations, saved over a store that has grown.
module _ (env : Env) (s : Store) (id : Bytes) (rec : CommitRec) (c : IsConsistent env s)
    (found : load_commit_by_id s id ≡ some rec) where
  pub rec_loaded : load_commit s rec.repo id ≡ some rec
  rec_loaded = (load_by_id s c.placed id found).0

  pub rec-IsCurrent : IsCurrent rec
  rec-IsCurrent = load_commit-IsCurrent s rec.repo id rec_loaded

  pub rec-IsBacked : All (IsBacked s) rec.ops
  rec-IsBacked = c.backed rec.repo id rec rec_loaded

  save_more :
      (t : Store) (ops : List FileOp)
      → Grows env s t
      → All (IsBacked t) ops
      → IsConsistent env (save_commit t (record rec { ops = rec.ops ++ ops }))
  save_more t ops g b =
      save_commit-IsConsistent env t (record rec { ops = rec.ops ++ ops }) g.consistent
        (append-IsCurrent rec ops rec-IsCurrent) (c.sealed rec.repo id rec rec_loaded)
        (All-append (IsBacked t) rec.ops ops (All-Extends s t rec.ops g.extends rec-IsBacked) b)

deletions-IsBacked : (s : Store) (ps : List Bytes) → All (IsBacked s) (deletion_ops ps)
deletions-IsBacked s [] = tt
deletions-IsBacked s (p ∷ ps) = (inl refl, deletions-IsBacked s ps)

module _ (env : Env) (inj : IsInjective env.sha256) (s : Store) (c : IsConsistent env s) where
  abbrev Kept : Store → Type 0
  Kept t = IsConsistent env t

  kept : {t u : Store} → t ≡ u → Kept u → Kept t
  kept e h = subst (IsConsistent env) (sym e) h

  written-Kept :
      (id p content : Bytes) (rec : CommitRec) (over : Bool)
      → load_commit_by_id s id ≡ some rec
      → Kept (
          save_commit (write_blob env s content).0 (record rec {
            ops =
                rec.ops
                ++ record {
                  path = p;
                  sha = (write_blob env s content).1;
                  size = length content;
                  overwrite = over;
                  delete = false;
                }
                  ∷ [];
          }))
  written-Kept id p content rec over found =
      save_more env s id rec c found (write_blob env s content).0 _ (Grows-write env s content c)
        (inr (written_backed env s content inj c), tt)

  start-Kept :
      (id now repo branch description : Bytes)
      → Kept (start_commit s id now repo branch description).0
  unfolding decode
  start-Kept id now repo branch description =
      elim (start_commit_outcome s id now repo branch description) [
        | inl e ↦ kept e c
        | inr e ↦ kept e (
            save_commit-IsConsistent env s
              (new_commit s id now repo (branch_or_default branch) description) c
              (decode-IsCurrent (new_commit s id now repo (branch_or_default branch) description))
              (λ h. cc) tt)
      ]

  reparent-Kept : (id parent : Bytes) → Kept (reparent s id parent).0
  reparent-Kept id parent = elim (reparent-Outcome s id parent) [
    | inl e ↦ kept e c
    | inr (rec, found, _, e) ↦ kept e (
        save_commit-IsConsistent env s (record rec { parent_id = parent }) c
          (retouch-IsCurrent rec (record rec { parent_id = parent })
            (rec-IsCurrent env s id rec c found) refl refl refl)
          (c.sealed rec.repo id rec (rec_loaded env s id rec c found))
          (rec-IsBacked env s id rec c found))
  ]

  add_files-Kept :
      (id : Bytes) (visited : List (Bytes × Bytes)) (walk_err : Option Error)
      → Kept (add_files_from_dir env s id visited walk_err).0
  add_files-Kept id visited walk_err =
      let (g, b) = store_files_lem env inj visited s c in
      elim (add_files_outcome env s id visited walk_err) [
        | inl e ↦ kept e c
        | inr (inl e) ↦ kept e g.consistent
        | inr (inr (rec, found, _, e)) ↦ kept e (
            save_more env s id rec c found (store_files env s visited).0
              (store_files env s visited).1 g b)
      ]

  pub described-IsCurrent :
      (rec : CommitRec) (d : Bytes) → IsCurrent rec → IsCurrent (described rec d)
  described-IsCurrent rec d h = elim (Bool-cases (eqs d [])) [
    | inl e ↦ rw e h
    | inr e ↦ rw e (retouch-IsCurrent rec (record rec { description = d }) h refl refl refl)
  ]

  pub described-IsBacked :
      (rec : CommitRec) (d : Bytes)
      → All (IsBacked s) rec.ops
      → All (IsBacked s) (described rec d).ops
  described-IsBacked rec d h = elim (Bool-cases (eqs d [])) [ inl e ↦ rw e h | inr e ↦ rw e h ]

  head-Kept : (t : Store) (repo branch id : Bytes) → Kept t → Kept (set_head env t repo branch id).0
  head-Kept t repo branch id h =
      shrink-IsConsistent env t (set_head env t repo branch id).0
        (objects-set_head env t repo branch id)
        (λ r i x e. sym (load_commit-set_head env t repo branch id r i) ∙ e) h

  finish-Kept :
      (id description : Bytes) (empty : Bool) → Kept (finish_commit env s id description empty).0
  finish-Kept id description empty = elim (finish_commit_outcome env s id description empty) [
    | inl e ↦ kept e c
    | inr (rec, found, _, o) ↦
        let d = described rec description in
        let m =
          normalize_marker-IsMarked env inj s (resolve_view s d) d c
            (described-IsCurrent rec description (rec-IsCurrent env s id rec c found))
            (described-IsBacked rec description (rec-IsBacked env s id rec c found)) in
        let n = normalize_marker env s (resolve_view s d) d in
        elim o [
          | inl e ↦ kept e m.grows.consistent
          | inr e ↦ kept e (
              head-Kept (save_commit n.0 (closed env s id description empty rec)) _ _ _ (
                save_commit-IsConsistent env n.0 (closed env s id description empty rec)
                  m.grows.consistent (retouch-IsCurrent n.1 _ m.current refl refl refl) (λ _. refl)
                  m.backed))
        ]
  ]

  copy-Kept :
      (dst_id dst_path src_id src_path : Bytes) (over : Bool)
      → Kept (copy_file env s dst_id dst_path src_id src_path over).0
  copy-Kept dst_id dst_path src_id src_path over =
      elim (copy_file_outcome env s over dst_id dst_path src_id src_path) [
        | inl e ↦ kept e c
        | inr (dst_rec, src_rec, found, _, src_found, o) ↦
            let v = resolve_view s src_rec in
            let ms = moves_of v src_path dst_path in
            let (g, ops, q, b) = copy_moves_lem env inj over v ms s c (
              resolve_view-IsBackedView env s c src_rec
                (rec-IsBacked env s src_id src_rec c src_found)) in
            elim o [
              | inl e ↦ kept e c
              | inr (inl e) ↦ kept e g.consistent
              | inr (inr (ops', q', e)) ↦ kept e (
                  save_more env s dst_id dst_rec c found (copy_moves env s v over ms).0 ops' g
                    (subst (All (IsBacked (copy_moves env s v over ms).0)) (ok_inj (sym q ∙ q')) b))
            ]
      ]
    where
      ok_inj : {x y : List FileOp} → ◌≡◌ {A = Result Error (List FileOp)} (ok x) (ok y) → x ≡ y
      ok_inj e = cc

  same_objects-Kept :
      (t : Store)
      → t.objects ≡ s.objects
      → ((r i : Bytes) (x : CommitRec) → load_commit t r i ≡ some x → load_commit s r i ≡ some x)
      → Kept t
  same_objects-Kept t o l = shrink-IsConsistent env s t o l c

  put_tag-Kept : (name content : Bytes) → Kept (put_tag env s name content).0
  unfolding put_tag
  put_tag-Kept name content =
      let w = (write_blob env s content).0 in
      let tagged = record w { tags = put name (write_blob env s content).1 w.tags } in
      elim (Bool-cases
        (valid_name name && not (is_some (case_name_collision env (keys s.tags) name)))) [
          | inl v ↦ kept (ground arith) (
              shrink-IsConsistent env w tagged refl
                (λ r i x h. sym (load_commit-repos w tagged r i refl) ∙ h)
                (write_blob-IsConsistent env s content c))
          | inr v ↦ kept (ground arith) c
        ]

  delete_tag-Kept : (name : Bytes) → Kept (delete_tag s name).0
  unfolding delete_tag
  delete_tag-Kept name =
      let untagged = record s { tags = remove name s.tags } in
      elim (Bool-cases (valid_name name && is_some (get name s.tags))) [
        | inl v ↦ kept {u = untagged} (ground arith) (
            same_objects-Kept untagged refl
              (λ r i x h. sym (load_commit-repos s untagged r i refl) ∙ h))
        | inr v ↦ kept (ground arith) c
      ]

  pub step-IsConsistent : (op : Op) → IsConsistent env (step env s op)
  unfolding step
  step-IsConsistent (start id now repo branch description) =
      start-Kept id now repo branch description
  step-IsConsistent (append id p content) = elim (put_file-Outcome env s id p content) [
    | inl e ↦ kept e c
    | inr (rec, found, _, e) ↦ kept e (written-Kept id p content rec false found)
  ]
  step-IsConsistent (overwrite id p content) = elim (overwrite_file-Outcome env s id p content) [
    | inl e ↦ kept e c
    | inr (rec, found, _, e) ↦ kept e (written-Kept id p content rec true found)
  ]
  step-IsConsistent (delete id p) = elim (delete_file-Outcome s id p) [
    | inl e ↦ kept e c
    | inr (rec, found, _, e) ↦
        kept e (
          save_more env s id rec c found s (deletion_op p ∷ []) (Grows-refl env s c) (inl refl, tt))
  ]
  step-IsConsistent (tombstone id walked) = elim (tombstone_removed_outcome s id walked) [
    | inl e ↦ kept e c
    | inr (rec, found, e) ↦ kept e (
        save_more env s id rec c found s _ (Grows-refl env s c)
          (deletions-IsBacked s (sort (absent walked (keys (parent_view s rec))))))
  ]
  step-IsConsistent (add_files id visited walk_err) = add_files-Kept id visited walk_err
  step-IsConsistent (copy dst_id dst_path src_id src_path over) =
      copy-Kept dst_id dst_path src_id src_path over
  step-IsConsistent (retarget id parent) = reparent-Kept id parent
  step-IsConsistent (finish id description empty) = finish-Kept id description empty
  step-IsConsistent (make_repo name) =
      same_objects-Kept (create_repo env s name).0 (objects-create_repo env s name)
        (λ r i x h. sym (load_commit-create_repo env s name r i) ∙ h)
  step-IsConsistent (drop_repo name force) =
      same_objects-Kept (delete_repo s name force).0 (objects-delete_repo s name force)
        (load_commit-delete_repo s name force)
  step-IsConsistent (drop_branch repo branch) =
      same_objects-Kept (delete_branch s repo branch).0 (objects-delete_branch s repo branch)
        (λ r i x h. sym (load_commit-delete_branch s repo branch r i) ∙ h)
  step-IsConsistent (tag name content) = put_tag-Kept name content
  step-IsConsistent (untag name) = delete_tag-Kept name

-- Any sequence of operations, failing ones included, keeps a consistent store consistent, if the
-- digest has no collisions: each record stands in its place, each object under its digest, an empty
-- commit is finished, and every operation of every commit is backed by an object of the recorded
-- size.
pub run-IsConsistent :
    (env : Env)
    → IsInjective env.sha256
    → (s : Store) (ops : List Op) → IsConsistent env s
    → IsConsistent env (run env s ops)
unfolding run
run-IsConsistent env inj s [] c = c
run-IsConsistent env inj s (op ∷ ops) c =
    run-IsConsistent env inj (step env s op) ops (step-IsConsistent env inj s c op)
