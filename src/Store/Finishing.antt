-- ===== src/Store/Finishing.antt =====
-- FinishCommit: the head of the branch, the empty barrier, and a ref that cannot be written.
use sandman.Prelude.{
  Bytes, ◌≡◌, refl, sym, ap, ◌∙◌, inl, inr, Bool, true, false, ◌||◌, not, some, [], arith, eqs,
  eqs_iff, eqs_refl, Bool-cases, Option-cases, ◌++◌, ◌∷◌, slash, none, has_prefix, codes,
}
use mathlib.Core.Path.{subst}
use sandman.Prelude.Map.{Map, get, put, keys, get-put}
use sandman.Prelude.Result.{Result, ok, err, Done}
use sandman.Store.Data.{CommitRec, Repo, Store, Env, Error, Commit, file_not_found, write_ref}
use sandman.Store.Names.{case_name_collision, ref_file, valid_branch_name}
use sandman.Store.Names.Refs.{ref_file-slash}
use sandman.Store.Records.{
  repo_of, load_commit, save_commit, load_commit_by_id, to_commit, repo_names, load_in,
}
use sandman.Store.Records.Saved.{
  IsPlaced, IsCurrent, load_by_id, load_in_hit, hit_name, hit_name_visible, load_in-put, by_id-save,
  retouch-IsCurrent, save_commit-IsPlaced,
}
use sandman.Store.Records.Blobs.{IsInjective, by_id-repos}
use sandman.Store.View.{View, resolve_view, path_conflict, head_of}
use sandman.Store.View.Ancestry.{resolve_view_barrier}
use sandman.Store.Invariant.{IsConsistent}
use sandman.Store.Commits.Bulk.{IsMarked, normalize_marker-IsMarked, load_commit-set_head}
use sandman.Store.Commits.Finish.{
  set_head, primary_or, normalize_marker, described, report, close_commit, finish_commit,
}
use sandman.Store.Commits.Inversion.{IsOpen}
use sandman.Store.Commits.Results.{closed, report_state}
use sandman.Store.Files.{get_file}
use sandman.Store.RoundTrip.{read_entry, get_file_entry}
use sandman.Store.Steps.Consistent.{
  rec-IsCurrent, rec-IsBacked, described-IsCurrent, described-IsBacked,
}

module _ (env : Env) (s : Store) (repo branch id : Bytes) where
  repos-set_head : (x : Repo) × ((set_head env s repo branch id).0.repos ≡ put repo x s.repos)
  unfolding set_head
  repos-set_head =
      let r = repo_of (get repo s.repos) in
      elim (Option-cases (case_name_collision env (keys r.refs) branch)) [
        | inr (e, q) ↦ (r, ground arith)
        | inl q ↦ elim (Option-cases (ref_file branch)) [
          | inr (file, v) ↦ (
            record r { refs = put file id r.refs; primary = primary_or r.primary branch },
            ground (arith, q, v),
          )
          | inl v ↦ (r, ground (arith, q, v))
        ]
      ]

  -- A commit of the repository is found as before.
  by_id-set_head :
      IsPlaced s
      → (i : Bytes) (rec : CommitRec) → load_commit_by_id s i ≡ some rec
      → rec.repo ≡ repo
      → load_commit_by_id (set_head env s repo branch id).0 i ≡ some rec
  unfolding load_commit_by_id
  by_id-set_head placed i rec h e =
      let t = (set_head env s repo branch id).0 in
      let (x, q) = repos-set_head in
      let hit = load_in_hit (repo_names s.repos) s i h in
      let p = placed (hit_name (repo_names s.repos) s i) i rec hit in
      ap (λ (m : Map Repo). load_in (repo_names m) t i) q
      ∙ load_in-put s.repos x s t repo i {rec = rec} {new = rec}
          (subst (λ (n : Bytes). has_prefix (codes ".") n ≡ false) (sym p.0 ∙ e)
            (hit_name_visible (repo_names s.repos) s i h))
          (load_commit-set_head env s repo branch id repo i
            ∙ subst (λ (n : Bytes). load_commit s n i ≡ some rec) (sym p.0 ∙ e) hit)
          (λ j _. load_commit-set_head env s repo branch id j i) h (sym p.0 ∙ e)

  head-set_head :
      (set_head env s repo branch id).1 ≡ ok tt
      → head_of (set_head env s repo branch id).0 repo branch ≡ id
  unfolding set_head head_of
  head-set_head h =
      let r = repo_of (get repo s.repos) in
      elim (Option-cases (ref_file branch)) [
        | inl v ↦ absurd (ground (arith, v))
        | inr (file, v) ↦ ground (
          arith,
          v,
          eqs_refl repo,
          eqs_refl file,
          get-put file file id r.refs,
          get-put repo repo
              (record r { refs = put file id r.refs; primary = primary_or r.primary branch })
              s.repos,
        )
      ]

report_result :
    (rec : CommitRec) (r : Store × Result Error Done) (cm : Commit)
    → (report rec r).1 ≡ ok cm
    → (r.1 ≡ ok tt) × (cm ≡ to_commit rec)
report_result rec (s, ok x) cm h = (refl, ground arith)
report_result rec (s, err e) cm h = absurd (ground arith)

module _ (env : Env) (s : Store) (id description : Bytes) (empty : Bool) where
  abbrev state : Store
  state = (finish_commit env s id description empty).0

  abbrev saved : CommitRec → Store
  saved rec =
      let d = described rec description in
      save_commit (normalize_marker env s (resolve_view s d) d).0
        (closed env s id description empty rec)

  abbrev headed : CommitRec → Store × Result Error Done
  headed rec =
      let x = closed env s id description empty rec in set_head env (saved rec) x.repo x.branch x.id

  finish_ok :
      (cm : Commit)
      → (finish_commit env s id description empty).1 ≡ ok cm
      → (rec : CommitRec) × (load_commit_by_id s id ≡ some rec)
        × ((headed rec).1 ≡ ok tt)
        × (state ≡ (headed rec).0)
        × (cm ≡ to_commit (closed env s id description empty rec))
  unfolding finish_commit close_commit
  finish_ok cm h = elim (Option-cases (load_commit_by_id s id)) [
    | inl n ↦ absurd (ground arith)
    | inr (rec, n) ↦ elim (Bool-cases (not rec.started || rec.finished)) [
      | inl v ↦ absurd (ground arith)
      | inr v ↦
          elim (Bool-cases (eqs (path_conflict (resolve_view s (described rec description))) [])) [
            | inr e ↦ absurd (ground arith)
            | inl e ↦
                let x = closed env s id description empty rec in
                let r = report_result x (headed rec) cm (ground arith) in
                (rec, n, r.0, ground (arith, report_state x (headed rec)), r.1)
          ]
    ]
  ]

  module _ (inj : IsInjective env.sha256) (c : IsConsistent env s) (rec : CommitRec)
      (found : load_commit_by_id s id ≡ some rec) where
    abbrev d : CommitRec
    d = described rec description

    marked_lem : IsMarked env inj s d (normalize_marker env s (resolve_view s d) d)
    marked_lem =
        normalize_marker-IsMarked env inj s (resolve_view s d) d c
          (described-IsCurrent env inj s c rec description (rec-IsCurrent env s id rec c found))
          (described-IsBacked env inj s c rec description (rec-IsBacked env s id rec c found))

    closed-IsCurrent : IsCurrent (closed env s id description empty rec)
    closed-IsCurrent =
        retouch-IsCurrent (normalize_marker env s (resolve_view s d) d).1 _ marked_lem.current refl
          refl refl

    closed_repo : (closed env s id description empty rec).repo ≡ rec.repo
    closed_repo = marked_lem.same_repo ∙ ground arith

    closed_id : (closed env s id description empty rec).id ≡ id
    closed_id = marked_lem.same_id ∙ ground arith ∙ (load_by_id s c.placed id found).1

    IsPlaced-then : IsPlaced (normalize_marker env s (resolve_view s d) d).0
    IsPlaced-then = marked_lem.grows.consistent.placed

    saved_found : load_commit_by_id (saved rec) id ≡ some (closed env s id description empty rec)
    saved_found =
        by_id-save (normalize_marker env s (resolve_view s d) d).0 IsPlaced-then id
          (by_id-repos s (normalize_marker env s (resolve_view s d) d).0 id
              marked_lem.grows.repos_kept
            ∙ found)
          (closed env s id description empty rec) closed_repo closed_id closed-IsCurrent

    headed_found :
        load_commit_by_id (headed rec).0 id ≡ some (closed env s id description empty rec)
    headed_found =
        let x = closed env s id description empty rec in
        by_id-set_head env (saved rec) x.repo x.branch x.id
          (save_commit-IsPlaced (normalize_marker env s (resolve_view s d) d).0 x IsPlaced-then
            closed-IsCurrent)
          id x saved_found refl

  -- In a consistent store with a digest without collisions, a FinishCommit that returns a commit
  -- has closed the record found under the id, with the empty flag that was asked for, and the
  -- commit is the head of its branch. Where the flag was set, no path can be read through it.
  pub finish_commit_lem :
      IsInjective env.sha256
      → IsConsistent env s
      → (cm : Commit) → (finish_commit env s id description empty).1 ≡ ok cm
      → (rec : CommitRec) × (load_commit_by_id state id ≡ some rec)
        × (rec.finished ≡ true)
        × (rec.empty ≡ empty)
        × (cm ≡ to_commit rec)
        × (head_of state rec.repo rec.branch ≡ id)
        × (empty ≡ true → (p : Bytes) → get_file state id p ≡ err (file_not_found p))
  unfolding read_entry get
  finish_commit_lem inj c cm h =
      let (rec, found, o, e, q) = finish_ok cm h in
      let x = closed env s id description empty rec in
      let f : load_commit_by_id state id ≡ some x =
        ap (λ (t : Store). load_commit_by_id t id) e ∙ headed_found inj c rec found in
      (
        x,
        f,
        refl,
        refl,
        q,
        ap (λ (t : Store). head_of t x.repo x.branch) e
            ∙ head-set_head env (saved rec) x.repo x.branch x.id o
            ∙ closed_id inj c rec found,
        λ b p.
            get_file_entry state id p f
            ∙ ap (λ (v : View). read_entry state p (get p v)) (resolve_view_barrier state x b),
      )

slash_no_ref :
    (env : Env) (t : Store) (repo branch id : Bytes)
    → env.folds ≡ false
    → ref_file branch ≡ none
    → (set_head env t repo branch id).1 ≡ err (write_ref branch)
unfolding set_head case_name_collision
slash_no_ref env t repo branch id f h = ground (arith, h)

report_error :
    (rec : CommitRec) (r : Store × Result Error Done) (e : Error)
    → r.1 ≡ err e
    → (report rec r).1 ≡ err e
report_error rec (s, ok x) e h = absurd (ground arith)
report_error rec (s, err x) e h = ground arith

module _ (env : Env) (s : Store) (id description : Bytes) (empty : Bool) where
  -- On a file system that keeps case apart, let the open commit `id` of a consistent store, which
  -- no path conflict stops, stand on a branch `a/b`, where `a` and `b` are valid branch names.
  -- FinishCommit returns the error of the ref that it cannot write, and the commit is finished
  -- nevertheless.
  pub finish_commit-slash :
      IsInjective env.sha256
      → IsConsistent env s
      → (rec : CommitRec) → IsOpen s id rec
      → env.folds ≡ false
      → (a b : Bytes) → valid_branch_name a ≡ true
      → valid_branch_name b ≡ true
      → rec.branch ≡ a ++ slash ∷ b
      → path_conflict (resolve_view s (described rec description)) ≡ []
      → ((finish_commit env s id description empty).1 ≡ err (write_ref rec.branch))
        × (x : CommitRec) × (load_commit_by_id (finish_commit env s id description empty).0 id
            ≡ some x)
        × (x.finished ≡ true)
  unfolding finish_commit close_commit
  finish_commit-slash inj c rec o f a₁ b₁ h₁ k₁ h k =
      let x = closed env s id description empty rec in
      let m = marked_lem env s id description empty inj c rec o.found in
      let b : x.branch ≡ rec.branch = m.same_branch ∙ ground arith in
      let r = headed env s id description empty rec in
      let e : r.1 ≡ err (write_ref x.branch) =
        slash_no_ref env (saved env s id description empty rec) x.repo x.branch x.id f
          (ap ref_file (b ∙ h) ∙ ref_file-slash a₁ b₁ h₁ k₁) in
      (
        ground (
          arith,
          o.found,
          o.started,
          o.unfinished,
          eqs_iff (path_conflict (resolve_view s (described rec description))) [],
          k,
          report_error x r (write_ref x.branch) e,
          b,
        ),
        x,
        ap (λ (t : Store). load_commit_by_id t id)
              (ground (
                arith,
                o.found,
                o.started,
                o.unfinished,
                eqs_iff (path_conflict (resolve_view s (described rec description))) [],
                k,
                report_state x r,
              ))
            ∙ headed_found env s id description empty inj c rec o.found,
        refl,
      )
