-- ===== src/Store/Commits/Bulk.antt =====
-- The operations that store several blobs, or move a ref, before or after the record is saved.
use sandman.Prelude.{
  Bytes, ℕ, ◌≡◌, refl, sym, ap, ◌∙◌, inl, inr, Option-cases, Bool, true, false, Option, none, some,
  List, [], ◌∷◌, ◌++◌, arith, length, if◌then◌else◌, eqs, eqs_iff, All, All-append,
}
use mathlib.Core.Path.{subst}
use sandman.Prelude.Map.{Map, get, put, get-put}
use sandman.Prelude.Result.{Result, ok, err}
use sandman.Store.Data.{FileOp, ViewPart, ViewEntry, CommitRec, Repo, Store, Env, Error}
use sandman.Store.Names.{ref_file}
use sandman.Store.Records.{repo_of, load_commit, write_blob, overwrite_op, commits_of, decoded}
use sandman.Store.Records.Saved.{IsCurrent, append-IsCurrent}
use sandman.Store.Records.Blobs.{IsInjective, repos-write_blob}
use sandman.Store.View.{View, entry_size, entry_bytes}
use sandman.Store.Invariant.{IsBacked, IsConsistent}
use sandman.Store.Invariant.Readable.{IsBackedPart, IsBackedEntry, IsBackedView, get_backed}
use sandman.Store.Invariant.Listing.{entry_readable}
use sandman.Store.Invariant.Transfer.{
  Extends, IsBacked-Extends, All-Extends, Extends-write_blob, write_blob-IsConsistent,
  written_backed,
}
use sandman.Store.Commits.{store_files}
use sandman.Store.Commits.Finish.{
  marker, set_head, normalize_marker, primary_or, commit_writes_marker,
}
use sandman.Store.Commits.Copy.{Move, copy_moves, entry_or_zero}

-- `t` is `s` with more blobs.
pub record Grows (env : Env) (s t : Store) : Type 0 where
  pub consistent : IsConsistent env t
  pub repos_kept : t.repos ≡ s.repos
  pub extends : Extends s t

pub Grows-refl : (env : Env) (s : Store) → IsConsistent env s → Grows env s s
Grows-refl env s c = record { consistent = c; repos_kept = refl; extends = λ h x e. e }

pub Grows-write :
    (env : Env) (s : Store) (content : Bytes)
    → IsConsistent env s
    → Grows env s (write_blob env s content).0
Grows-write env s content c = record {
  consistent = write_blob-IsConsistent env s content c;
  repos_kept = repos-write_blob env s content;
  extends = Extends-write_blob env s content;
}

pub Grows-trans : (env : Env) (s t u : Store) → Grows env s t → Grows env t u → Grows env s u
Grows-trans env s t u g h = record {
  consistent = h.consistent;
  repos_kept = h.repos_kept ∙ g.repos_kept;
  extends = λ k x e. h.extends k x (g.extends k x e);
}

module _ (env : Env) (inj : IsInjective env.sha256) where
  pub store_files_lem :
      (files : List (Bytes × Bytes)) (s : Store)
      → IsConsistent env s
      → Grows env s (store_files env s files).0
        × All (IsBacked (store_files env s files).0) (store_files env s files).1
  unfolding store_files
  store_files_lem [] s c = (Grows-refl env s c, tt)
  store_files_lem ((rel, content) ∷ rest) s c =
      let t = (write_blob env s content).0 in
      let g = Grows-write env s content c in
      let (h, b) = store_files_lem rest t g.consistent in
      (
        Grows-trans env s t (store_files env t rest).0 g h,
        (
          IsBacked-Extends t (store_files env t rest).0
              (overwrite_op rel (write_blob env s content).1 (length content)) h.extends
              (inr (written_backed env s content inj c)),
          b,
        ),
      )

  copied_op : Bytes → Bytes → ℕ → Bool → FileOp
  copied_op p h n overwrite = record {
    path = p;
    sha = h;
    size = n;
    overwrite = overwrite;
    delete = false;
  }

  entry_backed :
      (s : Store) (v : View) (p : Bytes)
      → IsBackedView s v
      → IsBackedEntry s (entry_or_zero (get p v))
  entry_backed s v p h = go (get p v) refl
    where
      go : (o : Option ViewEntry) → get p v ≡ o → IsBackedEntry s (entry_or_zero o)
      go none e = tt
      go (some x) e = get_backed s p v h e

  view_grows : (s t : Store) (v : View) → Extends s t → IsBackedView s v → IsBackedView t v
  view_grows s t [] e h = tt
  view_grows s t ((p, x) ∷ v) e h = (parts x.parts h.0, view_grows s t v e h.1)
    where
      parts : (ps : List ViewPart) → All (IsBackedPart s) ps → All (IsBackedPart t) ps
      parts [] k = tt
      parts (q ∷ ps) ((c, g, l), k) = ((c, e q.sha c g, l), parts ps k)

  -- The result of a copy: the store has grown, and the operations are backed.
  abbrev pub IsCopied : Store → Store × Result Error (List FileOp) → Type 0
  IsCopied s r = Grows env s r.0 × (ops : List FileOp) × (r.1 ≡ ok ops) × All (IsBacked r.0) ops

  copied_step :
      (overwrite : Bool) (v : View) (m : Move) (ms : List Move) (s : Store) (b : Bytes)
      → entry_bytes s (entry_or_zero (get m.src v)) ≡ ok b
      → (ops : List FileOp) → (copy_moves env (write_blob env s b).0 v overwrite ms).1 ≡ ok ops
      → copy_moves env s v overwrite (m ∷ ms) ≡ (
        (copy_moves env (write_blob env s b).0 v overwrite ms).0,
        ok (
            copied_op m.dst
              (write_blob env s b).1
              (entry_size (entry_or_zero (get m.src v)))
              overwrite
            ∷ ops),
      )
  unfolding copy_moves copied_op
  copied_step overwrite v m ms s b r ops q = ground arith

  -- Every copied blob is stored at the size that its operation records.
  pub copy_moves_lem :
      (overwrite : Bool) (v : View) (ms : List Move) (s : Store)
      → IsConsistent env s
      → IsBackedView s v
      → IsCopied s (copy_moves env s v overwrite ms)
  unfolding copied_op
  copy_moves_lem overwrite v [] s c h = unfold copy_moves in (Grows-refl env s c, [], refl, tt)
  copy_moves_lem overwrite v (m ∷ ms) s c h =
      let (b, r, l) = entry_readable s (entry_or_zero (get m.src v)) (entry_backed s v m.src h) in
      let t = (write_blob env s b).0 in
      let g = Grows-write env s b c in
      let (k, ops, q, back) =
        copy_moves_lem overwrite v ms t g.consistent (view_grows s t v g.extends h) in
      let (x, y, z) = written_backed env s b inj c in
      subst (IsCopied s) (sym (copied_step overwrite v m ms s b r ops q)) (
        Grows-trans env s t (copy_moves env t v overwrite ms).0 g k,
        copied_op m.dst (write_blob env s b).1 (entry_size (entry_or_zero (get m.src v))) overwrite
            ∷ ops,
        refl,
        (
          IsBacked-Extends t (copy_moves env t v overwrite ms).0
              (copied_op m.dst (write_blob env s b).1 (entry_size (entry_or_zero (get m.src v)))
                overwrite)
              k.extends (inr (x, y, z ∙ l)),
          back,
        ),
      )

  -- The marker's own operation is backed too, and the record stays current.
  pub record IsMarked (s : Store) (rec : CommitRec) (r : Store × CommitRec) : Type 0 where
    pub grows : Grows env s r.0
    pub current : IsCurrent (r.1)
    pub backed : All (IsBacked r.0) (r.1).ops
    pub same_id : (r.1).id ≡ rec.id
    pub same_repo : (r.1).repo ≡ rec.repo
    pub same_branch : (r.1).branch ≡ rec.branch

  pub normalize_marker-IsMarked :
      (s : Store) (view : View) (rec : CommitRec)
      → IsConsistent env s
      → IsCurrent rec
      → All (IsBacked s) rec.ops
      → IsMarked s rec (normalize_marker env s view rec)
  unfolding normalize_marker
  normalize_marker-IsMarked s view rec c cur back =
      go (commit_writes_marker rec.ops) (get marker view)
    where
      same : IsMarked s rec (s, rec)
      same = record {
        grows = Grows-refl env s c;
        current = cur;
        backed = back;
        same_id = refl;
        same_repo = refl;
        same_branch = refl;
      }

      t : Store
      t = (write_blob env s rec.id).0

      op : FileOp
      op = overwrite_op marker (write_blob env s rec.id).1 (length rec.id)

      marked : IsMarked s rec (t, record rec { ops = rec.ops ++ op ∷ [] })
      marked =
          let g = Grows-write env s rec.id c in
          record {
            grows = g;
            current = append-IsCurrent rec (op ∷ []) cur;
            backed =
                All-append (IsBacked t) rec.ops (op ∷ []) (All-Extends s t rec.ops g.extends back)
                  (inr (written_backed env s rec.id inj c), tt);
            same_id = refl;
            same_repo = refl;
            same_branch = refl;
          }

      ours :
          (b : Bool)
          → IsMarked s rec (if b then (s, rec) else (t, record rec { ops = rec.ops ++ op ∷ [] }))
      ours true = same
      ours false = marked

      read :
          (r : Result Error Bytes)
          → IsMarked s rec (elim r [
            | err x ↦ (s, rec)
            | ok b ↦ if eqs b rec.id then (s, rec) else (t, record rec { ops = rec.ops ++ op ∷ [] })
          ])
      read (err x) = same
      read (ok b) = ours (eqs b rec.id)

      go :
          (b : Bool) (o : Option ViewEntry)
          → IsMarked s rec (
              if b then (s, rec) else (elim o [
                | none ↦ (s, rec)
                | some e ↦ elim (entry_bytes s e) [
                  | err x ↦ (s, rec)
                  | ok b ↦
                      if eqs b rec.id
                      then (s, rec)
                      else (t, record rec { ops = rec.ops ++ op ∷ [] })
                ]
              ]))
      go true o = same
      go false none = same
      go false (some e) = read (entry_bytes s e)

-- Moving a ref touches no commit and no object.
module _ (env : Env) (s : Store) (repo branch id : Bytes) where
  pub objects-set_head : (set_head env s repo branch id).0.objects ≡ s.objects
  unfolding set_head
  objects-set_head = ground arith

  commits-set_head : (r : Bytes) → commits_of (set_head env s repo branch id).0 r ≡ commits_of s r
  unfolding set_head
  commits-set_head r =
      let x = repo_of (get repo s.repos) in
      let moved : (file : Bytes) → Repo =
        λ file. record x { refs = put file id x.refs; primary = primary_or x.primary branch } in
      elim (Option-cases (ref_file branch)) [
        | inl n ↦ ground (arith, n, eqs_iff repo r, get-put repo r x s.repos)
        | inr (file, n) ↦ ground (
          arith,
          n,
          eqs_iff repo r,
          get-put repo r x s.repos,
          get-put repo r (moved file) s.repos,
        )
      ]

  pub load_commit-set_head :
      (r i : Bytes) → load_commit (set_head env s repo branch id).0 r i ≡ load_commit s r i
  unfolding load_commit
  load_commit-set_head r i = ap (λ (m : Map CommitRec). decoded (get i m)) (commits-set_head r)
