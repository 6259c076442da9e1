-- ===== src/Trigger/Delta.antt =====
-- The bytes that a commit adds over its parent.
use sandman.Prelude.{
  Bytes, ℕ, ◌+◌, ◌-◌, ◌≡◌, refl, none, some, [], ◌∷◌, arith, inl, inr, eqs, eqs_iff, Bool-cases,
  Option-cases,
}
use sandman.Prelude.Map.{get}
use sandman.Prelude.Result.{ok, err}
use sandman.Store.Data.{CommitRec, Commit, ViewEntry, Store, Env, commit_not_found}
use sandman.Store.Records.{load_commit_by_id}
use sandman.Store.Records.Blobs.{IsInjective}
use sandman.Store.View.{View, entry_size, entry_hash, resolve_view}
use sandman.Store.Files.{resolve_view_by_id}
use sandman.Store.Invariant.{IsConsistent}
use sandman.Store.Invariant.Readable.{IsBackedEntry, IsBackedView, get_backed}
use sandman.Store.Invariant.Listing.{entry_readable, view_backed}
use sandman.Trigger.{entry_delta, view_delta, parent_of, commit_delta}

abbrev pub size_at : View → Bytes → ℕ
size_at v p = elim (get p v) [ none ↦ 0 | some e ↦ entry_size e ]

-- For each path, the bytes by which it is longer than in the parent's view.
unfoldable pub growth : View → View → ℕ
growth parent [] = 0
growth parent ((p, f) ∷ v) = (entry_size f - size_at parent p) + growth parent v

module _ (env : Env) (inj : IsInjective env.sha256) (s : Store) where
  both_delta :
      (pf f : ViewEntry)
      → IsBackedEntry s pf
      → IsBackedEntry s f
      → entry_delta env s (some pf) f ≡ entry_size f - entry_size pf
  unfolding entry_hash
  both_delta pf f h k =
      let (b, r, l) = entry_readable s pf h in
      let (c, q, m) = entry_readable s f k in
      ground (arith, r, q, l, m, eqs_iff (env.sha256 c) (env.sha256 b), inj c b)

  view_delta_lem :
      (parent v : View)
      → IsBackedView s parent
      → IsBackedView s v
      → view_delta env s parent v ≡ growth parent v
  unfolding view_delta growth
  view_delta_lem parent [] h k = refl
  view_delta_lem parent ((p, f) ∷ v) h k = elim (Option-cases (get p parent)) [
    | inl e ↦ ground (arith, e, view_delta_lem parent v h k.1)
    | inr (pf, e) ↦
        ground
          (arith, e, both_delta pf f (get_backed s p parent h e) k.0, view_delta_lem parent v h k.1)
  ]

  found_view :
      (id : Bytes) {rec : CommitRec}
      → load_commit_by_id s id ≡ some rec
      → resolve_view_by_id s id ≡ ok (resolve_view s rec)
  unfolding resolve_view_by_id
  found_view id {rec} h = ground arith

  lost_view :
      (id : Bytes)
      → load_commit_by_id s id ≡ none
      → resolve_view_by_id s id ≡ err (commit_not_found id)
  unfolding resolve_view_by_id
  lost_view id h = ground arith

  parent_backed : IsConsistent env s → (id : Bytes) → IsBackedView s (parent_of s id)
  parent_backed c id = elim (Bool-cases (eqs id [])) [
    | inl e ↦ rw e tt
    | inr e ↦ elim (Option-cases (load_commit_by_id s id)) [
      | inl g ↦ rw (e, lost_view id g) tt
      | inr (rec, g) ↦ rw (e, found_view id g) (view_backed env s id c g)
    ]
  ]

  -- In a consistent store with a digest without collisions, commitDelta of a commit that exists is
  -- the sum, over the paths of its view, of the bytes by which the path is longer than in the view
  -- of the parent: comparing the digests first changes nothing.
  pub commit_delta_lem :
      IsConsistent env s
      → (cm : Commit) {rec : CommitRec} → load_commit_by_id s cm.id ≡ some rec
      → commit_delta env s cm ≡ growth (parent_of s cm.parent_id) (resolve_view s rec)
  unfolding commit_delta
  commit_delta_lem c cm {rec} h =
      rw (commit_delta, found_view cm.id h)
        (view_delta_lem (parent_of s cm.parent_id) (resolve_view s rec)
          (parent_backed c cm.parent_id) (view_backed env s cm.id c h))
