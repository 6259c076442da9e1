-- ===== src/Store/Appends.antt =====
-- PutFile against the bytes that its path held before.
use sandman.Prelude.{
  Bytes, ℕ, ◌≤◌, ◌≡◌, refl, sym, ap, ◌∙◌, ◌⊎◌, inl, inr, false, Option, none, some, List, [], ◌∷◌,
  ◌++◌, arith, length, if◌then◌else◌, eqs, eqs_iff, eqs_refl, Option-cases,
}
use sandman.Prelude.Map.{get}
use sandman.Prelude.Result.{ok, err}
use sandman.Store.Data.{FileOp, ViewPart, ViewEntry, CommitRec, Store, Env, file_not_found}
use sandman.Store.Records.{load_commit, save_commit, write_blob, read_blob, append_op}
use sandman.Prelude.{some_inj}
use sandman.Store.Records.Saved.{load_by_id, load_commit-save_ne}
use sandman.Store.Records.Blobs.{
  IsInjective, repos-write_blob, load_commit-repos, get-write_blob_old,
}
use sandman.Store.View.{
  replay_chain, parts_of, part_of, bytes_from, entry_bytes, resolve_view, chain_fuel,
}
use sandman.Store.View.Replay.{path_op, get-replay_chain}
use sandman.Store.View.Ancestry.{
  Ancestry, IsLeaf, chain_fuel-save, chain_fuel-repos, resolve_view-Ancestry, Ancestry-stable,
  Ancestry-replace,
}
use sandman.Store.Invariant.{IsConsistent}
use sandman.Store.Invariant.Transfer.{Extends}
use sandman.Store.Commits.{add_op, put_file}
use sandman.Store.Commits.Inversion.{IsOpen, after_write, put_file_ok}
use sandman.Store.Files.{get_file}
use sandman.Store.RoundTrip.{
  read_entry, get_file_entry, path_chain_add, add_op_found, read_written, IsOpen-empty,
}

bytes_from-Extends :
    (s t : Store) (buf : Bytes) (ps : List ViewPart) {b : Bytes}
    → Extends s t
    → bytes_from s buf ps ≡ ok b
    → bytes_from t buf ps ≡ ok b
unfolding bytes_from read_blob
bytes_from-Extends s t buf [] e h = h
bytes_from-Extends s t buf (q ∷ ps) {b} e h = elim (Option-cases (get q.sha s.objects)) [
  | inl g ↦ absurd (ground arith)
  | inr (c, g) ↦ ground (
    arith,
    g,
    e q.sha c g,
    bytes_from-Extends s t (if q.overwrite then c else buf ++ c) ps {b = b} e,
  )
]

bytes_from-append :
    (s : Store) (buf : Bytes) (ps : List ViewPart) (q : ViewPart) {b c : Bytes}
    → bytes_from s buf ps ≡ ok b
    → get q.sha s.objects ≡ some c
    → q.overwrite ≡ false
    → bytes_from s buf (ps ++ q ∷ []) ≡ ok (b ++ c)
unfolding bytes_from read_blob
bytes_from-append s buf [] q h g f = ground arith
bytes_from-append s buf (x ∷ ps) q {b} {c} h g f = elim (Option-cases (get x.sha s.objects)) [
  | inl e ↦ absurd (ground arith)
  | inr (d, e) ↦
      ground
        (arith, e, bytes_from-append s (if x.overwrite then d else buf ++ d) ps q {b = b} {c = c})
]

-- The content of a path, an absent path counting as nothing.
abbrev pub Holds : Store → Bytes → Bytes → Bytes → Type 0
Holds s id p old =
    (get_file s id p ≡ ok old) ⊎ ((get_file s id p ≡ err (file_not_found p)) × (old ≡ []))

-- Reading an entry never reports a missing file.
bytes_from_found :
    (s : Store) (p buf : Bytes) (ps : List ViewPart)
    → ¬ (bytes_from s buf ps ≡ err (file_not_found p))
unfolding bytes_from read_blob
bytes_from_found s p buf [] h = cc
bytes_from_found s p buf (x ∷ ps) h = elim (Option-cases (get x.sha s.objects)) [
  | inl e ↦ ground arith
  | inr (d, e) ↦ ground (arith, bytes_from_found s p (if x.overwrite then d else buf ++ d) ps)
]

-- The entry that the path has before the write.
read_entry_old :
    (s t : Store) (p : Bytes) (e : Option ViewEntry) (q : ViewPart) {old content : Bytes}
    → Extends s t
    → (read_entry s p e ≡ ok old) ⊎ ((read_entry s p e ≡ err (file_not_found p)) × (old ≡ []))
    → get q.sha t.objects ≡ some content
    → q.overwrite ≡ false
    → read_entry t p (some (record { parts = parts_of e ++ q ∷ [] })) ≡ ok (old ++ content)
unfolding read_entry entry_bytes bytes_from read_blob
read_entry_old s t p none q {old} {content} x (inl h) g f = absurd (ground arith)
read_entry_old s t p none q {old} {content} x (inr (h, z)) g f = ground arith
read_entry_old s t p (some e) q {old} {content} x (inl h) g f =
    bytes_from-append t [] e.parts q (bytes_from-Extends s t [] e.parts x h) g f
read_entry_old s t p (some e) q {old} {content} x (inr (h, z)) g f =
    absurd (bytes_from_found s p [] e.parts h)

module _ (env : Env) (s : Store) (id p content : Bytes) where
  Extends-write :
      (make : Bytes → Bytes → ℕ → FileOp) (rec : CommitRec)
      → Extends s (after_write env make s rec p content)
  unfolding save_commit
  Extends-write make rec h c e = get-write_blob_old env s content h c e

  -- The write found the commit `rec`, whose ancestry is `chain`.
  module _ (rec : CommitRec) (chain : List CommitRec) (c : IsConsistent env s) (o : IsOpen s id rec)
      (a : Ancestry s rec chain) (long : length chain ≤ chain_fuel s rec.repo)
      (leaf : IsLeaf id chain) where
    abbrev written : Store
    written = after_write env append_op s rec p content

    abbrev new_op : FileOp
    new_op = append_op p (write_blob env s content).1 (length content)

    same_elsewhere : (j i : Bytes) → eqs i id ≡ false → load_commit written j i ≡ load_commit s j i
    same_elsewhere j i ne =
        load_commit-save_ne (write_blob env s content).0 (add_op rec new_op) j i
          (ground (arith, eqs_iff rec.id i, eqs_iff i id, load_by_id s c.placed id o.found))
        ∙ load_commit-repos s (write_blob env s content).0 j i (repos-write_blob env s content)

    fuel_grows : chain_fuel s rec.repo ≤ chain_fuel written rec.repo
    fuel_grows = omega (
      arith,
      chain_fuel-repos s (write_blob env s content).0 rec.repo (repos-write_blob env s content),
      chain_fuel-save (write_blob env s content).0 (add_op rec new_op) rec.repo,
    )

    path_op_append :
        (old : Option ViewEntry)
        → path_op p old new_op ≡ some (record { parts = parts_of old ++ part_of new_op ∷ [] })
    unfolding path_op
    path_op_append old = ground (arith, eqs_refl p)

    entry_above :
        (above : List CommitRec)
        → chain ≡ rec ∷ above
        → Ancestry written (add_op rec new_op) (add_op rec new_op ∷ above)
        → get p (resolve_view written (add_op rec new_op))
          ≡ some (record { parts = parts_of (get p (resolve_view s rec)) ++ part_of new_op ∷ [] })
    entry_above above e b =
        ap (get p) (resolve_view-Ancestry written b (omega (arith, ap length e, fuel_grows)))
        ∙ get-replay_chain p (add_op rec new_op ∷ above)
        ∙ path_chain_add p rec new_op above
        ∙ ap (λ (x : Option ViewEntry). path_op p x new_op)
            (sym (
              ap (get p) (resolve_view-Ancestry s a long ∙ ap replay_chain e)
              ∙ get-replay_chain p (rec ∷ above)))
        ∙ path_op_append (get p (resolve_view s rec))

    -- What the written store shows at the path.
    entry_written :
        get p (resolve_view written (add_op rec new_op))
        ≡ some (record { parts = parts_of (get p (resolve_view s rec)) ++ part_of new_op ∷ [] })
    entry_written =
        let open_rec = IsOpen-empty env s id rec c o in
        let (above, e, b) =
          Ancestry-replace written (add_op rec new_op)
            (Ancestry-stable s written id same_elsewhere a leaf) open_rec open_rec refl refl in
        entry_above above e b

    written-Holds :
        IsInjective env.sha256
        → (old : Bytes) → Holds s id p old
        → get_file written id p ≡ ok (old ++ content)
    written-Holds inj old h =
        get_file_entry written id p (
          add_op_found env s (write_blob env s content).0 id rec new_op c o
            (repos-write_blob env s content))
        ∙ ap (read_entry written p) entry_written
        ∙ read_entry_old s written p (get p (resolve_view s rec)) (part_of new_op)
            (Extends-write append_op rec) (rw (get_file_entry s id p o.found) at h)
            (unfold read_blob in read_written env s id p content inj c.stored append_op rec) refl

  -- In a consistent store with a digest without collisions, let the commit `id`, whose record is
  -- `rec` and which is the parent of no commit of its own ancestry `chain`, hold the bytes `old` at
  -- `p` (none where `p` is not found). After a PutFile that returns no error, reading `p` returns
  -- `old` followed by the written bytes.
  pub get_file-put_file :
      IsInjective env.sha256
      → IsConsistent env s
      → (rec : CommitRec) (chain : List CommitRec) → IsOpen s id rec
      → Ancestry s rec chain
      → length chain ≤ chain_fuel s rec.repo
      → IsLeaf id chain
      → (put_file env s id p content).1 ≡ ok tt
      → (old : Bytes) → Holds s id p old
      → get_file (put_file env s id p content).0 id p ≡ ok (old ++ content)
  get_file-put_file inj c rec chain o a long leaf h old holds =
      let (rec', o', e) = put_file_ok env s id p content h in
      let same : rec' ≡ rec = some_inj (sym o'.found ∙ o.found) in
      ap (λ (t : Store). get_file t id p)
        (e ∙ ap (λ (x : CommitRec). after_write env append_op s x p content) same)
      ∙ written-Holds rec chain c o a long leaf inj old holds
