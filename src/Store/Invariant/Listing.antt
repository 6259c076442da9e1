-- ===== src/Store/Invariant/Listing.antt =====
-- ListFiles and GetFile against the resolved view.
use sandman.Prelude.{
  Bytes, ◌≡◌, refl, ap, true, some, List, [], ◌∷◌, arith, length, All, lts, if_cases,
}
use mathlib.Core.Path.{subst}
use sandman.Prelude.Map.{get, keys}
use sandman.Prelude.Order.{
  IsAfter, IsOrdered, put-IsOrdered, remove-IsOrdered, get-All, IsInOrder, sort_by_ordered,
}
use sandman.Prelude.Result.{ok}
use sandman.Store.Data.{FileOp, ViewEntry, CommitRec, Store, Env, FileInfo}
use sandman.Store.Records.{load_commit_by_id}
use sandman.Store.Records.Saved.{load_by_id}
use sandman.Store.View.{
  View, entry_size, entry_bytes, entry_hash, apply_op, replay, ancestry, replay_chain, chain_fuel,
  resolve_view,
}
use sandman.Store.Invariant.{IsConsistent}
use sandman.Store.Invariant.Readable.{
  get_backed, IsBackedEntry, IsBackedView, backed_bytes, resolve_view-IsBackedView,
}
use sandman.Store.Files.{resolve_view_by_id, file_infos, list_files, get_file}

replay-IsOrdered : (v : View) (ops : List FileOp) → IsOrdered v → IsOrdered (replay v ops)
unfolding replay apply_op
replay-IsOrdered v [] h = h
replay-IsOrdered v (op ∷ ops) h = replay-IsOrdered (apply_op v op) ops (
    if_cases IsOrdered op.delete (remove-IsOrdered op.path v h)
      (if_cases IsOrdered op.overwrite (put-IsOrdered op.path _ v h) (put-IsOrdered op.path _ v h)))

replay_chain-IsOrdered : (cs : List CommitRec) → IsOrdered (replay_chain cs)
unfolding replay_chain
replay_chain-IsOrdered [] = tt
replay_chain-IsOrdered (c ∷ cs) =
    replay-IsOrdered (replay_chain cs) c.ops (replay_chain-IsOrdered cs)

pub resolve_view-IsOrdered : (s : Store) (rec : CommitRec) → IsOrdered (resolve_view s rec)
unfolding resolve_view
resolve_view-IsOrdered s rec = replay_chain-IsOrdered (ancestry (chain_fuel s rec.repo) s rec)

pub entry_readable :
    (s : Store) (e : ViewEntry)
    → IsBackedEntry s e
    → (b : Bytes) × (entry_bytes s e ≡ ok b) × (length b ≡ entry_size e)
unfolding entry_bytes entry_size
entry_readable s e h = backed_bytes s [] 0 e.parts h refl

-- The paths of the listed files.
pub info_paths : List FileInfo → List Bytes
info_paths [] = []
info_paths (i ∷ is) = i.path ∷ info_paths is

-- `i` describes what a read of its path through the view returns.
pub record Describes (env : Env) (s : Store) (view : View) (i : FileInfo) : Type 0 where
  pub entry : ViewEntry
  pub content : Bytes
  pub listed : get i.path view ≡ some entry
  pub bytes : entry_bytes s entry ≡ ok content
  pub size : length content ≡ i.size
  pub hash : env.sha256 content ≡ i.hash

module _ (env : Env) (s : Store) (view : View) where
  file_infos_lem :
      (v : View)
      → IsBackedView s v
      → All (λ (b : Bytes × ViewEntry). get b.0 view ≡ some b.1) v
      → (infos : List FileInfo) × (file_infos env s v ≡ ok infos)
        × All (Describes env s view) infos
        × (info_paths infos ≡ keys v)
  unfolding file_infos entry_hash info_paths keys
  file_infos_lem [] h g = ([], refl, tt, refl)
  file_infos_lem ((p, e) ∷ v) h g =
      let (b, r, l) = entry_readable s e h.0 in
      let (infos, q, d, k) = file_infos_lem v h.1 g.1 in
      let i : FileInfo = record { path = p; size = entry_size e; hash = env.sha256 b } in
      (
        i ∷ infos,
        ground (arith, r, q),
        (record { entry = e; content = b; listed = g.0; bytes = r; size = l; hash = refl }, d),
        ap (λ (ps : List Bytes). p ∷ ps) k,
      )

after_paths :
    (p : Bytes) (v : View) (infos : List FileInfo)
    → info_paths infos ≡ keys v
    → IsAfter p v
    → All (λ (i : FileInfo). lts p i.path ≡ true) infos
unfolding info_paths keys
after_paths p v [] e a = tt
after_paths p [] (i ∷ is) e a = absurd (ground arith)
after_paths p ((j, w) ∷ v) (i ∷ is) e a =
    (ground (arith, a.0), after_paths p v is (ground arith) a.1)

infos-IsInOrder :
    (v : View) (infos : List FileInfo)
    → info_paths infos ≡ keys v
    → IsOrdered v
    → IsInOrder (λ (i : FileInfo). i.path) infos
unfolding info_paths keys
infos-IsInOrder v [] e o = tt
infos-IsInOrder [] (i ∷ is) e o = absurd (ground arith)
infos-IsInOrder ((j, w) ∷ v) (i ∷ is) e o =
    let q : j ≡ i.path = ground arith in
    (
      after_paths i.path v is (ground arith) (subst (λ (k : Bytes). IsAfter k v) q o.0),
      infos-IsInOrder v is (ground arith) o.1,
    )

module _ (env : Env) (s : Store) (id : Bytes) {rec : CommitRec} where
  pub view_backed :
      IsConsistent env s → load_commit_by_id s id ≡ some rec → IsBackedView s (resolve_view s rec)
  view_backed c h =
      resolve_view-IsBackedView env s c rec
        (c.backed rec.repo id rec (load_by_id s c.placed id h).0)

  -- In a consistent store ListFiles of a commit that exists returns no error. It lists each path of
  -- the resolved view once, in the order of the paths, and each entry has the size and the digest
  -- of the bytes that the view holds at its path.
  pub list_files_lem :
      IsConsistent env s
      → load_commit_by_id s id ≡ some rec
      → (infos : List FileInfo) × (list_files env s id ≡ ok infos)
        × All (Describes env s (resolve_view s rec)) infos
        × (info_paths infos ≡ keys (resolve_view s rec))
        × IsInOrder (λ (i : FileInfo). i.path) infos
  unfolding list_files resolve_view_by_id
  list_files_lem c h =
      let v = resolve_view s rec in
      let ord = resolve_view-IsOrdered s rec in
      let (infos, r, d, k) = file_infos_lem env s v v (view_backed c h) (get-All v ord) in
      let inorder = infos-IsInOrder v infos k ord in
      (
        infos,
        ground (arith, h, r, sort_by_ordered (λ (i : FileInfo). i.path) infos inorder),
        d,
        k,
        inorder,
      )

  -- In a consistent store a path of a commit's resolved view can be read, and the bytes are as many
  -- as the view reports.
  pub get_file_readable :
      IsConsistent env s
      → load_commit_by_id s id ≡ some rec
      → (p : Bytes) (e : ViewEntry) → get p (resolve_view s rec) ≡ some e
      → (b : Bytes) × (get_file s id p ≡ ok b) × (length b ≡ entry_size e)
  unfolding get_file resolve_view_by_id
  get_file_readable c h p e g =
      let (b, r, l) =
        entry_readable s e (get_backed s p (resolve_view s rec) (view_backed c h) g) in
      (b, ground (arith, h, g, r), l)
