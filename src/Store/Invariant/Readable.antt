-- ===== src/Store/Invariant/Readable.antt =====
-- The bytes behind a resolved view in a consistent store.
use sandman.Prelude.{
  Bytes, ℕ, zero, suc, ◌+◌, ◌≡◌, refl, inl, inr, Bool, true, false, Option, none, some, List, [],
  ◌∷◌, ◌++◌, arith, length, length-append, if◌then◌else◌, eqs, All, All-append, Bool-cases,
  Option-cases, lts, if_cases,
}
use mathlib.Core.Path.{subst}
use sandman.Prelude.Map.{get, put, remove}
use sandman.Prelude.Result.{ok}
use sandman.Store.Data.{FileOp, ViewPart, ViewEntry, CommitRec, Store, Env}
use sandman.Store.Records.{load_commit, read_blob}
use sandman.Prelude.{some_inj}
use sandman.Store.View.{
  View, size_from, bytes_from, parts_of, part_of, apply_op, replay, ancestry, replay_chain,
  chain_fuel, resolve_view,
}
use sandman.Store.Invariant.{IsBacked, IsConsistent}

abbrev pub IsBackedPart : Store → ViewPart → Type 0
IsBackedPart s q = (c : Bytes) × (get q.sha s.objects ≡ some c) × (length c ≡ q.size)

abbrev pub IsBackedEntry : Store → ViewEntry → Type 0
IsBackedEntry s e = All (IsBackedPart s) e.parts

abbrev pub IsBackedView : Store → View → Type 0
IsBackedView s v = All (λ (b : Bytes × ViewEntry). IsBackedEntry s b.1) v

-- The bytes of a backed entry, and their number.
pub backed_bytes :
    (s : Store) (buf : Bytes) (n : ℕ) (ps : List ViewPart)
    → All (IsBackedPart s) ps
    → length buf ≡ n
    → (b : Bytes) × (bytes_from s buf ps ≡ ok b) × (length b ≡ size_from n ps)
unfolding bytes_from size_from read_blob
backed_bytes s buf n [] h e = (buf, refl, e)
backed_bytes s buf n (q ∷ ps) ((c, g, l), hs) e =
    let (b, r, z) =
      backed_bytes s (if q.overwrite then c else buf ++ c)
        (if q.overwrite then q.size else n + q.size) ps hs (ground (arith, length-append buf c)) in
    (b, ground (arith, g, r), z)

module _ (s : Store) where
  pub get_backed :
      (p : Bytes) (v : View) {e : ViewEntry}
      → IsBackedView s v
      → get p v ≡ some e
      → IsBackedEntry s e
  unfolding get
  get_backed p [] h g = cc
  get_backed p ((j, x) ∷ v) {e} h g = elim (Bool-cases (eqs j p)) [
    | inl q ↦ subst (IsBackedEntry s) (some_inj (rw q at g)) h.0
    | inr q ↦ get_backed p v h.1 (rw q at g)
  ]

  put_backed :
      (p : Bytes) (e : ViewEntry) (v : View)
      → IsBackedView s v
      → IsBackedEntry s e
      → IsBackedView s (put p e v)
  unfolding put
  put_backed p e [] h b = (b, tt)
  put_backed p e ((j, x) ∷ v) h b =
      if_cases (IsBackedView s) (eqs j p) (b, h.1)
        (if_cases (IsBackedView s) (lts p j) (b, h) (h.0, put_backed p e v h.1 b))

  remove_backed : (p : Bytes) (v : View) → IsBackedView s v → IsBackedView s (remove p v)
  unfolding remove
  remove_backed p [] h = tt
  remove_backed p ((j, x) ∷ v) h =
      let rest = remove_backed p v h.1 in if_cases (IsBackedView s) (eqs j p) rest (h.0, rest)

  parts_backed :
      (p : Bytes) (v : View) → IsBackedView s v → All (IsBackedPart s) (parts_of (get p v))
  parts_backed p v h = elim (Option-cases (get p v)) [
    | inl e ↦ rw e tt
    | inr (x, e) ↦ rw e (get_backed p v h e)
  ]

  apply_op_backed :
      (v : View) (op : FileOp) → IsBackedView s v → IsBacked s op → IsBackedView s (apply_op v op)
  unfolding apply_op
  apply_op_backed v op h (inl d) = rw d (remove_backed op.path v h)
  apply_op_backed v op h (inr b) = if_cases (IsBackedView s) op.delete (remove_backed op.path v h) (
      if_cases (IsBackedView s) op.overwrite
        (put_backed op.path (record { parts = part_of op ∷ [] }) v h (b, tt))
        (put_backed op.path (record { parts = parts_of (get op.path v) ++ part_of op ∷ [] }) v h
          (All-append (IsBackedPart s) (parts_of (get op.path v)) (part_of op ∷ [])
            (parts_backed op.path v h) (b, tt))))

  replay_backed :
      (v : View) (ops : List FileOp)
      → IsBackedView s v
      → All (IsBacked s) ops
      → IsBackedView s (replay v ops)
  unfolding replay
  replay_backed v [] h b = h
  replay_backed v (op ∷ ops) h b =
      replay_backed (apply_op v op) ops (apply_op_backed v op h b.0) b.1

  abbrev IsBackedChain : List CommitRec → Type 0
  IsBackedChain cs = All (λ (c : CommitRec). All (IsBacked s) c.ops) cs

  chain_backed : (cs : List CommitRec) → IsBackedChain cs → IsBackedView s (replay_chain cs)
  unfolding replay_chain
  chain_backed [] h = tt
  chain_backed (c ∷ cs) h = replay_backed (replay_chain cs) c.ops (chain_backed cs h.1) h.0

module _ (env : Env) (s : Store) (c : IsConsistent env s) where
  ancestry_backed :
      (n : ℕ) (rec : CommitRec) → All (IsBacked s) rec.ops → IsBackedChain s (ancestry n s rec)
  unfolding ancestry
  ancestry_backed zero rec h = tt
  ancestry_backed (suc n) rec h =
      go rec.empty (eqs rec.parent_id []) (load_commit s rec.repo rec.parent_id) refl
        (λ x b. ancestry_backed n x b)
    where
      go :
          (b d : Bool) (o : Option CommitRec)
          → load_commit s rec.repo rec.parent_id ≡ o
          → ((x : CommitRec) → All (IsBacked s) x.ops → IsBackedChain s (ancestry n s x))
          → IsBackedChain s (elim b [
            | true ↦ []
            | false ↦ elim d [
              | true ↦ rec ∷ []
              | false ↦ elim o [ none ↦ rec ∷ [] | some parent ↦ rec ∷ ancestry n s parent ]
            ]
          ])
      go true d o e ih = tt
      go false true o e ih = (h, tt)
      go false false none e ih = (h, tt)
      go false false (some x) e ih = (h, ih x (c.backed rec.repo rec.parent_id x e))

  -- Every part of a resolved view is backed by a stored object of its size.
  pub resolve_view-IsBackedView :
      (rec : CommitRec) → All (IsBacked s) rec.ops → IsBackedView s (resolve_view s rec)
  unfolding resolve_view
  resolve_view-IsBackedView rec h =
      chain_backed s (ancestry (chain_fuel s rec.repo) s rec)
        (ancestry_backed (chain_fuel s rec.repo) rec h)
