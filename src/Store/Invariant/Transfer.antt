-- ===== src/Store/Invariant/Transfer.antt =====
-- How consistency passes from one store to the next: over a saved record, a written blob, and a
-- change that loads nothing new.
use sandman.Prelude.{
  Bytes, ◌≡◌, refl, sym, ap, ◌∙◌, inl, inr, true, false, ◌&&◌, some, List, [], ◌∷◌, length, All,
  eqs, Bool-cases,
}
use mathlib.Core.Path.{subst}
use sandman.Prelude.Map.{get}
use sandman.Store.Data.{FileOp, CommitRec, Store, Env}
use sandman.Store.Records.{load_commit, save_commit, write_blob}
use sandman.Prelude.{some_inj}
use sandman.Store.Records.Saved.{IsCurrent, load_commit-save, save_commit-IsPlaced}
use sandman.Store.Records.Blobs.{
  IsInjective, repos-write_blob, load_commit-repos, get-write_blob_old, get-write_blob_new,
  sha-write_blob, write_blob-IsStored,
}
use sandman.Store.Invariant.{IsBacked, IsConsistent}

-- Every object of `s` is one of `t`.
abbrev pub Extends : Store → Store → Type 0
Extends s t = (h c : Bytes) → get h s.objects ≡ some c → get h t.objects ≡ some c

pub IsBacked-Extends : (s t : Store) (op : FileOp) → Extends s t → IsBacked s op → IsBacked t op
IsBacked-Extends s t op e (inl d) = inl d
IsBacked-Extends s t op e (inr (c, g, l)) = inr (c, e op.sha c g, l)

pub All-Extends :
    (s t : Store) (ops : List FileOp) → Extends s t → All (IsBacked s) ops → All (IsBacked t) ops
All-Extends s t [] e h = tt
All-Extends s t (op ∷ ops) e h = (IsBacked-Extends s t op e h.0, All-Extends s t ops e h.1)

pub save_commit-IsConsistent :
    (env : Env) (s : Store) (rec : CommitRec)
    → IsConsistent env s
    → IsCurrent rec
    → (rec.empty ≡ true → rec.finished ≡ true)
    → All (IsBacked s) rec.ops
    → IsConsistent env (save_commit s rec)
unfolding save_commit
save_commit-IsConsistent env s rec c cur seal back = record {
  placed = save_commit-IsPlaced s rec c.placed cur;
  stored = c.stored;
  sealed = λ r i x h. elim (Bool-cases (eqs rec.repo r && eqs rec.id i)) [
    | inl e ↦ subst (λ (y : CommitRec). y.empty ≡ true → y.finished ≡ true) (saved r i x h e) seal
    | inr e ↦ c.sealed r i x (kept r i x h e)
  ];
  backed = λ r i x h. elim (Bool-cases (eqs rec.repo r && eqs rec.id i)) [
    | inl e ↦ subst (λ (y : CommitRec). All (IsBacked s) y.ops) (saved r i x h e) back
    | inr e ↦ c.backed r i x (kept r i x h e)
  ];
}
  where
    saved :
        (r i : Bytes) (x : CommitRec)
        → load_commit (save_commit s rec) r i ≡ some x
        → (eqs rec.repo r && eqs rec.id i) ≡ true
        → rec ≡ x
    saved r i x h e = sym cur ∙ some_inj (sym (load_commit-save s rec r i ∙ rw e refl) ∙ h)

    kept :
        (r i : Bytes) (x : CommitRec)
        → load_commit (save_commit s rec) r i ≡ some x
        → (eqs rec.repo r && eqs rec.id i) ≡ false
        → load_commit s r i ≡ some x
    kept r i x h e = sym (load_commit-save s rec r i ∙ rw e refl) ∙ h

-- A store with the same objects that loads no record of its own.
pub shrink-IsConsistent :
    (env : Env) (s t : Store)
    → t.objects ≡ s.objects
    → ((r i : Bytes) (x : CommitRec) → load_commit t r i ≡ some x → load_commit s r i ≡ some x)
    → IsConsistent env s
    → IsConsistent env t
shrink-IsConsistent env s t e less c = record {
  placed = λ r i x h. c.placed r i x (less r i x h);
  stored = λ h x g. c.stored h x (ap (get h) (sym e) ∙ g);
  sealed = λ r i x h. c.sealed r i x (less r i x h);
  backed =
      λ r i x h. All-Extends s t x.ops (λ k y g. ap (get k) e ∙ g) (c.backed r i x (less r i x h));
}

module _ (env : Env) (s : Store) (content : Bytes) where
  abbrev after_blob : Store
  after_blob = (write_blob env s content).0

  pub Extends-write_blob : Extends s after_blob
  Extends-write_blob = get-write_blob_old env s content

  pub load_commit-write_blob : (r i : Bytes) → load_commit after_blob r i ≡ load_commit s r i
  load_commit-write_blob r i = load_commit-repos s after_blob r i (repos-write_blob env s content)

  pub write_blob-IsConsistent : IsConsistent env s → IsConsistent env after_blob
  write_blob-IsConsistent c = record {
    placed = λ r i x h. c.placed r i x (sym (load_commit-write_blob r i) ∙ h);
    stored = write_blob-IsStored env s content c.stored;
    sealed = λ r i x h. c.sealed r i x (sym (load_commit-write_blob r i) ∙ h);
    backed = λ r i x h.
        All-Extends s after_blob x.ops Extends-write_blob
          (c.backed r i x (sym (load_commit-write_blob r i) ∙ h));
  }

  -- The object of a write, under the digest that the write returns.
  pub written_backed :
      IsInjective env.sha256
      → IsConsistent env s
      → (c : Bytes) × (get (write_blob env s content).1 after_blob.objects ≡ some c)
        × (length c ≡ length content)
  written_backed inj c = (
    content,
    ap (λ (h : Bytes). get h after_blob.objects) (sha-write_blob env s content)
        ∙ get-write_blob_new env s content inj c.stored,
    refl,
  )
