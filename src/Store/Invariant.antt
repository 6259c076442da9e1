-- ===== src/Store/Invariant.antt =====
-- What holds of the store between two operations.
pub mod Transfer
pub mod Readable
pub mod Listing
use sandman.Prelude.{
  Bytes, ℕ, ◌≡◌, ◌⊎◌, Bool, true, false, Option, some, List, [], ◌∷◌, length, All,
}
use sandman.Prelude.Map.{get}
use sandman.Store.Data.{FileOp, CommitRec, Store, Env}
use sandman.Store.Records.{load_commit}
use sandman.Store.Records.Saved.{IsPlaced}
use sandman.Store.Records.Blobs.{IsStored}

-- The content that an operation writes is stored, at the size that it records.
abbrev pub IsBacked : Store → FileOp → Type 0
IsBacked s op =
    (op.delete ≡ true) ⊎ ((c : Bytes) × (get op.sha s.objects ≡ some c) × (length c ≡ op.size))

pub record IsConsistent (env : Env) (s : Store) : Type 0 where
  pub placed : IsPlaced s
  pub stored : IsStored env s
  pub sealed :
      (r i : Bytes) (rec : CommitRec)
      → load_commit s r i ≡ some rec
      → rec.empty ≡ true
      → rec.finished ≡ true
  pub backed :
      (r i : Bytes) (rec : CommitRec) → load_commit s r i ≡ some rec → All (IsBacked s) rec.ops
