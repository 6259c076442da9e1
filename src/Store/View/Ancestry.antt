-- ===== src/Store/View/Ancestry.antt =====
-- The ancestry that a view is resolved along, and the fuel of the walk.
use sandman.Prelude.{
  Bytes, ℕ, zero, suc, ◌≤◌, ◌≡◌, refl, ap, ◌∙◌, true, false, none, some, List, [], ◌∷◌, arith,
  length, eqs, eqs_iff, All,
}
use mathlib.Core.Path.{ap₂}
use sandman.Store.Data.{CommitRec, Store}
use sandman.Prelude.{if◌then◌else◌}
use sandman.Prelude.Map.{put, length-put}
use sandman.Store.Records.{load_commit, save_commit, commits_of}
use sandman.Store.Records.Saved.{commits_of-save}
use sandman.Store.View.{ancestry, chain_fuel, commits_in, resolve_view, replay_chain}

-- The commits above `cur` in the walk.
unfoldable pub older : ℕ → Store → CommitRec → List CommitRec
unfolding ancestry
older n s cur = elim (eqs cur.parent_id []) [
  | true ↦ []
  | false ↦ elim (load_commit s cur.repo cur.parent_id) [
    | none ↦ []
    | some parent ↦ ancestry n s parent
  ]
]

pub ancestry_open :
    (n : ℕ) (s : Store) (cur : CommitRec)
    → cur.empty ≡ false
    → ancestry (suc n) s cur ≡ cur ∷ older n s cur
unfolding ancestry older
ancestry_open n s cur h = ground arith

pub ancestry_barrier :
    (n : ℕ) (s : Store) (cur : CommitRec) → cur.empty ≡ true → ancestry n s cur ≡ []
unfolding ancestry
ancestry_barrier zero s cur h = refl
ancestry_barrier (suc n) s cur h = ground arith

pub older_of : Store → CommitRec → List CommitRec
older_of s rec = older (length (commits_in s rec.repo)) s rec

pub resolve_view_open :
    (s : Store) (rec : CommitRec)
    → rec.empty ≡ false
    → resolve_view s rec ≡ replay_chain (rec ∷ older_of s rec)
unfolding resolve_view older_of
resolve_view_open s rec h = ap replay_chain (ancestry_open (length (commits_in s rec.repo)) s rec h)

-- An explicitly empty commit has no view.
pub resolve_view_barrier :
    (s : Store) (rec : CommitRec) → rec.empty ≡ true → resolve_view s rec ≡ []
unfolding resolve_view
resolve_view_barrier s rec h = ap replay_chain (ancestry_barrier (chain_fuel s rec.repo) s rec h)

-- The ancestry of a commit as the store holds it, newest first: it stops at an empty commit, at a
-- root and at a parent whose record is gone.
pub data Ancestry (s : Store) : CommitRec → List CommitRec → Type 0 where
  barrier : {cur : CommitRec} → cur.empty ≡ true → Ancestry s cur []
  root : {cur : CommitRec} → cur.empty ≡ false → cur.parent_id ≡ [] → Ancestry s cur (cur ∷ [])
  lost :
      {cur : CommitRec}
      → cur.empty ≡ false
      → eqs cur.parent_id [] ≡ false
      → load_commit s cur.repo cur.parent_id ≡ none
      → Ancestry s cur (cur ∷ [])
  child :
      {cur parent : CommitRec} {chain : List CommitRec}
      → cur.empty ≡ false
      → eqs cur.parent_id [] ≡ false
      → load_commit s cur.repo cur.parent_id ≡ some parent
      → Ancestry s parent chain
      → Ancestry s cur (cur ∷ chain)

-- With fuel for each commit of it, the walk collects exactly the ancestry.
pub ancestry-Ancestry :
    (n : ℕ) (s : Store) {cur : CommitRec} {chain : List CommitRec}
    → Ancestry s cur chain
    → length chain ≤ n
    → ancestry n s cur ≡ chain
unfolding ancestry
ancestry-Ancestry zero s (barrier e) h = refl
ancestry-Ancestry (suc n) s (barrier e) h = ground arith
ancestry-Ancestry zero s (root e p) h = absurd (omega arith)
ancestry-Ancestry (suc n) s (root {cur = cur} e p) h = ground (arith, eqs_iff cur.parent_id [])
ancestry-Ancestry zero s (lost e p l) h = absurd (omega arith)
ancestry-Ancestry (suc n) s (lost e p l) h = ground arith
ancestry-Ancestry zero s (child e p l a) h = absurd (omega arith)
ancestry-Ancestry (suc n) s (child e p l a) h =
    ground (arith, ancestry-Ancestry n s a (omega arith))

-- Where the ancestry of a commit has at most one commit more than its repository has records, the
-- walk of ResolveView ends with all of it, and the view is the replay of exactly these commits.
pub resolve_view-Ancestry :
    (s : Store) {rec : CommitRec} {chain : List CommitRec}
    → Ancestry s rec chain
    → length chain ≤ chain_fuel s rec.repo
    → resolve_view s rec ≡ replay_chain chain
unfolding resolve_view
resolve_view-Ancestry s {rec} a h =
    ap replay_chain (ancestry-Ancestry (chain_fuel s rec.repo) s a h)

-- `id` is the parent of no commit of the list.
abbrev pub IsLeaf : Bytes → List CommitRec → Type 0
IsLeaf id cs = All (λ (c : CommitRec). eqs c.parent_id id ≡ false) cs

-- A change of the record `id` alone leaves an ancestry in which it is no parent.
pub Ancestry-stable :
    (s t : Store) (id : Bytes) {cur : CommitRec} {chain : List CommitRec}
    → ((j i : Bytes) → eqs i id ≡ false → load_commit t j i ≡ load_commit s j i)
    → Ancestry s cur chain
    → IsLeaf id chain
    → Ancestry t cur chain
Ancestry-stable s t id same (barrier e) h = barrier e
Ancestry-stable s t id same (root e p) h = root e p
Ancestry-stable s t id same (lost {cur = cur} e p l) h =
    lost e p (same cur.repo cur.parent_id h.0 ∙ l)
Ancestry-stable s t id same (child {cur = cur} e p l a) h =
    child e p (same cur.repo cur.parent_id h.0 ∙ l) (Ancestry-stable s t id same a h.1)

-- A record with the same parent, and no barrier either, has the same commits above it.
pub Ancestry-replace :
    (s : Store) {cur : CommitRec} {chain : List CommitRec} (x : CommitRec)
    → Ancestry s cur chain
    → cur.empty ≡ false
    → x.empty ≡ false
    → x.repo ≡ cur.repo
    → x.parent_id ≡ cur.parent_id
    → (above : List CommitRec) × (chain ≡ cur ∷ above) × Ancestry s x (x ∷ above)
Ancestry-replace s x (barrier e) h k r q = absurd (ground arith)
Ancestry-replace s x (root e p) h k r q = ([], refl, root k (q ∙ p))
Ancestry-replace s {cur} x (lost e p l) h k r q =
    ([], refl, lost k (ap (λ (i : Bytes). eqs i []) q ∙ p) (ap₂ (load_commit s) r q ∙ l))
Ancestry-replace s {cur} x (child {chain = chain} e p l a) h k r q =
    (chain, refl, child k (ap (λ (i : Bytes). eqs i []) q ∙ p) (ap₂ (load_commit s) r q ∙ l) a)

-- A save takes no fuel away.
pub chain_fuel-save :
    (s : Store) (rec : CommitRec) (r : Bytes) → chain_fuel s r ≤ chain_fuel (save_commit s rec) r
unfolding chain_fuel
chain_fuel-save s rec r =
    let e : length (commits_of (save_commit s rec) r)
        ≡ length
            (if eqs rec.repo r then put rec.id rec (commits_of s rec.repo) else commits_of s r) =
      ap length (commits_of-save s rec r) in
    ground (arith, e, eqs_iff rec.repo r, length-put rec.id rec (commits_of s rec.repo))

pub chain_fuel-repos :
    (s t : Store) (r : Bytes) → t.repos ≡ s.repos → chain_fuel t r ≡ chain_fuel s r
unfolding chain_fuel
chain_fuel-repos s t r e = rw e refl
