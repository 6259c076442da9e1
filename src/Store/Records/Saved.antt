-- ===== src/Store/Records/Saved.antt =====
-- What a load returns after a save, and where a commit found by its id is stored.
use sandman.Prelude.{
  Bytes, codes, ◌≡◌, refl, sym, ap, ◌∙◌, false, ◌&&◌, Option, none, some, List, [], ◌∷◌, ◌++◌,
  arith, if◌then◌else◌, eqs, eqs_iff, eqs_refl, has_prefix,
}
use sandman.Prelude.{some_inj}
use mathlib.Core.Path.{subst}
use sandman.Prelude.Map.{Map, get, put, get-put}
use sandman.Store.Data.{FileOp, CommitRec, Repo, Store}
use sandman.Store.Records.{
  decode, decoded, decode_legacy, deletion_ops, file_ops, repo_of, commits_of, load_commit,
  save_commit, load_in, repo_names, load_commit_by_id,
}

-- A record that the conversion of the legacy fields leaves alone.
abbrev pub IsCurrent : CommitRec → Type 0
IsCurrent rec = decode rec ≡ rec

emptied-IsCurrent :
    (x : CommitRec) (l : List FileOp)
    → decode_legacy l (record x { ops = l; files = []; deleted = [] })
      ≡ record x { ops = l; files = []; deleted = [] }
emptied-IsCurrent x [] = refl
emptied-IsCurrent x (op ∷ ops) = refl

decode_legacy-IsCurrent :
    (x : CommitRec) (l : List FileOp) → x.ops ≡ l → IsCurrent (decode_legacy l x)
unfolding decode
decode_legacy-IsCurrent x [] e = emptied-IsCurrent x (deletion_ops x.deleted ++ file_ops x.files)
decode_legacy-IsCurrent x (op ∷ ops) e = rw e refl

pub decode-IsCurrent : (x : CommitRec) → IsCurrent (decode x)
unfolding decode
decode-IsCurrent x = decode_legacy-IsCurrent x x.ops refl

-- More operations behind those of a current record leave it current.
pub append-IsCurrent :
    (rec : CommitRec) (l : List FileOp)
    → IsCurrent rec
    → IsCurrent (record rec { ops = rec.ops ++ l })
unfolding decode
append-IsCurrent rec l h = go rec.ops refl
  where
    go :
        (o : List FileOp)
        → rec.ops ≡ o
        → decode_legacy (o ++ l) (record rec { ops = o ++ l }) ≡ record rec { ops = o ++ l }
    go [] e =
        let h' : decode_legacy [] rec ≡ rec =
          subst (λ (o : List FileOp). decode_legacy o rec ≡ rec) e h in
        subst (λ (x : CommitRec). decode_legacy l x ≡ x)
          (λ i. record rec { ops = l; files = (h' i).files; deleted = (h' i).deleted })
          (emptied-IsCurrent rec l)
    go (op ∷ ops) e = refl

pub commits_of-save :
    (s : Store) (rec : CommitRec) (r : Bytes)
    → commits_of (save_commit s rec) r
      ≡ (if eqs rec.repo r then put rec.id rec (commits_of s rec.repo) else commits_of s r)
unfolding save_commit
commits_of-save s rec r = ground (
  arith,
  get-put rec.repo r
      (record (repo_of (get rec.repo s.repos)) {
        commits = put rec.id rec (repo_of (get rec.repo s.repos)).commits;
      })
      s.repos,
)

pub load_commit-save :
    (s : Store) (rec : CommitRec) (r i : Bytes)
    → load_commit (save_commit s rec) r i
      ≡ (if eqs rec.repo r && eqs rec.id i then some (decode rec) else load_commit s r i)
unfolding load_commit
load_commit-save s rec r i =
    ap (λ (m : Map CommitRec). decoded (get i m)) (commits_of-save s rec r)
    ∙ ground (arith, eqs_iff rec.repo r, get-put rec.id i rec (commits_of s rec.repo))

-- A loaded record needs no second conversion.
pub load_commit-IsCurrent :
    (s : Store) (r i : Bytes) {rec : CommitRec} → load_commit s r i ≡ some rec → IsCurrent rec
unfolding load_commit
load_commit-IsCurrent s r i {rec} h = go (get i (commits_of s r)) h
  where
    go : (o : Option CommitRec) → decoded o ≡ some rec → IsCurrent rec
    go none e = cc
    go (some x) e = subst (λ (y : CommitRec). IsCurrent y) (some_inj e) (decode-IsCurrent x)

-- Every record stands in its own repository's directory, under its own id.
abbrev pub IsPlaced : Store → Type 0
IsPlaced s =
    (r i : Bytes) (rec : CommitRec) → load_commit s r i ≡ some rec → (rec.repo ≡ r) × (rec.id ≡ i)

-- The name under which load_in finds the commit.
pub hit_name : List Bytes → Store → Bytes → Bytes
hit_name [] s id = []
hit_name (name ∷ names) s id =
    let rest = hit_name names s id in
    if has_prefix (codes ".") name
    then rest
    else elim (load_commit s name id) [ some rec ↦ name | none ↦ rest ]

pub load_in_hit :
    (names : List Bytes) (s : Store) (id : Bytes) {rec : CommitRec}
    → load_in names s id ≡ some rec
    → load_commit s (hit_name names s id) id ≡ some rec
unfolding load_in hit_name
load_in_hit [] s id h = cc
load_in_hit (name ∷ names) s id {rec} h = ground (arith, load_in_hit names s id {rec = rec})

-- A commit found by its id is the one stored there.
pub load_by_id :
    (s : Store)
    → IsPlaced s
    → (id : Bytes) {rec : CommitRec} → load_commit_by_id s id ≡ some rec
    → (load_commit s rec.repo id ≡ some rec) × (rec.id ≡ id)
unfolding load_commit_by_id
load_by_id s placed id {rec} h =
    let hit = load_in_hit (repo_names s.repos) s id h in
    let p = placed (hit_name (repo_names s.repos) s id) id rec hit in
    (subst (λ (r : Bytes). load_commit s r id ≡ some rec) (sym p.0) hit, p.1)

pub hit_name_visible :
    (names : List Bytes) (s : Store) (id : Bytes) {rec : CommitRec}
    → load_in names s id ≡ some rec
    → has_prefix (codes ".") (hit_name names s id) ≡ false
unfolding load_in hit_name
hit_name_visible [] s id h = cc
hit_name_visible (name ∷ names) s id {rec} h =
    ground (arith, hit_name_visible names s id {rec = rec})

-- After a change of the record `id` of the repository `r` alone, the scan finds the new record.
pub load_in-put :
    (m : Map Repo) (x : Repo) (s t : Store) (r id : Bytes) {rec new : CommitRec}
    → has_prefix (codes ".") r ≡ false
    → load_commit t r id ≡ some new
    → ((j : Bytes) → eqs j r ≡ false → load_commit t j id ≡ load_commit s j id)
    → load_in (repo_names m) s id ≡ some rec
    → hit_name (repo_names m) s id ≡ r
    → load_in (repo_names (put r x m)) t id ≡ some new
unfolding load_in hit_name repo_names put
load_in-put [] x s t r id vis hit same h e = cc
load_in-put ((j, w) ∷ m) x s t r id {rec} {new} vis hit same h e =
    ground
      (arith, eqs_iff j r, same j, load_in-put m x s t r id {rec = rec} {new = new} vis hit same)

-- A commit found by its id is found again, as it was saved, after its record is saved anew.
pub by_id-save :
    (s : Store)
    → IsPlaced s
    → (id : Bytes) {rec : CommitRec} → load_commit_by_id s id ≡ some rec
    → (new : CommitRec) → new.repo ≡ rec.repo
    → new.id ≡ id
    → IsCurrent new
    → load_commit_by_id (save_commit s new) id ≡ some new
unfolding load_commit_by_id save_commit
by_id-save s placed id {rec} h new r i cur =
    let hit = load_in_hit (repo_names s.repos) s id h in
    let p = placed (hit_name (repo_names s.repos) s id) id rec hit in
    load_in-put s.repos _ s (save_commit s new) new.repo id {rec = rec} {new = new}
      (cc (p.0, r, hit_name_visible (repo_names s.repos) s id h))
      (ground
        (arith, load_commit-save s new new.repo id, eqs_refl new.repo, eqs_iff new.id id, cur))
      (λ j ne. ground (arith, load_commit-save s new j id, eqs_iff new.repo j, eqs_iff j new.repo))
      h (cc (p.0, r))

-- The record at another place stays.
pub load_commit-save_ne :
    (s : Store) (rec : CommitRec) (r i : Bytes)
    → (eqs rec.repo r && eqs rec.id i) ≡ false
    → load_commit (save_commit s rec) r i ≡ load_commit s r i
load_commit-save_ne s rec r i h = ground (arith, load_commit-save s rec r i)

pub save_commit-IsPlaced :
    (s : Store) (rec : CommitRec) → IsPlaced s → IsCurrent rec → IsPlaced (save_commit s rec)
save_commit-IsPlaced s rec placed cur r i x h =
    ground
      (arith, load_commit-save s rec r i, eqs_iff rec.repo r, eqs_iff rec.id i, placed r i x, cur)

-- Other fields do not matter to the conversion.
pub retouch-IsCurrent :
    (rec x : CommitRec)
    → IsCurrent rec
    → x.ops ≡ rec.ops
    → x.files ≡ rec.files
    → x.deleted ≡ rec.deleted
    → IsCurrent x
unfolding decode
retouch-IsCurrent rec x h o f d = go rec.ops refl
  where
    go : (l : List FileOp) → rec.ops ≡ l → decode_legacy x.ops x ≡ x
    go [] e =
        let h' : decode_legacy [] rec ≡ rec =
          subst (λ (o : List FileOp). decode_legacy o rec ≡ rec) e h in
        let rf : rec.files ≡ [] = sym (ap (λ (y : CommitRec). y.files) h') in
        let rd : rec.deleted ≡ [] = sym (ap (λ (y : CommitRec). y.deleted) h') in
        ground (arith, e, o, f, d, rf, rd)
    go (op ∷ ops) e = ground (arith, e, o)
