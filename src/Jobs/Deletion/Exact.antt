-- ===== src/Jobs/Deletion/Exact.antt =====
-- The commits that deleteCommit removes and those that it keeps.
use sandman.Prelude.{
  Bytes, ◌≡◌, ◌↔◌, refl, sym, ap, ◌∙◌, inl, inr, true, false, ◌&&◌, ◌||◌, some, some_inj, none,
  List, [], ◌∷◌, if◌then◌else◌, if_cases, eqs, eqs_iff, Bool-cases, Elem, at_head, in_tail, All,
  arith,
}
use mathlib.Core.Path.{subst}
use sandman.Prelude.Sort.{mem}
use sandman.Prelude.Result.{ok}
use sandman.Store.Data.{Store, Env, CommitRec, FileOp}
use sandman.Store.Records.{decode, decode_legacy, load_commit, save_commit}
use sandman.Store.Records.Saved.{load_commit-save}
use sandman.Jobs.Deletion.{
  DaemonState, job_list, deletion_set, resolve_commit_ref, all_commit_recs, remove_record,
  remove_records, save_all, survivor, parent_fixes, head_fixes, repaired, delete_commit,
}
use sandman.Jobs.Deletion.Derived.{IsDerived, deletion_set_lem}
use sandman.Jobs.Deletion.Removal.{
  load_commit-remove_record, apply_heads_lem, store-delete_commit, delete_commit_lem,
}
use sandman.Store.View.{chain_fuel}

-- A listed record stands under its own repository and id.
abbrev pub IsInPlace : Store → CommitRec → Type 0
IsInPlace s cm = load_commit s cm.repo cm.id ≡ some (decode cm)

-- The record under the id is `x` but for its parent.
abbrev pub IsKept : Store → Bytes → Bytes → CommitRec → Type 0
IsKept s r i x =
    (y : CommitRec) × (load_commit s r i ≡ some y) × (y ≡ record x { parent_id = y.parent_id })

decode_legacy-parent :
    (ops : List FileOp) (cm : CommitRec) (p : Bytes)
    → decode_legacy ops (record cm { parent_id = p })
      ≡ record (decode_legacy ops cm) { parent_id = p }
decode_legacy-parent [] cm p = refl
decode_legacy-parent (op ∷ ops) cm p = refl

-- A repaired record is that of the store with another parent.
abbrev IsRepair : Store → CommitRec → Type 0
IsRepair s cm =
    (x : CommitRec) × (load_commit s cm.repo cm.id ≡ some x)
    × (decode cm ≡ record x { parent_id = cm.parent_id })

repair_lem :
    (s : Store) (cm : CommitRec) (p : Bytes)
    → IsInPlace s cm
    → IsRepair s (record cm { parent_id = p })
unfolding decode
repair_lem s cm p h = (decode cm, h, decode_legacy-parent cm.ops cm p)

parent_fixes-IsRepair :
    (s : Store) (deleted : List Bytes) (cms : List CommitRec)
    → All (IsInPlace s) cms
    → All (IsRepair s) (parent_fixes s deleted cms)
unfolding parent_fixes
parent_fixes-IsRepair s deleted [] h = tt
parent_fixes-IsRepair s deleted (cm ∷ cms) h =
    let rest = parent_fixes-IsRepair s deleted cms h.1 in
    let p = survivor (chain_fuel s cm.repo) s cm.repo deleted cm.parent_id in
    if_cases (All (IsRepair s)) (mem cm.id deleted || eqs cm.parent_id []) rest
      (if_cases (All (IsRepair s)) (mem cm.parent_id deleted) (repair_lem s cm p h.0, rest) rest)

module _ (s : Store) (deleted : List Bytes) (r i : Bytes) (x : CommitRec)
    (found : load_commit s r i ≡ some x) (stays : mem i deleted ≡ false) where
  remove_records-same :
      (cms : List CommitRec) (t : Store)
      → load_commit (remove_records t deleted cms) r i ≡ load_commit t r i
  unfolding remove_records
  remove_records-same [] t = refl
  remove_records-same (cm ∷ cms) t =
      remove_records-same cms (if mem cm.id deleted then remove_record t cm.repo cm.id else t)
      ∙ elim (Bool-cases (mem cm.id deleted)) [
        | inr e ↦ rw e refl
        | inl e ↦ rw e (load_commit-remove_record t cm.repo cm.id r i ∙ ground (arith, other cm e))
      ]
    where
      other : (cm : CommitRec) → mem cm.id deleted ≡ true → eqs cm.id i ≡ false
      other cm e = elim (Bool-cases (eqs cm.id i)) [
        | inr n ↦ n
        | inl n ↦
            absurd (
              let z : mem i deleted ≡ true = rw⁻¹ ((eqs_iff cm.id i).0 n) e in
              ground (arith, stays))
      ]

  save_commit-IsKept :
      (t : Store) (cm : CommitRec)
      → IsRepair s cm
      → IsKept t r i x
      → IsKept (save_commit t cm) r i x
  save_commit-IsKept t cm (old, f, e) (y, g, k) = elim (Bool-cases (eqs cm.repo r && eqs cm.id i)) [
    | inr n ↦ (y, load_commit-save t cm r i ∙ rw n g, k)
    | inl n ↦
        let repo : cm.repo ≡ r = (eqs_iff cm.repo r).0 (ground arith) in
        let id : cm.id ≡ i = (eqs_iff cm.id i).0 (ground arith) in
        let same : old ≡ x = some_inj (
          sym f
          ∙ ap (λ (z : Bytes). load_commit s z cm.id) repo
          ∙ ap (load_commit s r) id
          ∙ found) in
        let e' : decode cm ≡ record x { parent_id = cm.parent_id } =
          e ∙ ap (λ (z : CommitRec). record z { parent_id = cm.parent_id }) same in
        let p : cm.parent_id ≡ (decode cm).parent_id =
          sym (ap (λ (z : CommitRec). z.parent_id) e') in
        (
          decode cm,
          load_commit-save t cm r i ∙ rw n refl,
          e' ∙ ap (λ (z : Bytes). record x { parent_id = z }) p,
        )
  ]

  save_all-IsKept :
      (cms : List CommitRec) (t : Store)
      → All (IsRepair s) cms
      → IsKept t r i x
      → IsKept (save_all t cms) r i x
  unfolding save_all
  save_all-IsKept [] t a k = k
  save_all-IsKept (cm ∷ cms) t a k =
      save_all-IsKept cms (save_commit t cm) a.1 (save_commit-IsKept t cm a.0 k)

  repaired-IsKept :
      (env : Env) → All (IsInPlace s) (all_commit_recs s) → IsKept (repaired env s deleted) r i x
  unfolding repaired
  repaired-IsKept env a =
      let cms = all_commit_recs s in
      let fixes = parent_fixes s deleted cms in
      let t = remove_records s deleted cms in
      let (y, g, k) =
        save_all-IsKept fixes t (parent_fixes-IsRepair s deleted cms a)
          (x, remove_records-same cms s ∙ found, refl) in
      (y, apply_heads_lem env (head_fixes s deleted s.repos) r i (save_all t fixes) ∙ g, k)

-- The store behind the operation.
abbrev pub left : Env → DaemonState → Bytes → Store
left env d ref = (delete_commit env d ref).0.store

module _ (env : Env) (d : DaemonState) (ref : Bytes) (rec : CommitRec) where
  delete_commit-IsKept :
      resolve_commit_ref d.store ref ≡ ok rec
      → All (IsInPlace d.store) (all_commit_recs d.store)
      → (r i : Bytes) (x : CommitRec) → load_commit d.store r i ≡ some x
      → ¬ IsDerived (job_list d.jobs) rec.id i
      → IsKept (left env d ref) r i x
  delete_commit-IsKept e a r i x f n =
      let deleted = deletion_set (job_list d.jobs) rec.id in
      elim (Bool-cases (mem i deleted)) [
        | inl m ↦ absurd (n ((deletion_set_lem (job_list d.jobs) rec.id i).0 m))
        | inr m ↦
            subst (λ (t : Store). IsKept t r i x) (sym (store-delete_commit env d ref rec e))
              (repaired-IsKept d.store deleted r i x f m env a)
      ]

  -- deleteCommit of a reference that resolves to `rec` removes exactly the commits derived from
  -- `rec`, where each listed record stands under its own repository and id: of the listed commits,
  -- those that have no record any more are the commit itself and, over any number of jobs, the
  -- outputs of the jobs that consumed a removed commit. Every other commit of the store keeps its
  -- record, in which at most the parent is another.
  pub delete_commit-exact :
      resolve_commit_ref d.store ref ≡ ok rec
      → All (IsInPlace d.store) (all_commit_recs d.store)
      → ((cm : CommitRec)
          → Elem cm (all_commit_recs d.store)
          → (load_commit (left env d ref) cm.repo cm.id ≡ none)
            ↔ IsDerived (job_list d.jobs) rec.id cm.id)
        × ((r i : Bytes) (x : CommitRec)
            → load_commit d.store r i ≡ some x
            → ¬ IsDerived (job_list d.jobs) rec.id i
            → IsKept (left env d ref) r i x)
  delete_commit-exact e a = (
    λ cm m. (
      λ gone. elim (Bool-cases (mem cm.id (deletion_set (job_list d.jobs) rec.id))) [
        | inl b ↦ (deletion_set_lem (job_list d.jobs) rec.id cm.id).0 b
        | inr b ↦ absurd (
            let n : ¬ IsDerived (job_list d.jobs) rec.id cm.id = λ h.
              let z = (deletion_set_lem (job_list d.jobs) rec.id cm.id).1 h in ground (arith, b) in
            let k =
              delete_commit-IsKept e a cm.repo cm.id (decode cm)
                (All-Elem (all_commit_recs d.store) a cm m) n in
            ground (arith, gone, k.1))
      ],
      delete_commit_lem env d ref rec cm e m,
    ),
    delete_commit-IsKept e a,
  )
    where
      All-Elem :
          (cms : List CommitRec)
          → All (IsInPlace d.store) cms
          → (cm : CommitRec) → Elem cm cms
          → IsInPlace d.store cm
      All-Elem [] h cm m = elim m [ ]
      All-Elem (c ∷ cms) h cm at_head = h.0
      All-Elem (c ∷ cms) h cm (in_tail m) = All-Elem cms h.1 cm m
