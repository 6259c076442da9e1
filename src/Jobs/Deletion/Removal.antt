-- ===== src/Jobs/Deletion/Removal.antt =====
-- The records that deleteCommit leaves.
use sandman.Prelude.{
  Bytes, ◌≡◌, refl, ap, ◌∙◌, inl, inr, true, false, ◌&&◌, ◌||◌, none, List, [], ◌∷◌, if◌then◌else◌,
  if_cases, eqs, eqs_iff, eqs_refl, Bool-cases, Option-cases, Elem, at_head, in_tail, All, arith,
}
use sandman.Prelude.Map.{Map, get, remove, get-put, get-remove}
use sandman.Prelude.Sort.{mem}
use sandman.Prelude.Result.{ok}
use sandman.Store.Data.{Store, Env, CommitRec}
use sandman.Store.Records.{load_commit, save_commit, commits_of, decoded}
use sandman.Store.Records.Saved.{load_commit-save_ne}
use sandman.Store.Commits.Finish.{set_head}
use sandman.Store.Commits.Bulk.{load_commit-set_head}
use sandman.Jobs.Deletion.{
  Job, HeadFix, DaemonState, job_list, deletion_set, resolve_commit_ref, all_commit_recs,
  remove_record, remove_records, save_all, remove_ref, apply_heads, parent_fixes, head_fixes,
  remove_jobs, repaired, hits, delete_commit,
}
use sandman.Jobs.Deletion.Derived.{IsDerived, deletion_set_lem}

module _ (s : Store) (repo id : Bytes) where
  commits-remove_record :
      (r : Bytes)
      → commits_of (remove_record s repo id) r
        ≡ (if eqs repo r then remove id (commits_of s repo) else commits_of s r)
  unfolding remove
  commits-remove_record r = elim (Option-cases (get repo s.repos)) [
    | inl e ↦ ground (arith, e, eqs_iff repo r)
    | inr (x, e) ↦ ground (
      arith,
      e,
      eqs_iff repo r,
      get-put repo r (record x { commits = remove id x.commits }) s.repos,
    )
  ]

  pub load_commit-remove_record :
      (r i : Bytes)
      → load_commit (remove_record s repo id) r i
        ≡ (if eqs repo r && eqs id i then none else load_commit s r i)
  unfolding load_commit
  load_commit-remove_record r i =
      ap (λ (m : Map CommitRec). decoded (get i m)) (commits-remove_record r)
      ∙ ground (arith, eqs_iff repo r, get-remove id i (commits_of s repo))

-- No record under the id `i` in the repository `r`.
abbrev pub IsGone : Store → Bytes → Bytes → Type 0
IsGone s r i = load_commit s r i ≡ none

remove_records-IsGone :
    (deleted : List Bytes) (cms : List CommitRec) (r i : Bytes) (s : Store)
    → IsGone s r i
    → IsGone (remove_records s deleted cms) r i
unfolding remove_records
remove_records-IsGone deleted [] r i s g = g
remove_records-IsGone deleted (cm ∷ cms) r i s g =
    remove_records-IsGone deleted cms r i
      (if mem cm.id deleted then remove_record s cm.repo cm.id else s)
      (if_cases (λ t. IsGone t r i) (mem cm.id deleted)
        (load_commit-remove_record s cm.repo cm.id r i ∙ ground (arith, g)) g)

remove_records_lem :
    (deleted : List Bytes) (cm : CommitRec) (cms : List CommitRec) (s : Store)
    → Elem cm cms
    → mem cm.id deleted ≡ true
    → IsGone (remove_records s deleted cms) cm.repo cm.id
unfolding remove_records
remove_records_lem deleted cm [] s e d = elim e [ ]
remove_records_lem deleted cm (c ∷ cms) s at_head d =
    remove_records-IsGone deleted cms cm.repo cm.id
      (if mem cm.id deleted then remove_record s cm.repo cm.id else s)
      (rw d (
        load_commit-remove_record s cm.repo cm.id cm.repo cm.id
        ∙ rw (eqs_refl cm.repo, eqs_refl cm.id) refl))
remove_records_lem deleted cm (c ∷ cms) s (in_tail e) d =
    remove_records_lem deleted cm cms (if mem c.id deleted then remove_record s c.repo c.id else s)
      e d

-- The repaired records survive.
parent_fixes_lem :
    (s : Store) (deleted : List Bytes) (cms : List CommitRec)
    → All (λ (cm : CommitRec). mem cm.id deleted ≡ false) (parent_fixes s deleted cms)
unfolding parent_fixes
parent_fixes_lem s deleted [] = tt
parent_fixes_lem s deleted (cm ∷ cms) =
    let rest = parent_fixes_lem s deleted cms in
    elim (Bool-cases (mem cm.id deleted)) [
      | inl b ↦ rw b rest
      | inr b ↦
          if_cases (All (λ (c : CommitRec). mem c.id deleted ≡ false))
            (mem cm.id deleted || eqs cm.parent_id []) rest
            (if_cases (All (λ (c : CommitRec). mem c.id deleted ≡ false)) (mem cm.parent_id deleted)
              (b, rest) rest)
    ]

save_all-IsGone :
    (deleted : List Bytes) (cms : List CommitRec) (r i : Bytes) (s : Store)
    → All (λ (cm : CommitRec). mem cm.id deleted ≡ false) cms
    → mem i deleted ≡ true
    → IsGone s r i
    → IsGone (save_all s cms) r i
unfolding save_all
save_all-IsGone deleted [] r i s a d g = g
save_all-IsGone deleted (cm ∷ cms) r i s a d g =
    save_all-IsGone deleted cms r i (save_commit s cm) a.1 d
      (load_commit-save_ne s cm r i other ∙ g)
  where
    other : (eqs cm.repo r && eqs cm.id i) ≡ false
    other = elim (Bool-cases (eqs cm.id i)) [
      | inl e ↦
          absurd (let z : mem i deleted ≡ false = rw⁻¹ ((eqs_iff cm.id i).0 e) a.0 in ground arith)
      | inr e ↦ rw e (ground arith)
    ]

load_commit-remove_ref :
    (s : Store) (repo branch r i : Bytes)
    → load_commit (remove_ref s repo branch) r i ≡ load_commit s r i
unfolding load_commit remove
load_commit-remove_ref s repo branch r i =
    ap (λ (m : Map CommitRec). decoded (get i m))
      (elim (Option-cases (get repo s.repos)) [
        | inl e ↦ ground (arith, e)
        | inr (x, e) ↦ ground (
          arith,
          e,
          eqs_iff repo r,
          get-put repo r (record x { refs = remove branch x.refs }) s.repos,
        )
      ])

pub apply_heads_lem :
    (env : Env) (fixes : List HeadFix) (r i : Bytes) (s : Store)
    → load_commit (apply_heads env s fixes) r i ≡ load_commit s r i
unfolding apply_heads
apply_heads_lem env [] r i s = refl
apply_heads_lem env (fx ∷ fixes) r i s =
    apply_heads_lem env fixes r i (
      if eqs fx.new_head []
      then remove_ref s fx.repo fx.branch
      else (set_head env s fx.repo fx.branch fx.new_head).0)
    ∙ if_cases (λ t. load_commit t r i ≡ load_commit s r i) (eqs fx.new_head [])
        (load_commit-remove_ref s fx.repo fx.branch r i)
        (load_commit-set_head env s fx.repo fx.branch fx.new_head r i)

store-remove_jobs :
    (deleted : List Bytes) (js : List Job) (d : DaemonState)
    → (remove_jobs d deleted js).store ≡ d.store
unfolding remove_jobs
store-remove_jobs deleted [] d = refl
store-remove_jobs deleted (j ∷ js) d =
    store-remove_jobs deleted js (
      if hits deleted j.input_commits
      then record d { jobs = remove j.id d.jobs; logs = remove j.id d.logs }
      else d)
    ∙ if_cases (λ (x : DaemonState). x.store ≡ d.store) (hits deleted j.input_commits) refl refl

pub store-delete_commit :
    (env : Env) (d : DaemonState) (ref : Bytes) (rec : CommitRec)
    → resolve_commit_ref d.store ref ≡ ok rec
    → (delete_commit env d ref).0.store
      ≡ repaired env d.store (deletion_set (job_list d.jobs) rec.id)
unfolding delete_commit
store-delete_commit env d ref rec e =
    let deleted = deletion_set (job_list d.jobs) rec.id in
    rw (delete_commit, e)
      (ap (λ (s : Store). repaired env s deleted) (store-remove_jobs deleted (job_list d.jobs) d))

-- After deleteCommit of a reference that resolves, no commit derived from the commit has a record
-- any more: neither the commit nor an output of a job that consumed a removed one.
pub delete_commit_lem :
    (env : Env) (d : DaemonState) (ref : Bytes) (rec cm : CommitRec)
    → resolve_commit_ref d.store ref ≡ ok rec
    → Elem cm (all_commit_recs d.store)
    → IsDerived (job_list d.jobs) rec.id cm.id
    → load_commit (delete_commit env d ref).0.store cm.repo cm.id ≡ none
unfolding repaired
delete_commit_lem env d ref rec cm e m h =
    let deleted = deletion_set (job_list d.jobs) rec.id in
    let k = (deletion_set_lem (job_list d.jobs) rec.id cm.id).1 h in
    let s = d.store in
    ap (λ (t : Store). load_commit t cm.repo cm.id) (store-delete_commit env d ref rec e)
    ∙ (apply_heads_lem env (head_fixes s deleted s.repos) cm.repo cm.id (
          save_all (remove_records s deleted (all_commit_recs s))
            (parent_fixes s deleted (all_commit_recs s)))
        ∙ save_all-IsGone deleted (parent_fixes s deleted (all_commit_recs s)) cm.repo cm.id
            (remove_records s deleted (all_commit_recs s))
            (parent_fixes_lem s deleted (all_commit_recs s)) k
            (remove_records_lem deleted cm (all_commit_recs s) s m k))
