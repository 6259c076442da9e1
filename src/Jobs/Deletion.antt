-- ===== src/Jobs/Deletion.antt =====
-- deleteCommit with resolveCommitRef and the listing of commit records (jobs.go). Jobs are kept by
-- their id, and those in flight that consumed a removed commit are taken to have been cancelled and
-- to have settled.
pub mod Derived
pub mod Removal
pub mod Exact
use sandman.Prelude.{
  Bytes, codes, ℕ, zero, suc, Bool, true, false, not, ◌&&◌, ◌||◌, Option, none, some, List, [], ◌∷◌,
  ◌++◌, length, if◌then◌else◌, ◌==◌, eqs, has_prefix,
}
use sandman.Prelude.Map.{Map, get, put, remove}
use sandman.Prelude.Sort.{mem}
use sandman.Prelude.Result.{Result, ok, err, Done}
use sandman.Store.Data.{Store, Env, Error, CommitRec, Repo, RepoInfo, commit_not_found}
use sandman.Store.Names.{is_commit_id}
use sandman.Store.Records.{load_commit, load_commit_by_id, save_commit, spec_repo}
use sandman.Store.View.{chain_fuel}
use sandman.Store.Commits.Finish.{set_head}
use sandman.Store.Repos.{head_commit_rec, head_commit, list_repos}

-- client.Job of a listing that is not full, which leaves the pipeline's specification out.
pub record Job : Type 0 where
  pub id : Bytes
  pub pipeline : Bytes
  pub state : Bytes
  pub reason : Bytes
  pub input_commits : List Bytes
  pub output_commit : Bytes
  pub started : Bytes
  pub finished : Bytes
  pub version : ℕ
  pub stats_commit : Bytes
  pub processed : ℕ
  pub recovered : ℕ
  pub failed : ℕ
  pub skipped : ℕ

abbrev pub outputs_at : Map (List Bytes) → Bytes → List Bytes
outputs_at m k = elim (get k m) [ none ↦ [] | some l ↦ l ]

-- byInput: the outputs of the jobs by their inputs.
unfoldable pub add_inputs : List Bytes → Bytes → Map (List Bytes) → Map (List Bytes)
unfolding get put
add_inputs [] out m = m
add_inputs (ic ∷ ics) out m = add_inputs ics out (put ic (outputs_at m ic ++ out ∷ []) m)

unfoldable pub by_input : List Job → Map (List Bytes) → Map (List Bytes)
unfolding add_inputs
by_input [] m = m
by_input (j ∷ js) m = by_input js (add_inputs j.input_commits j.output_commit m)

-- The outputs of one commit are marked, and the new ones pushed on the stack `queue`.
unfoldable pub visit : List Bytes → List Bytes → List Bytes → List Bytes × List Bytes
unfolding mem
visit [] deleted queue = (deleted, queue)
visit (out ∷ outs) deleted queue =
    visit outs (if mem out deleted then deleted else out ∷ deleted)
      (if mem out deleted then queue else out ∷ queue)

unfoldable pub close_over : ℕ → Map (List Bytes) → List Bytes → List Bytes → List Bytes
unfolding visit get
close_over zero m deleted queue = deleted
close_over (suc k) m deleted [] = deleted
close_over (suc k) m deleted (cur ∷ queue) =
    let next = visit (outputs_at m cur) deleted queue in close_over k m next.0 next.1

-- A commit is pushed once, when it is marked; but for the first one it is a job's output.
unfoldable pub deletion_set : List Job → Bytes → List Bytes
unfolding close_over by_input
deletion_set jobs id = close_over (suc (length jobs)) (by_input jobs []) (id ∷ []) (id ∷ [])

-- strings.Cut(ref, "@")
unfoldable pub cut_ref : Bytes → Bytes → Option (Bytes × Bytes)
cut_ref acc [] = none
cut_ref acc (c ∷ s) =
    let rest = cut_ref (acc ++ c ∷ []) s in if c == 64 then some (acc, s) else rest

abbrev pub commit_by_id : Store → Bytes → Result Error CommitRec
commit_by_id s id = elim (load_commit_by_id s id) [
  | none ↦ err (commit_not_found id)
  | some rec ↦ ok rec
]

abbrev pub branch_commit : Store → Bytes → Bytes → Result Error CommitRec
branch_commit s repo branch = elim (head_commit_rec s repo branch) [
  | err e ↦ err e
  | ok head ↦ commit_by_id s head.id
]

unfoldable pub resolve_commit_ref : Store → Bytes → Result Error CommitRec
unfolding cut_ref load_commit_by_id head_commit_rec is_commit_id
resolve_commit_ref s ref = elim (cut_ref [] ref) [
  | none ↦ commit_by_id s ref
  | some (repo, branch) ↦
      if is_commit_id branch
      then elim (load_commit_by_id s branch) [
        | none ↦ branch_commit s repo branch
        | some rec ↦ if eqs rec.repo repo then ok rec else branch_commit s repo branch
      ]
      else branch_commit s repo branch
]

abbrev pub values : Map CommitRec → List CommitRec
values [] = []
values ((i, rec) ∷ m) = rec ∷ values m

-- The records as they are on disk, without the conversion of legacy ones.
unfoldable pub repo_commit_recs : Store → Bytes → List CommitRec
unfolding get
repo_commit_recs s repo = elim (get repo s.repos) [ none ↦ [] | some r ↦ values r.commits ]

abbrev pub listed_recs : Store → List RepoInfo → List CommitRec
listed_recs s [] = []
listed_recs s (r ∷ rs) = repo_commit_recs s r.name ++ listed_recs s rs

unfoldable pub all_commit_recs : Store → List CommitRec
unfolding repo_commit_recs list_repos
all_commit_recs s = listed_recs s (list_repos s) ++ repo_commit_recs s spec_repo

-- The nearest commit on the way back from `cur` that is not removed, or `""`.
unfoldable pub survivor : ℕ → Store → Bytes → List Bytes → Bytes → Bytes
unfolding mem load_commit
survivor zero s repo deleted cur = []
survivor (suc k) s repo deleted cur = elim (load_commit s repo cur) [
  | none ↦ if eqs cur [] || mem cur deleted then [] else cur
  | some rec ↦
      let rest = survivor k s repo deleted rec.parent_id in
      if eqs cur [] then [] else if not (mem cur deleted) then cur else rest
]

pub record HeadFix : Type 0 where
  pub repo : Bytes
  pub branch : Bytes
  pub new_head : Bytes

unfoldable pub ref_fixes : Store → List Bytes → Bytes → Map Bytes → List HeadFix
unfolding survivor chain_fuel head_commit mem
ref_fixes s deleted repo [] = []
ref_fixes s deleted repo ((branch, id) ∷ refs) =
    let head = head_commit s repo branch in
    let rest = ref_fixes s deleted repo refs in
    if eqs head [] || not (mem head deleted)
    then rest
    else record {
      repo = repo;
      branch = branch;
      new_head = survivor (chain_fuel s repo) s repo deleted head;
    }
      ∷ rest

unfoldable pub head_fixes : Store → List Bytes → Map Repo → List HeadFix
unfolding ref_fixes
head_fixes s deleted [] = []
head_fixes s deleted ((name, r) ∷ rs) =
    let rest = head_fixes s deleted rs in
    if has_prefix (codes ".") name then rest else ref_fixes s deleted name r.refs ++ rest

-- The surviving records whose parent is removed, with the parent that they get.
unfoldable pub parent_fixes : Store → List Bytes → List CommitRec → List CommitRec
unfolding survivor chain_fuel mem
parent_fixes s deleted [] = []
parent_fixes s deleted (cm ∷ cms) =
    let rest = parent_fixes s deleted cms in
    if mem cm.id deleted || eqs cm.parent_id []
    then rest
    else if mem cm.parent_id deleted
    then record cm { parent_id = survivor (chain_fuel s cm.repo) s cm.repo deleted cm.parent_id }
      ∷ rest
    else rest

abbrev pub remove_record : Store → Bytes → Bytes → Store
remove_record s repo id = elim (get repo s.repos) [
  | none ↦ s
  | some r ↦ record s { repos = put repo (record r { commits = remove id r.commits }) s.repos }
]

unfoldable pub remove_records : Store → List Bytes → List CommitRec → Store
unfolding get put remove mem
remove_records s deleted [] = s
remove_records s deleted (cm ∷ cms) =
    remove_records (if mem cm.id deleted then remove_record s cm.repo cm.id else s) deleted cms

unfoldable pub save_all : Store → List CommitRec → Store
unfolding save_commit
save_all s [] = s
save_all s (cm ∷ cms) = save_all (save_commit s cm) cms

abbrev pub remove_ref : Store → Bytes → Bytes → Store
remove_ref s repo branch = elim (get repo s.repos) [
  | none ↦ s
  | some r ↦ record s { repos = put repo (record r { refs = remove branch r.refs }) s.repos }
]

-- An error of SetHead is ignored.
unfoldable pub apply_heads : Env → Store → List HeadFix → Store
unfolding set_head get put remove
apply_heads env s [] = s
apply_heads env s (fx ∷ fixes) =
    apply_heads env
      (if eqs fx.new_head []
        then remove_ref s fx.repo fx.branch
        else (set_head env s fx.repo fx.branch fx.new_head).0)
      fixes

abbrev pub hits : List Bytes → List Bytes → Bool
hits deleted [] = false
hits deleted (ic ∷ ics) = mem ic deleted || hits deleted ics

pub record DaemonState : Type 0 where
  pub store : Store
  pub jobs : Map Job
  pub logs : Map Bytes

abbrev pub job_list : Map Job → List Job
job_list [] = []
job_list ((i, j) ∷ m) = j ∷ job_list m

unfoldable pub remove_jobs : DaemonState → List Bytes → List Job → DaemonState
unfolding remove mem
remove_jobs d deleted [] = d
remove_jobs d deleted (j ∷ js) =
    remove_jobs
      (if hits deleted j.input_commits
        then record d { jobs = remove j.id d.jobs; logs = remove j.id d.logs }
        else d)
      deleted js

-- The store that deleteCommit leaves: the records go, then parents and heads are repaired as they
-- were computed before.
unfoldable pub repaired : Env → Store → List Bytes → Store
unfolding head_fixes parent_fixes all_commit_recs remove_records save_all apply_heads
repaired env s deleted =
    apply_heads env
      (save_all (remove_records s deleted (all_commit_recs s))
        (parent_fixes s deleted (all_commit_recs s)))
      (head_fixes s deleted s.repos)

unfoldable pub delete_commit : Env → DaemonState → Bytes → DaemonState × Result Error Done
unfolding resolve_commit_ref deletion_set remove_jobs repaired
delete_commit env d ref = elim (resolve_commit_ref d.store ref) [
  | err e ↦ (d, err e)
  | ok rec ↦
      let deleted = deletion_set (job_list d.jobs) rec.id in
      let left = remove_jobs d deleted (job_list d.jobs) in
      (record left { store = repaired env left.store deleted }, ok tt)
]
