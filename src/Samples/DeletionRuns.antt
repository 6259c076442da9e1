-- ===== src/Samples/DeletionRuns.antt =====
-- The theorems on deleteCommit, run on a commit that a job consumed.
use sandman.Prelude.{
  Bytes, codes, ◌≡◌, ◌↔◌, refl, some, none, All, [], ◌∷◌, eqs, lts, has_prefix, Elem, at_head,
  in_tail,
}
use sandman.Store.Data.{CommitRec}
use sandman.Prelude.Map.{get}
use sandman.Prelude.Sort.{mem}
use sandman.Prelude.Result.{ok}
use sandman.Store.Records.{load_commit, load_commit_by_id, decode}
use sandman.Store.Repos.{list_repos, inspect_repo}
use sandman.Store.Names.{valid_name}
use sandman.Prelude.Sort.{sort_by}
use sandman.Store.View.{resolve_view}
use sandman.Jobs.Deletion.{
  repo_commit_recs, Job, DaemonState, resolve_commit_ref, all_commit_recs, delete_commit,
}
use sandman.Jobs.Deletion.Derived.{IsDerived, the_root, by_job}
use sandman.Jobs.Deletion.Removal.{delete_commit_lem}
use sandman.Jobs.Deletion.Exact.{IsInPlace, IsKept, left, delete_commit-exact}
use sandman.Samples.{plain_env, sample_store, first_id, second_id, first_rec, second_rec}

-- A job that read the first commit and put out the second.
abbrev a_job : Job
a_job = record {
  id = codes "j";
  pipeline = codes "p";
  state = codes "success";
  reason = [];
  input_commits = first_id ∷ [];
  output_commit = second_id;
  started = [];
  finished = [];
  version = 1;
  stats_commit = [];
  processed = 1;
  recovered = 0;
  failed = 0;
  skipped = 0;
}

abbrev a_daemon : DaemonState
a_daemon = record { store = sample_store; jobs = (codes "j", a_job) ∷ []; logs = [] }

first_found : resolve_commit_ref sample_store first_id ≡ ok first_rec
unfolding resolve_commit_ref load_commit_by_id load_commit get has_prefix eqs decode
first_found = refl

second_listed : Elem second_rec (all_commit_recs sample_store)
unfolding all_commit_recs list_repos inspect_repo valid_name repo_commit_recs sort_by get eqs
    load_commit resolve_view lts
second_listed = in_tail at_head

second-IsDerived : IsDerived (a_job ∷ []) first_id second_id
unfolding mem eqs
second-IsDerived = by_job a_job at_head refl the_root

delete_commit_lem_example :
    load_commit (delete_commit plain_env a_daemon first_id).0.store second_rec.repo second_id ≡ none
delete_commit_lem_example =
    delete_commit_lem plain_env a_daemon first_id first_rec second_rec first_found second_listed
      second-IsDerived

all_commit_recs-IsInPlace : All (IsInPlace sample_store) (all_commit_recs sample_store)
unfolding all_commit_recs list_repos inspect_repo valid_name repo_commit_recs sort_by get eqs
    load_commit resolve_view lts decode
all_commit_recs-IsInPlace = (refl, (refl, tt))

delete_commit-exact_example :
    ((cm : CommitRec)
      → Elem cm (all_commit_recs sample_store)
      → (load_commit (left plain_env a_daemon first_id) cm.repo cm.id ≡ none)
        ↔ IsDerived (a_job ∷ []) first_id cm.id)
    × ((r i : Bytes) (x : CommitRec)
        → load_commit sample_store r i ≡ some x
        → ¬ IsDerived (a_job ∷ []) first_id i
        → IsKept (left plain_env a_daemon first_id) r i x)
delete_commit-exact_example =
    delete_commit-exact plain_env a_daemon first_id first_rec first_found all_commit_recs-IsInPlace
