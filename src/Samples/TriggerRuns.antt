-- ===== src/Samples/TriggerRuns.antt =====
-- The theorems on the triggers, run on small ledgers and on the sample store.
use sandman.Prelude.{
  codes, ℕ, ◌+◌, ◌*◌, ◌<◌, ◌≡◌, refl, none, [], ◌∷◌, ◌++◌, arith, eqs, has_prefix,
}
use sandman.Prelude.Map.{get, Map}
use sandman.Store.Records.{load_commit, load_commit_by_id, decode, to_commit}
use sandman.Store.View.{resolve_view}
use sandman.Trigger.{load_accum, ledger_name, clear_trigger_ledgers, commit_delta, parent_of}
use sandman.Trigger.Ledger.{fire_all, fire_all_lem, sum}
use sandman.Trigger.Clearing.{clear_trigger_ledgers_other}
use sandman.Trigger.Delta.{growth, commit_delta_lem}
use sandman.Samples.{
  plain_env, plain_env-IsInjective, sample_store, sample_store-IsConsistent, first_rec,
}

abbrev files : Map ℕ
files = []

fire_all_lem_example :
    ((fire_all files (codes "p") 0 10 (25 ∷ 7 ∷ [])).1 * 10
        + load_accum (fire_all files (codes "p") 0 10 (25 ∷ 7 ∷ [])).0 (codes "p") 0
      ≡ load_accum files (codes "p") 0 + sum (25 ∷ 7 ∷ []))
    × (load_accum (fire_all files (codes "p") 0 10 (25 ∷ 7 ∷ [])).0 (codes "p") 0 < 10)
unfolding get
fire_all_lem_example = fire_all_lem (codes "p") 0 10 files (25 ∷ 7 ∷ []) (omega arith)

abbrev two_files : Map ℕ
two_files = (codes "p--1.json", 4) ∷ (codes "p-0.json", 3) ∷ (codes "q-0.json", 5) ∷ []

clear_trigger_ledgers_other_example :
    get (ledger_name (codes "p" ++ codes "-") 1) (clear_trigger_ledgers two_files (codes "p"))
    ≡ none
clear_trigger_ledgers_other_example =
    clear_trigger_ledgers_other two_files (codes "p") 1 (omega arith)

commit_delta_lem_example :
    commit_delta plain_env sample_store (to_commit first_rec)
    ≡ growth
        (parent_of sample_store (to_commit first_rec).parent_id)
        (resolve_view sample_store first_rec)
unfolding load_commit_by_id load_commit decode get has_prefix eqs to_commit
commit_delta_lem_example =
    commit_delta_lem plain_env plain_env-IsInjective sample_store sample_store-IsConsistent
      (to_commit first_rec) refl
