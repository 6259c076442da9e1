-- ===== src/Samples/StoreRuns.antt =====
-- The theorems on the store, run on the sample store.
use sandman.Prelude.{
  Bytes, codes, ◌≡◌, refl, eqs, inl, true, false, some, none, List, [], ◌∷◌, All, length, arith,
  has_prefix,
}
use mathlib.Core.Path.{subst}
use sandman.Prelude.Map.{get, put, keys}
use sandman.Prelude.Order.{IsInOrder}
use sandman.Prelude.Result.{ok, err}
use sandman.Store.Data.{CommitRec, Commit, FileInfo, ViewEntry, Store, file_not_found, write_ref}
use sandman.Store.Records.{load_commit, load_commit_by_id, decode, write_blob, to_commit}
use sandman.Store.Names.{
  valid_branch_name, valid_path, check_commit_case, case_name_collision, valid_name,
}
use sandman.Store.Commits.{open_commit, put_file, overwrite_file, delete_file, start_commit}
use sandman.Store.Commits.Inversion.{IsOpen}
use sandman.Store.Commits.Finish.{finish_commit, set_head, normalize_marker, commit_writes_marker}
use sandman.Store.View.{
  View, entry_bytes, chain_fuel, entry_size, path_conflict, resolve_view, head_of,
}
use sandman.Store.View.Ancestry.{Ancestry, root, child}
use sandman.Store.Files.{get_file, list_files}
use sandman.Store.Invariant.{IsConsistent}
use sandman.Store.Invariant.Listing.{list_files_lem, get_file_readable, Describes, info_paths}
use sandman.Store.RoundTrip.{get_file-overwrite_file, get_file-delete_file}
use sandman.Store.Appends.{get_file-put_file}
use sandman.Store.Steps.{Op, start, append, finish, step, run}
use sandman.Store.Steps.Consistent.{run-IsConsistent}
use sandman.Store.Steps.Frozen.{run-IsFrozen, IsFrozen}
use sandman.Store.Finishing.{finish_commit_lem, finish_commit-slash}
use sandman.Store.Conflicts.{path_conflict_unseen}
use sandman.Samples.{
  plain_env, plain_env-IsInjective, sample_store, sample_store-IsConsistent, first_id, second_id,
  a_path, first_rec, second_rec, data_repo, no_ops, empty_store, empty_store-IsConsistent,
  sample_ops,
}

get_file-overwrite_file_example :
    get_file (overwrite_file plain_env sample_store second_id a_path (codes "y")).0 second_id a_path
    ≡ ok (codes "y")
unfolding overwrite_file valid_path open_commit load_commit_by_id load_commit decode
    check_commit_case write_blob get
get_file-overwrite_file_example =
    get_file-overwrite_file plain_env sample_store second_id a_path (codes "y")
      plain_env-IsInjective sample_store-IsConsistent refl

get_file-delete_file_example :
    get_file (delete_file sample_store second_id a_path).0 second_id a_path
    ≡ err (file_not_found a_path)
unfolding delete_file valid_path open_commit load_commit_by_id load_commit decode get
get_file-delete_file_example =
    get_file-delete_file plain_env sample_store second_id a_path sample_store-IsConsistent refl

second_rec-IsOpen : IsOpen sample_store second_id second_rec
unfolding load_commit_by_id load_commit decode get has_prefix eqs
second_rec-IsOpen = record { found = refl; started = refl; unfinished = refl }

second_rec-Ancestry : Ancestry sample_store second_rec (second_rec ∷ first_rec ∷ [])
unfolding load_commit decode get eqs
second_rec-Ancestry = child refl refl refl (root refl refl)

get_file-put_file_example :
    get_file (put_file plain_env sample_store second_id a_path (codes "y")).0 second_id a_path
    ≡ ok (codes "xy")
unfolding put_file valid_path open_commit load_commit_by_id load_commit decode check_commit_case
    write_blob get get_file chain_fuel resolve_view put entry_bytes
get_file-put_file_example =
    get_file-put_file plain_env sample_store second_id a_path (codes "y") plain_env-IsInjective
      sample_store-IsConsistent second_rec (second_rec ∷ first_rec ∷ []) second_rec-IsOpen
      second_rec-Ancestry (omega arith) (refl, (refl, tt)) refl (codes "x") (inl refl)

run-IsConsistent_example : IsConsistent plain_env (run plain_env empty_store sample_ops)
run-IsConsistent_example =
    run-IsConsistent plain_env plain_env-IsInjective empty_store sample_ops empty_store-IsConsistent

abbrev later_ops : List Op
later_ops =
    append first_id a_path (codes "y")
    ∷ append second_id a_path (codes "y")
    ∷ finish second_id [] false
    ∷ []

run-IsFrozen_example : IsFrozen sample_store (run plain_env sample_store later_ops)
run-IsFrozen_example =
    run-IsFrozen plain_env plain_env-IsInjective sample_store later_ops sample_store-IsConsistent
      (tt, (tt, (tt, tt)))

list_files_lem_example :
    (infos : List FileInfo) × (list_files plain_env sample_store second_id ≡ ok infos)
    × All (Describes plain_env sample_store (resolve_view sample_store second_rec)) infos
    × (info_paths infos ≡ keys (resolve_view sample_store second_rec))
    × IsInOrder (λ (i : FileInfo). i.path) infos
list_files_lem_example =
    list_files_lem plain_env sample_store second_id sample_store-IsConsistent
      second_rec-IsOpen.found

abbrev a_entry : ViewEntry
a_entry = record { parts = record { sha = codes "x"; size = 1; overwrite = false } ∷ [] }

get_file_readable_example :
    (b : Bytes) × (get_file sample_store second_id a_path ≡ ok b) × (length b ≡ entry_size a_entry)
unfolding resolve_view get load_commit decode eqs put
get_file_readable_example =
    get_file_readable plain_env sample_store second_id sample_store-IsConsistent
      second_rec-IsOpen.found a_path a_entry refl

abbrev finished_commit : Commit
finished_commit = to_commit (record second_rec { finished = true })

abbrev finished_store : Store
finished_store = (finish_commit plain_env sample_store second_id [] false).0

finish_commit_lem_example :
    (rec : CommitRec) × (load_commit_by_id finished_store second_id ≡ some rec)
    × (rec.finished ≡ true)
    × (rec.empty ≡ false)
    × (finished_commit ≡ to_commit rec)
    × (head_of finished_store rec.repo rec.branch ≡ second_id)
    × (false ≡ true → (p : Bytes) → get_file finished_store second_id p ≡ err (file_not_found p))
unfolding finish_commit load_commit_by_id load_commit decode get has_prefix eqs set_head
    normalize_marker case_name_collision commit_writes_marker path_conflict resolve_view put keys
    to_commit
finish_commit_lem_example =
    finish_commit_lem plain_env sample_store second_id [] false plain_env-IsInjective
      sample_store-IsConsistent finished_commit refl

-- An open commit on a branch whose name is two levels deep.
abbrev deep_rec : CommitRec
deep_rec = record (no_ops first_id []) { branch = codes "a/b" }

abbrev deep_store : Store
deep_store = record empty_store {
  repos =
      (data_repo, record { commits = (first_id, deep_rec) ∷ []; refs = []; primary = none }) ∷ [];
}

run-deep :
    run plain_env empty_store (start first_id [] data_repo (codes "a/b") [] ∷ []) ≡ deep_store
unfolding run step start_commit valid_name put get eqs head_of
run-deep = refl

deep_rec-IsOpen : IsOpen deep_store first_id deep_rec
unfolding load_commit_by_id load_commit decode get has_prefix eqs
deep_rec-IsOpen = record { found = refl; started = refl; unfinished = refl }

abbrev deep_finished : Store
deep_finished = (finish_commit plain_env deep_store first_id [] false).0

finish_commit-slash_example :
    ((finish_commit plain_env deep_store first_id [] false).1 ≡ err (write_ref (codes "a/b")))
    × (x : CommitRec) × (load_commit_by_id deep_finished first_id ≡ some x)
    × (x.finished ≡ true)
unfolding path_conflict resolve_view load_commit decode get eqs put keys valid_branch_name
finish_commit-slash_example =
    finish_commit-slash plain_env deep_store first_id [] false plain_env-IsInjective
      (subst (IsConsistent plain_env) run-deep (
        run-IsConsistent plain_env plain_env-IsInjective empty_store
          (start first_id [] data_repo (codes "a/b") [] ∷ []) empty_store-IsConsistent))
      deep_rec deep_rec-IsOpen refl (codes "a") (codes "b") refl refl refl refl

abbrev both_view : View
both_view = (codes "a", a_entry) ∷ (codes "a/b", a_entry) ∷ []

path_conflict_unseen_example :
    path_conflict ((codes "a", a_entry) ∷ (codes "a-", a_entry) ∷ (codes "a/b", a_entry) ∷ []) ≡ []
path_conflict_unseen_example =
    path_conflict_unseen (codes "a") [] (codes "b") 45 a_entry a_entry a_entry (omega arith)
