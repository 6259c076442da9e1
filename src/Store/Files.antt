-- ===== src/Store/Files.antt =====
-- Reading files through the resolved view (store.go, "file access").
use sandman.Prelude.{Bytes, Bool, ◌&&◌, none, some, List, [], ◌∷◌, if◌then◌else◌}
use sandman.Prelude.Map.{get, keys}
use sandman.Prelude.Sort.{sort_by}
use sandman.Prelude.Result.{Result, ok, err, Done}
use sandman.Store.Data.{
  Store, Env, Error, FileInfo, DatumRef, commit_not_found, file_not_found, case_collision,
}
use sandman.Store.Names.{paths_conflict}
use sandman.Store.Records.{load_commit_by_id}
use sandman.Store.View.{View, entry_size, entry_bytes, entry_hash, resolve_view}

unfoldable pub resolve_view_by_id : Store → Bytes → Result Error View
resolve_view_by_id s id = elim (load_commit_by_id s id) [
  | none ↦ err (commit_not_found id)
  | some rec ↦ ok (resolve_view s rec)
]

unfoldable pub file_infos : Env → Store → View → Result Error (List FileInfo)
unfolding entry_hash entry_size
file_infos env s [] = ok []
file_infos env s ((p, e) ∷ v) = elim (entry_hash env s e) [
  | err x ↦ err x
  | ok h ↦ elim (file_infos env s v) [
    | err x ↦ err x
    | ok infos ↦ ok (record { path = p; size = entry_size e; hash = h } ∷ infos)
  ]
]

unfoldable pub list_files : Env → Store → Bytes → Result Error (List FileInfo)
unfolding resolve_view_by_id file_infos sort_by
list_files env s id = elim (resolve_view_by_id s id) [
  | err e ↦ err e
  | ok view ↦ elim (file_infos env s view) [
    | err e ↦ err e
    | ok infos ↦ ok (sort_by (λ f. f.path) infos)
  ]
]

unfoldable pub get_file : Store → Bytes → Bytes → Result Error Bytes
unfolding resolve_view_by_id
get_file s id p = elim (resolve_view_by_id s id) [
  | err e ↦ err e
  | ok view ↦ elim (get p view) [ none ↦ err (file_not_found p) | some e ↦ entry_bytes s e ]
]

-- The files written below `dir` before the error, if any, that ended the loop.
unfoldable pub write_view : Store → View → List (Bytes × Bytes) × Result Error Done
write_view s [] = ([], ok tt)
write_view s ((p, e) ∷ v) = elim (entry_bytes s e) [
  | err x ↦ ([], err x)
  | ok b ↦ let rest = write_view s v in ((p, b) ∷ rest.0, rest.1)
]

-- MaterializeView; `dest_folds` says whether the file system that holds `dir` folds case.
unfoldable pub materialize_view :
    Env → Bool → Store → View → List (Bytes × Bytes) × Result Error Done
unfolding write_view
materialize_view env dest_folds s view =
    if dest_folds && paths_conflict env [] (keys view)
    then ([], err (case_collision []))
    else write_view s view

unfoldable pub materialize_input :
    Env → Bool → Store → Bytes → List (Bytes × Bytes) × Result Error Done
unfolding resolve_view_by_id materialize_view
materialize_input env dest_folds s id = elim (resolve_view_by_id s id) [
  | err e ↦ ([], err e)
  | ok view ↦ materialize_view env dest_folds s view
]

unfoldable pub datum_refs : Env → Store → View → Result Error (List DatumRef)
unfolding entry_hash
datum_refs env s [] = ok []
datum_refs env s ((p, e) ∷ v) = elim (entry_hash env s e) [
  | err x ↦ err x
  | ok h ↦ elim (datum_refs env s v) [
    | err x ↦ err x
    | ok refs ↦ ok (record { path = p; hash = h } ∷ refs)
  ]
]

unfoldable pub view_datums : Env → Store → Bytes → Result Error (List DatumRef)
unfolding resolve_view_by_id datum_refs sort_by
view_datums env s id = elim (resolve_view_by_id s id) [
  | err e ↦ err e
  | ok view ↦ elim (datum_refs env s view) [
    | err e ↦ err e
    | ok refs ↦ ok (sort_by (λ r. r.path) refs)
  ]
]
