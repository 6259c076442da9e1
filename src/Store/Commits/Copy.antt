-- ===== src/Store/Commits/Copy.antt =====
-- CopyFile: a file, or the files below a directory, into an open commit.
use sandman.Prelude.{
  Bytes, Bool, false, not, ◌&&◌, Option, none, some, List, [], ◌∷◌, ◌++◌, if◌then◌else◌, has_prefix,
  has_suffix, drop_prefix, slash, is_some,
}
use sandman.Prelude.Map.{get, keys}
use sandman.Prelude.Result.{Result, ok, err, Done}
use sandman.Store.Data.{
  FileOp, ViewEntry, CommitRec, Store, Env, Error, invalid_path, path_not_found, path_exists,
  commit_not_found,
}
use sandman.Store.Names.{valid_path, check_paths_case}
use sandman.Store.Records.{save_commit, write_blob, load_commit_by_id}
use sandman.Store.View.{View, entry_size, entry_bytes, resolve_view}
use sandman.Store.Commits.{open_commit}

pub record Move : Type 0 where
  pub src : Bytes
  pub dst : Bytes

-- The paths of the source view below `prefix`.
unfoldable pub moves_below : Bytes → Bytes → List Bytes → List Move
unfolding has_prefix
moves_below prefix dst_path [] = []
moves_below prefix dst_path (p ∷ ps) =
    let rest = moves_below prefix dst_path ps in
    if has_prefix prefix p
    then record { src = p; dst = dst_path ++ slash ∷ drop_prefix prefix p } ∷ rest
    else rest

unfoldable pub moves_of : View → Bytes → Bytes → List Move
unfolding moves_below has_suffix
moves_of src_view src_path dst_path =
    if is_some (get src_path src_view) && not (has_suffix (slash ∷ []) src_path)
    then record { src = src_path; dst = dst_path } ∷ []
    else moves_below (src_path ++ slash ∷ []) dst_path (keys src_view)

abbrev pub dst_paths : List Move → List Bytes
dst_paths [] = []
dst_paths (m ∷ ms) = m.dst ∷ dst_paths ms

-- The first destination that the view holds already.
unfoldable pub first_existing : View → List Move → Option Bytes
first_existing view [] = none
first_existing view (m ∷ ms) =
    let rest = first_existing view ms in if is_some (get m.dst view) then some m.dst else rest

abbrev pub entry_or_zero : Option ViewEntry → ViewEntry
entry_or_zero none = record { parts = [] }
entry_or_zero (some e) = e

unfoldable pub copy_moves :
    Env → Store → View → Bool → List Move → Store × Result Error (List FileOp)
copy_moves env s src_view overwrite [] = (s, ok [])
copy_moves env s src_view overwrite (m ∷ ms) =
    let e = entry_or_zero (get m.src src_view) in
    elim (entry_bytes s e) [
      | err x ↦ (s, err x)
      | ok b ↦
          let w = write_blob env s b in
          let op : FileOp = record {
            path = m.dst;
            sha = w.1;
            size = entry_size e;
            overwrite = overwrite;
            delete = false;
          } in
          let r = copy_moves env w.0 src_view overwrite ms in
          elim (r.1) [ err x ↦ (r.0, err x) | ok ops ↦ (r.0, ok (op ∷ ops)) ]
    ]

abbrev pub existing : Bool → View → List Move → Option Bytes
existing overwrite view ms = if overwrite then none else first_existing view ms

-- The part after the moves are found.
unfoldable pub copy_all :
    Env → Store → CommitRec → View → Bool → List Move → Store × Result Error Done
unfolding first_existing copy_moves
copy_all env s dst_rec src_view overwrite moves =
    let dst_view = resolve_view s dst_rec in
    elim (check_paths_case env (keys dst_view) (dst_paths moves)) [
      | some e ↦ (s, err e)
      | none ↦ elim (existing overwrite dst_view moves) [
        | some p ↦ (s, err (path_exists p))
        | none ↦
            let r = copy_moves env s src_view overwrite moves in
            elim (r.1) [
              | err e ↦ (r.0, err e)
              | ok ops ↦ (save_commit r.0 (record dst_rec { ops = dst_rec.ops ++ ops }), ok tt)
            ]
      ]
    ]

-- No move at all means that the source path is not there.
unfoldable pub copy_found :
    Env → Store → CommitRec → View → Bytes → Bool → List Move → Store × Result Error Done
unfolding copy_all
copy_found env s dst_rec src_view src_path overwrite [] = (s, err (path_not_found src_path))
copy_found env s dst_rec src_view src_path overwrite (m ∷ ms) =
    copy_all env s dst_rec src_view overwrite (m ∷ ms)

-- The part after both commits are found.
unfoldable pub copy_into :
    Env → Store → CommitRec → View → Bytes → Bytes → Bool → Store × Result Error Done
unfolding moves_of copy_found
copy_into env s dst_rec src_view dst_path src_path overwrite =
    copy_found env s dst_rec src_view src_path overwrite (moves_of src_view src_path dst_path)

unfoldable pub copy_file :
    Env → Store → Bytes → Bytes → Bytes → Bytes → Bool → Store × Result Error Done
unfolding copy_into
copy_file env s dst_id dst_path src_id src_path overwrite =
    if not (valid_path dst_path)
    then (s, err (invalid_path dst_path))
    else elim (open_commit s dst_id) [
      | err e ↦ (s, err e)
      | ok dst_rec ↦ elim (load_commit_by_id s src_id) [
        | none ↦ (s, err (commit_not_found src_id))
        | some src_rec ↦
            copy_into env s dst_rec (resolve_view s src_rec) dst_path src_path overwrite
      ]
    ]
