-- ===== src/Store/Commits/Finish.antt =====
-- FinishCommit with the branch ref that it moves (SetHead).
use sandman.Prelude.{
  Bytes, codes, Bool, true, false, not, ◌||◌, Option, none, some, List, [], ◌∷◌, ◌++◌,
  if◌then◌else◌, eqs, length,
}
use sandman.Prelude.Map.{get, put, keys}
use sandman.Prelude.Result.{Result, ok, err, Done}
use sandman.Store.Data.{
  FileOp, CommitRec, Store, Env, Error, Commit, commit_not_found, not_open, already_finished,
  type_conflict, write_ref,
}
use sandman.Store.Names.{case_name_collision, ref_file}
use sandman.Store.Records.{
  repo_of, overwrite_op, save_commit, write_blob, load_commit_by_id, to_commit,
}
use sandman.Store.View.{View, entry_bytes, resolve_view, path_conflict}

abbrev pub marker : Bytes
marker = codes ".git/HEAD"

abbrev pub primary_or : Option Bytes → Bytes → Option Bytes
primary_or none b = some b
primary_or (some p) b = some p

unfoldable pub set_head : Env → Store → Bytes → Bytes → Bytes → Store × Result Error Done
unfolding ref_file
set_head env s repo branch id =
    let r = repo_of (get repo s.repos) in
    let made = record s { repos = put repo r s.repos } in
    elim (case_name_collision env (keys r.refs) branch) [
      | some e ↦ (made, err e)
      | none ↦ elim (ref_file branch) [
        | none ↦ (made, err (write_ref branch))
        | some file ↦ (
          record s {
            repos =
                put repo
                  (record r { refs = put file id r.refs; primary = primary_or r.primary branch })
                  s.repos;
          },
          ok tt,
        )
      ]
    ]

unfoldable pub commit_writes_marker : List FileOp → Bool
commit_writes_marker [] = false
commit_writes_marker (op ∷ ops) = eqs op.path marker || commit_writes_marker ops

-- The digest under which the commit's own id is stored, where an inherited marker names another.
unfoldable pub normalize_marker : Env → Store → View → CommitRec → Store × CommitRec
normalize_marker env s view rec =
    if commit_writes_marker rec.ops then (s, rec) else elim (get marker view) [
      | none ↦ (s, rec)
      | some e ↦ elim (entry_bytes s e) [
        | err x ↦ (s, rec)
        | ok b ↦
            if eqs b rec.id
            then (s, rec)
            else (let w = write_blob env s rec.id in
                (w.0, record rec { ops = rec.ops ++ overwrite_op marker w.1 (length rec.id) ∷ [] }))
      ]
    ]

abbrev pub described : CommitRec → Bytes → CommitRec
described rec description =
    if eqs description [] then rec else record rec { description = description }

abbrev pub report : CommitRec → Store × Result Error Done → Store × Result Error Commit
report rec (s, ok _) = (s, ok (to_commit rec))
report rec (s, err e) = (s, err e)

-- The part after the checks of the commit's own state. The broadcast onFinish changes nothing here.
unfoldable pub close_commit : Env → Store → CommitRec → Bool → Store × Result Error Commit
close_commit env s rec empty =
    let view = resolve_view s rec in
    let n = normalize_marker env s view rec in
    let conflict = path_conflict view in
    let closed = record (n.1) { empty = empty; finished = true } in
    if not (eqs conflict [])
    then (n.0, err (type_conflict conflict))
    else report closed (set_head env (save_commit n.0 closed) closed.repo closed.branch closed.id)

unfoldable pub finish_commit : Env → Store → Bytes → Bytes → Bool → Store × Result Error Commit
unfolding close_commit
finish_commit env s id description empty = elim (load_commit_by_id s id) [
  | none ↦ (s, err (commit_not_found id))
  | some rec ↦
      if not rec.started
      then (s, err (not_open id))
      else if rec.finished
      then (s, err (already_finished id))
      else close_commit env s (described rec description) empty
]
