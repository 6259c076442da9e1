-- ===== src/Store/View.antt =====
-- Resolved views (ViewEntry, ResolveView, pathConflict and ChainFromHead of store.go).
pub mod Replay
pub mod Ancestry
use sandman.Prelude.{
  Bytes, codes, ℕ, zero, suc, ◌+◌, Bool, true, false, Option, none, some, List, [], ◌∷◌, ◌++◌,
  if◌then◌else◌, eqs, has_prefix, length, slash, reverse,
}
use sandman.Prelude.Map.{Map, get, put, remove, keys}
use sandman.Prelude.Sort.{sort}
use sandman.Prelude.Result.{Result, ok, err, Done}
use sandman.Store.Data.{
  FileOp, ViewPart, ViewEntry, CommitRec, Repo, Store, Env, Error, blob_missing,
}
use sandman.Store.Names.{ref_file}
use sandman.Store.Records.{load_commit, read_blob, repo_of}

abbrev pub View : Type 0
View = Map ViewEntry

-- Size(): an overwrite resets the sum.
unfoldable pub size_from : ℕ → List ViewPart → ℕ
size_from n [] = n
size_from n (p ∷ ps) = size_from (if p.overwrite then p.size else n + p.size) ps

unfoldable pub entry_size : ViewEntry → ℕ
unfolding size_from
entry_size e = size_from 0 e.parts

-- Bytes(): an overwrite resets the buffer.
unfoldable pub bytes_from : Store → Bytes → List ViewPart → Result Error Bytes
unfolding read_blob
bytes_from s buf [] = ok buf
bytes_from s buf (p ∷ ps) = elim (read_blob s p.sha) [
  | none ↦ err (blob_missing p.sha)
  | some b ↦ bytes_from s (if p.overwrite then b else buf ++ b) ps
]

unfoldable pub entry_bytes : Store → ViewEntry → Result Error Bytes
unfolding bytes_from
entry_bytes s e = bytes_from s [] e.parts

unfoldable pub entry_hash : Env → Store → ViewEntry → Result Error Bytes
unfolding entry_bytes
entry_hash env s e = elim (entry_bytes s e) [ err x ↦ err x | ok b ↦ ok (env.sha256 b) ]

-- The view's entry at a path that it lacks is the zero value.
abbrev pub parts_of : Option ViewEntry → List ViewPart
parts_of none = []
parts_of (some e) = e.parts

abbrev pub part_of : FileOp → ViewPart
part_of op = record { sha = op.sha; size = op.size; overwrite = op.overwrite }

-- The `switch` of ResolveView.
unfoldable pub apply_op : View → FileOp → View
apply_op v op =
    if op.delete
    then remove op.path v
    else if op.overwrite
    then put op.path (record { parts = part_of op ∷ [] }) v
    else put op.path (record { parts = parts_of (get op.path v) ++ part_of op ∷ [] }) v

unfoldable pub replay : View → List FileOp → View
unfolding apply_op
replay v [] = v
replay v (op ∷ ops) = replay (apply_op v op) ops

-- The first loop of ResolveView: the ancestry, newest first, up to an empty commit. It ends in Go
-- when the ancestry does; the fuel is a bound on its length.
unfoldable pub ancestry : ℕ → Store → CommitRec → List CommitRec
ancestry zero s cur = []
ancestry (suc n) s cur = elim cur.empty [
  | true ↦ []
  | false ↦ elim (eqs cur.parent_id []) [
    | true ↦ cur ∷ []
    | false ↦ elim (load_commit s cur.repo cur.parent_id) [
      | none ↦ cur ∷ []
      | some parent ↦ cur ∷ ancestry n s parent
    ]
  ]
]

-- The second loop: oldest first.
unfoldable pub replay_chain : List CommitRec → View
unfolding replay
replay_chain [] = []
replay_chain (c ∷ older) = replay (replay_chain older) c.ops

-- An ancestry with no loop holds each commit of the repository once, and `rec` itself.
abbrev pub commits_in : Store → Bytes → Map CommitRec
commits_in s repo = (repo_of (get repo s.repos)).commits

unfoldable pub chain_fuel : Store → Bytes → ℕ
chain_fuel s repo = suc (length (commits_in s repo))

unfoldable pub resolve_view : Store → CommitRec → View
unfolding ancestry replay_chain chain_fuel
resolve_view s rec = replay_chain (ancestry (chain_fuel s rec.repo) s rec)

-- The loop of pathConflict over the sorted paths: `""` where no neighbours conflict.
unfoldable pub conflict_in : List Bytes → Bytes
unfolding has_prefix
conflict_in [] = []
conflict_in (p ∷ []) = []
conflict_in (p ∷ q ∷ rest) =
    let on = conflict_in (q ∷ rest) in if has_prefix (p ++ slash ∷ []) q then p else on

unfoldable pub path_conflict : View → Bytes
unfolding conflict_in sort keys
path_conflict v = conflict_in (sort (keys v))

abbrev pub head_at : Store → Bytes → Option Bytes → Bytes
head_at s repo none = []
head_at s repo (some file) = elim (get file (repo_of (get repo s.repos)).refs) [
  | none ↦ []
  | some id ↦ id
]

-- HeadCommit
unfoldable pub head_of : Store → Bytes → Bytes → Bytes
unfolding ref_file get
head_of s repo branch = head_at s repo (ref_file branch)

-- ChainFromHead: newest first, before the reversal.
unfoldable pub chain_back : ℕ → Store → Bytes → Bytes → Bytes → List Bytes
chain_back zero s repo stop_at id = []
chain_back (suc n) s repo stop_at id = elim (eqs id []) [
  | true ↦ []
  | false ↦ elim (eqs id stop_at) [
    | true ↦ []
    | false ↦ elim (load_commit s repo id) [
      | none ↦ id ∷ []
      | some rec ↦ id ∷ chain_back n s repo stop_at rec.parent_id
    ]
  ]
]

unfoldable pub chain_from_head : Store → Bytes → Bytes → Bytes → List Bytes
unfolding chain_back chain_fuel
chain_from_head s repo branch stop_at =
    reverse (chain_back (chain_fuel s repo) s repo stop_at (head_of s repo branch))
