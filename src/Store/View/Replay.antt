-- ===== src/Store/View/Replay.antt =====
-- A view path by path: the operations on one path.
use sandman.Prelude.{
  Bytes, ◌≡◌, refl, Option, none, some, List, [], ◌∷◌, ◌++◌, arith, if◌then◌else◌, eqs, eqs_iff,
}
use sandman.Prelude.Map.{get, get-put, get-remove}
use sandman.Store.Data.{FileOp, ViewEntry, CommitRec}
use sandman.Store.View.{View, parts_of, part_of, apply_op, replay, replay_chain}

-- One operation as it is seen at one path.
unfoldable pub path_op : Bytes → Option ViewEntry → FileOp → Option ViewEntry
path_op p e op =
    if eqs op.path p
    then (if op.delete
        then none
        else if op.overwrite
        then some (record { parts = part_of op ∷ [] })
        else some (record { parts = parts_of e ++ part_of op ∷ [] }))
    else e

unfoldable pub path_replay : Bytes → Option ViewEntry → List FileOp → Option ViewEntry
unfolding path_op
path_replay p e [] = e
path_replay p e (op ∷ ops) = path_replay p (path_op p e op) ops

unfoldable pub path_chain : Bytes → List CommitRec → Option ViewEntry
unfolding path_replay
path_chain p [] = none
path_chain p (c ∷ older) = path_replay p (path_chain p older) c.ops

get-apply_op : (p : Bytes) (v : View) (op : FileOp) → get p (apply_op v op) ≡ path_op p (get p v) op
unfolding apply_op path_op
get-apply_op p v op = ground (
  arith,
  eqs_iff op.path p,
  get-remove op.path p v,
  get-put op.path p (record { parts = part_of op ∷ [] }) v,
  get-put op.path p (record { parts = parts_of (get op.path v) ++ part_of op ∷ [] }) v,
)

pub get-replay :
    (p : Bytes) (v : View) (ops : List FileOp) → get p (replay v ops) ≡ path_replay p (get p v) ops
unfolding replay path_replay
get-replay p v [] = refl
get-replay p v (op ∷ ops) = rw (get-replay p (apply_op v op) ops, get-apply_op p v op) refl

-- What a replayed ancestry holds at a path depends only on the operations on that path: looking
-- the path up in the view is folding those operations over it, from the oldest commit on.
pub get-replay_chain : (p : Bytes) (cs : List CommitRec) → get p (replay_chain cs) ≡ path_chain p cs
unfolding replay_chain path_chain get
get-replay_chain p [] = refl
get-replay_chain p (c ∷ older) =
    rw (get-replay p (replay_chain older) c.ops, get-replay_chain p older) refl

pub path_replay-append :
    (p : Bytes) (e : Option ViewEntry) (ops rest : List FileOp)
    → path_replay p e (ops ++ rest) ≡ path_replay p (path_replay p e ops) rest
unfolding path_replay
path_replay-append p e [] rest = refl
path_replay-append p e (op ∷ ops) rest = path_replay-append p (path_op p e op) ops rest

pub replay-append :
    (v : View) (ops rest : List FileOp) → replay v (ops ++ rest) ≡ replay (replay v ops) rest
unfolding replay
replay-append v [] rest = refl
replay-append v (op ∷ ops) rest = replay-append (apply_op v op) ops rest
