-- ===== src/Trigger.antt =====
-- Size-based commit triggers (trigger.go): the bytes that a commit adds, the ledger of a trigger,
-- and the files that hold the ledgers.
pub mod Delta
pub mod Ledger
pub mod Clearing
use sandman.Prelude.{
  Bytes, codes, ℕ, zero, suc, ◌+◌, ◌-◌, ◌*◌, ◌/◌, ◌%◌, Bool, true, false, not, ◌&&◌, ◌||◌, Option,
  none, some, List, [], ◌∷◌, ◌++◌, if◌then◌else◌, eqs, ltb, leb, ◌==◌, has_prefix, trim_suffix,
  drop_prefix,
}
use sandman.Prelude.{is_some}
use sandman.Prelude.Decimal.{digits, atoi}
use sandman.Prelude.Map.{Map, get, put}
use sandman.Prelude.Result.{Result, ok, err}
use sandman.Store.Data.{Error, Commit, ViewEntry, Store, Env}
use sandman.Store.View.{View, entry_size, entry_hash}
use sandman.Store.Files.{resolve_view_by_id}

-- The two digests are compared also where reading failed, as empty strings.
abbrev pub hash_or_empty : Result Error Bytes → Bytes
hash_or_empty (ok h) = h
hash_or_empty (err e) = []

abbrev pub entry_delta : Env → Store → Option ViewEntry → ViewEntry → ℕ
entry_delta env s none f = entry_size f
entry_delta env s (some pf) f =
    if not (eqs (hash_or_empty (entry_hash env s f)) (hash_or_empty (entry_hash env s pf)))
      && ltb (entry_size pf) (entry_size f)
    then entry_size f - entry_size pf
    else 0

-- The loop over the view. Its order does not matter to the sum.
unfoldable pub view_delta : Env → Store → View → View → ℕ
view_delta env s parent [] = 0
view_delta env s parent ((p, f) ∷ v) =
    entry_delta env s (get p parent) f + view_delta env s parent v

abbrev pub view_or_empty : Result Error View → View
view_or_empty (ok v) = v
view_or_empty (err e) = []

abbrev pub parent_of : Store → Bytes → View
parent_of s parent_id =
    if eqs parent_id [] then [] else view_or_empty (resolve_view_by_id s parent_id)

unfoldable pub commit_delta : Env → Store → Commit → ℕ
unfolding view_delta
commit_delta env s cm = elim (resolve_view_by_id s cm.id) [
  | err e ↦ 0
  | ok view ↦ view_delta env s (parent_of s cm.parent_id) view
]

-- The loop of fireTrigger: how often the trigger fires, and what is left in the ledger. Each round
-- takes `size` bytes, at least one, so that `accum` rounds are enough.
unfoldable pub drain : ℕ → ℕ → ℕ → ℕ × ℕ
drain zero size accum = (0, accum)
drain (suc n) size accum =
    let (fires, rest) = drain n size (accum - size) in
    if leb size accum then (suc fires, rest) else (0, accum)

unfoldable pub trigger_branch : Bytes → ℕ → Bytes
unfolding digits
trigger_branch pipeline pos = pipeline ++ codes "-" ++ digits pos

-- The ledger files under triggers/, by their names.
unfoldable pub ledger_name : Bytes → ℕ → Bytes
unfolding trigger_branch
ledger_name pipeline pos = trigger_branch pipeline pos ++ codes ".json"

abbrev pub or_zero : Option ℕ → ℕ
or_zero none = 0
or_zero (some n) = n

abbrev pub load_accum : Map ℕ → Bytes → ℕ → ℕ
load_accum files pipeline pos = or_zero (get (ledger_name pipeline pos) files)

-- fireTrigger under its lock, with the bytes of the commit: the ledger, and the number of firings.
unfoldable pub fire_trigger : Map ℕ → Bytes → ℕ → ℕ → ℕ → Map ℕ × ℕ
unfolding drain ledger_name
fire_trigger files pipeline pos size delta =
    let accum = load_accum files pipeline pos + delta in
    let (fires, rest) = drain accum size accum in (put (ledger_name pipeline pos) rest files, fires)

abbrev pub ledger_rest : Bytes → Bytes
ledger_rest rest = trim_suffix (codes ".json") (trim_suffix (codes ".tmp") rest)

-- Is the file one that clearTriggerLedgers removes?
unfoldable pub is_ledger : Bytes → Bytes → Bool
unfolding atoi
is_ledger pipeline name =
    has_prefix (pipeline ++ codes "-") name
    && is_some (atoi (ledger_rest (drop_prefix (pipeline ++ codes "-") name)))

unfoldable pub clear_trigger_ledgers : Map ℕ → Bytes → Map ℕ
unfolding is_ledger
clear_trigger_ledgers [] pipeline = []
clear_trigger_ledgers ((name, n) ∷ files) pipeline =
    let rest = clear_trigger_ledgers files pipeline in
    if is_ledger pipeline name then rest else (name, n) ∷ rest
