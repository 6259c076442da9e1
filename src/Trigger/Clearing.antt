-- ===== src/Trigger/Clearing.antt =====
-- Which ledgers clearTriggerLedgers removes.
use mathlib.Core.List.{append_assoc, reverse-append}
use sandman.Prelude.{
  Bytes, codes, ℕ, ◌<◌, ◌≡◌, refl, ap, ◌∙◌, true, false, none, [], ◌∷◌, ◌++◌, arith, has_prefix,
  has_suffix, trim_suffix, has_prefix-append, reverse, length-append, take, take-append,
  drop-append, if◌then◌else◌, eqs_iff,
}
use sandman.Prelude.Map.{Map, get}
use sandman.Prelude.{is_some}
use sandman.Prelude.Decimal.{digits, atoi, atoi-digits}
use sandman.Trigger.{ledger_rest, ledger_name, trigger_branch, is_ledger, clear_trigger_ledgers}

trim_suffix-append : (p s : Bytes) → trim_suffix p (s ++ p) ≡ s
unfolding trim_suffix has_suffix
trim_suffix-append p s =
    let e : has_prefix (reverse p) (reverse (s ++ p)) ≡ true =
      ap (has_prefix (reverse p)) (reverse-append s p)
      ∙ has_prefix-append (reverse p) (reverse s) in
    rw e (ap (λ (n : ℕ). take n (s ++ p)) (omega (arith, length-append s p)) ∙ take-append s p)

trim_suffix_other :
    (p q s : Bytes)
    → ((u : Bytes) → has_prefix (reverse p) (reverse q ++ u) ≡ false)
    → trim_suffix p (s ++ q) ≡ s ++ q
unfolding trim_suffix has_suffix
trim_suffix_other p q s h =
    let e : has_prefix (reverse p) (reverse (s ++ q)) ≡ false =
      ap (has_prefix (reverse p)) (reverse-append s q) ∙ h (reverse s) in
    rw e refl

ledger_rest_json : (s : Bytes) → ledger_rest (s ++ codes ".json") ≡ s
unfolding has_prefix
ledger_rest_json s =
    ap (trim_suffix (codes ".json"))
      (trim_suffix_other (codes ".tmp") (codes ".json") s (λ u. refl))
    ∙ trim_suffix-append (codes ".json") s

int_lem :
    (i : ℕ)
    → i < 9223372036854775808
    → (is_some (atoi (digits i)) ≡ true) × (is_some (atoi (45 ∷ digits i)) ≡ true)
int_lem i l = let (p, m) = atoi-digits i l in (ap is_some p, ap is_some m)

is_ledger_lem :
    (p s : Bytes) → is_ledger p ((p ++ codes "-") ++ (s ++ codes ".json")) ≡ is_some (atoi s)
unfolding is_ledger
is_ledger_lem p s =
    rw
      (
        has_prefix-append (p ++ codes "-") (s ++ codes ".json"),
        drop-append (p ++ codes "-") (s ++ codes ".json"),
        ledger_rest_json s,
      )
      refl

get-clear :
    (files : Map ℕ) (pipeline name : Bytes)
    → get name (clear_trigger_ledgers files pipeline)
      ≡ (if is_ledger pipeline name then none else get name files)
unfolding clear_trigger_ledgers get
get-clear [] pipeline name = ground arith
get-clear ((k, n) ∷ files) pipeline name =
    ground (arith, eqs_iff k name, get-clear files pipeline name)

-- clearTriggerLedgers removes every ledger of the pipeline itself, at any position that an int
-- holds, and keeps every file whose name does not begin with the pipeline's name and a '-'.
pub clear_trigger_ledgers_lem :
    (files : Map ℕ) (pipeline : Bytes)
    → ((pos : ℕ)
        → pos < 9223372036854775808
        → get (ledger_name pipeline pos) (clear_trigger_ledgers files pipeline) ≡ none)
      × ((name : Bytes)
          → has_prefix (pipeline ++ codes "-") name ≡ false
          → get name (clear_trigger_ledgers files pipeline) ≡ get name files)
unfolding ledger_name trigger_branch is_ledger
clear_trigger_ledgers_lem files pipeline = (
  λ pos l.
      get-clear files pipeline (ledger_name pipeline pos)
      ∙ rw
          (ap (is_ledger pipeline)
              (append_assoc (pipeline ++ codes "-") (digits pos) (codes ".json"))
            ∙ is_ledger_lem pipeline (digits pos)
            ∙ (int_lem pos l).0)
          refl,
  λ name h. get-clear files pipeline name ∙ ground (arith, h),
)

-- The ledger of another pipeline, whose name is that of `pipeline` with a '-' behind it, is removed
-- with those of `pipeline`, at any position that an int holds.
pub clear_trigger_ledgers_other :
    (files : Map ℕ) (pipeline : Bytes) (pos : ℕ)
    → pos < 9223372036854775808
    → get (ledger_name (pipeline ++ codes "-") pos) (clear_trigger_ledgers files pipeline) ≡ none
unfolding ledger_name trigger_branch
clear_trigger_ledgers_other files pipeline pos l =
    get-clear files pipeline (ledger_name (pipeline ++ codes "-") pos)
    ∙ rw
        (ap (is_ledger pipeline) (
            append_assoc ((pipeline ++ codes "-") ++ codes "-") (digits pos) (codes ".json")
            ∙ append_assoc (pipeline ++ codes "-") (codes "-") (digits pos ++ codes ".json"))
          ∙ is_ledger_lem pipeline (45 ∷ digits pos)
          ∙ (int_lem pos l).1)
        refl
