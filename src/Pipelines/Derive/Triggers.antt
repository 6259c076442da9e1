-- ===== src/Pipelines/Derive/Triggers.antt =====
-- The accumulation branches of an input's size triggers (deriveTriggerBranches).
use mathlib.Core.List.{append_cancel_left}
use sandman.Prelude.{
  Bytes, codes, ℕ, suc, ◌<◌, ◌≡◌, refl, ap, true, false, Option, none, some, List, [], ◌∷◌, ◌++◌,
  if◌then◌else◌, eqs, eqs-false, arith, ◌⊎◌, inl, inr, Bool-cases,
}
use sandman.Prelude.Decimal.{digits, digits_inj}
use sandman.Prelude.Sort.{mem}
use sandman.Prelude.Unique.{IsUnique}
use sandman.Trigger.{trigger_branch}
use sandman.Pipelines.Inputs.{InputFields, Input, Trigger, has_positive, input_branch}
use sandman.Pipelines.Inputs.Nodes.{nodes_of, visit_all, nodes_of-walk_inputs}
use sandman.Pipelines.Inputs.Again.{walk_inputs_again}
use sandman.Pipelines.Derive.{visit_trigger, accumulate, or_else, derive_trigger_branches}

trigger_branch_inj : (p : Bytes) (i j : ℕ) → trigger_branch p i ≡ trigger_branch p j → i ≡ j
unfolding trigger_branch
trigger_branch_inj p i j h =
    digits_inj i j (append_cancel_left (p ++ codes "-") (digits i) (digits j) h)

-- What a visit does: the position moves on, and a trigger's node gets the branch of its position.
visit_trigger_lem :
    (p : Bytes) (j : ℕ) (f : InputFields)
    → ((visit_trigger p j f).0 ≡ suc j)
      × (((has_positive (visit_trigger p j f).1.trigger ≡ true)
            × ((visit_trigger p j f).1.branch ≡ trigger_branch p j))
          ⊎ (has_positive (visit_trigger p j f).1.trigger ≡ false))
visit_trigger_lem p j f = ground arith

-- The branches that the nodes with a size trigger read.
abbrev pub trigger_sides : List InputFields → List Bytes
trigger_sides [] = []
trigger_sides (f ∷ fs) =
    let rest = trigger_sides fs in if has_positive f.trigger then f.branch ∷ rest else rest

distinct : (p : Bytes) (i j : ℕ) → i < j → eqs (trigger_branch p j) (trigger_branch p i) ≡ false
distinct p i j h =
    eqs-false (trigger_branch p j) (trigger_branch p i)
      (λ e. let k = trigger_branch_inj p j i e in omega arith)

-- No node behind a position has the branch of an earlier one.
fresh :
    (p : Bytes) (i j : ℕ) (fs : List InputFields)
    → i < j
    → mem (trigger_branch p i) (trigger_sides (visit_all (visit_trigger p) j fs).1) ≡ false
unfolding mem
fresh p i j [] h = refl
fresh p i j (f ∷ fs) h =
    let (e, c) = visit_trigger_lem p j f in
    let rest : mem (trigger_branch p i)
          (trigger_sides (visit_all (visit_trigger p) (visit_trigger p j f).0 fs).1)
        ≡ false =
      rw e (fresh p i (suc j) fs (omega arith)) in
    elim c [ inl (t, b) ↦ rw (t, b) (ground (arith, rest, distinct p i j h)) | inr t ↦ rw t rest ]

unique :
    (p : Bytes) (i : ℕ) (fs : List InputFields)
    → IsUnique (trigger_sides (visit_all (visit_trigger p) i fs).1)
unique p i [] = tt
unique p i (f ∷ fs) =
    let (e, c) = visit_trigger_lem p i f in
    let rest : IsUnique (trigger_sides (visit_all (visit_trigger p) (visit_trigger p i f).0 fs).1) =
      rw e (unique p (suc i) fs) in
    elim c [
      | inl (t, b) ↦ rw (t, b, e) (fresh p i (suc i) fs (omega arith), unique p (suc i) fs)
      | inr t ↦ rw t rest
    ]

-- The accumulation branches of one pipeline are different: no two triggers of its input, at
-- whatever depth they stand, accumulate on the same branch.
pub derive_trigger_branches-IsUnique :
    (p : Bytes) (i : Option Input)
    → IsUnique (trigger_sides (nodes_of (derive_trigger_branches p i)))
unfolding derive_trigger_branches
derive_trigger_branches-IsUnique p i =
    rw (nodes_of-walk_inputs (visit_trigger p) 0 i) (unique p 0 (nodes_of i))

or_else_again : (s t u : Bytes) → eqs t [] ≡ false → or_else (or_else s t) u ≡ or_else s t
or_else_again s t u h = ground arith

input_branch-nonempty : (f : InputFields) → eqs (input_branch f) [] ≡ false
unfolding input_branch eqs
input_branch-nonempty f = ground arith

module _ (p : Bytes) (j : ℕ) (f : InputFields) where
  visit_some :
      (t : Trigger)
      → visit_trigger p j (visit_trigger p j (record f { trigger = some t })).1
        ≡ visit_trigger p j (record f { trigger = some t })
  visit_some t = elim (Bool-cases (has_positive (some t))) [
    | inl e ↦
        rw (e, e)
          (let g = record f { trigger = some t } in
            ap
              (λ (b : Bytes). (
                suc j,
                record g { trigger = some (record t { branch = b }); branch = trigger_branch p j },
              ))
              (or_else_again t.branch (input_branch g) (input_branch (accumulate p j g t))
                (input_branch-nonempty g)))
    | inr e ↦ rw (e, e) refl
  ]

  visit_with :
      (t : Option Trigger)
      → visit_trigger p j (visit_trigger p j (record f { trigger = t })).1
        ≡ visit_trigger p j (record f { trigger = t })
  visit_with none = refl
  visit_with (some t) = visit_some t

-- The derivation of a derived input changes nothing: every trigger keeps the branch that it
-- watches, and every accumulation branch stays.
pub derive_trigger_branches_again :
    (p : Bytes) (i : Option Input)
    → derive_trigger_branches p (derive_trigger_branches p i) ≡ derive_trigger_branches p i
unfolding derive_trigger_branches
derive_trigger_branches_again p i =
    ap (λ (r : ℕ × Option Input). r.1)
      (walk_inputs_again (visit_trigger p) (λ j f. visit_with p j f f.trigger) 0 i)
