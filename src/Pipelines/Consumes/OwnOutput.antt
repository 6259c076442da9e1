-- ===== src/Pipelines/Consumes/OwnOutput.antt =====
-- A pipeline's own output among its inputs (validateInputSides and inputConsumesRepo).
use mathlib.Core.Path.{subst}
use sandman.Prelude.{
  Bytes, ◌≡◌, ◌⊎◌, refl, Bool, true, false, not, ◌&&◌, ◌||◌, Option, none, some, List, [],
  if◌then◌else◌, Bool-cases, inl, inr, eqs, eqs_iff, arith, is_some,
}
use sandman.Prelude.Result.{Result, ok, err, Done, chain_ok}
use sandman.Pipelines.Inputs.{
  GitInput, InputFields, Input, input, Inputs, no_inputs, one_more, is_empty, fields_of,
}
use sandman.Pipelines.Derive.{has_text}
use sandman.Pipelines.Spelling.{
  Url, SpecError, repo_and_cross, join_and_group, trigger_inside_union,
}
use sandman.Pipelines.Validate.{
  check_by, check_file, check_side, check_shape, check_union, validate_input, validate_members,
  validate_sides, has_size_trigger,
}
use sandman.Pipelines.Validate.Accepted.{validate_input_sides}
use sandman.Pipelines.Consumes.{descends, input_consumes_repo, any_consumes_repo}

-- No cron input and no git input.
abbrev pub is_file : InputFields → Bool
is_file f = not (is_some f.git) && not (has_text f.cron)

unfoldable mutual
  pub only_files : Input → Bool
  only_files (input f cross join group union) =
      is_file f
      && (only_files_in cross
          && (only_files_in join && (only_files_in group && only_files_in union)))

  pub only_files_in : Inputs → Bool
  only_files_in no_inputs = true
  only_files_in (one_more i is) = only_files i && only_files_in is

check_file_repo :
    (pipeline : Bytes) (names : List Bytes) (f : InputFields) (combines : Bool)
    (names' : List Bytes)
    → check_file pipeline names f combines ≡ ok names'
    → has_text f.cron ≡ false
    → (eqs f.repo pipeline ≡ false) × (eqs f.repo [] ≡ false)
check_file_repo pipeline names f combines names' h k = ground arith

check_by_repo :
    (parse_url : Bytes → Option Url) (pipeline : Bytes) (names : List Bytes) (f : InputFields)
    (is_union combines : Bool) (nested : Result SpecError Done) (git : Option GitInput)
    (names' : List Bytes)
    → check_by parse_url pipeline names f is_union combines nested git ≡ ok names'
    → is_some git ≡ false
    → has_text f.cron ≡ false
    → ((is_union ≡ true) × (nested ≡ ok tt))
      ⊎ ((eqs f.repo pipeline ≡ false) × (eqs f.repo [] ≡ false))
check_by_repo parse_url pipeline names f is_union combines nested (some g) names' h n k = cc
check_by_repo parse_url pipeline names f true combines (ok done) none names' h n k =
    inl (refl, refl)
check_by_repo parse_url pipeline names f true combines (err e) none names' h n k = cc
check_by_repo parse_url pipeline names f false combines nested none names' h n k =
    inr (check_file_repo pipeline names f combines names' h k)

check_side_repo :
    (parse_url : Bytes → Option Url) (pipeline : Bytes) (names : List Bytes) (i : Input)
    (nested : Result SpecError Done) (names' : List Bytes)
    → check_side parse_url pipeline names i nested ≡ ok names'
    → only_files i ≡ true
    → (nested ≡ ok tt)
      ⊎ ((eqs (fields_of i).repo pipeline ≡ false) × (eqs (fields_of i).repo [] ≡ false))
unfolding check_side only_files
check_side_repo parse_url pipeline names (input f cross join group union) nested names' h k =
    elim (check_by_repo parse_url pipeline names f (not (is_empty union))
      (not (is_empty join) || not (is_empty group)) nested f.git names' h (ground arith)
      (ground arith)) [ inl e ↦ inl e.1 | inr e ↦ inr e ]

-- An input that combines others has no repository of its own.
shape_repo :
    (f : InputFields) (cross join group : Inputs) (sides : Result SpecError Done)
    → (if not (eqs f.repo []) && not (is_empty cross)
        then err repo_and_cross
        else if not (is_empty join) && not (is_empty group)
        then err join_and_group
        else check_shape f cross join group sides)
      ≡ ok tt
    → is_empty cross && (is_empty join && is_empty group) ≡ false
    → eqs f.repo [] ≡ true
shape_repo f cross join group sides h k = ground arith

union_ok :
    (f : InputFields) (a b combined : Bool) (members : Result SpecError Done)
    → (if not (eqs f.repo []) && a
        then err repo_and_cross
        else if b
        then err join_and_group
        else check_union f combined members)
      ≡ ok tt
    → (eqs f.repo [] ≡ true) × (combined ≡ false) × (members ≡ ok tt)
union_ok f a b combined members h = ground arith

members_ok :
    (b : Bool) (e : SpecError) (first rest : Result SpecError Done)
    → (if b then err e else elim first [ err d ↦ err d | ok done ↦ rest ]) ≡ ok tt
    → (first ≡ ok tt) × (rest ≡ ok tt)
members_ok true e first rest h = cc
members_ok false e (ok done) rest h = (refl, h)
members_ok false e (err d) rest h = cc

any_step :
    (a e d inner rest : Bool)
    → a ≡ false
    → (inner ≡ false) ⊎ (e ≡ false)
    → rest ≡ false
    → (if a then true else if e && (d && inner) then true else rest) ≡ false
any_step a e d inner rest h k l = ground arith

empty_differs :
    (s pipeline : Bytes) → eqs pipeline [] ≡ false → eqs s [] ≡ true → eqs s pipeline ≡ false
empty_differs s pipeline h k = elim (Bool-cases (eqs s pipeline)) [
  | inl e ↦ absurd (
      let d : s ≡ pipeline = (eqs_iff s pipeline).0 e in
      let c : eqs pipeline [] ≡ true = subst (λ (x : Bytes). eqs x [] ≡ true) d k in ground arith)
  | inr e ↦ e
]

own_repo :
    {a b : Bool} {r : Result SpecError Done}
    → ((false ≡ true) × (r ≡ ok tt)) ⊎ ((a ≡ false) × (b ≡ false))
    → a ≡ false
own_repo (inl e) = absurd (ground (arith, e.0))
own_repo (inr e) = e.0

module _ (parse_url : Bytes → Option Url) (pipeline : Bytes) (named : eqs pipeline [] ≡ false) where
  mutual
    unfolding validate_input input_consumes_repo only_files check_side

    own_output :
        (i : Input)
        → validate_input parse_url pipeline i ≡ ok tt
        → only_files i ≡ true
        → (eqs (fields_of i).repo pipeline ≡ false) × (input_consumes_repo i pipeline ≡ false)
    own_output (input f cross join group (one_more i is)) h k =
        let (e, c, m) =
          union_ok f (not (is_empty cross)) (not (is_empty join) && not (is_empty group))
            (not (is_empty cross) || (not (is_empty join) || not (is_empty group)))
            (validate_members parse_url pipeline (one_more i is)) h in
        let rest = own_output_members (one_more i is) m (ground arith) in
        (empty_differs f.repo pipeline named e, ground (arith, c, rest))
    own_output (input f (one_more i is) join group no_inputs) h k =
        let s = validate_input_sides parse_url pipeline f (one_more i is) join group h in
        (
          empty_differs f.repo pipeline named (shape_repo f (one_more i is) join group _ h refl),
          own_output_sides [] (one_more i is) s (ground arith),
        )
    own_output (input f no_inputs (one_more i is) group no_inputs) h k =
        let s = validate_input_sides parse_url pipeline f no_inputs (one_more i is) group h in
        (
          empty_differs f.repo pipeline named
              (shape_repo f no_inputs (one_more i is) group _ h refl),
          own_output_sides [] (one_more i is) s (ground arith),
        )
    own_output (input f no_inputs no_inputs (one_more i is) no_inputs) h k =
        let s = validate_input_sides parse_url pipeline f no_inputs no_inputs (one_more i is) h in
        (
          empty_differs f.repo pipeline named
              (shape_repo f no_inputs no_inputs (one_more i is) _ h refl),
          own_output_sides [] (one_more i is) s (ground arith),
        )
    own_output (input f no_inputs no_inputs no_inputs no_inputs) h k =
        let self = input f no_inputs no_inputs no_inputs no_inputs in
        let (names, e, r) =
          chain_ok (check_side parse_url pipeline [] self (validate_input parse_url pipeline self))
            (λ names. validate_sides parse_url pipeline names no_inputs) tt
            (validate_input_sides parse_url pipeline f no_inputs no_inputs no_inputs h) in
        let differs = own_repo (
          check_by_repo parse_url pipeline [] f false false (validate_input parse_url pipeline self)
            f.git names e (ground arith) (ground arith)) in
        (differs, differs)

    own_output_members :
        (is : Inputs)
        → validate_members parse_url pipeline is ≡ ok tt
        → only_files_in is ≡ true
        → any_consumes_repo is pipeline ≡ false
    own_output_members no_inputs h k = refl
    own_output_members (one_more i is) h k =
        let (first, rest) =
          members_ok (has_size_trigger i) trigger_inside_union (validate_input parse_url pipeline i)
            (validate_members parse_url pipeline is) h in
        let (a, b) = own_output i first (ground arith) in
        any_step (eqs (fields_of i).repo pipeline) (eqs (fields_of i).repo []) (descends i)
          (input_consumes_repo i pipeline) (any_consumes_repo is pipeline) a (inl b)
          (own_output_members is rest (ground arith))

    own_output_sides :
        (names : List Bytes) (is : Inputs)
        → validate_sides parse_url pipeline names is ≡ ok tt
        → only_files_in is ≡ true
        → any_consumes_repo is pipeline ≡ false
    own_output_sides names no_inputs h k = refl
    own_output_sides names (one_more i is) h k =
        let (names', e, r) =
          chain_ok (check_side parse_url pipeline names i (validate_input parse_url pipeline i))
            (λ names'. validate_sides parse_url pipeline names' is) tt h in
        let rest = own_output_sides names' is r (ground arith) in
        let step =
          any_step (eqs (fields_of i).repo pipeline) (eqs (fields_of i).repo []) (descends i)
            (input_consumes_repo i pipeline) (any_consumes_repo is pipeline) in
        elim (check_side_repo parse_url pipeline names i (validate_input parse_url pipeline i)
          names' e (ground arith)) [
            | inl n ↦ let (a, b) = own_output i n (ground arith) in step a (inl b) rest
            | inr (a, b) ↦ step a (inr b) rest
          ]

-- A pipeline with a name whose input is accepted does not read its own output, where the input has
-- no cron side and no git side: deep in unions and in unions within crosses, too.
pub validate_input-own_output :
    (parse_url : Bytes → Option Url) (pipeline : Bytes) (i : Input)
    → eqs pipeline [] ≡ false
    → validate_input parse_url pipeline i ≡ ok tt
    → only_files i ≡ true
    → input_consumes_repo i pipeline ≡ false
validate_input-own_output parse_url pipeline i named h k =
    (own_output parse_url pipeline named i h k).1
