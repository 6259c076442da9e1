-- ===== src/Pipelines/Validate/Accepted.antt =====
-- What an accepted input is (validateInputSides).
use sandman.Prelude.{
  Bytes, ◌≡◌, refl, sym, ap, ◌∙◌, Bool, true, false, not, ◌&&◌, Option, none, some, List, [],
  if◌then◌else◌, eqs, arith,
}
use sandman.Prelude.Result.{Result, ok, err, Done}
use sandman.Pipelines.Inputs.{
  GitInput, InputFields, input, Inputs, no_inputs, one_more, is_empty, sides_of,
}
use sandman.Pipelines.Spelling.{Url, SpecError, repo_and_cross, join_and_group}
use sandman.Pipelines.Validate.{
  check_by, check_side, check_shape, end_of, validate_input, validate_sides,
}

-- The sides of an input are accepted where the input is.
pub check_shape_ok :
    (f : InputFields) (cross join group : Inputs) (sides : Result SpecError Done)
    → check_shape f cross join group sides ≡ ok tt
    → sides ≡ ok tt
check_shape_ok f cross join group sides h = ground arith

pub guards_ok :
    (a b : Bool) (e d : SpecError) (r : Result SpecError Done)
    → (if a then err e else if b then err d else r) ≡ ok tt
    → r ≡ ok tt
guards_ok a b e d r h = ground arith

end_of_lem :
    (r : Result SpecError (List Bytes))
    → end_of r ≡ elim r as (λ x. Result SpecError Done) [ ok names' ↦ ok tt | err e ↦ err e ]
end_of_lem (ok names) = refl
end_of_lem (err e) = refl

no_union_nested :
    (parse_url : Bytes → Option Url) (pipeline : Bytes) (names : List Bytes) (f : InputFields)
    (combines : Bool) (r q : Result SpecError Done) (git : Option GitInput)
    → check_by parse_url pipeline names f false combines r git
      ≡ check_by parse_url pipeline names f false combines q git
no_union_nested parse_url pipeline names f combines r q (some g) = refl
no_union_nested parse_url pipeline names f combines r q none = refl

module _ (parse_url : Bytes → Option Url) (pipeline : Bytes) where
  -- The input itself as its only side.
  own_side :
      (f : InputFields)
      → end_of (
          check_side parse_url pipeline []
            (input f no_inputs no_inputs no_inputs no_inputs)
            (ok tt))
        ≡ validate_sides parse_url pipeline []
            (one_more (input f no_inputs no_inputs no_inputs no_inputs) no_inputs)
  unfolding check_side validate_sides
  own_side f =
      let self = input f no_inputs no_inputs no_inputs no_inputs in
      ap end_of (
        no_union_nested parse_url pipeline [] f false (ok tt)
          (validate_input parse_url pipeline self) f.git)
      ∙ end_of_lem (
          check_by parse_url pipeline [] f false false (validate_input parse_url pipeline self)
            f.git)

  pub validate_input_sides :
      (f : InputFields) (cross join group : Inputs)
      → validate_input parse_url pipeline (input f cross join group no_inputs) ≡ ok tt
      → validate_sides parse_url pipeline [] (sides_of (input f cross join group no_inputs)) ≡ ok tt
  unfolding validate_input
  validate_input_sides f (one_more i is) join group h =
      let sides = validate_sides parse_url pipeline [] (one_more i is) in
      check_shape_ok f (one_more i is) join group sides (
        guards_ok (not (eqs f.repo []) && true) (not (is_empty join) && not (is_empty group))
          repo_and_cross join_and_group (check_shape f (one_more i is) join group sides) h)
  validate_input_sides f no_inputs (one_more i is) group h =
      let sides = validate_sides parse_url pipeline [] (one_more i is) in
      check_shape_ok f no_inputs (one_more i is) group sides (
        guards_ok (not (eqs f.repo []) && false) (not (is_empty group)) repo_and_cross
          join_and_group (check_shape f no_inputs (one_more i is) group sides) h)
  validate_input_sides f no_inputs no_inputs (one_more i is) h =
      let sides = validate_sides parse_url pipeline [] (one_more i is) in
      check_shape_ok f no_inputs no_inputs (one_more i is) sides (
        guards_ok (not (eqs f.repo []) && false) false repo_and_cross join_and_group
          (check_shape f no_inputs no_inputs (one_more i is) sides) h)
  validate_input_sides f no_inputs no_inputs no_inputs h =
      let sides = end_of (
        check_side parse_url pipeline [] (input f no_inputs no_inputs no_inputs no_inputs)
          (ok tt)) in
      sym (own_side f)
      ∙ check_shape_ok f no_inputs no_inputs no_inputs sides (
          guards_ok (not (eqs f.repo []) && false) false repo_and_cross join_and_group
            (check_shape f no_inputs no_inputs no_inputs sides) h)
