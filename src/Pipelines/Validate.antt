-- ===== src/Pipelines/Validate.antt =====
-- What an input must satisfy (validateInputSides and hasSizeTrigger of pipeline.go).
pub mod Sides
pub mod Accepted
use sandman.Prelude.{
  Bytes, codes, Bool, true, false, not, ◌&&◌, ◌||◌, Option, none, some, List, [], ◌∷◌,
  if◌then◌else◌, eqs,
}
use sandman.Prelude.Sort.{mem}
use sandman.Prelude.Result.{Result, ok, err, Done}
use sandman.Pipelines.Inputs.{
  GitInput, InputFields, Input, input, Inputs, no_inputs, one_more, is_empty, has_positive,
}
use sandman.Pipelines.Derive.{or_else, has_text, git_repo_name}
use sandman.Pipelines.Spelling.{
  Url, SpecError, repo_and_cross, join_and_group, union_combined, union_unnamed, invalid_union_name,
  trigger_on_union, trigger_inside_union, namespaces_not_distinct, repo_and_join, repo_and_group,
  cross_with_selector, invalid_join_on, invalid_group_by, not_identifier, name_used_twice, no_name,
  named_out, no_repo_given, no_glob_given, own_output, nested_combiner, is_ident, env_name,
  validate_git_url, valid_capture_selector,
}

unfoldable mutual
  pub has_size_trigger : Input → Bool
  has_size_trigger (input f cross join group union) =
      has_positive f.trigger || (any_size_trigger cross || any_size_trigger union)

  pub any_size_trigger : Inputs → Bool
  any_size_trigger no_inputs = false
  any_size_trigger (one_more i is) = has_size_trigger i || any_size_trigger is

-- The namespace of a cross's member.
abbrev pub namespace_of : InputFields → Bytes
namespace_of f = or_else (or_else f.name f.repo) (codes "input")

abbrev pub distinct_namespaces : List Bytes → Inputs → Bool
distinct_namespaces ns no_inputs = true
distinct_namespaces ns (one_more (input f cross join group union) is) =
    if mem (namespace_of f) ns then false else distinct_namespaces (namespace_of f ∷ ns) is

-- One pass of the loop over the sides: the names in use with that of the side.
abbrev pub take_name : List Bytes → Bytes → Result SpecError (List Bytes)
take_name names name =
    if not (is_ident name)
    then err (not_identifier name)
    else if mem name names
    then err (name_used_twice name)
    else ok (name ∷ names)

abbrev pub git_env_name : InputFields → GitInput → Bytes
git_env_name f g = or_else f.name (env_name (git_repo_name g.url))

abbrev pub side_name : InputFields → Bytes
side_name f = or_else f.name (env_name f.repo)

abbrev pub check_git :
    (Bytes → Option Url) → List Bytes → InputFields → GitInput → Result SpecError (List Bytes)
check_git parse_url names f g = elim (validate_git_url parse_url g.url) [
  | err e ↦ err e
  | ok done ↦ take_name names (git_env_name f g)
]

-- The last checks of a side with a repository, behind its name.
abbrev pub check_last : Bytes → InputFields → Bool → List Bytes → Result SpecError (List Bytes)
check_last pipeline f combines names =
    if eqs f.repo pipeline
    then err own_output
    else if combines && (has_text f.join_on || has_text f.group_by)
    then err nested_combiner
    else ok names

abbrev pub check_file : Bytes → List Bytes → InputFields → Bool → Result SpecError (List Bytes)
check_file pipeline names f combines =
    if eqs (side_name f) []
    then err no_name
    else if eqs (side_name f) (codes "out")
    then err named_out
    else if has_text f.cron
    then take_name names (side_name f)
    else if eqs f.repo []
    then err no_repo_given
    else if eqs f.glob []
    then err no_glob_given
    else elim (take_name names (side_name f)) [
      | err e ↦ err e
      | ok names' ↦ check_last pipeline f combines names'
    ]

-- A side, with what the validation of a union that stands there returned.
abbrev pub check_by :
    (Bytes → Option Url)
    → Bytes
    → List Bytes
    → InputFields
    → Bool
    → Bool
    → Result SpecError Done
    → Option GitInput
    → Result SpecError (List Bytes)
check_by parse_url pipeline names f is_union combines nested (some g) =
    check_git parse_url names f g
check_by parse_url pipeline names f is_union combines nested none =
    if is_union
    then elim nested [ err e ↦ err e | ok done ↦ ok names ]
    else check_file pipeline names f combines

unfoldable pub check_side :
    (Bytes → Option Url)
    → Bytes
    → List Bytes
    → Input
    → Result SpecError Done
    → Result SpecError (List Bytes)
check_side parse_url pipeline names (input f cross join group union) nested =
    check_by parse_url pipeline names f (not (is_empty union))
      (not (is_empty join) || not (is_empty group)) nested f.git

abbrev pub end_of : Result SpecError (List Bytes) → Result SpecError Done
end_of (ok names) = ok tt
end_of (err e) = err e

-- The checks of a union, before those of its members.
abbrev pub check_union : InputFields → Bool → Result SpecError Done → Result SpecError Done
check_union f combined members =
    if not (eqs f.repo []) || combined
    then err union_combined
    else if eqs f.name []
    then err union_unnamed
    else if not (is_ident f.name) || eqs f.name (codes "out")
    then err (invalid_union_name f.name)
    else if has_positive f.trigger
    then err trigger_on_union
    else members

-- The checks of a selector.
abbrev pub check_selectors : InputFields → Result SpecError Done → Result SpecError Done
check_selectors f sides =
    if has_text f.join_on && not (valid_capture_selector f.join_on)
    then err (invalid_join_on f.join_on)
    else if has_text f.group_by && not (valid_capture_selector f.group_by)
    then err (invalid_group_by f.group_by)
    else sides

-- The checks of an input that is no union, before those of its sides.
abbrev pub check_shape :
    InputFields → Inputs → Inputs → Inputs → Result SpecError Done → Result SpecError Done
check_shape f cross join group sides =
    if not (distinct_namespaces [] cross)
    then err namespaces_not_distinct
    else if not (is_empty join) && not (eqs f.repo [])
    then err repo_and_join
    else if not (is_empty group) && not (eqs f.repo [])
    then err repo_and_group
    else if not (is_empty cross) && (has_text f.join_on || has_text f.group_by)
    then err cross_with_selector
    else check_selectors f sides

-- validateInputSides. A union's members stand apart from the sides of another input.
module _ (parse_url : Bytes → Option Url) (pipeline : Bytes) where
  unfoldable mutual
    pub validate_input : Input → Result SpecError Done
    validate_input (input f cross join group union) =
        let members = validate_members union in
        let of_cross = validate_sides [] cross in
        let of_join = validate_sides [] join in
        let of_group = validate_sides [] group in
        let own = end_of (
          check_side parse_url pipeline [] (input f no_inputs no_inputs no_inputs no_inputs)
            (ok tt)) in
        let sides =
          if not (is_empty cross)
          then of_cross
          else if not (is_empty join)
          then of_join
          else if not (is_empty group)
          then of_group
          else own in
        if not (eqs f.repo []) && not (is_empty cross)
        then err repo_and_cross
        else if not (is_empty join) && not (is_empty group)
        then err join_and_group
        else if not (is_empty union)
        then check_union f (not (is_empty cross) || (not (is_empty join) || not (is_empty group)))
            members
        else check_shape f cross join group sides

    pub validate_members : Inputs → Result SpecError Done
    validate_members no_inputs = ok tt
    validate_members (one_more i is) =
        let first = validate_input i in
        let rest = validate_members is in
        if has_size_trigger i
        then err trigger_inside_union
        else elim first [ err e ↦ err e | ok done ↦ rest ]

    pub validate_sides : List Bytes → Inputs → Result SpecError Done
    validate_sides names no_inputs = ok tt
    validate_sides names (one_more i is) =
        elim (check_side parse_url pipeline names i (validate_input i)) [
          | err e ↦ err e
          | ok names' ↦ validate_sides names' is
        ]
