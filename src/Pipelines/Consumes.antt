-- ===== src/Pipelines/Consumes.antt =====
-- Which repositories and branches an input reads, and the heads that its sides pair
-- (pipelineConsumes, inputConsumesRepo, finishedHead and pairHeads of jobs.go).
pub mod OwnOutput
use sandman.Prelude.{
  Bytes, Bool, true, false, not, ◌&&◌, ◌||◌, Option, none, some, List, [], ◌∷◌, if◌then◌else◌, eqs,
}
use sandman.Prelude.Result.{Result, ok, err}
use sandman.Store.Data.{Store, Commit}
use sandman.Pipelines.Inputs.{
  InputFields, Input, input, Inputs, no_inputs, one_more, is_empty, fields_of, input_branch,
  input_sides,
}

-- Has a side members that the walk descends into?
abbrev pub descends : Input → Bool
descends (input f cross join group union) = not (is_empty cross) || not (is_empty union)

unfoldable mutual
  pub input_consumes_repo : Input → Bytes → Bool
  input_consumes_repo (input f cross join group union) repo =
      let of_cross = any_consumes_repo cross repo in
      let of_join = any_consumes_repo join repo in
      let of_group = any_consumes_repo group repo in
      let of_union = any_consumes_repo union repo in
      if not (is_empty cross)
      then of_cross
      else if not (is_empty join)
      then of_join
      else if not (is_empty group)
      then of_group
      else if not (is_empty union)
      then of_union
      else eqs f.repo repo

  pub any_consumes_repo : Inputs → Bytes → Bool
  any_consumes_repo no_inputs repo = false
  any_consumes_repo (one_more i is) repo =
      let inner = input_consumes_repo i repo in
      let rest = any_consumes_repo is repo in
      if eqs (fields_of i).repo repo
      then true
      else if eqs (fields_of i).repo [] && (descends i && inner)
      then true
      else rest

abbrev pub reads : InputFields → Bytes → Bytes → Bool
reads f repo branch = eqs f.repo repo && eqs (input_branch f) branch

unfoldable mutual
  pub pipeline_consumes : Input → Bytes → Bytes → Bool
  pipeline_consumes (input f cross join group union) repo branch =
      let of_cross = any_consumes cross repo branch in
      let of_join = any_consumes join repo branch in
      let of_group = any_consumes group repo branch in
      let of_union = any_consumes union repo branch in
      if not (is_empty cross)
      then of_cross
      else if not (is_empty join)
      then of_join
      else if not (is_empty group)
      then of_group
      else if not (is_empty union)
      then of_union
      else not (eqs f.repo []) && reads f repo branch

  pub any_consumes : Inputs → Bytes → Bytes → Bool
  any_consumes no_inputs repo branch = false
  any_consumes (one_more i is) repo branch =
      let inner = pipeline_consumes i repo branch in
      let rest = any_consumes is repo branch in
      if not (eqs (fields_of i).repo [])
      then (if reads (fields_of i) repo branch then true else rest)
      else if descends i && inner
      then true
      else rest
