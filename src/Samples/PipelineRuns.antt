-- ===== src/Samples/PipelineRuns.antt =====
-- The theorems on the inputs of pipelines, run on a cross of a plain side, a cron side and a union.
use sandman.Prelude.{Bytes, codes, ◌≡◌, refl, false, Option, none, some, [], eqs}
use sandman.Prelude.Decimal.{plus}
use sandman.Prelude.Unique.{IsUnique}
use sandman.Prelude.Sort.{mem}
use sandman.Pipelines.Inputs.{InputFields, Input, input, no_inputs, one_more}
use sandman.Pipelines.Inputs.Nodes.{nodes_of}
use sandman.Pipelines.Derive.{derive_trigger_branches}
use sandman.Pipelines.Derive.Triggers.{trigger_sides, derive_trigger_branches-IsUnique}
use sandman.Pipelines.Spelling.{Url, is_ident, env_name, env_name_from}
use sandman.Pipelines.Validate.{validate_input, check_side, has_size_trigger}
use sandman.Pipelines.Consumes.{input_consumes_repo, pipeline_consumes}
use sandman.Pipelines.Consumes.OwnOutput.{only_files, validate_input-own_output}
use sandman.Pipelines.Spec.{materialize}
use sandman.Pipelines.Spec.Defaults.{materialize_lem}

abbrev blank : InputFields
blank = record {
  name = [];
  repo = [];
  glob = [];
  branch = [];
  join_on = [];
  outer = false;
  group_by = [];
  cron = [];
  overwrite = false;
  git = none;
  trigger = none;
  lazy = false;
}

abbrev leaf : InputFields → Input
leaf f = input f no_inputs no_inputs no_inputs no_inputs

abbrev file_side : Bytes → Input
file_side repo = leaf (record blank { repo = repo; glob = codes "/*" })

abbrev triggered : Bytes → Input
triggered repo = leaf (record blank {
  repo = repo;
  glob = codes "/*";
  trigger = some (record { size_bytes = plus 10; branch = [] });
})

abbrev union_side : Input
union_side =
    input (record blank { name = codes "u" }) no_inputs no_inputs no_inputs
      (one_more (file_side (codes "c")) (one_more (file_side (codes "d")) no_inputs))

abbrev two_sides : Input
two_sides =
    input blank (one_more (file_side (codes "a")) (one_more union_side no_inputs)) no_inputs
      no_inputs no_inputs

abbrev two_triggers : Option Input
two_triggers = some (
    input blank (one_more (triggered (codes "a")) (one_more (triggered (codes "b")) no_inputs))
      no_inputs no_inputs no_inputs)

abbrev no_url : Bytes → Option Url
no_url u = none

validate_input-own_output_example : input_consumes_repo two_sides (codes "p") ≡ false
unfolding validate_input is_ident env_name eqs mem check_side has_size_trigger env_name_from
    only_files
validate_input-own_output_example =
    validate_input-own_output no_url (codes "p") two_sides refl refl refl

derive_trigger_branches-IsUnique_example :
    IsUnique (trigger_sides (nodes_of (derive_trigger_branches (codes "p") two_triggers)))
derive_trigger_branches-IsUnique_example = derive_trigger_branches-IsUnique (codes "p") two_triggers

materialize_lem_example :
    (pipeline_consumes (materialize two_sides) (codes "d") (codes "master")
      ≡ pipeline_consumes two_sides (codes "d") (codes "master"))
    × (materialize (materialize two_sides) ≡ materialize two_sides)
materialize_lem_example = materialize_lem two_sides (codes "d") (codes "master")
