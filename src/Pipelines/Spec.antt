-- ===== src/Pipelines/Spec.antt =====
-- The validation of a declared pipeline (validatePipelineSpec, validateService, validateSecrets and
-- materializeInputDefaults of pipeline.go, validateSpout of spout.go).
pub mod Defaults
use sandman.Prelude.{
  Bytes, codes, ℕ, zero, suc, ◌%◌, Bool, true, false, not, ◌&&◌, ◌||◌, Option, none, some, List, [],
  ◌∷◌, if◌then◌else◌, eqs, ltb, ◌==◌, has_prefix, contains_any,
}
use sandman.Prelude.{is_some}
use sandman.Prelude.Decimal.{Signed, plus, minus}
use sandman.Prelude.Map.{Map}
use sandman.Prelude.Result.{Result, ok, err, Done}
use sandman.Store.Names.{valid_name}
use sandman.Pipelines.Inputs.{InputFields, Input, input, Inputs, no_inputs, one_more, input_branch}
use sandman.Pipelines.Declared.{SecretMount, Transform, Parallelism, Spout, Pipeline}
use sandman.Pipelines.Derive.{has_text}
use sandman.Pipelines.Spelling.{Url, SpecError, is_ident, env_name}
use sandman.Pipelines.Validate.{side_name, validate_input}
use sandman.Pipelines.Customization.{Json, Customization, CustomError, parse_customization}

pub data PipelineError : Type 0 where
  invalid_spec : PipelineError
  name_missing : PipelineError
  invalid_pipeline_name : Bytes → PipelineError
  transform_missing : PipelineError
  no_input_set : PipelineError
  of_input : SpecError → PipelineError
  two_parallelisms : PipelineError
  framework_unsupported : Bytes → PipelineError
  of_customization : CustomError → PipelineError
  service_and_spout : PipelineError
  service_standby : PipelineError
  ports_missing : PipelineError
  service_parallel : PipelineError
  spout_with_input : PipelineError
  invalid_marker : Bytes → PipelineError
  secret_unnamed : ℕ → PipelineError
  secret_unused : Bytes → PipelineError
  secret_outside : Bytes → PipelineError
  secret_without_key : Bytes → PipelineError
  env_not_identifier : Bytes → PipelineError
  env_reserved : Bytes → PipelineError

-- The libraries that the validation calls: url.Parse, and what encoding/json makes of a document.
pub record Decoders : Type 0 where
  pub parse_url : Bytes → Option Url
  pub valid_json : Bytes → Bool
  pub decode_object : Bytes → Option (Map Json)
  pub decode_list : Bytes → Option (List Json)
  pub decode_op : Json → Option (Bytes × (Bytes × Option Json))
  pub decode_custom : Map Json → Option Customization

abbrev pub is_zero_int : Signed → Bool
is_zero_int (plus n) = n == 0
is_zero_int (minus n) = n == 0

-- 0 and -0.
abbrev pub is_zero_float : ℕ → Bool
is_zero_float bits = (bits % 9223372036854775808) == 0

abbrev pub two_mechanisms : Option Parallelism → Bool
two_mechanisms none = false
two_mechanisms (some p) = not (is_zero_int p.constant) && not (is_zero_float p.coefficient)

abbrev pub check_input : Decoders → Bytes → Option Spout → Option Input → Result PipelineError Done
check_input dec name (some s) i = ok tt
check_input dec name none none = err no_input_set
check_input dec name none (some i) = elim (validate_input dec.parse_url name i) [
  | err e ↦ err (of_input e)
  | ok done ↦ ok tt
]

abbrev pub check_rest : Decoders → Pipeline → Transform → Result PipelineError Done
check_rest dec p tr =
    if two_mechanisms p.parallelism
    then err two_parallelisms
    else if not (eqs p.framework [])
    then err (framework_unsupported p.framework)
    else elim (parse_customization dec.valid_json dec.decode_object dec.decode_list dec.decode_op
        dec.decode_custom tr.pod_spec tr.pod_patch) [
          | err e ↦ err (of_customization e)
          | ok c ↦ ok tt
        ]

unfoldable pub validate_pipeline_spec : Decoders → Pipeline → Result PipelineError Done
validate_pipeline_spec dec p =
    if eqs p.name [] && not (is_some p.transform)
    then err invalid_spec
    else if eqs p.name []
    then err name_missing
    else if not (valid_name p.name)
    then err (invalid_pipeline_name p.name)
    else elim p.transform [
      | none ↦ err transform_missing
      | some tr ↦ elim (check_input dec p.name p.spout p.input) [
        | err e ↦ err e
        | ok done ↦ check_rest dec p tr
      ]
    ]

abbrev pub not_above_zero : Signed → Bool
not_above_zero (plus n) = n == 0
not_above_zero (minus n) = true

abbrev pub above_one : Option Parallelism → Bool
above_one none = false
above_one (some p) = elim p.constant [ plus n ↦ ltb 1 n | minus n ↦ false ]

unfoldable pub validate_service : Pipeline → Result PipelineError Done
validate_service p = elim p.service [
  | none ↦ ok tt
  | some s ↦
      if is_some p.spout
      then err service_and_spout
      else if p.standby
      then err service_standby
      else if not_above_zero s.internal_port || not_above_zero s.external_port
      then err ports_missing
      else if above_one p.parallelism
      then err service_parallel
      else ok tt
]

unfoldable pub validate_spout : Pipeline → Result PipelineError Done
validate_spout p = elim p.spout [
  | none ↦ ok tt
  | some s ↦
      if is_some p.input
      then err spout_with_input
      else if contains_any s.marker (codes "*?[]")
      then err (invalid_marker s.marker)
      else ok tt
]

-- reservedEnv
abbrev pub is_reserved : Bytes → Bool
is_reserved v = eqs v (codes "OUT") || (eqs v (codes "JOB_ID") || eqs v (codes "OUTPUT_COMMIT"))

abbrev pub check_secret : ℕ → SecretMount → Result PipelineError Done
check_secret i m =
    if eqs m.name []
    then err (secret_unnamed i)
    else if eqs m.mount_path [] && eqs m.env_var []
    then err (secret_unused m.name)
    else if not (eqs m.mount_path []) && not (has_prefix (codes "/sandman/") m.mount_path)
    then err (secret_outside m.name)
    else if eqs m.env_var []
    then ok tt
    else if eqs m.key []
    then err (secret_without_key m.name)
    else if not (is_ident m.env_var)
    then err (env_not_identifier m.env_var)
    else if is_reserved m.env_var
    then err (env_reserved m.env_var)
    else ok tt

unfoldable pub validate_secrets : ℕ → List SecretMount → Result PipelineError Done
validate_secrets i [] = ok tt
validate_secrets i (m ∷ ms) = elim (check_secret i m) [
  | err e ↦ err e
  | ok done ↦ validate_secrets (suc i) ms
]

-- materializeInputDefaults
abbrev pub with_defaults : InputFields → InputFields
with_defaults f = record f { name = side_name f; branch = input_branch f }

unfoldable mutual
  pub materialize : Input → Input
  materialize (input f cross join group union) =
      input (with_defaults f) (materialize_all cross) (materialize_all join) (materialize_all group)
        (materialize_all union)

  pub materialize_all : Inputs → Inputs
  materialize_all no_inputs = no_inputs
  materialize_all (one_more i is) = one_more (materialize i) (materialize_all is)
