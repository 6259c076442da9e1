-- ===== src/Pipelines/Spec/Defaults.antt =====
-- The defaults that a stored input carries (materializeInputDefaults).
use sandman.Prelude.{Bytes, ◌≡◌, refl, ap, eqs, arith}
use sandman.Pipelines.Inputs.{
  InputFields, Input, input, Inputs, no_inputs, one_more, is_empty, fields_of, input_branch,
}
use sandman.Pipelines.Derive.{or_else}
use sandman.Pipelines.Spelling.{env_name}
use sandman.Pipelines.Consumes.{descends, pipeline_consumes, any_consumes}
use sandman.Pipelines.Spec.{with_defaults, materialize, materialize_all}

input_branch_again : (f : InputFields) → input_branch (with_defaults f) ≡ input_branch f
unfolding input_branch eqs
input_branch_again f = ground arith

name_again : (s t : Bytes) → or_else (or_else s t) t ≡ or_else s t
unfolding eqs
name_again s t = ground arith

with_defaults_again : (f : InputFields) → with_defaults (with_defaults f) ≡ with_defaults f
with_defaults_again f =
    let g = with_defaults f in
    λ i. record g { name = name_again f.name (env_name f.repo) i; branch = input_branch_again f i }

mutual
  unfolding materialize

  materialize-materialize : (i : Input) → materialize (materialize i) ≡ materialize i
  materialize-materialize (input f cross join group union) =
      rw
        (
          materialize_all_again cross,
          materialize_all_again join,
          materialize_all_again group,
          materialize_all_again union,
        )
        (ap
          (λ (g : InputFields).
            input g (materialize_all cross) (materialize_all join) (materialize_all group)
              (materialize_all union))
          (with_defaults_again f))

  materialize_all_again : (is : Inputs) → materialize_all (materialize_all is) ≡ materialize_all is
  materialize_all_again no_inputs = refl
  materialize_all_again (one_more i is) =
      rw (materialize-materialize i, materialize_all_again is) refl

is_empty-materialize_all : (is : Inputs) → is_empty (materialize_all is) ≡ is_empty is
unfolding materialize
is_empty-materialize_all no_inputs = refl
is_empty-materialize_all (one_more i is) = refl

repo-materialize : (i : Input) → (fields_of (materialize i)).repo ≡ (fields_of i).repo
unfolding materialize
repo-materialize (input f cross join group union) = refl

branch-materialize :
    (i : Input) → input_branch (fields_of (materialize i)) ≡ input_branch (fields_of i)
unfolding materialize
branch-materialize (input f cross join group union) = input_branch_again f

descends-materialize : (i : Input) → descends (materialize i) ≡ descends i
unfolding materialize
descends-materialize (input f cross join group union) =
    rw (is_empty-materialize_all cross, is_empty-materialize_all union) refl

module _ (repo branch : Bytes) where
  mutual
    unfolding materialize pipeline_consumes

    consumes-materialize :
        (i : Input)
        → pipeline_consumes (materialize i) repo branch ≡ pipeline_consumes i repo branch
    consumes-materialize (input f cross join group union) =
        rw
          (
            is_empty-materialize_all cross,
            is_empty-materialize_all join,
            is_empty-materialize_all group,
            is_empty-materialize_all union,
            any_consumes-materialize cross,
            any_consumes-materialize join,
            any_consumes-materialize group,
            any_consumes-materialize union,
            input_branch_again f,
          )
          refl

    any_consumes-materialize :
        (is : Inputs) → any_consumes (materialize_all is) repo branch ≡ any_consumes is repo branch
    any_consumes-materialize no_inputs = refl
    any_consumes-materialize (one_more i is) =
        rw
          (
            repo-materialize i,
            branch-materialize i,
            descends-materialize i,
            consumes-materialize i,
            any_consumes-materialize is,
          )
          refl

-- The stored input, with its defaults written out, reads the same repositories and branches as the
-- declared one, and storing it again changes nothing.
pub materialize_lem :
    (i : Input) (repo branch : Bytes)
    → (pipeline_consumes (materialize i) repo branch ≡ pipeline_consumes i repo branch)
      × (materialize (materialize i) ≡ materialize i)
materialize_lem i repo branch = (consumes-materialize repo branch i, materialize-materialize i)
