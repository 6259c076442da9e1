-- ===== src/Pipelines/Inputs/Again.antt =====
-- A walk over an input that the walk has been over (walkInputs).
use sandman.Prelude.{◌≡◌, refl, Option, none, some}
use sandman.Pipelines.Inputs.{
  InputFields, Input, input, Inputs, no_inputs, one_more, walk, walk_all, walk_inputs,
}

module _ {ℓ} {S : Type ℓ} (visit : S → InputFields → S × InputFields)
    (again : (s : S) (f : InputFields) → visit s (visit s f).1 ≡ visit s f) where
  mutual
    unfolding walk

    walk_again : (s : S) (i : Input) → walk visit s (walk visit s i).1 ≡ walk visit s i
    walk_again s (input f cross join group union) =
        let c = walk_all visit s cross in
        let u = walk_all visit c.0 union in
        let j = walk_all visit u.0 join in
        let g = walk_all visit j.0 group in
        rw
          (
            walk_all_again s cross,
            walk_all_again c.0 union,
            walk_all_again u.0 join,
            walk_all_again j.0 group,
            again g.0 f,
          )
          refl

    walk_all_again :
        (s : S) (is : Inputs) → walk_all visit s (walk_all visit s is).1 ≡ walk_all visit s is
    walk_all_again s no_inputs = refl
    walk_all_again s (one_more i is) =
        rw (walk_again s i, walk_all_again (walk visit s i).0 is) refl

  pub walk_inputs_again :
      (s : S) (i : Option Input)
      → walk_inputs visit s (walk_inputs visit s i).1 ≡ walk_inputs visit s i
  walk_inputs_again s none = refl
  walk_inputs_again s (some i) = rw (walk_again s i) refl
