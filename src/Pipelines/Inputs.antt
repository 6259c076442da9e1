-- ===== src/Pipelines/Inputs.antt =====
-- Input with GitInput and Trigger (client.go), InputSides and InputBranch, and the walk over an
-- input's nodes (walkInputs of git.go). The four lists of members stand apart from the fields.
pub mod Nodes
pub mod Again
use sandman.Prelude.{
  Bytes, codes, ℕ, zero, suc, Bool, true, false, ◌&&◌, ◌||◌, not, Option, none, some, List, [], ◌∷◌,
  ◌++◌, if◌then◌else◌, eqs, ltb, arith,
}
use sandman.Prelude.Decimal.{Signed, plus, minus}

pub record GitInput : Type 0 where
  pub url : Bytes
  pub branch : Bytes

pub record Trigger : Type 0 where
  pub size_bytes : Signed
  pub branch : Bytes

pub record InputFields : Type 0 where
  pub name : Bytes
  pub repo : Bytes
  pub glob : Bytes
  pub branch : Bytes
  pub join_on : Bytes
  pub outer : Bool
  pub group_by : Bytes
  pub cron : Bytes
  pub overwrite : Bool
  pub git : Option GitInput
  pub trigger : Option Trigger
  pub lazy : Bool

-- The members: cross, join, group and union.
mutual
  pub data Input : Type 0 where
    input : InputFields → Inputs → Inputs → Inputs → Inputs → Input

  pub data Inputs : Type 0 where
    no_inputs : Inputs
    one_more : Input → Inputs → Inputs

abbrev pub fields_of : Input → InputFields
fields_of (input f cross join group union) = f

abbrev pub is_empty : Inputs → Bool
is_empty no_inputs = true
is_empty (one_more i is) = false

abbrev pub has_positive : Option Trigger → Bool
has_positive none = false
has_positive (some t) = elim t.size_bytes [ plus n ↦ ltb 0 n | minus n ↦ false ]

abbrev pub master : Bytes
master = codes "master"

unfoldable pub input_branch : InputFields → Bytes
unfolding eqs
input_branch f = if eqs f.branch [] then master else f.branch

-- The sides of an input that is there.
abbrev pub sides_of : Input → Inputs
sides_of (input f (one_more i is) join group union) = one_more i is
sides_of (input f no_inputs (one_more i is) group union) = one_more i is
sides_of (input f no_inputs no_inputs (one_more i is) union) = one_more i is
sides_of (input f no_inputs no_inputs no_inputs (one_more i is)) = one_more i is
sides_of (input f no_inputs no_inputs no_inputs no_inputs) =
    one_more (input f no_inputs no_inputs no_inputs no_inputs) no_inputs

unfoldable pub input_sides : Option Input → Inputs
input_sides none = no_inputs
input_sides (some i) = sides_of i

-- walkInputs with a visitor that reads and writes a node's own fields and carries a state.
module _ {ℓ} {S : Type ℓ} (visit : S → InputFields → S × InputFields) where
  unfoldable mutual
    pub walk : S → Input → S × Input
    walk s (input f cross join group union) =
        let c = walk_all s cross in
        let u = walk_all c.0 union in
        let j = walk_all u.0 join in
        let g = walk_all j.0 group in let n = visit g.0 f in (n.0, input n.1 c.1 j.1 g.1 u.1)

    pub walk_all : S → Inputs → S × Inputs
    walk_all s no_inputs = (s, no_inputs)
    walk_all s (one_more i is) =
        let first = walk s i in let rest = walk_all first.0 is in (rest.0, one_more first.1 rest.1)

abbrev pub walk_inputs {ℓ} :
    {S : Type ℓ} → (S → InputFields → S × InputFields) → S → Option Input → S × Option Input
walk_inputs visit s none = (s, none)
walk_inputs visit s (some i) = let w = walk visit s i in (w.0, some w.1)
