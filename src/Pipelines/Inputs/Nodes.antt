-- ===== src/Pipelines/Inputs/Nodes.antt =====
-- The nodes of an input in the order of the walk.
use mathlib.Core.List.{append_assoc, append-nil, map}
use sandman.Prelude.{Bytes, ◌≡◌, refl, sym, ap, Option, none, some, List, [], ◌∷◌, ◌++◌}
use sandman.Pipelines.Inputs.{
  InputFields, Input, input, Inputs, no_inputs, one_more, walk, walk_all, walk_inputs,
}

unfoldable mutual
  pub nodes : Input → List InputFields
  nodes (input f cross join group union) =
      nodes_all cross ++ (nodes_all union ++ (nodes_all join ++ (nodes_all group ++ f ∷ [])))

  pub nodes_all : Inputs → List InputFields
  nodes_all no_inputs = []
  nodes_all (one_more i is) = nodes i ++ nodes_all is

abbrev pub nodes_of : Option Input → List InputFields
nodes_of none = []
nodes_of (some i) = nodes i

module _ {ℓ} {S : Type ℓ} (visit : S → InputFields → S × InputFields) where
  -- The visits of a list of nodes, one after the other.
  abbrev pub visit_all : S → List InputFields → S × List InputFields
  visit_all s [] = (s, [])
  visit_all s (f ∷ fs) =
      let first = visit s f in let rest = visit_all first.0 fs in (rest.0, first.1 ∷ rest.1)

  visit_all-append :
      (s : S) (xs ys : List InputFields)
      → visit_all s (xs ++ ys) ≡ (
        (visit_all (visit_all s xs).0 ys).0,
        (visit_all s xs).1 ++ (visit_all (visit_all s xs).0 ys).1,
      )
  visit_all-append s [] ys = refl
  visit_all-append s (x ∷ xs) ys = rw (visit_all-append (visit s x).0 xs ys) refl

  -- What the visits of two parts do, from what the visit of the first does.
  in_turn :
      (s : S) {t : S} (xs : List InputFields) {xs' : List InputFields} (ys : List InputFields)
      {r : S × List InputFields}
      → (t, xs') ≡ visit_all s xs
      → visit_all t ys ≡ r
      → (r.0, xs' ++ r.1) ≡ visit_all s (xs ++ ys)
  in_turn s {t} xs {xs'} ys {r} h k = rw (visit_all-append s xs ys) (rw⁻¹ h (rw⁻¹ k refl))

  mutual
    unfolding walk nodes

    nodes-walk :
        (s : S) (i : Input) → ((walk visit s i).0, nodes (walk visit s i).1) ≡ visit_all s (nodes i)
    nodes-walk s (input f cross join group union) =
        let c = walk_all visit s cross in
        let u = walk_all visit c.0 union in
        let j = walk_all visit u.0 join in
        let own = f ∷ [] in
        let from_group = nodes_all group ++ own in
        let from_join = nodes_all join ++ from_group in
        in_turn s (nodes_all cross) (nodes_all union ++ from_join) (nodes-walk_all s cross) (
          sym (
            in_turn c.0 (nodes_all union) from_join (nodes-walk_all c.0 union) (
              sym (
                in_turn u.0 (nodes_all join) from_group (nodes-walk_all u.0 join)
                  (sym (in_turn j.0 (nodes_all group) own (nodes-walk_all j.0 group) refl))))))

    nodes-walk_all :
        (s : S) (is : Inputs)
        → ((walk_all visit s is).0, nodes_all (walk_all visit s is).1) ≡ visit_all s (nodes_all is)
    nodes-walk_all s no_inputs = refl
    nodes-walk_all s (one_more i is) =
        in_turn s (nodes i) (nodes_all is) (nodes-walk s i)
          (sym (nodes-walk_all (walk visit s i).0 is))

  -- The walk visits every node of an input once, in the order of `nodes`, and what it makes of the
  -- input holds what the visits make of the nodes.
  pub walk_inputs_lem :
      (s : S) (i : Option Input)
      → ((walk_inputs visit s i).0, nodes_of (walk_inputs visit s i).1) ≡ visit_all s (nodes_of i)
  walk_inputs_lem s none = refl
  walk_inputs_lem s (some i) = nodes-walk s i

  pub nodes_of-walk_inputs :
      (s : S) (i : Option Input) → nodes_of (walk_inputs visit s i).1 ≡ (visit_all s (nodes_of i)).1
  nodes_of-walk_inputs s i = ap (λ (p : S × List InputFields). p.1) (walk_inputs_lem s i)

  pub walk_inputs_state :
      (s : S) (i : Option Input) → (walk_inputs visit s i).0 ≡ (visit_all s (nodes_of i)).0
  walk_inputs_state s i = ap (λ (p : S × List InputFields). p.0) (walk_inputs_lem s i)

  -- A visitor whose writing does not depend on the state.
  pub visit_all-map :
      (h : InputFields → InputFields)
      → ((s : S) (f : InputFields) → (visit s f).1 ≡ h f)
      → (s : S) (fs : List InputFields) → (visit_all s fs).1 ≡ map h fs
  visit_all-map h e s [] = refl
  visit_all-map h e s (f ∷ fs) = rw (e s f, visit_all-map h e (visit s f).0 fs) refl

-- What a visitor collects that only appends to a list.
abbrev pub gather : (InputFields → List Bytes) → List InputFields → List Bytes
gather g [] = []
gather g (f ∷ fs) = g f ++ gather g fs

pub visit_all-gather :
    (visit : List Bytes → InputFields → List Bytes × InputFields) (g : InputFields → List Bytes)
    → ((out : List Bytes) (f : InputFields) → visit out f ≡ (out ++ g f, f))
    → (out : List Bytes) (fs : List InputFields) → visit_all visit out fs ≡ (out ++ gather g fs, fs)
visit_all-gather visit g e out [] = rw (append-nil out) refl
visit_all-gather visit g e out (f ∷ fs) =
    rw (e out f, visit_all-gather visit g e (out ++ g f) fs, append_assoc out (g f) (gather g fs))
      refl
