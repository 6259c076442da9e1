-- ===== src/Transactions/Topo/Sorted.antt =====
-- The order that topoOrder returns, and its error.
use mathlib.Core.Path.{subst}
use sandman.Prelude.{
  Bytes, ℕ, ◌+◌, ◌<◌, ◌≡◌, ◌⊎◌, refl, sym, ◌∙◌, inl, inr, true, false, none, some, List, [], ◌∷◌,
  length, ◌==◌, eqs_iff, eqs_refl, Bool-cases, arith,
}
use sandman.Prelude.Map.{Map}
use sandman.Prelude.Sort.{mem, sort}
use sandman.Prelude.Decimal.{Signed, plus}
use sandman.Transactions.Topo.{
  listed, consumers_of, indegrees, is_zero, ready_of, order_loop, topo_order,
}
use sandman.Prelude.Unique.{IsUnique, subset_length}
use sandman.Transactions.Topo.Counts.{count_in, missing}
use sandman.Transactions.Topo.Loop.{IsSorted, IsCounted}
use sandman.Transactions.Topo.Rounds.{first_IsCounted, loop_lem}

-- A dependency that is not placed, where one is missing.
missing_name :
    (order ds : List Bytes)
    → 0 < missing order ds
    → (d : Bytes) × (mem d ds ≡ true) × (mem d order ≡ false)
unfolding missing mem
missing_name order [] h = absurd (omega arith)
missing_name order (d ∷ ds) h = elim (Bool-cases (mem d order)) [
  | inl b ↦ let r = missing_name order ds (ground arith) in (r.0, ground (arith, r.1), r.2)
  | inr b ↦ (d, rw (eqs_refl d) refl, b)
]

-- A name that is not placed, where not all are.
unplaced_name :
    (order ns : List Bytes)
    → ((c : Bytes) → mem c ns ≡ true → mem c order ≡ true)
      ⊎ ((c : Bytes) × (mem c ns ≡ true) × (mem c order ≡ false))
unfolding mem
unplaced_name order [] = inl (λ c h. cc)
unplaced_name order (n ∷ ns) = elim (Bool-cases (mem n order)) [
  | inr b ↦ inr (n, rw (eqs_refl n) refl, b)
  | inl b ↦ elim (unplaced_name order ns) [
    | inl f ↦ inl (λ c h. ground (arith, f c, eqs_iff n c))
    | inr (c, k, l) ↦ inr (c, ground (arith, k), l)
  ]
]

module _ (names : List Bytes) (deps : Map (List Bytes)) (u : IsUnique names) where
  -- What topoOrder returns: all the names in an order in which each name stands behind the names it
  -- depends on.
  pub record IsOrdering (order : List Bytes) : Type 0 where
    pub result : topo_order names deps ≡ some order
    pub complete : (c : Bytes) → mem c order ≡ mem c names
    pub once : IsUnique order
    pub behind : IsSorted deps [] order

  -- A cycle, or a dependency that is not staged: the names that are not placed, at least one, each
  -- depend on a name that is not placed.
  pub record IsStuck (placed : List Bytes) : Type 0 where
    pub fails : topo_order names deps ≡ none
    pub some_name : (c : Bytes) × (mem c names ≡ true) × (mem c placed ≡ false)
    pub blocked :
        (c : Bytes)
        → mem c names ≡ true
        → mem c placed ≡ false
        → (d : Bytes) × (mem d (listed deps c) ≡ true) × (mem d placed ≡ false)

  abbrev placed_names : List Bytes
  placed_names =
      order_loop (length names) (consumers_of deps names []) (indegrees deps names [])
        (sort (ready_of (indegrees deps names []) names)) []

  module _ (last : Map Signed) (i : IsCounted names deps placed_names placed_names [] last) where
    all_names : length placed_names ≡ length names → (c : Bytes) → mem c placed_names ≡ mem c names
    unfolding mem
    all_names e c = elim (Bool-cases (mem c placed_names)) [
      | inl h ↦ h ∙ sym (i.staged c h)
      | inr h ↦ h ∙ sym (absent h)
    ]
      where
        absent : mem c placed_names ≡ false → mem c names ≡ false
        absent h = elim (Bool-cases (mem c names)) [
          | inr k ↦ k
          | inl k ↦ absurd (
              omega (
                arith,
                e,
                subset_length (c ∷ placed_names) names (h, i.unique)
                    (λ d m. ground (arith, i.staged d, k, eqs_iff c d)),
              ))
        ]

    stuck : (length placed_names == length names) ≡ false → IsStuck placed_names
    unfolding topo_order count_in
    stuck e = record {
      fails = rw e refl;
      some_name = elim (unplaced_name placed_names names) [
        | inl f ↦ absurd (
            let a = subset_length placed_names names i.unique i.staged in
            let b = subset_length names placed_names u f in ground (arith, a, b))
        | inr r ↦ r
      ];
      blocked = λ c h k.
          missing_name placed_names (listed deps c)
            (some_left (sym (i.left c h)) (sym (i.queued c h) ∙ k));
    }
      where
        some_left : {x : ℕ} {v : Signed} → plus (x + 0) ≡ v → is_zero v ≡ false → 0 < x
        some_left e h =
            let z = subst (λ (w : Signed). is_zero w ≡ false) (sym e) h in ground (arith, z)

  -- topoOrder of different names either returns them all, each once and behind all the names that it
  -- depends on, or it fails, and then the names that it could not place, at least one, each depend on
  -- a name that it could not place, or that is not staged. The rounds of its loop, as many as there
  -- are names, are enough for that.
  pub topo_order_lem :
      ((order : List Bytes) × IsOrdering order) ⊎ ((placed : List Bytes) × IsStuck placed)
  unfolding topo_order
  topo_order_lem =
      let r =
        loop_lem names deps u (length names) [] (sort (ready_of (indegrees deps names []) names))
          (indegrees deps names []) (first_IsCounted names deps u) tt (omega arith) in
      elim (Bool-cases (length placed_names == length names)) [
        | inl e ↦ inl (
          placed_names,
          record {
            result = rw e refl;
            complete = all_names r.last r.counts (ground arith);
            once = r.counts.unique;
            behind = r.sorted;
          },
        )
        | inr e ↦ inr (placed_names, stuck r.last r.counts e)
      ]
