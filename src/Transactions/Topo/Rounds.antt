-- ===== src/Transactions/Topo/Rounds.antt =====
-- The rounds of the loop from its start.
use mathlib.Core.List.{append_assoc, append-nil}
use mathlib.Core.Path.{subst}
use sandman.Prelude.{
  Bytes, ℕ, zero, suc, ◌+◌, ◌≤◌, ◌<◌, ◌≡◌, refl, sym, ap, ◌∙◌, inl, inr, true, false, ◌&&◌, List,
  [], ◌∷◌, ◌++◌, length, length-append, if_cases, lts, eqs, eqs_iff, eqs_refl, Bool-cases, arith,
}
use sandman.Prelude.Map.{Map}
use sandman.Prelude.Sort.{mem, sort, insert, mem-sort, mem-insert}
use sandman.Prelude.Decimal.{Signed, plus}
use sandman.Transactions.Topo.{
  listed, counted, consumers_of, indegrees, is_zero, ready_of, settle, order_loop,
}
use sandman.Prelude.Unique.{IsUnique, mem-append, subset_length}
use sandman.Transactions.Topo.Counts.{
  count_in, missing, missing-append, consumers_of_lem, indegrees_lem,
}
use sandman.Transactions.Topo.Loop.{
  AreSettled, IsSorted, missing-AreSettled, IsCounted, settle-IsCounted,
}

IsSorted-append :
    (deps : Map (List Bytes)) (seen ns : List Bytes) (n : Bytes)
    → IsSorted deps seen ns
    → AreSettled (seen ++ ns) (listed deps n)
    → IsSorted deps seen (ns ++ n ∷ [])
IsSorted-append deps seen [] n s a =
    (subst (λ (l : List Bytes). AreSettled l (listed deps n)) (append-nil seen) a, tt)
IsSorted-append deps seen (m ∷ ns) n s a =
    (s.0, IsSorted-append deps (seen ++ m ∷ []) ns n s.1 (rw (append_assoc seen (m ∷ []) ns) a))

insert-IsUnique :
    (n : Bytes) (ns : List Bytes) → mem n ns ≡ false → IsUnique ns → IsUnique (insert n ns)
unfolding insert mem
insert-IsUnique n [] h u = (refl, tt)
insert-IsUnique n (m ∷ ns) h u =
    if_cases IsUnique (lts m n)
      (
        ground (arith, mem-insert m n ns, u.0, eqs_iff n m, eqs_iff m n),
        insert-IsUnique n ns (ground arith) u.1,
      )
      (h, u)

sort-IsUnique : (ns : List Bytes) → IsUnique ns → IsUnique (sort ns)
unfolding sort
sort-IsUnique [] u = tt
sort-IsUnique (n ∷ ns) u = insert-IsUnique n (sort ns) (mem-sort n ns ∙ u.0) (sort-IsUnique ns u.1)

mem-ready_of :
    (indeg : Map Signed) (c : Bytes) (ns : List Bytes)
    → mem c (ready_of indeg ns) ≡ (mem c ns && is_zero (counted indeg c))
unfolding mem
mem-ready_of indeg c [] = refl
mem-ready_of indeg c (n ∷ ns) = elim (Bool-cases (eqs n c)) [
  | inl b ↦ rw⁻¹ ((eqs_iff n c).0 b) (elim (Bool-cases (is_zero (counted indeg n))) [
    | inl z ↦ rw (z, eqs_refl n) refl
    | inr z ↦ rw (z, eqs_refl n) (mem-ready_of indeg n ns ∙ rw z (ground arith))
  ])
  | inr b ↦ elim (Bool-cases (is_zero (counted indeg n))) [
    | inl z ↦ rw (z, b) (mem-ready_of indeg c ns)
    | inr z ↦ rw (z, b) (mem-ready_of indeg c ns)
  ]
]

ready_of-IsUnique :
    (indeg : Map Signed) (ns : List Bytes) → IsUnique ns → IsUnique (ready_of indeg ns)
ready_of-IsUnique indeg [] u = tt
ready_of-IsUnique indeg (n ∷ ns) u =
    let rest = ready_of-IsUnique indeg ns u.1 in
    if_cases IsUnique (is_zero (counted indeg n)) (rw (mem-ready_of indeg n ns, u.0) refl, rest)
      rest

count_in-mem : (c : Bytes) (xs : List Bytes) → mem c xs ≡ true → 0 < count_in c xs
unfolding mem count_in
count_in-mem c [] h = cc
count_in-mem c (x ∷ xs) h = ground (arith, count_in-mem c xs)

unique_middle : (n : Bytes) (xs ys : List Bytes) → IsUnique (xs ++ n ∷ ys) → mem n xs ≡ false
unfolding mem
unique_middle n [] ys u = refl
unique_middle n (x ∷ xs) ys u =
    ground
      (arith, mem-append x xs (n ∷ ys), u.0, unique_middle n xs ys u.1, eqs_iff x n, eqs_iff n x)

module _ (names : List Bytes) (deps : Map (List Bytes)) (u : IsUnique names) where
  abbrev pub consumers : Map (List Bytes)
  consumers = consumers_of deps names []

  pub first_IsCounted :
      IsCounted names deps []
        (sort (ready_of (indegrees deps names []) names))
        []
        (indegrees deps names [])
  unfolding mem count_in
  first_IsCounted =
      let indeg = indegrees deps names [] in
      let m = λ (c : Bytes). mem-sort c (ready_of indeg names) ∙ mem-ready_of indeg c names in
      record {
        left = λ c h. indegrees_lem deps c names h ∙ ap plus (omega arith);
        queued = λ c h. m c ∙ rw h refl;
        staged = λ c h. ground (arith, m c);
        unique = sort-IsUnique (ready_of indeg names) (ready_of-IsUnique indeg names u);
        to_come = λ c h. cc;
      }

  -- The name `n` is taken from the ready ones and placed.
  place :
      (order ready : List Bytes) (n : Bytes) (indeg : Map Signed)
      → IsCounted names deps order (order ++ n ∷ ready) [] indeg
      → IsSorted deps [] order
      → IsCounted names deps
          (order ++ n ∷ [])
          ((order ++ n ∷ []) ++ ready)
          (listed consumers n)
          indeg
        × IsSorted deps [] (order ++ n ∷ [])
  unfolding mem count_in
  place order ready n indeg i s =
      let p : mem n (order ++ n ∷ ready) ≡ true =
        ground (arith, mem-append n order (n ∷ ready), eqs_refl n) in
      let m = i.staged n p in
      let a = unique_middle n order ready i.unique in
      let z : missing order (listed deps n) ≡ 0 =
        no_more (sym (i.left n m)) (sym (i.queued n m) ∙ p) in
      (
        record {
          left = λ c h.
              i.left c h
              ∙ ap plus (
                  let k : count_in c (listed consumers n) ≡ count_in n (listed deps c) =
                    consumers_of_lem deps c n names u ∙ rw h refl in
                  omega (arith, k, missing-append n order (listed deps c) a));
          queued = λ c h. rw (append_assoc order (n ∷ []) ready) (i.queued c h);
          staged = rw (append_assoc order (n ∷ []) ready) i.staged;
          unique = rw (append_assoc order (n ∷ []) ready) i.unique;
          to_come = λ c h. elim (Bool-cases (mem c names)) [
            | inl e ↦ e
            | inr e ↦ absurd (
                let k : count_in c (listed consumers n) ≡ 0 =
                  consumers_of_lem deps c n names u ∙ rw e refl in
                omega (arith, k, count_in-mem c (listed consumers n) h))
          ];
        },
        IsSorted-append deps [] order n s (missing-AreSettled order (listed deps n) z),
      )
    where
      no_more : {x : ℕ} {v : Signed} → plus (x + 0) ≡ v → is_zero v ≡ true → x ≡ 0
      no_more e h = let z = subst (λ (w : Signed). is_zero w ≡ true) (sym e) h in ground (arith, z)

  all_placed :
      (order : List Bytes) (indeg : Map Signed)
      → IsCounted names deps order (order ++ []) [] indeg
      → IsCounted names deps order order [] indeg
  all_placed order indeg i =
      subst (λ (l : List Bytes). IsCounted names deps order l [] indeg) (append-nil order) i

  pub loop_lem :
      (k : ℕ) (order ready : List Bytes) (indeg : Map Signed)
      → IsCounted names deps order (order ++ ready) [] indeg
      → IsSorted deps [] order
      → length names ≤ k + length order
      → record {
        last : Map Signed;
        counts :
            IsCounted names deps
              (order_loop k consumers indeg ready order)
              (order_loop k consumers indeg ready order)
              []
              last;
        sorted : IsSorted deps [] (order_loop k consumers indeg ready order);
      }
  unfolding order_loop
  loop_lem zero order [] indeg i s l = record {
    last = indeg;
    counts = all_placed order indeg i;
    sorted = s;
  }
  loop_lem zero order (n ∷ ready) indeg i s l = absurd (
      omega (
        arith,
        l,
        subset_length (order ++ n ∷ ready) names i.unique i.staged,
        length-append order (n ∷ ready),
      ))
  loop_lem (suc k) order [] indeg i s l = record {
    last = indeg;
    counts = all_placed order indeg i;
    sorted = s;
  }
  loop_lem (suc k) order (n ∷ ready) indeg i s l =
      let p = place order ready n indeg i s in
      let next = settle (listed consumers n) indeg ready in
      loop_lem k (order ++ n ∷ []) next.1 next.0
        (settle-IsCounted names deps (order ++ n ∷ []) ready (listed consumers n) indeg p.0) p.1
        (omega (arith, l, length-append order (n ∷ [])))
