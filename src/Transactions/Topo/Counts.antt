-- ===== src/Transactions/Topo/Counts.antt =====
-- How often a name stands in a list, and how many of a list's names are not placed yet.
use sandman.Prelude.{
  Bytes, ℕ, suc, ◌+◌, ◌≡◌, refl, ◌∙◌, inl, inr, true, false, List, [], ◌∷◌, ◌++◌, length,
  if◌then◌else◌, if_cases, eqs, eqs_iff, Bool-cases, arith,
}
use sandman.Prelude.Map.{Map, get, put, get-put}
use sandman.Prelude.Sort.{mem}
use sandman.Prelude.Decimal.{Signed, plus}
use sandman.Prelude.Unique.{IsUnique, mem-append}
use sandman.Transactions.Topo.{listed, counted, add_consumer, consumers_of, indegrees}

unfoldable pub count_in : Bytes → List Bytes → ℕ
count_in n [] = 0
count_in n (m ∷ ms) = let rest = count_in n ms in if eqs m n then suc rest else rest

unfoldable pub missing : List Bytes → List Bytes → ℕ
unfolding mem
missing order [] = 0
missing order (d ∷ ds) = let rest = missing order ds in if mem d order then rest else suc rest

pub count_in-append :
    (n : Bytes) (xs ys : List Bytes) → count_in n (xs ++ ys) ≡ count_in n xs + count_in n ys
unfolding count_in
count_in-append n [] ys = omega arith
count_in-append n (x ∷ xs) ys = ground (arith, count_in-append n xs ys)

count_in-absent : (n : Bytes) (xs : List Bytes) → mem n xs ≡ false → count_in n xs ≡ 0
unfolding count_in mem
count_in-absent n [] h = refl
count_in-absent n (x ∷ xs) h = ground (arith, count_in-absent n xs)

pub missing-append :
    (n : Bytes) (order ds : List Bytes)
    → mem n order ≡ false
    → missing (order ++ n ∷ []) ds + count_in n ds ≡ missing order ds
unfolding missing count_in mem
missing-append n order [] h = refl
missing-append n order (d ∷ ds) h =
    ground
      (arith, missing-append n order ds h, mem-append d order (n ∷ []), eqs_iff n d, eqs_iff d n)

pub missing-none : (ds : List Bytes) → missing [] ds ≡ length ds
unfolding missing mem
missing-none [] = refl
missing-none (d ∷ ds) = omega (arith, missing-none ds)

pub listed-put :
    (e d : Bytes) (l : List Bytes) (m : Map (List Bytes))
    → listed (put e l m) d ≡ (if eqs e d then l else listed m d)
listed-put e d l m =
    rw (listed, get-put e d l m)
      (elim (Bool-cases (eqs e d)) [ inl b ↦ rw b refl | inr b ↦ rw b refl ])

pub counted-put :
    (e d : Bytes) (v : Signed) (m : Map Signed)
    → counted (put e v m) d ≡ (if eqs e d then v else counted m d)
counted-put e d v m =
    rw (counted, get-put e d v m)
      (elim (Bool-cases (eqs e d)) [ inl b ↦ rw b refl | inr b ↦ rw b refl ])

-- The names of `ns` as consumers of `d`, as often as `d` stands among their dependencies.
listed-add_consumer :
    (name c d : Bytes) (ds : List Bytes) (m : Map (List Bytes))
    → count_in c (listed (add_consumer name ds m) d)
      ≡ count_in c (listed m d) + (if eqs name c then count_in d ds else 0)
unfolding add_consumer count_in
listed-add_consumer name c d [] m = ground arith
listed-add_consumer name c d (e ∷ ds) m =
    let p = listed-put e d (listed m e ++ name ∷ []) m in
    let a = count_in-append c (listed m e) (name ∷ []) in
    listed-add_consumer name c d ds (put e (listed m e ++ name ∷ []) m)
    ∙ elim (Bool-cases (eqs e d)) [
      | inl b ↦ rw (p, b, a) (rw ((eqs_iff e d).0 b) (ground arith))
      | inr b ↦ rw (p, b) refl
    ]

listed-consumers_of :
    (deps : Map (List Bytes)) (c d : Bytes) (ns : List Bytes) (m : Map (List Bytes))
    → IsUnique ns
    → count_in c (listed (consumers_of deps ns m) d)
      ≡ count_in c (listed m d) + (if mem c ns then count_in d (listed deps c) else 0)
unfolding consumers_of mem
listed-consumers_of deps c d [] m u = omega arith
listed-consumers_of deps c d (n ∷ ns) m u =
    let h = listed-add_consumer n c d (listed deps n) m in
    listed-consumers_of deps c d ns (add_consumer n (listed deps n) m) u.1
    ∙ elim (Bool-cases (eqs n c)) [
      | inl b ↦ rw (h, b) (rw⁻¹ ((eqs_iff n c).0 b) (rw u.0 (omega arith)))
      | inr b ↦ rw (h, b) (omega arith)
    ]

pub consumers_of_lem :
    (deps : Map (List Bytes)) (c d : Bytes) (ns : List Bytes)
    → IsUnique ns
    → count_in c (listed (consumers_of deps ns []) d)
      ≡ (if mem c ns then count_in d (listed deps c) else 0)
unfolding get count_in
consumers_of_lem deps c d ns u = listed-consumers_of deps c d ns [] u ∙ omega arith

counted-indegrees :
    (deps : Map (List Bytes)) (c : Bytes) (ns : List Bytes) (m : Map Signed)
    → counted (indegrees deps ns m) c
      ≡ (if mem c ns then plus (length (listed deps c)) else counted m c)
unfolding indegrees mem
counted-indegrees deps c [] m = refl
counted-indegrees deps c (n ∷ ns) m =
    let p = counted-put n c (plus (length (listed deps n))) m in
    counted-indegrees deps c ns (put n (plus (length (listed deps n))) m)
    ∙ elim (Bool-cases (eqs n c)) [
      | inl b ↦
          rw (p, b)
            (rw ((eqs_iff n c).0 b)
              (if_cases (λ x. x ≡ plus (length (listed deps c))) (mem c ns) refl refl))
      | inr b ↦ rw (p, b) refl
    ]

pub indegrees_lem :
    (deps : Map (List Bytes)) (c : Bytes) (ns : List Bytes)
    → mem c ns ≡ true
    → counted (indegrees deps ns []) c ≡ plus (missing [] (listed deps c))
indegrees_lem deps c ns h =
    counted-indegrees deps c ns [] ∙ rw (h, missing-none (listed deps c)) refl
