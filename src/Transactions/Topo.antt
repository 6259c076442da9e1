-- ===== src/Transactions/Topo.antt =====
-- topoOrder: the staged pipelines in the order of their dependencies. `names` holds the keys of the
-- map of pipelines, of which nothing else is read, each once.
pub mod Counts
pub mod Loop
pub mod Rounds
pub mod Sorted
use sandman.Prelude.{
  Bytes, ℕ, zero, suc, Bool, true, false, Option, none, some, List, [], ◌∷◌, ◌++◌, length,
  if◌then◌else◌, ◌==◌, arith,
}
use sandman.Prelude.Map.{Map, get, put}
use sandman.Prelude.Sort.{sort}
use sandman.Prelude.Decimal.{Signed, plus, minus}

-- A missing key is the nil list.
abbrev pub listed : Map (List Bytes) → Bytes → List Bytes
listed m k = elim (get k m) [ none ↦ [] | some l ↦ l ]

-- A missing key is 0.
abbrev pub counted : Map Signed → Bytes → Signed
counted m k = elim (get k m) [ none ↦ plus 0 | some v ↦ v ]

-- The inner loop of the first one.
unfoldable pub add_consumer : Bytes → List Bytes → Map (List Bytes) → Map (List Bytes)
unfolding get put
add_consumer name [] m = m
add_consumer name (d ∷ ds) m = add_consumer name ds (put d (listed m d ++ name ∷ []) m)

unfoldable pub consumers_of : Map (List Bytes) → List Bytes → Map (List Bytes) → Map (List Bytes)
unfolding add_consumer get
consumers_of deps [] m = m
consumers_of deps (n ∷ ns) m = consumers_of deps ns (add_consumer n (listed deps n) m)

unfoldable pub indegrees : Map (List Bytes) → List Bytes → Map Signed → Map Signed
unfolding get put
indegrees deps [] m = m
indegrees deps (n ∷ ns) m = indegrees deps ns (put n (plus (length (listed deps n))) m)

abbrev pub is_zero : Signed → Bool
is_zero (plus n) = n == 0
is_zero (minus n) = n == 0

-- x--
abbrev pub decrement : Signed → Signed
decrement (plus zero) = minus 1
decrement (plus (suc n)) = plus n
decrement (minus n) = minus (suc n)

abbrev pub ready_of : Map Signed → List Bytes → List Bytes
ready_of indeg [] = []
ready_of indeg (n ∷ ns) =
    let rest = ready_of indeg ns in if is_zero (counted indeg n) then n ∷ rest else rest

-- The loop over the consumers of a pipeline.
unfoldable pub settle : List Bytes → Map Signed → List Bytes → Map Signed × List Bytes
unfolding get put
settle [] indeg ready = (indeg, ready)
settle (c ∷ cs) indeg ready =
    let left = decrement (counted indeg c) in
    settle cs (put c left indeg) (if is_zero left then ready ++ c ∷ [] else ready)

unfoldable pub order_loop : ℕ → Map (List Bytes) → Map Signed → List Bytes → List Bytes → List Bytes
unfolding settle get
order_loop zero consumers indeg ready order = order
order_loop (suc k) consumers indeg [] order = order
order_loop (suc k) consumers indeg (name ∷ ready) order =
    let next = settle (listed consumers name) indeg ready in
    order_loop k consumers next.0 next.1 (order ++ name ∷ [])

-- Each round places another name, so that as many rounds as names are enough.
unfoldable pub topo_order : List Bytes → Map (List Bytes) → Option (List Bytes)
unfolding order_loop consumers_of indegrees sort
topo_order names deps =
    let indeg = indegrees deps names [] in
    let order =
      order_loop (length names) (consumers_of deps names []) indeg (sort (ready_of indeg names))
        [] in
    if length order == length names then some order else none
