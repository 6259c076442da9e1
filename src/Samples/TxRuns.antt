-- ===== src/Samples/TxRuns.antt =====
-- The theorems on transactions, run on two pipelines, one of which reads the other.
use sandman.Prelude.{Bytes, codes, ◌≡◌, ◌⊎◌, refl, some, List, [], ◌∷◌, eqs, lts}
use sandman.Prelude.Map.{Map, get, put}
use sandman.Prelude.Sort.{mem, sort}
use sandman.Transactions.Topo.{topo_order}
use sandman.Prelude.Unique.{IsUnique}
use sandman.Transactions.Topo.Sorted.{IsOrdering, IsStuck, topo_order_lem}

abbrev two_names : List Bytes
two_names = codes "a" ∷ codes "b" ∷ []

-- `a` reads `b`.
abbrev a_reads_b : Map (List Bytes)
a_reads_b = (codes "a", codes "b" ∷ []) ∷ []

two_names-IsUnique : IsUnique two_names
unfolding mem eqs
two_names-IsUnique = (refl, (refl, tt))

b_first : topo_order two_names a_reads_b ≡ some (codes "b" ∷ codes "a" ∷ [])
unfolding topo_order get put eqs lts sort
b_first = refl

topo_order_lem_example :
    ((order : List Bytes) × IsOrdering two_names a_reads_b two_names-IsUnique order)
    ⊎ ((placed : List Bytes) × IsStuck two_names a_reads_b two_names-IsUnique placed)
topo_order_lem_example = topo_order_lem two_names a_reads_b two_names-IsUnique
