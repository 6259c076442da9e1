-- ===== src/Prelude/Sort.antt =====
-- `sort.Strings`, as insertion: the result is in order and holds the same strings.
use mathlib.Core.Path.{◌≡◌, refl}
use mathlib.Core.Bool.{Bool, true, false, ◌||◌}
use mathlib.Core.List.{List, [], ◌∷◌}
use native.Mathlib.Omega.{arith}
use sandman.Prelude.Tests.{if◌then◌else◌}
use sandman.Prelude.Text.{Bytes, eqs, eqs_iff, lts, lts_irrefl, lts_trans, lts_total}

unfoldable pub insert : Bytes → List Bytes → List Bytes
insert s [] = s ∷ []
insert s (t ∷ ts) = let rest = insert s ts in if lts t s then t ∷ rest else s ∷ t ∷ ts

unfoldable pub sort : List Bytes → List Bytes
unfolding insert
sort [] = []
sort (s ∷ ts) = insert s (sort ts)

unfoldable pub mem : Bytes → List Bytes → Bool
mem s [] = false
mem s (t ∷ ts) = eqs t s || mem s ts

pub mem-insert : (s t : Bytes) (ts : List Bytes) → mem s (insert t ts) ≡ (eqs t s || mem s ts)
unfolding mem insert
mem-insert s t [] = refl
mem-insert s t (u ∷ ts) = ground (arith, mem-insert s t ts)

-- Sorting neither loses nor invents a string.
pub mem-sort : (s : Bytes) (ts : List Bytes) → mem s (sort ts) ≡ mem s ts
unfolding mem sort
mem-sort s [] = refl
mem-sort s (t ∷ ts) = rw (mem-insert, mem-sort s ts) refl

-- Each string is at most every later one.
abbrev pub IsAtMost : Bytes → List Bytes → Type 0
IsAtMost s [] = Unit
IsAtMost s (t ∷ ts) = (lts t s ≡ false) × IsAtMost s ts

abbrev pub IsSorted : List Bytes → Type 0
IsSorted [] = Unit
IsSorted (s ∷ ts) = IsAtMost s ts × IsSorted ts

le_trans_lts : (s t u : Bytes) → lts t s ≡ false → lts u t ≡ false → lts u s ≡ false
le_trans_lts s t u h k = ground (
  arith,
  lts_trans u s t,
  lts_total t s,
  eqs_iff t s,
  lts_total t u,
  eqs_iff t u,
  eqs_iff u t,
  lts_trans u t s,
  lts_trans t u s,
  lts_irrefl u,
  lts_irrefl s,
  lts_irrefl t,
  lts_total s t,
  lts_total u t,
)

IsAtMost-weaken : (s t : Bytes) (ts : List Bytes) → lts t s ≡ false → IsAtMost t ts → IsAtMost s ts
IsAtMost-weaken s t [] h k = tt
IsAtMost-weaken s t (u ∷ ts) h k = (le_trans_lts s t u h k.0, IsAtMost-weaken s t ts h k.1)

IsAtMost-insert :
    (s t : Bytes) (ts : List Bytes) → lts t s ≡ false → IsAtMost s ts → IsAtMost s (insert t ts)
unfolding insert
IsAtMost-insert s t [] h k = (h, tt)
IsAtMost-insert s t (u ∷ ts) h k = ground (arith, IsAtMost-insert s t ts h k.1)

lts_asym : (s t : Bytes) → lts s t ≡ true → lts t s ≡ false
lts_asym s t h = ground (arith, lts_trans s t s, lts_irrefl s)

insert-IsSorted : (s : Bytes) (ts : List Bytes) → IsSorted ts → IsSorted (insert s ts)
unfolding insert
insert-IsSorted s [] h = (tt, tt)
insert-IsSorted s (t ∷ ts) h = ground (
  arith,
  insert-IsSorted s ts h.1,
  IsAtMost-insert t s ts,
  lts_asym t s,
  IsAtMost-weaken s t ts,
  h.0,
)

pub sort-IsSorted : (ts : List Bytes) → IsSorted (sort ts)
unfolding sort
sort-IsSorted [] = tt
sort-IsSorted (s ∷ ts) = insert-IsSorted s (sort ts) (sort-IsSorted ts)

-- sort.Slice by a string key.
module _ {ℓ} {A : Type ℓ} (key : A → Bytes) where
  unfoldable pub insert_by : A → List A → List A
  insert_by s [] = s ∷ []
  insert_by s (t ∷ ts) =
      let rest = insert_by s ts in if lts (key t) (key s) then t ∷ rest else s ∷ t ∷ ts

  unfoldable pub sort_by : List A → List A
  unfolding insert_by
  sort_by [] = []
  sort_by (s ∷ ts) = insert_by s (sort_by ts)
