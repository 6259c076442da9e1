-- ===== src/Prelude/Order.antt =====
-- The order of the keys of a map, under writes, removals and sorts.
use mathlib.Core.Path.{◌≡◌, refl, sym}
use mathlib.Core.Logic.{inl, inr}
use mathlib.Core.Bool.{true, false}
use mathlib.Core.Option.{some}
use mathlib.Core.List.{List, [], ◌∷◌}
use native.Mathlib.Omega.{arith}
use sandman.Prelude.Tests.{Bool-cases, if_cases}
use sandman.Prelude.Lists.{All}
use sandman.Prelude.Text.{
  Bytes, eqs, eqs_iff, eqs_refl, lts, lts_trans, lts-eqs, lts_total, lts_irrefl,
}
use sandman.Prelude.Map.{Map, get, put, remove}
use sandman.Prelude.Sort.{insert_by, sort_by}

-- Every key lies after `k`.
abbrev pub IsAfter {ℓ} : {V : Type ℓ} → Bytes → Map V → Type 0
IsAfter {V} k m = All (λ (b : Bytes × V). lts k b.0 ≡ true) m

abbrev pub IsOrdered {ℓ} : {V : Type ℓ} → Map V → Type 0
IsOrdered [] = Unit
IsOrdered ((j, w) ∷ m) = IsAfter j m × IsOrdered m

module _ {ℓ} {V : Type ℓ} where
  IsAfter-trans : (k j : Bytes) (m : Map V) → lts k j ≡ true → IsAfter j m → IsAfter k m
  IsAfter-trans k j [] h a = tt
  IsAfter-trans k j ((i, w) ∷ m) h a = (lts_trans k j i h a.0, IsAfter-trans k j m h a.1)

  put-IsAfter :
      (i k : Bytes) (v : V) (m : Map V) → lts i k ≡ true → IsAfter i m → IsAfter i (put k v m)
  unfolding put
  put-IsAfter i k v [] h a = (h, tt)
  put-IsAfter i k v ((j, w) ∷ m) h a =
      if_cases (IsAfter i) (eqs j k) (h, a.1)
        (if_cases (IsAfter i) (lts k j) (h, a) (a.0, put-IsAfter i k v m h a.1))

  pub put-IsOrdered : (k : Bytes) (v : V) (m : Map V) → IsOrdered m → IsOrdered (put k v m)
  unfolding put
  put-IsOrdered k v [] o = (tt, tt)
  put-IsOrdered k v ((j, w) ∷ m) o = elim (Bool-cases (eqs j k)) [
    | inl e ↦ rw e (rw (sym ((eqs_iff j k).0 e)) o)
    | inr e ↦ rw e (elim (Bool-cases (lts k j)) [
      | inl l ↦ rw l ((l, IsAfter-trans k j m l o.0), o)
      | inr l ↦ rw l (put-IsAfter j k v m (after e l) o.0, put-IsOrdered k v m o.1)
    ])
  ]
    where
      after : eqs j k ≡ false → lts k j ≡ false → lts j k ≡ true
      after e l = lts_total k j l (ground (arith, eqs_iff k j, eqs_iff j k))

  remove-IsAfter : (i k : Bytes) (m : Map V) → IsAfter i m → IsAfter i (remove k m)
  unfolding remove
  remove-IsAfter i k [] a = tt
  remove-IsAfter i k ((j, w) ∷ m) a =
      let rest = remove-IsAfter i k m a.1 in if_cases (IsAfter i) (eqs j k) rest (a.0, rest)

  pub remove-IsOrdered : (k : Bytes) (m : Map V) → IsOrdered m → IsOrdered (remove k m)
  unfolding remove
  remove-IsOrdered k [] o = tt
  remove-IsOrdered k ((j, w) ∷ m) o =
      let rest = remove-IsOrdered k m o.1 in
      if_cases IsOrdered (eqs j k) rest (remove-IsAfter j k m o.0, rest)

  get_later :
      (j : Bytes) (w : V) (m l : Map V)
      → IsAfter j l
      → All (λ (b : Bytes × V). get b.0 m ≡ some b.1) l
      → All (λ (b : Bytes × V). get b.0 ((j, w) ∷ m) ≡ some b.1) l
  unfolding get
  get_later j w m [] a h = tt
  get_later j w m ((i, x) ∷ l) a h = (rw (lts-eqs j i a.0) h.0, get_later j w m l a.1 h.1)

  -- Each binding of an ordered map is the one that a look-up of its key finds.
  pub get-All : (m : Map V) → IsOrdered m → All (λ (b : Bytes × V). get b.0 m ≡ some b.1) m
  unfolding get
  get-All [] o = tt
  get-All ((j, w) ∷ m) o = (rw (eqs_refl j) refl, get_later j w m m o.0 (get-All m o.1))

-- A list whose keys come one after the other stays under a sort.
module _ {ℓ} {A : Type ℓ} (key : A → Bytes) where
  abbrev pub IsInOrder : List A → Type 0
  IsInOrder [] = Unit
  IsInOrder (x ∷ xs) = All (λ (y : A). lts (key x) (key y) ≡ true) xs × IsInOrder xs

  insert_first :
      (x : A) (xs : List A)
      → All (λ (y : A). lts (key x) (key y) ≡ true) xs
      → insert_by key x xs ≡ x ∷ xs
  unfolding insert_by
  insert_first x [] h = refl
  insert_first x (y ∷ ys) h = rw (asym (key x) (key y) h.0) refl
    where
      asym : (s t : Bytes) → lts s t ≡ true → lts t s ≡ false
      asym s t e = ground (arith, lts_trans s t s, lts_irrefl s)

  pub sort_by_ordered : (xs : List A) → IsInOrder xs → sort_by key xs ≡ xs
  unfolding sort_by
  sort_by_ordered [] h = refl
  sort_by_ordered (x ∷ xs) h = rw (sort_by_ordered xs h.1) (insert_first x xs h.0)
