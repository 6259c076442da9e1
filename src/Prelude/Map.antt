-- ===== src/Prelude/Map.antt =====
-- A Go map with string keys, or a directory with its entries: an association list kept in the
-- order of its keys, the order in which os.ReadDir lists a directory. Go's own order of a `range`
-- over a map is unspecified, and this is one that it may take.
use Prim.Native.Nat.{◌≤◌}
use sandman.Prelude.Lists.{length}
use mathlib.Core.Path.{◌≡◌, refl}
use mathlib.Core.Option.{Option, none, some}
use mathlib.Core.List.{List, [], ◌∷◌}
use native.Mathlib.Omega.{arith}
use sandman.Prelude.Tests.{if◌then◌else◌}
use sandman.Prelude.Text.{Bytes, eqs, eqs_iff, eqs_refl, lts}

abbrev pub Map {ℓ} : Type ℓ → Type ℓ
Map V = List (Bytes × V)

module _ {ℓ} {V : Type ℓ} where
  -- m[k], with the test `ok`
  unfoldable pub get : Bytes → Map V → Option V
  get k [] = none
  get k ((j, v) ∷ m) = if eqs j k then some v else get k m

  -- m[k] = v
  unfoldable pub put : Bytes → V → Map V → Map V
  put k v [] = (k, v) ∷ []
  put k v ((j, w) ∷ m) =
      let rest = put k v m in
      if eqs j k then (k, v) ∷ m else if lts k j then (k, v) ∷ (j, w) ∷ m else (j, w) ∷ rest

  -- delete(m, k)
  unfoldable pub remove : Bytes → Map V → Map V
  remove k [] = []
  remove k ((j, w) ∷ m) = let rest = remove k m in if eqs j k then rest else (j, w) ∷ rest

  unfoldable pub keys : Map V → List Bytes
  keys [] = []
  keys ((j, w) ∷ m) = j ∷ keys m

  pub get-put :
      (k j : Bytes) (v : V) (m : Map V) → get j (put k v m) ≡ (if eqs k j then some v else get j m)
  unfolding get put
  get-put k j v [] = refl
  get-put k j v ((i, w) ∷ m) =
      ground (arith, eqs_iff k j, eqs_iff i k, eqs_iff i j, get-put k j v m)

  pub get-remove :
      (k j : Bytes) (m : Map V) → get j (remove k m) ≡ (if eqs k j then none else get j m)
  unfolding get remove
  get-remove k j [] = ground arith
  get-remove k j ((i, w) ∷ m) =
      ground (arith, eqs_iff k j, eqs_iff i k, eqs_iff i j, get-remove k j m)

  pub get-put_self : (k : Bytes) (v : V) (m : Map V) → get k (put k v m) ≡ some v
  get-put_self k v m = rw (get-put, eqs_refl) refl

  pub get-remove_self : (k : Bytes) (m : Map V) → get k (remove k m) ≡ none
  get-remove_self k m = rw (get-remove, eqs_refl) refl

module _ {ℓ} {V : Type ℓ} where
  pub length-put : (k : Bytes) (v : V) (m : Map V) → length m ≤ length (put k v m)
  unfolding put
  length-put k v [] = omega arith
  length-put k v ((j, w) ∷ m) = ground (arith, length-put k v m)
