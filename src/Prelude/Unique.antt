-- ===== src/Prelude/Unique.antt =====
-- Lists of different names.
use Prim.Native.Nat.{suc, ◌≤◌}
use mathlib.Core.Path.{◌≡◌, refl, ◌∙◌}
use mathlib.Core.Logic.{inl, inr}
use mathlib.Core.Bool.{true, false, ◌||◌}
use mathlib.Core.List.{List, [], ◌∷◌, ◌++◌}
use native.Mathlib.Omega.{arith}
use sandman.Prelude.Tests.{if◌then◌else◌, Bool-cases}
use sandman.Prelude.Lists.{length}
use sandman.Prelude.Text.{Bytes, eqs, eqs_iff, eqs_refl}
use sandman.Prelude.Sort.{mem}

-- Each name once.
abbrev pub IsUnique : List Bytes → Type 0
IsUnique [] = Unit
IsUnique (n ∷ ns) = (mem n ns ≡ false) × IsUnique ns

pub mem-append : (n : Bytes) (xs ys : List Bytes) → mem n (xs ++ ys) ≡ (mem n xs || mem n ys)
unfolding mem
mem-append n [] ys = refl
mem-append n (x ∷ xs) ys = ground (arith, mem-append n xs ys)

pub append-IsUnique :
    (n : Bytes) (xs : List Bytes) → mem n xs ≡ false → IsUnique xs → IsUnique (xs ++ n ∷ [])
unfolding mem
append-IsUnique n [] h u = (refl, tt)
append-IsUnique n (x ∷ xs) h u = (
  ground (arith, mem-append x xs (n ∷ []), eqs_iff x n, eqs_iff n x, u.0),
  append-IsUnique n xs (ground arith) u.1,
)

-- A list of different names, all of which stand in another, is not longer than that.
abbrev erase_name : Bytes → List Bytes → List Bytes
erase_name n [] = []
erase_name n (m ∷ ms) = let rest = erase_name n ms in if eqs m n then ms else m ∷ rest

length-erase_name :
    (n : Bytes) (ms : List Bytes) → mem n ms ≡ true → suc (length (erase_name n ms)) ≡ length ms
unfolding mem
length-erase_name n [] h = cc
length-erase_name n (m ∷ ms) h = ground (arith, length-erase_name n ms)

mem-erase_name :
    (n c : Bytes) (ms : List Bytes) → eqs n c ≡ false → mem c (erase_name n ms) ≡ mem c ms
unfolding mem
mem-erase_name n c [] h = refl
mem-erase_name n c (m ∷ ms) h =
    ground (arith, mem-erase_name n c ms h, eqs_iff m n, eqs_iff m c, eqs_iff n c)

pub subset_length :
    (xs ys : List Bytes)
    → IsUnique xs
    → ((c : Bytes) → mem c xs ≡ true → mem c ys ≡ true)
    → length xs ≤ length ys
unfolding mem
subset_length [] ys u h = omega arith
subset_length (x ∷ xs) ys u h =
    let m = h x (rw (eqs_refl x) refl) in
    let rest = subset_length xs (erase_name x ys) u.1 (λ c k.
      let d : eqs x c ≡ false = differs c k in mem-erase_name x c ys d ∙ h c (ground arith)) in
    omega (arith, rest, length-erase_name x ys m)
  where
    differs : (c : Bytes) → mem c xs ≡ true → eqs x c ≡ false
    differs c k = elim (Bool-cases (eqs x c)) [
      | inl e ↦ absurd (let z : mem c xs ≡ false = rw⁻¹ ((eqs_iff x c).0 e) u.0 in ground arith)
      | inr e ↦ e
    ]
