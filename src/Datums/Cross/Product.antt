-- ===== src/Datums/Cross/Product.antt =====
-- The combinations of a cross against the product of its sides.
use mathlib.Core.List.{append_assoc, append-nil}
use mathlib.Core.Path.{subst}
use sandman.Prelude.{
  Bytes, codes, ℕ, ◌*◌, ◌≡◌, ◌≢◌, refl, sym, ap, ◌∙◌, false, none, List, [], ◌∷◌, ◌++◌, arith,
  length, length-append, Elem, at_head, in_tail, Elem-append_left, Elem-append_right, All,
  All-append, All-map, eqs,
}
use sandman.Datums.{DatumSide, Datum}
use sandman.Datums.Cross.{joined_id, datum_of, for_each, cross_rec, cross_datums}

-- One contribution of each side, in the order of the sides.
pub data Picks : List (List DatumSide) → List DatumSide → Type 0 where
  none_left : Picks [] []
  pick :
      {l : List DatumSide} {ls : List (List DatumSide)} {sd : DatumSide} {sides : List DatumSide}
      → Elem sd l
      → Picks ls sides
      → Picks (l ∷ ls) (sd ∷ sides)

abbrev pub product : List (List DatumSide) → ℕ
product [] = 1
product (l ∷ ls) = length l * product ls

module _ {ℓ κ} {A : Type ℓ} {B : Type κ} (f : A → List B) where
  Elem-for_each : {x : A} {y : B} {xs : List A} → Elem x xs → Elem y (f x) → Elem y (for_each f xs)
  Elem-for_each at_head h = Elem-append_left _ h
  Elem-for_each (in_tail {y = z} m) h = Elem-append_right (f z) (Elem-for_each m h)

  length-for_each :
      (n : ℕ) (xs : List A) → ((x : A) → length (f x) ≡ n) → length (for_each f xs) ≡ length xs * n
  length-for_each n [] h = omega arith
  length-for_each n (x ∷ xs) h =
      grind (arith, length-append (f x) (for_each f xs), h x, length-for_each n xs h)

  All-for_each {μ} :
      (P : B → Type μ) (xs : List A) → ((x : A) → Elem x xs → All P (f x)) → All P (for_each f xs)
  All-for_each P [] h = tt
  All-for_each P (x ∷ xs) h =
      All-append P (f x) (for_each f xs) (h x at_head) (All-for_each P xs (λ y m. h y (in_tail m)))

-- The datum's sides are the ones before and one more of each list.
abbrev Extends : List (List DatumSide) → List DatumSide → Datum → Type 0
Extends ls acc d = (sides : List DatumSide) × Picks ls sides × (d ≡ datum_of (acc ++ sides))

cross_rec_count :
    (ls : List (List DatumSide)) (acc : List DatumSide) → length (cross_rec ls acc) ≡ product ls
unfolding cross_rec
cross_rec_count [] acc = refl
cross_rec_count (l ∷ ls) acc =
    length-for_each (λ (sd : DatumSide). cross_rec ls (acc ++ sd ∷ [])) (product ls) l
      (λ sd. cross_rec_count ls (acc ++ sd ∷ []))

-- The side with this name and path.
abbrev pub keyed : Bytes → Bytes → DatumSide
keyed n p = record { name = n; id = p; files = p ∷ []; merge = none }

cross_rec-Picks :
    (ls : List (List DatumSide)) (acc : List DatumSide) → All (Extends ls acc) (cross_rec ls acc)
unfolding cross_rec
cross_rec-Picks [] acc = (([], none_left, ap datum_of (sym (append-nil acc))), tt)
cross_rec-Picks (l ∷ ls) acc =
    All-for_each (λ (sd : DatumSide). cross_rec ls (acc ++ sd ∷ [])) (Extends (l ∷ ls) acc) l
      (λ sd m. All-map (longer sd m) _ (cross_rec-Picks ls (acc ++ sd ∷ [])))
  where
    longer :
        (sd : DatumSide)
        → Elem sd l
        → (d : Datum) → Extends ls (acc ++ sd ∷ []) d
        → Extends (l ∷ ls) acc d
    longer sd m d (sides, p, e) =
        (sd ∷ sides, pick m p, e ∙ ap datum_of (append_assoc acc (sd ∷ []) sides))

Picks-cross_rec :
    {ls : List (List DatumSide)} {sides : List DatumSide} (acc : List DatumSide)
    → Picks ls sides
    → Elem (datum_of (acc ++ sides)) (cross_rec ls acc)
unfolding cross_rec
Picks-cross_rec acc none_left =
    subst (λ (s : List DatumSide). Elem (datum_of s) (datum_of acc ∷ [])) (sym (append-nil acc))
      at_head
Picks-cross_rec acc (pick {ls = ls} {sd = sd} {sides = sides} m p) =
    Elem-for_each (λ (x : DatumSide). cross_rec ls (acc ++ x ∷ [])) m
      (subst (λ (s : List DatumSide). Elem (datum_of s) (cross_rec ls (acc ++ sd ∷ [])))
        (append_assoc acc (sd ∷ []) sides) (Picks-cross_rec (acc ++ sd ∷ []) p))

-- The datums of a cross over two or more sides are exactly the combinations that pick one datum of
-- each side, in the order of the sides: every such combination is one of them, every one of them is
-- such a combination, and there are as many as the product of the sides' numbers.
pub cross_datums_lem :
    (l m : List DatumSide) (ls : List (List DatumSide))
    → ((sides : List DatumSide)
        → Picks (l ∷ m ∷ ls) sides
        → Elem (datum_of sides) (cross_datums (l ∷ m ∷ ls)))
      × All
          (λ (d : Datum).
            (sides : List DatumSide) × Picks (l ∷ m ∷ ls) sides × (d ≡ datum_of sides))
          (cross_datums (l ∷ m ∷ ls))
      × (length (cross_datums (l ∷ m ∷ ls)) ≡ product (l ∷ m ∷ ls))
unfolding cross_datums
cross_datums_lem l m ls = (
  λ sides p. Picks-cross_rec [] p,
  cross_rec-Picks (l ∷ m ∷ ls) [],
  cross_rec_count (l ∷ m ∷ ls) [],
)

keyed_nonempty : (a w : Bytes) → eqs ((a ++ 61 ∷ []) ++ w) [] ≡ false
unfolding eqs
keyed_nonempty [] w = refl
keyed_nonempty (c ∷ a) w = refl

-- The ids of the datums of a cross can collide, since names and paths may hold '+' and '=': these
-- two combinations of the same two sides, with different paths, have one id.
pub joined_id_collides :
    (a b x y z : Bytes)
    → (joined_id [] (keyed a (x ++ (codes "+" ++ (b ++ (codes "=" ++ y)))) ∷ keyed b z ∷ [])
        ≡ joined_id [] (keyed a x ∷ keyed b (y ++ (codes "+" ++ (b ++ (codes "=" ++ z)))) ∷ []))
      × (x ++ (codes "+" ++ (b ++ (codes "=" ++ y))) ≢ x)
unfolding joined_id eqs
joined_id_collides a b x y z = (
  rw (keyed_nonempty a (x ++ 43 ∷ (b ++ 61 ∷ y)), keyed_nonempty a x) (simp append_assoc),
  λ h. absurd (omega (arith, ap length h, length-append x (43 ∷ (b ++ 61 ∷ y)))),
)
