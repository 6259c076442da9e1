-- ===== src/Prelude/Decimal.antt =====
-- Decimal numbers: what `%d` and strconv.Itoa print, and what strconv.Atoi reads.
use Prim.Native.Nat.{ℕ, zero, suc, ◌+◌, ◌-◌, ◌*◌, ◌/◌, ◌%◌, ◌<◌, ◌≤◌}
use mathlib.Core.Path.{◌≡◌, ap, sym, ◌∙◌}
use mathlib.Core.Logic.{inl, inr}
use mathlib.Core.Bool.{Bool, true, false, ◌&&◌}
use mathlib.Core.Option.{Option, none, some}
use mathlib.Core.List.{[], ◌∷◌, ◌++◌}
use native.Mathlib.Omega.{arith}
use sandman.Prelude.Tests.{ltb, leb, ◌==◌, if◌then◌else◌, Bool-cases, some_inj}
use sandman.Prelude.Text.{Bytes}

-- %d
unfoldable pub digits_from : ℕ → ℕ → Bytes
digits_from zero i = []
digits_from (suc n) i =
    let rest = digits_from n (i / 10) in
    if ltb i 10 then (48 + i) ∷ [] else rest ++ (48 + i % 10) ∷ []

unfoldable pub digits : ℕ → Bytes
unfolding digits_from
digits i = digits_from (suc i) i

-- The value of a text of digits, behind the digits of `n`.
unfoldable pub value_from : ℕ → Bytes → Option ℕ
value_from n [] = some n
value_from n (c ∷ s) =
    let rest = value_from (n * 10 + (c - 48)) s in if ltb 47 c && ltb c 58 then rest else none

pub data Signed : Type 0 where
  plus : ℕ → Signed
  minus : ℕ → Signed

-- An int of 64 bits.
abbrev pub as_plus : Option ℕ → Option Signed
as_plus none = none
as_plus (some n) = if leb n 9223372036854775807 then some (plus n) else none

abbrev pub as_minus : Option ℕ → Option Signed
as_minus none = none
as_minus (some n) = if leb n 9223372036854775808 then some (minus n) else none

abbrev pub value : Bytes → Option ℕ
value [] = none
value (c ∷ s) = value_from 0 (c ∷ s)

-- strconv.Atoi
unfoldable pub atoi : Bytes → Option Signed
unfolding value_from
atoi [] = none
atoi (c ∷ s) =
    if c == 45
    then as_minus (value s)
    else if c == 43
    then as_plus (value s)
    else as_plus (value (c ∷ s))

-- One more digit behind a number.
value_from-append :
    (n c : ℕ) (s : Bytes) {m : ℕ}
    → c < 10
    → value_from n s ≡ some m
    → value_from n (s ++ (48 + c) ∷ []) ≡ some (m * 10 + c)
unfolding value_from
value_from-append n c [] {m} l e = ground (arith, some_inj e)
value_from-append n c (d ∷ s) {m} l e =
    ground (arith, value_from-append (n * 10 + (d - 48)) c s {m = m} l)

shorter : (k i : ℕ) → i < suc k → ltb i 10 ≡ false → i / 10 < k
shorter k i h b = let l : 10 ≤ i = ground arith in omega arith

value_from-digits : (k i : ℕ) → i < k → value_from 0 (digits_from k i) ≡ some i
unfolding value_from digits_from
value_from-digits zero i h = absurd (omega arith)
value_from-digits (suc k) i h = elim (Bool-cases (ltb i 10)) [
  | inl b ↦ rw b (ground arith)
  | inr b ↦ rw b (
      value_from-append 0 (i % 10) (digits_from k (i / 10)) (omega arith)
        (value_from-digits k (i / 10) (shorter k i h b))
      ∙ ap some (omega arith))
]

-- Is the first byte a digit?
abbrev is_digit_first : Bytes → Bool
is_digit_first [] = false
is_digit_first (c ∷ s) = ltb 47 c && ltb c 58

digit_first-append : (s u : Bytes) → is_digit_first s ≡ true → is_digit_first (s ++ u) ≡ true
digit_first-append [] u h = cc
digit_first-append (c ∷ s) u h = h

digits-digit_first : (k i : ℕ) → i < k → is_digit_first (digits_from k i) ≡ true
unfolding digits_from
digits-digit_first zero i h = absurd (omega arith)
digits-digit_first (suc k) i h = elim (Bool-cases (ltb i 10)) [
  | inl b ↦ rw b (ground arith)
  | inr b ↦ rw b (
      digit_first-append (digits_from k (i / 10)) _
        (digits-digit_first k (i / 10) (shorter k i h b)))
]

atoi_lem :
    (i : ℕ) (s : Bytes)
    → i < 9223372036854775808
    → is_digit_first s ≡ true
    → value_from 0 s ≡ some i
    → (atoi s ≡ some (plus i)) × (atoi (45 ∷ s) ≡ some (minus i))
unfolding atoi
atoi_lem i [] l d v = absurd (ground arith)
atoi_lem i (c ∷ s) l d v = (ground (arith, v), ground (arith, v))

-- A number that an int holds is read back as it is printed, and so is its negation.
pub atoi-digits :
    (i : ℕ)
    → i < 9223372036854775808
    → (atoi (digits i) ≡ some (plus i)) × (atoi (45 ∷ digits i) ≡ some (minus i))
unfolding digits
atoi-digits i l =
    atoi_lem i (digits_from (suc i) i) l (digits-digit_first (suc i) i (omega arith))
      (value_from-digits (suc i) i (omega arith))

pub digits_inj : (i j : ℕ) → digits i ≡ digits j → i ≡ j
unfolding digits
digits_inj i j h = some_inj (
    sym (value_from-digits (suc i) i (omega arith))
    ∙ ap (value_from 0) h
    ∙ value_from-digits (suc j) j (omega arith))
