-- ===== src/Prelude/Text.antt =====
-- Go strings as byte sequences: equality, the order of `sort.Strings`, prefixes and suffixes.
use Prim.Native.Nat.{ℕ, ◌-◌}
use Prim.Native.Char.{code}
use Prim.Native.String.{String}
use mathlib.Core.Path.{◌≡◌, refl}
use mathlib.Core.Logic.{◌↔◌, inl, inr, ◌≢◌}
use mathlib.Core.Bool.{Bool, true, false, ◌&&◌, ◌||◌}
use mathlib.Core.List.{List, [], ◌∷◌, ◌++◌, reverse}
use native.Mathlib.Omega.{arith}
use sandman.Prelude.Tests.{ltb, ◌==◌, if◌then◌else◌, Bool-cases}
use sandman.Prelude.Lists.{length, take, drop}

abbrev pub Bytes : Type 0
Bytes = List ℕ

-- The bytes of an ASCII text.
abbrev pub codes : String → Bytes
codes String.[] = []
codes (String.◌∷◌ c s) = code c ∷ codes s

-- '/' and '.'
abbrev pub slash : ℕ
slash = 47

abbrev pub dot : ℕ
dot = 46

-- One lower-case hexadecimal digit of hex.EncodeToString.
abbrev pub hex_digit : ℕ → Bool
hex_digit c = (ltb 47 c && ltb c 58) || ((ltb 96 c && ltb c 103) || (ltb 64 c && ltb c 71))

unfoldable pub eqs : Bytes → Bytes → Bool
eqs [] [] = true
eqs [] (y ∷ ys) = false
eqs (x ∷ xs) [] = false
eqs (x ∷ xs) (y ∷ ys) = (x == y) && eqs xs ys

pub eqs_iff : (s t : Bytes) → (eqs s t ≡ true) ↔ (s ≡ t)
unfolding eqs
eqs_iff [] [] = (λ _. refl, λ _. refl)
eqs_iff [] (y ∷ ys) = (λ h. cc, λ h. cc)
eqs_iff (x ∷ xs) [] = (λ h. cc, λ h. cc)
eqs_iff (x ∷ xs) (y ∷ ys) = ground (arith, eqs_iff xs ys)

pub eqs_refl : (s : Bytes) → eqs s s ≡ true
eqs_refl s = (eqs_iff s s).1 refl

pub eqs-false : (s t : Bytes) → s ≢ t → eqs s t ≡ false
eqs-false s t h = elim (Bool-cases (eqs s t)) [ inl e ↦ absurd (h ((eqs_iff s t).0 e)) | inr e ↦ e ]

-- The byte-wise order of `<` on strings.
unfoldable pub lts : Bytes → Bytes → Bool
lts [] [] = false
lts [] (y ∷ ys) = true
lts (x ∷ xs) [] = false
lts (x ∷ xs) (y ∷ ys) = ltb x y || ((x == y) && lts xs ys)

pub lts_irrefl : (s : Bytes) → lts s s ≡ false
unfolding lts
lts_irrefl [] = refl
lts_irrefl (x ∷ xs) = ground (arith, lts_irrefl xs)

pub lts_trans : (s t u : Bytes) → lts s t ≡ true → lts t u ≡ true → lts s u ≡ true
unfolding lts
lts_trans [] [] u h k = cc
lts_trans [] (y ∷ ys) [] h k = cc
lts_trans [] (y ∷ ys) (z ∷ zs) h k = refl
lts_trans (x ∷ xs) [] u h k = cc
lts_trans (x ∷ xs) (y ∷ ys) [] h k = cc
lts_trans (x ∷ xs) (y ∷ ys) (z ∷ zs) h k = ground (arith, lts_trans xs ys zs)

pub lts-eqs : (s t : Bytes) → lts s t ≡ true → eqs s t ≡ false
unfolding lts eqs
lts-eqs [] [] h = cc
lts-eqs [] (y ∷ ys) h = refl
lts-eqs (x ∷ xs) [] h = cc
lts-eqs (x ∷ xs) (y ∷ ys) h = ground (arith, lts-eqs xs ys)

pub lts_total : (s t : Bytes) → lts s t ≡ false → eqs s t ≡ false → lts t s ≡ true
unfolding lts eqs
lts_total [] [] h k = cc
lts_total [] (y ∷ ys) h k = cc
lts_total (x ∷ xs) [] h k = refl
lts_total (x ∷ xs) (y ∷ ys) h k = ground (arith, lts_total xs ys)

-- strings.HasPrefix(s, p), with the prefix first.
unfoldable pub has_prefix : Bytes → Bytes → Bool
has_prefix [] s = true
has_prefix (x ∷ p) [] = false
has_prefix (x ∷ p) (y ∷ s) = (x == y) && has_prefix p s

-- s[len(p):]
abbrev pub drop_prefix : Bytes → Bytes → Bytes
drop_prefix p s = drop (length p) s

pub has_prefix-append : (p s : Bytes) → has_prefix p (p ++ s) ≡ true
unfolding has_prefix
has_prefix-append [] s = refl
has_prefix-append (x ∷ p) s = ground (arith, has_prefix-append p s)

pub has_prefix_elim : (p s : Bytes) → has_prefix p s ≡ true → s ≡ p ++ drop_prefix p s
unfolding has_prefix
has_prefix_elim [] s h = refl
has_prefix_elim (x ∷ p) [] h = cc
has_prefix_elim (x ∷ p) (y ∷ s) h = ground (arith, has_prefix_elim p s)

-- strings.HasSuffix(s, p) and strings.TrimSuffix(s, p), with the suffix first.
unfoldable pub has_suffix : Bytes → Bytes → Bool
unfolding has_prefix
has_suffix p s = has_prefix (reverse p) (reverse s)

unfoldable pub trim_suffix : Bytes → Bytes → Bytes
unfolding has_suffix
trim_suffix p s = if has_suffix p s then take (length s - length p) s else s

-- strings.ContainsAny(s, chars)
abbrev pub mem_byte : ℕ → Bytes → Bool
mem_byte c [] = false
mem_byte c (x ∷ xs) = (c == x) || mem_byte c xs

unfoldable pub contains_any : Bytes → Bytes → Bool
contains_any [] cs = false
contains_any (x ∷ xs) cs = mem_byte x cs || contains_any xs cs

-- strings.Split(s, sep) for a separator of one byte: the components, at least one.
unfoldable pub split_from : ℕ → Bytes → Bytes → List Bytes
split_from sep acc [] = acc ∷ []
split_from sep acc (c ∷ s) =
    let here = acc ∷ split_from sep [] s in
    let on = split_from sep (acc ++ c ∷ []) s in if c == sep then here else on

unfoldable pub split : ℕ → Bytes → List Bytes
unfolding split_from
split sep s = split_from sep [] s
