-- ===== src/Datums/Glob.antt =====
-- globMatches, with filepath.Match on Unix. One byte counts as one character. A malformed pattern
-- matches nothing, as globMatches has it.
use sandman.Prelude.{
  Bytes, codes, ℕ, zero, suc, Bool, true, false, not, ◌&&◌, ◌||◌, Option, none, some, List, [], ◌∷◌,
  ◌++◌, if◌then◌else◌, eqs, leb, ◌==◌, length, slash,
}

-- The bytes of `*`, `?`, `[`, `]`, `^`, `-` and of the escape.
pub data Token : Type 0 where
  star any_one : Token
  lit : ℕ → Token
  class : Bool → List (ℕ × ℕ) → Token

-- getEsc: one character of a class, and what follows it, which may not be nothing.
unfoldable pub get_esc : Bytes → Option (ℕ × Bytes)
get_esc [] = none
get_esc (c ∷ []) = none
get_esc (c ∷ d ∷ s) =
    if (c == 45) || (c == 93)
    then none
    else if c == 92
    then elim s [ [] ↦ none | e ∷ r ↦ some (d, e ∷ r) ]
    else some (c, d ∷ s)

-- One range `lo-hi` or `lo`.
unfoldable pub get_range : Bytes → Option ((ℕ × ℕ) × Bytes)
unfolding get_esc
get_range s = elim (get_esc s) [
  | none ↦ none
  | some (lo, []) ↦ none
  | some (lo, c ∷ r) ↦
      if c == 45
      then elim (get_esc r) [ none ↦ none | some (hi, r') ↦ some ((lo, hi), r') ]
      else some ((lo, lo), c ∷ r)
]

-- The ranges up to the `]`, at least one. The fuel bounds the length of the text.
unfoldable pub get_class : ℕ → List (ℕ × ℕ) → Bytes → Option (List (ℕ × ℕ) × Bytes)
unfolding get_range
get_class zero ranges s = none
get_class (suc n) ranges [] = none
get_class (suc n) ranges (c ∷ s) = elim ((c == 93) && not (leb (length ranges) 0)) [
  | true ↦ some (ranges, s)
  | false ↦ elim (get_range (c ∷ s)) [
    | none ↦ none
    | some (r, rest) ↦ get_class n (ranges ++ r ∷ []) rest
  ]
]

abbrev pub cons_token : Token → Option (List Token) → Option (List Token)
cons_token t none = none
cons_token t (some ts) = some (t ∷ ts)

-- The pattern as a list of tokens, on fuel for its length.
unfoldable pub parse_glob : ℕ → Bytes → Option (List Token)
unfolding get_class
parse_glob zero s = some []
parse_glob (suc n) [] = some []
parse_glob (suc n) (c ∷ s) = elim (c == 42) [
  | true ↦ cons_token star (parse_glob n s)
  | false ↦ elim (c == 63) [
    | true ↦ cons_token any_one (parse_glob n s)
    | false ↦ elim (c == 91) [
      | true ↦ elim s [
        | [] ↦ none
        | d ∷ r ↦
            let negated = d == 94 in
            elim (get_class (suc n) [] (if negated then r else d ∷ r)) [
              | none ↦ none
              | some (ranges, rest) ↦ cons_token (class negated ranges) (parse_glob n rest)
            ]
      ]
      | false ↦ elim (c == 92) [
        | true ↦ elim s [ [] ↦ none | d ∷ r ↦ cons_token (lit d) (parse_glob n r) ]
        | false ↦ cons_token (lit c) (parse_glob n s)
      ]
    ]
  ]
]

abbrev pub in_ranges : ℕ → List (ℕ × ℕ) → Bool
in_ranges c [] = false
in_ranges c ((lo, hi) ∷ rs) = (leb lo c && leb c hi) || in_ranges c rs

-- `*` runs over any bytes but '/'.
unfoldable pub star_any : (Bytes → Bool) → Bytes → Bool
star_any m [] = m []
star_any m (c ∷ s) = let on = star_any m s in m (c ∷ s) || (not (c == slash) && on)

abbrev pub differs : Bool → Bool → Bool
differs true b = not b
differs false b = b

unfoldable pub match_tokens : List Token → Bytes → Bool
unfolding star_any
match_tokens [] [] = true
match_tokens [] (c ∷ s) = false
match_tokens (star ∷ ts) s = star_any (match_tokens ts) s
match_tokens (any_one ∷ ts) [] = false
match_tokens (any_one ∷ ts) (c ∷ s) = not (c == slash) && match_tokens ts s
match_tokens (lit d ∷ ts) [] = false
match_tokens (lit d ∷ ts) (c ∷ s) = (c == d) && match_tokens ts s
match_tokens (class negated ranges ∷ ts) [] = false
match_tokens (class negated ranges ∷ ts) (c ∷ s) =
    differs negated (in_ranges c ranges) && match_tokens ts s

unfoldable pub path_match : Bytes → Bytes → Bool
unfolding parse_glob match_tokens
path_match pattern path = elim (parse_glob (length pattern) pattern) [
  | none ↦ false
  | some ts ↦ match_tokens ts path
]

-- strings.TrimPrefix(pattern, "/")
abbrev pub trim_slash : Bytes → Bytes
trim_slash [] = []
trim_slash (c ∷ s) = if c == slash then s else c ∷ s

unfoldable pub glob_matches : Bytes → Bytes → Bool
unfolding path_match
glob_matches pattern path =
    let p = trim_slash pattern in
    if eqs path []
    then eqs p [] || eqs p (codes "**")
    else if eqs p (codes "**")
    then true
    else path_match p path
