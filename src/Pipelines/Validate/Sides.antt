-- ===== src/Pipelines/Validate/Sides.antt =====
-- Which sides the loop over an input's sides accepts (validateInputSides).
use sandman.Prelude.{
  Bytes, codes, ◌≡◌, ◌⊎◌, refl, ◌∙◌, Bool, true, false, not, ◌&&◌, ◌||◌, Option, none, some, List,
  [], ◌∷◌, ◌++◌, if◌then◌else◌, inl, inr, eqs, eqs_iff, arith,
}
use sandman.Prelude.Sort.{mem}
use sandman.Prelude.Result.{Result, ok, err, Done, ok_inj}
use sandman.Pipelines.Inputs.{
  GitInput, InputFields, Input, input, Inputs, no_inputs, one_more, is_empty,
}
use sandman.Pipelines.Derive.{has_text}
use sandman.Pipelines.Spelling.{Url, SpecError, is_ident, validate_git_url}
use sandman.Pipelines.Validate.{
  check_by, git_env_name, side_name, check_file, check_side, validate_input, validate_sides,
}

abbrev pub is_ok {ℓ κ} : {E : Type κ} {A : Type ℓ} → Result E A → Bool
is_ok (ok a) = true
is_ok (err e) = false

-- The name that the loop over the sides records for a side. It records none for a union, whose name
-- may therefore be that of another side.
abbrev names_by : InputFields → Bool → Option GitInput → List Bytes
names_by f is_union (some g) = git_env_name f g ∷ []
names_by f is_union none = if is_union then [] else side_name f ∷ []

abbrev pub env_names_of : Input → List Bytes
env_names_of (input f cross join group union) = names_by f (not (is_empty union)) f.git

abbrev pub env_names : Inputs → List Bytes
env_names no_inputs = []
env_names (one_more i is) = env_names_of i ++ env_names is

-- What a side's fields must satisfy by themselves.
abbrev good_file : Bytes → InputFields → Bool → Bool
good_file pipeline f combines =
    is_ident (side_name f)
    && (not (eqs (side_name f) (codes "out"))
        && (has_text f.cron
            || (has_text f.repo
                && (has_text f.glob
                    && (not (eqs f.repo pipeline)
                        && not (combines && (has_text f.join_on || has_text f.group_by)))))))

abbrev good_by :
    (Bytes → Option Url)
    → Bytes
    → InputFields
    → Bool
    → Bool
    → Result SpecError Done
    → Option GitInput
    → Bool
good_by parse_url pipeline f is_union combines nested (some g) =
    is_ok (validate_git_url parse_url g.url) && is_ident (git_env_name f g)
good_by parse_url pipeline f is_union combines nested none =
    if is_union then is_ok nested else good_file pipeline f combines

abbrev good_side : (Bytes → Option Url) → Bytes → Input → Result SpecError Done → Bool
good_side parse_url pipeline (input f cross join group union) nested =
    good_by parse_url pipeline f (not (is_empty union))
      (not (is_empty join) || not (is_empty group)) nested f.git

abbrev pub all_good : (Bytes → Option Url) → Bytes → Inputs → Bool
all_good parse_url pipeline no_inputs = true
all_good parse_url pipeline (one_more i is) =
    good_side parse_url pipeline i (validate_input parse_url pipeline i)
    && all_good parse_url pipeline is

abbrev pub all_different : List Bytes → Bool
all_different [] = true
all_different (n ∷ ns) = not (mem n ns) && all_different ns

abbrev none_in : List Bytes → List Bytes → Bool
none_in names [] = true
none_in names (n ∷ ns) = not (mem n names) && none_in names ns

-- The names in use behind a side.
abbrev add : List Bytes → List Bytes → List Bytes
add [] names = names
add (n ∷ ns) names = n ∷ names

is_ident-nonempty : (n : Bytes) → is_ident n ≡ true → eqs n [] ≡ false
unfolding is_ident eqs
is_ident-nonempty [] h = cc
is_ident-nonempty (c ∷ n) h = refl

has_text-eqs : (s : Bytes) → has_text s ≡ not (eqs s [])
unfolding eqs
has_text-eqs [] = refl
has_text-eqs (c ∷ s) = refl

check_file_lem :
    (pipeline : Bytes) (names : List Bytes) (f : InputFields) (combines : Bool)
    → ((check_file pipeline names f combines ≡ ok (side_name f ∷ names))
        × (good_file pipeline f combines && not (mem (side_name f) names) ≡ true))
      ⊎ ((is_ok (check_file pipeline names f combines) ≡ false)
          × (good_file pipeline f combines && not (mem (side_name f) names) ≡ false))
check_file_lem pipeline names f combines =
    ground (arith, is_ident-nonempty (side_name f), has_text-eqs f.repo, has_text-eqs f.glob)

check_by_lem :
    (parse_url : Bytes → Option Url) (pipeline : Bytes) (names : List Bytes) (f : InputFields)
    (is_union combines : Bool) (nested : Result SpecError Done) (git : Option GitInput)
    → ((check_by parse_url pipeline names f is_union combines nested git
          ≡ ok (add (names_by f is_union git) names))
        × (good_by parse_url pipeline f is_union combines nested git
              && none_in names (names_by f is_union git)
            ≡ true))
      ⊎ ((is_ok (check_by parse_url pipeline names f is_union combines nested git) ≡ false)
          × (good_by parse_url pipeline f is_union combines nested git
                && none_in names (names_by f is_union git)
              ≡ false))
check_by_lem parse_url pipeline names f is_union combines nested (some g) = ground arith
check_by_lem parse_url pipeline names f true combines (ok done) none = inl (refl, refl)
check_by_lem parse_url pipeline names f true combines (err e) none = inr (refl, refl)
check_by_lem parse_url pipeline names f false combines nested none =
    ground (arith, check_file_lem pipeline names f combines)

none_in-cons :
    (n : Bytes) (names ns : List Bytes)
    → none_in (n ∷ names) ns ≡ (not (mem n ns) && none_in names ns)
unfolding mem
none_in-cons n names [] = refl
none_in-cons n names (m ∷ ns) = ground (arith, none_in-cons n names ns, eqs_iff n m, eqs_iff m n)

-- The names of one side before those of the others.
none_in-names_by :
    (names : List Bytes) (f : InputFields) (is_union : Bool) (git : Option GitInput)
    (ns : List Bytes)
    → (none_in names (names_by f is_union git)
        && (none_in (add (names_by f is_union git) names) ns && all_different ns))
      ≡ (none_in names (names_by f is_union git ++ ns)
          && all_different (names_by f is_union git ++ ns))
none_in-names_by names f is_union (some g) ns =
    ground (arith, none_in-cons (git_env_name f g) names ns)
none_in-names_by names f true none ns = refl
none_in-names_by names f false none ns = ground (arith, none_in-cons (side_name f) names ns)

regroup_true : (g r n m l : Bool) → g && n ≡ true → n && m ≡ l → r && m ≡ ((g && r) && l)
regroup_true g r n m l h k = ground arith

regroup_false : (g r n m l : Bool) → g && n ≡ false → n && m ≡ l → false ≡ ((g && r) && l)
regroup_false g r n m l h k = ground arith

-- The rest of the loop, behind a side that is accepted or not.
then_ok :
    (r : Result SpecError (List Bytes)) (g : List Bytes → Result SpecError Done)
    (names : List Bytes)
    → r ≡ ok names
    → is_ok {E = SpecError} {A = Done} (elim r [ err e ↦ err e | ok names' ↦ g names' ])
      ≡ is_ok (g names)
then_ok (ok m) g names h = rw (ok_inj h) refl
then_ok (err e) g names h = cc

then_err :
    (r : Result SpecError (List Bytes)) (g : List Bytes → Result SpecError Done)
    → is_ok r ≡ false
    → is_ok {E = SpecError} {A = Done} (elim r [ err e ↦ err e | ok names' ↦ g names' ]) ≡ false
then_err (ok m) g h = cc
then_err (err e) g h = refl

module _ (parse_url : Bytes → Option Url) (pipeline : Bytes) where
  validate_sides_lem :
      (names : List Bytes) (is : Inputs)
      → is_ok (validate_sides parse_url pipeline names is) ≡ (
          all_good parse_url pipeline is
          && (none_in names (env_names is) && all_different (env_names is)))
  unfolding validate_sides check_side
  validate_sides_lem names no_inputs = refl
  validate_sides_lem names (one_more (input f cross join group union) is) =
      let nested = validate_input parse_url pipeline (input f cross join group union) in
      let is_union = not (is_empty union) in
      let combines = not (is_empty join) || not (is_empty group) in
      let split = none_in-names_by names f is_union f.git (env_names is) in
      elim (check_by_lem parse_url pipeline names f is_union combines nested f.git) [
        | inl (e, h) ↦
            then_ok (check_by parse_url pipeline names f is_union combines nested f.git)
              (λ names'. validate_sides parse_url pipeline names' is)
              (add (names_by f is_union f.git) names) e
            ∙ validate_sides_lem (add (names_by f is_union f.git) names) is
            ∙ regroup_true (good_by parse_url pipeline f is_union combines nested f.git)
                (all_good parse_url pipeline is) (none_in names (names_by f is_union f.git))
                (none_in (add (names_by f is_union f.git) names) (env_names is)
                  && all_different (env_names is))
                (none_in names (names_by f is_union f.git ++ env_names is)
                  && all_different (names_by f is_union f.git ++ env_names is))
                h split
        | inr (e, h) ↦
            then_err (check_by parse_url pipeline names f is_union combines nested f.git)
              (λ names'. validate_sides parse_url pipeline names' is) e
            ∙ regroup_false (good_by parse_url pipeline f is_union combines nested f.git)
                (all_good parse_url pipeline is) (none_in names (names_by f is_union f.git))
                (none_in (add (names_by f is_union f.git) names) (env_names is)
                  && all_different (env_names is))
                (none_in names (names_by f is_union f.git ++ env_names is)
                  && all_different (names_by f is_union f.git ++ env_names is))
                h split
      ]

  none_in_nothing : (ns : List Bytes) → none_in [] ns ≡ true
  unfolding mem
  none_in_nothing [] = refl
  none_in_nothing (n ∷ ns) = none_in_nothing ns

  -- The sides of an input are accepted just when each is good by itself, where a union among them
  -- is accepted as an input, and no two of those that name an environment variable name the same.
  pub validate_sides-all_good :
      (is : Inputs)
      → is_ok (validate_sides parse_url pipeline [] is)
        ≡ (all_good parse_url pipeline is && all_different (env_names is))
  validate_sides-all_good is = validate_sides_lem [] is ∙ rw (none_in_nothing (env_names is)) refl
