-- ===== src/Pipelines/Spelling.antt =====
-- The spelling of the names, URLs and selectors of an input, and the errors of a spec (shIdent,
-- envName and validCaptureSelector of pipeline.go, validateGitURL of git.go). url.Parse is a
-- parameter.
use sandman.Prelude.{
  Bytes, codes, ℕ, zero, suc, Bool, true, false, not, ◌&&◌, ◌||◌, Option, none, some, List, [], ◌∷◌,
  if◌then◌else◌, eqs, ltb, leb, ◌==◌, has_prefix, has_suffix, mem_byte, split,
}
use sandman.Prelude.Decimal.{Signed, plus, minus, atoi}
use sandman.Prelude.Result.{Result, ok, err, Done}

-- What the code reads of a parsed URL.
pub record Url : Type 0 where
  pub hostname : Bytes
  pub path : Bytes
  pub has_user : Bool
  pub host : Bytes

pub data SpecError : Type 0 where
  url_missing : SpecError
  url_missing_suffix : SpecError
  url_not_https : SpecError
  url_with_port : SpecError
  repo_and_cross : SpecError
  join_and_group : SpecError
  union_combined : SpecError
  union_unnamed : SpecError
  invalid_union_name : Bytes → SpecError
  trigger_on_union : SpecError
  trigger_inside_union : SpecError
  namespaces_not_distinct : SpecError
  repo_and_join : SpecError
  repo_and_group : SpecError
  cross_with_selector : SpecError
  invalid_join_on : Bytes → SpecError
  invalid_group_by : Bytes → SpecError
  not_identifier : Bytes → SpecError
  name_used_twice : Bytes → SpecError
  no_name : SpecError
  named_out : SpecError
  no_repo_given : SpecError
  no_glob_given : SpecError
  own_output : SpecError
  nested_combiner : SpecError

-- shIdent
abbrev pub is_alpha : ℕ → Bool
is_alpha c = (leb 65 c && leb c 90) || ((leb 97 c && leb c 122) || (c == 95))

abbrev pub is_digit : ℕ → Bool
is_digit c = leb 48 c && leb c 57

abbrev pub all_word : Bytes → Bool
all_word [] = true
all_word (c ∷ s) = (is_alpha c || is_digit c) && all_word s

unfoldable pub is_ident : Bytes → Bool
is_ident [] = false
is_ident (c ∷ s) = is_alpha c && all_word s

-- The bytes of the first character behind its first byte, as `range` over a string reads UTF-8: a
-- byte that begins no character stands alone.
abbrev pub is_between : ℕ → ℕ → Bytes → Bool
is_between low high [] = false
is_between low high (c ∷ s) = leb low c && leb c high

abbrev pub tail : Bytes → Bytes
tail [] = []
tail (c ∷ s) = s

abbrev pub if_continued : Bytes → ℕ → ℕ
if_continued s n = if is_between 128 191 s then n else 0

abbrev pub three_bytes : ℕ → Bytes → Bool
three_bytes c s =
    if c == 224
    then is_between 160 191 s
    else if c == 237
    then is_between 128 159 s
    else leb 225 c && (leb c 239 && is_between 128 191 s)

abbrev pub four_bytes : ℕ → Bytes → Bool
four_bytes c s =
    if c == 240
    then is_between 144 191 s
    else if c == 244
    then is_between 128 143 s
    else leb 241 c && (leb c 243 && is_between 128 191 s)

unfoldable pub more_bytes : ℕ → Bytes → ℕ
more_bytes c s =
    if leb 194 c && leb c 223
    then if_continued s 1
    else if three_bytes c s
    then if_continued (tail s) 2
    else if four_bytes c s && is_between 128 191 (tail s)
    then if_continued (tail (tail s)) 3
    else 0

abbrev pub env_char : ℕ → ℕ
env_char c = if is_alpha c || is_digit c then c else 95

unfoldable pub env_name_from : ℕ → Bytes → Bytes
env_name_from n [] = []
env_name_from zero (c ∷ s) = env_char c ∷ env_name_from (more_bytes c s) s
env_name_from (suc n) (c ∷ s) = env_name_from n s

unfoldable pub env_name : Bytes → Bytes
env_name s = env_name_from 0 s

unfoldable pub validate_git_url : (Bytes → Option Url) → Bytes → Result SpecError Done
validate_git_url parse_url u =
    if eqs u []
    then err url_missing
    else if not (has_suffix (codes ".git") u)
    then err url_missing_suffix
    else if not (has_prefix (codes "https://") u)
    then err url_not_https
    else elim (parse_url u) [
      | none ↦ err url_not_https
      | some p ↦
          if eqs p.hostname [] || (eqs p.path [] || p.has_user)
          then err url_not_https
          else if mem_byte 58 p.host
          then err url_with_port
          else ok tt
    ]

abbrev pub is_positive : Option Signed → Bool
is_positive none = false
is_positive (some (plus n)) = ltb 0 n
is_positive (some (minus n)) = false

abbrev pub all_numbers : List Bytes → Bool
all_numbers [] = true
all_numbers (tok ∷ toks) =
    let rest = all_numbers toks in if eqs tok [] then rest else is_positive (atoi tok) && rest

unfoldable pub valid_capture_selector : Bytes → Bool
valid_capture_selector sel = if eqs sel [] then false else all_numbers (split 36 sel)
