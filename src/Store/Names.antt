-- ===== src/Store/Names.antt =====
-- Names and paths that are safe on disk, and case collisions on a file system that folds case
-- (ValidName, validPath, validBranchName and IsCommitID of store.go, and casefs.go).
pub mod Refs
use sandman.Prelude.{
  Bytes, codes, Bool, true, false, not, ◌&&◌, ◌||◌, Option, none, some, List, [], ◌∷◌, ◌==◌,
  if◌then◌else◌, eqs, has_prefix, contains_any, hex_digit, length, slash,
}
use sandman.Prelude.{split}
use sandman.Prelude.Map.{Map, get, put}
use sandman.Store.Data.{Env, Error, case_collision}

abbrev pub dot_name : Bytes
dot_name = codes "."

abbrev pub dot_dot : Bytes
dot_dot = codes ".."

unfoldable pub valid_name : Bytes → Bool
unfolding eqs has_prefix contains_any
valid_name name =
    not (eqs name [])
    && (not (eqs name dot_name)
        && (not (eqs name dot_dot)
            && (not (has_prefix dot_name name) && not (contains_any name (codes "/\\")))))

unfoldable pub valid_comps : List Bytes → Bool
unfolding eqs
valid_comps [] = true
valid_comps (c ∷ cs) = not (eqs c [] || (eqs c dot_name || eqs c dot_dot)) && valid_comps cs

unfoldable pub valid_path : Bytes → Bool
unfolding eqs has_prefix valid_comps split
valid_path p = if eqs p [] || has_prefix (slash ∷ []) p then false else valid_comps (split slash p)

unfoldable pub valid_branch_name : Bytes → Bool
unfolding eqs contains_any
valid_branch_name b =
    not (eqs b [])
    && (not (eqs b dot_name) && (not (eqs b dot_dot) && not (contains_any b (codes "/\\"))))

-- One more path element behind those that are kept, the last one first, as filepath.Join cleans
-- them: none where ".." leads out of the directory.
abbrev enter : Option (List Bytes) → Bytes → Option (List Bytes)
enter none c = none
enter (some kept) c =
    if eqs c [] || eqs c dot_name
    then some kept
    else if eqs c dot_dot
    then (elim kept [ [] ↦ none | x ∷ xs ↦ some xs ])
    else some (c ∷ kept)

unfoldable pub enter_all : Option (List Bytes) → List Bytes → Option (List Bytes)
unfolding eqs
enter_all o [] = o
enter_all o (c ∷ cs) = enter_all (enter o c) cs

abbrev only_name : Option (List Bytes) → Option Bytes
only_name none = none
only_name (some []) = none
only_name (some (x ∷ [])) = some x
only_name (some (x ∷ y ∷ xs)) = none

-- The file of refs/ that filepath.Join(refs, branch) names. No file can be written where the path is
-- refs/ itself, or lies in a directory below it, which is not there.
unfoldable pub ref_file : Bytes → Option Bytes
unfolding enter_all split
ref_file branch = only_name (enter_all (some []) (split slash branch))

abbrev all_hex : Bytes → Bool
all_hex [] = true
all_hex (c ∷ s) = hex_digit c && all_hex s

-- 16 characters that hex.DecodeString takes.
unfoldable pub is_commit_id : Bytes → Bool
is_commit_id s = (length s == 16) && all_hex s

-- CaseNameCollision over a directory's entries, with the suffix "".
unfoldable pub collides_with : Env → Bytes → List Bytes → Bool
unfolding eqs
collides_with env want [] = false
collides_with env want (got ∷ rest) =
    let on = collides_with env want rest in
    if eqs got want || not (env.equal_fold got want) then on else true

unfoldable pub case_name_collision : Env → List Bytes → Bytes → Option Error
unfolding collides_with
case_name_collision env entries name =
    if not env.folds
    then none
    else if collides_with env name entries
    then some (case_collision name)
    else none

-- caseTwin: is there another path of the view that differs from `p` only in case?
unfoldable pub has_twin : Env → Bytes → List Bytes → Bool
unfolding eqs
has_twin env p [] = false
has_twin env p (q ∷ rest) =
    let on = has_twin env p rest in if not (eqs q p) && env.equal_fold q p then true else on

-- The body of checkCommitCase behind its gate, for the paths of the resolved view.
unfoldable pub check_commit_case : Env → List Bytes → Bytes → Option Error
unfolding has_twin
check_commit_case env view_paths p =
    if not env.folds
    then none
    else if has_twin env p view_paths
    then some (case_collision p)
    else none

-- seen[strings.ToLower(p)] = p for each path of the view
unfoldable pub seen_paths : Env → List Bytes → Map Bytes
unfolding put
seen_paths env [] = []
seen_paths env (p ∷ ps) = put (env.to_lower p) p (seen_paths env ps)

-- The second loop of checkPathsCase.
unfoldable pub check_seen : Env → Map Bytes → List Bytes → Option Error
unfolding get put eqs
check_seen env seen [] = none
check_seen env seen (p ∷ ps) =
    let k = env.to_lower p in
    let rest = check_seen env (put k p seen) ps in
    elim (get k seen) [
      | none ↦ rest
      | some prev ↦ if eqs prev p then rest else some (case_collision p)
    ]

unfoldable pub check_paths_case : Env → List Bytes → List Bytes → Option Error
unfolding check_seen seen_paths
check_paths_case env view_paths paths =
    if not env.folds then none else check_seen env (seen_paths env view_paths) paths

-- viewCaseConflict: is there a pair of paths that differ only in case?
unfoldable pub paths_conflict : Env → Map Bytes → List Bytes → Bool
unfolding get put eqs
paths_conflict env seen [] = false
paths_conflict env seen (p ∷ ps) =
    let k = env.to_lower p in
    let rest = paths_conflict env (put k p seen) ps in
    elim (get k seen) [ none ↦ rest | some prev ↦ if eqs prev p then rest else true ]
