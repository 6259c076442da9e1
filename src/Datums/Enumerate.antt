-- ===== src/Datums/Enumerate.antt =====
-- enumerateDatums: the datums of one side, one for each path that the glob matches.
pub mod Covers
use sandman.Prelude.{
  Bytes, codes, ℕ, Bool, true, false, not, ◌&&◌, ◌||◌, Option, none, some, List, [], ◌∷◌, ◌++◌,
  if◌then◌else◌, eqs, ◌==◌, has_prefix, is_some, slash,
}
use sandman.Prelude.Map.{Map, get, put, keys}
use sandman.Prelude.Sort.{sort, mem}
use sandman.Store.View.{View}
use sandman.Datums.{DatumSide}
use sandman.Datums.Glob.{glob_matches}

-- The directories above a path, by its slashes.
unfoldable pub dirs_above : Bytes → Bytes → List Bytes
dirs_above acc [] = []
dirs_above acc (c ∷ s) =
    let rest = dirs_above (acc ++ c ∷ []) s in if c == slash then acc ∷ rest else rest

-- candSet as a map whose keys are the candidates.
unfoldable pub add_all : List Bytes → Map Bool → Map Bool
add_all [] m = m
add_all (p ∷ ps) m = add_all ps (put p true m)

unfoldable pub cand_set : List Bytes → Map Bool
unfolding add_all dirs_above
cand_set [] = put [] true []
cand_set (p ∷ ps) = put p true (add_all (dirs_above [] p) (cand_set ps))

-- The files below a directory; the root holds them all.
abbrev pub dir_prefix : Bytes → Bytes
dir_prefix [] = []
dir_prefix (c ∷ s) = (c ∷ s) ++ slash ∷ []

unfoldable pub below : Bytes → List Bytes → List Bytes
below prefix [] = []
below prefix (p ∷ ps) = let rest = below prefix ps in if has_prefix prefix p then p ∷ rest else rest

abbrev pub files_of : View → Bytes → List Bytes
files_of view c = if is_some (get c view) then c ∷ [] else sort (below (dir_prefix c) (keys view))

abbrev pub side_of : Bytes → List Bytes → DatumSide
side_of c files = record { name = []; id = c; files = files; merge = none }

-- The loop over the sorted candidates.
unfoldable pub enum_loop : View → Bytes → List Bytes → List Bytes → List DatumSide
unfolding glob_matches below sort
enum_loop view glob shadowed [] = []
enum_loop view glob shadowed (c ∷ cs) =
    let skip = mem c shadowed || not (glob_matches glob c) in
    let files = files_of view c in
    let now = if skip || is_some (get c view) then shadowed else files ++ shadowed in
    let rest = enum_loop view glob now cs in if skip then rest else side_of c files ∷ rest

unfoldable pub enumerate_datums : View → Bytes → List DatumSide
unfolding cand_set enum_loop
enumerate_datums view glob = enum_loop view glob [] (keys (cand_set (keys view)))
