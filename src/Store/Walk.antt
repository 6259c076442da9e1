-- ===== src/Store/Walk.antt =====
-- WalkFiles (store.go): the files below a directory, symbolic links followed. What the operating
-- system answers is a parameter.
pub mod Regular
use sandman.Prelude.{
  Bytes, ℕ, zero, suc, Option, none, some, List, [], ◌∷◌, ◌++◌, if◌then◌else◌, eqs,
}

pub data FileKind : Type 0 where
  directory regular symlink special : FileKind

-- Each call fails with `none`.
pub record FileSystem : Type 0 where
  pub read_dir : Bytes → Option (List Bytes)
  pub lstat : Bytes → Option FileKind
  pub stat : Bytes → Option FileKind
  pub read_link : Bytes → Option Bytes
  pub read_file : Bytes → Option Bytes
  pub join : Bytes → Bytes → Bytes

pub data WalkError : Type 0 where
  depth_exceeded : Bytes → WalkError
  special_file : Bytes → WalkError
  io_error : WalkError

-- The files in the order of the visits, with their content, the paths that were given to
-- os.ReadFile, in their order, and the error that ended the walk.
pub record Walked : Type 0 where
  pub visited : List (Bytes × Bytes)
  pub opened : List Bytes
  pub failure : Option WalkError

abbrev pub failed : WalkError → Walked
failed e = record { visited = []; opened = []; failure = some e }

-- What `child` stands for: its path after a link is followed, and what is there. `link_target` maps
-- the target of a link; the empty result falls back to the link itself.
unfoldable pub resolve : FileSystem → (Bytes → Bytes) → Bytes → Option (Bytes × FileKind)
resolve fs link_target child = elim (fs.lstat child) [
  | none ↦ none
  | some symlink ↦ elim (fs.read_link child) [
    | none ↦ none
    | some target ↦
        let mapped = link_target target in
        let resolved = if eqs mapped [] then child else mapped in
        elim (fs.stat resolved) [ none ↦ none | some k ↦ some (resolved, k) ]
  ]
  | some k ↦ some (child, k)
]

abbrev pub read_regular : FileSystem → Bytes → Bytes → Walked
read_regular fs resolved rel = elim (fs.read_file resolved) [
  | none ↦ record { visited = []; opened = resolved ∷ []; failure = some io_error }
  | some content ↦ record { visited = (rel, content) ∷ []; opened = resolved ∷ []; failure = none }
]

-- One entry. `below` walks a directory at the next depth.
abbrev pub visit_entry :
    FileSystem → (Bytes → Bytes → Walked) → Bytes → Option (Bytes × FileKind) → Walked
visit_entry fs below rel none = failed io_error
visit_entry fs below rel (some (resolved, directory)) = below resolved rel
visit_entry fs below rel (some (resolved, regular)) = read_regular fs resolved rel
visit_entry fs below rel (some (resolved, symlink)) = failed (special_file rel)
visit_entry fs below rel (some (resolved, special)) = failed (special_file rel)

abbrev pub after : Walked → Walked → Walked
after w rest = elim (w.failure) [
  | some e ↦ w
  | none ↦ record {
    visited = w.visited ++ rest.visited;
    opened = w.opened ++ rest.opened;
    failure = rest.failure;
  }
]

unfoldable pub walk_entries :
    FileSystem → (Bytes → Bytes) → (Bytes → Bytes → Walked) → Bytes → Bytes → List Bytes → Walked
unfolding resolve
walk_entries fs link_target below p rel [] = record { visited = []; opened = []; failure = none }
walk_entries fs link_target below p rel (name ∷ names) =
    let rest = walk_entries fs link_target below p rel names in
    after (visit_entry fs below (fs.join rel name) (resolve fs link_target (fs.join p name))) rest

-- `n` is the number of levels that may still be entered.
unfoldable pub walk_depth : ℕ → FileSystem → (Bytes → Bytes) → Bytes → Bytes → Walked
unfolding walk_entries
walk_depth zero fs link_target p rel = failed (depth_exceeded p)
walk_depth (suc n) fs link_target p rel = elim (fs.read_dir p) [
  | none ↦ failed io_error
  | some names ↦ walk_entries fs link_target (walk_depth n fs link_target) p rel names
]

-- Depths 0 to 64.
unfoldable pub walk_files : FileSystem → (Bytes → Bytes) → Bytes → Walked
unfolding walk_depth
walk_files fs link_target dir = walk_depth 65 fs link_target dir []
