-- ===== src/Samples/WalkRuns.antt =====
-- The theorem on WalkFiles, run on a directory with a file, a link and a pipe.
use sandman.Prelude.{Bytes, codes, List, some, none, [], ◌∷◌, ◌++◌, All, eqs, if◌then◌else◌}
use sandman.Store.Walk.{FileSystem, regular, symlink, special, walk_files}
use sandman.Store.Walk.Regular.{IsVisit, IsOpened, walk_files_lem}

abbrev three_entries : FileSystem
three_entries = record {
  read_dir = λ p. if eqs p (codes "d") then some (codes "a" ∷ codes "l" ∷ codes "p" ∷ []) else none;
  lstat = λ p.
      if eqs p (codes "d/l")
      then some symlink
      else if eqs p (codes "d/p")
      then some special
      else some regular;
  stat = λ p. some regular;
  read_link = λ p. some (codes "t");
  read_file = λ p. some p;
  join = λ p n. p ++ codes "/" ++ n;
}

abbrev on_host : Bytes → Bytes
on_host target = codes "h/" ++ target

abbrev walked_paths : List (Bytes × Bytes)
walked_paths = (codes "/a", codes "d/a") ∷ (codes "/l", codes "h/t") ∷ []

walk_files_lem_example :
    All (IsVisit three_entries on_host (codes "d")) walked_paths
    × All (IsOpened three_entries on_host (codes "d")) (codes "d/a" ∷ codes "h/t" ∷ [])
unfolding walk_files eqs
walk_files_lem_example = walk_files_lem three_entries on_host (codes "d")
