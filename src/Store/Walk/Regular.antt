-- ===== src/Store/Walk/Regular.antt =====
-- Which files WalkFiles visits and reads.
use mathlib.Core.Path.{subst}
use sandman.Prelude.{
  Bytes, ℕ, zero, suc, ◌≡◌, ◌≢◌, refl, inl, inr, Option, none, some, some_inj, List, [], ◌∷◌, arith,
  true, false, eqs, All, All-append, Bool-cases, Option-cases, Elem, at_head, in_tail,
}
use sandman.Store.Walk.{
  FileKind, directory, regular, symlink, special, FileSystem, Walked, resolve, read_regular,
  visit_entry, after, walk_entries, walk_depth, walk_files,
}

-- What a path stands for: itself, or behind a symbolic link the path that the target is mapped to,
-- and the link where it is mapped to none.
pub data StandsFor (fs : FileSystem) (link_target : Bytes → Bytes) (child : Bytes)
    : Bytes → FileKind → Type 0 where
  itself : {k : FileKind} → fs.lstat child ≡ some k → StandsFor fs link_target child child k
  mapped :
      {k : FileKind} {target : Bytes}
      → fs.lstat child ≡ some symlink
      → fs.read_link child ≡ some target
      → eqs (link_target target) [] ≡ false
      → fs.stat (link_target target) ≡ some k
      → StandsFor fs link_target child (link_target target) k
  followed :
      {k : FileKind} {target : Bytes}
      → fs.lstat child ≡ some symlink
      → fs.read_link child ≡ some target
      → eqs (link_target target) [] ≡ true
      → fs.stat child ≡ some k
      → StandsFor fs link_target child child k

-- The tree below `dir`: the path of a node, its name in the tree, and what it is.
pub data IsNode (fs : FileSystem) (link_target : Bytes → Bytes) (dir : Bytes)
    : Bytes → Bytes → FileKind → Type 0 where
  top : IsNode fs link_target dir dir [] directory
  entry :
      {p rel q name : Bytes} {k : FileKind} {names : List Bytes}
      → IsNode fs link_target dir p rel directory
      → fs.read_dir p ≡ some names
      → Elem name names
      → StandsFor fs link_target (fs.join p name) q k
      → IsNode fs link_target dir q (fs.join rel name) k

-- A visit is that of a regular file of the tree, under its name there and with its content.
abbrev pub IsVisit : FileSystem → (Bytes → Bytes) → Bytes → Bytes × Bytes → Type 0
IsVisit fs link_target dir v =
    (q : Bytes) × IsNode fs link_target dir q v.0 regular × (fs.read_file q ≡ some v.1)

abbrev pub IsOpened : FileSystem → (Bytes → Bytes) → Bytes → Bytes → Type 0
IsOpened fs link_target dir q = (rel : Bytes) × IsNode fs link_target dir q rel regular

module _ (fs : FileSystem) (link_target : Bytes → Bytes) where
  resolve-link :
      (child q : Bytes) (k : FileKind)
      → fs.lstat child ≡ some symlink
      → resolve fs link_target child ≡ some (q, k)
      → StandsFor fs link_target child q k
  unfolding resolve
  resolve-link child q k l h = elim (Option-cases (fs.read_link child)) [
    | inl e ↦ absurd (ground (arith, l, e))
    | inr (target, e) ↦ elim (Bool-cases (eqs (link_target target) [])) [
      | inl m ↦ elim (Option-cases (fs.stat child)) [
        | inl g ↦ absurd (ground (arith, l, e, m, g))
        | inr (x, g) ↦
            let r : (child, x) ≡ (q, k) = some_inj (ground (arith, l, e, m, g)) in
            subst (λ (y : Bytes × FileKind). StandsFor fs link_target child y.0 y.1) r
              (followed l e m g)
      ]
      | inr m ↦ elim (Option-cases (fs.stat (link_target target))) [
        | inl g ↦ absurd (ground (arith, l, e, m, g))
        | inr (x, g) ↦
            let r : (link_target target, x) ≡ (q, k) = some_inj (ground (arith, l, e, m, g)) in
            subst (λ (y : Bytes × FileKind). StandsFor fs link_target child y.0 y.1) r
              (mapped l e m g)
      ]
    ]
  ]

  resolve_lem :
      (child q : Bytes) (k : FileKind)
      → resolve fs link_target child ≡ some (q, k)
      → StandsFor fs link_target child q k
  unfolding resolve
  resolve_lem child q k h = go (fs.lstat child) refl
    where
      plain :
          (x : FileKind)
          → fs.lstat child ≡ some x
          → ◌≡◌ {A = Option (Bytes × FileKind)} (some (child, x)) (some (q, k))
          → StandsFor fs link_target child q k
      plain x l e =
          subst (λ (y : Bytes × FileKind). StandsFor fs link_target child y.0 y.1) (some_inj e)
            (itself l)

      go : (o : Option FileKind) → fs.lstat child ≡ o → StandsFor fs link_target child q k
      go none l = absurd (ground (arith, l, h))
      go (some directory) l = plain directory l (ground (arith, l, h))
      go (some regular) l = plain regular l (ground (arith, l, h))
      go (some special) l = plain special l (ground (arith, l, h))
      go (some symlink) l = resolve-link child q k l h

  module _ (dir : Bytes) where
    abbrev AreRead : Walked → Type 0
    AreRead w =
        All (IsVisit fs link_target dir) w.visited × All (IsOpened fs link_target dir) w.opened

    after-AreRead : (w rest : Walked) → AreRead w → AreRead rest → AreRead (after w rest)
    after-AreRead w rest h k = elim (Option-cases w.failure) [
      | inl e ↦ rw e (
        All-append (IsVisit fs link_target dir) w.visited rest.visited h.0 k.0,
        All-append (IsOpened fs link_target dir) w.opened rest.opened h.1 k.1,
      )
      | inr (x, e) ↦ rw e h
    ]

    abbrev IsWalk : (Bytes → Bytes → Walked) → Type 0
    IsWalk below =
        (p rel : Bytes) → IsNode fs link_target dir p rel directory → AreRead (below p rel)

    visit-AreRead :
        (below : Bytes → Bytes → Walked)
        → IsWalk below
        → (rel : Bytes) (o : Option (Bytes × FileKind))
        → ((q : Bytes) (k : FileKind) → o ≡ some (q, k) → IsNode fs link_target dir q rel k)
        → AreRead (visit_entry fs below rel o)
    visit-AreRead below h rel none e = (tt, tt)
    visit-AreRead below h rel (some (q, directory)) e = h q rel (e q directory refl)
    visit-AreRead below h rel (some (q, symlink)) e = (tt, tt)
    visit-AreRead below h rel (some (q, special)) e = (tt, tt)
    visit-AreRead below h rel (some (q, regular)) e =
        let here = e q regular refl in
        elim (Option-cases (fs.read_file q)) [
          | inl g ↦ rw (visit_entry, read_regular, g) (tt, ((rel, here), tt))
          | inr (d, g) ↦ rw (visit_entry, read_regular, g) (((q, here, g), tt), ((rel, here), tt))
        ]

    entries-AreRead :
        (below : Bytes → Bytes → Walked)
        → IsWalk below
        → (p rel : Bytes) → IsNode fs link_target dir p rel directory
        → (all : List Bytes) → fs.read_dir p ≡ some all
        → (names : List Bytes) → ((name : Bytes) → Elem name names → Elem name all)
        → AreRead (walk_entries fs link_target below p rel names)
    unfolding walk_entries
    entries-AreRead below h p rel i all e [] m = (tt, tt)
    entries-AreRead below h p rel i all e (name ∷ names) m =
        after-AreRead _ (walk_entries fs link_target below p rel names)
          (visit-AreRead below h (fs.join rel name) (resolve fs link_target (fs.join p name))
            (λ q k r. entry i e (m name at_head) (resolve_lem (fs.join p name) q k r)))
          (entries-AreRead below h p rel i all e names (λ n j. m n (in_tail j)))

    walk_depth-AreRead : (n : ℕ) → IsWalk (walk_depth n fs link_target)
    unfolding walk_depth
    walk_depth-AreRead zero p rel i = (tt, tt)
    walk_depth-AreRead (suc n) p rel i = elim (Option-cases (fs.read_dir p)) [
      | inl e ↦ rw (walk_depth, e) (tt, tt)
      | inr (names, e) ↦
          rw (walk_depth, e)
            (entries-AreRead (walk_depth n fs link_target) (walk_depth-AreRead n) p rel i names e
              names (λ name m. m))
    ]

    -- Also where it ends with an error, WalkFiles visits regular files of the tree below the
    -- directory alone, links followed, each under its name in the tree and with the content that
    -- is read from it; and it reads no other file at all, so that no pipe, socket or device is ever
    -- read.
    pub walk_files_lem :
        All (IsVisit fs link_target dir) (walk_files fs link_target dir).visited
        × All (IsOpened fs link_target dir) (walk_files fs link_target dir).opened
    unfolding walk_files
    walk_files_lem = walk_depth-AreRead 65 dir [] top

  below-special :
      (below : Bytes → Bytes → Walked) (p rel : Bytes) (names : List Bytes)
      → (walk_entries fs link_target below p rel names).failure ≡ none
      → All
          (λ (name : Bytes).
            (q : Bytes) → resolve fs link_target (fs.join p name) ≢ some (q, special))
          names
  unfolding walk_entries
  below-special below p rel [] h = tt
  below-special below p rel (name ∷ names) h =
      elim (Option-cases
        (visit_entry fs below (fs.join rel name)
          (resolve fs link_target (fs.join p name))).failure) [
            | inl e ↦ (
              λ q s. absurd (ground (arith, e, s)),
              below-special below p rel names (ground (arith, e, h)),
            )
            | inr (x, e) ↦ absurd (ground (arith, e, h))
          ]

  -- Where WalkFiles of a directory that can be listed returns no error, no entry of it stands for
  -- a special file.
  pub walk_files-special :
      (dir : Bytes) (names : List Bytes)
      → fs.read_dir dir ≡ some names
      → (walk_files fs link_target dir).failure ≡ none
      → All
          (λ (name : Bytes).
            (q : Bytes) → resolve fs link_target (fs.join dir name) ≢ some (q, special))
          names
  unfolding walk_files walk_depth
  walk_files-special dir names e h =
      below-special (walk_depth 64 fs link_target) dir [] names (ground (arith, e, h))
