-- ===== src/Datums/Enumerate/Covers.antt =====
-- Which files the enumerated datums hold.
use mathlib.Core.List.{append-nil, append_assoc}
use sandman.Prelude.{
  Bytes, codes, ◌≡◌, refl, sym, ap, ◌∙◌, inl, inr, Bool, true, false, not, ◌&&◌, ◌||◌, List, [],
  ◌∷◌, ◌++◌, arith, if◌then◌else◌, eqs, eqs_iff, eqs_refl, has_prefix, is_some, All, Bool-cases,
  slash, has_prefix-append,
}
use sandman.Prelude.Map.{Map, get, put, keys, get-put}
use sandman.Prelude.Unique.{mem-append}
use sandman.Prelude.Sort.{mem, mem-sort}
use sandman.Store.View.{View}
use sandman.Datums.{DatumSide}
use sandman.Datums.Glob.{glob_matches}
use sandman.Datums.Enumerate.{
  dirs_above, add_all, cand_set, dir_prefix, below, files_of, enum_loop, enumerate_datums,
}

pub mem-keys {ℓ} : {V : Type ℓ} (s : Bytes) (m : Map V) → mem s (keys m) ≡ is_some (get s m)
unfolding mem keys get
mem-keys s [] = refl
mem-keys s ((k, v) ∷ m) = ground (arith, mem-keys s m)

mem-below :
    (f prefix : Bytes) (ps : List Bytes)
    → mem f (below prefix ps) ≡ (mem f ps && has_prefix prefix f)
unfolding mem below
mem-below f prefix [] = refl
mem-below f prefix (p ∷ ps) = ground (arith, eqs_iff p f, mem-below f prefix ps)

-- Does the file `f` stand at the candidate `c`, or below it where `c` is a directory?
abbrev pub at_or_below : View → Bytes → Bytes → Bool
at_or_below view c f = if is_some (get c view) then eqs c f else has_prefix (dir_prefix c) f

mem-files_of :
    (view : View) (c f : Bytes)
    → mem f (files_of view c) ≡ (mem f (keys view) && at_or_below view c f)
unfolding mem
mem-files_of view c f = elim (Bool-cases (is_some (get c view))) [
  | inl e ↦ rw e (ground (arith, eqs_iff c f, mem-keys f view, e))
  | inr e ↦
      rw e (mem-sort f (below (dir_prefix c) (keys view)) ∙ mem-below f (dir_prefix c) (keys view))
]

-- The datum of a side.
pub record IsDatumOf (view : View) (glob : Bytes) (d : DatumSide) : Type 0 where
  pub selected : glob_matches glob d.id ≡ true
  pub holds : (f : Bytes) → mem f d.files ≡ (mem f (keys view) && at_or_below view d.id f)

-- Is the file in one of the datums?
unfoldable pub covered : Bytes → List DatumSide → Bool
covered f [] = false
covered f (d ∷ ds) = mem f d.files || covered f ds

module _ (view : View) (glob : Bytes) where
  loop-IsDatumOf :
      (shadowed cs : List Bytes) → All (IsDatumOf view glob) (enum_loop view glob shadowed cs)
  unfolding enum_loop
  loop-IsDatumOf shadowed [] = tt
  loop-IsDatumOf shadowed (c ∷ cs) =
      let skip = mem c shadowed || not (glob_matches glob c) in
      let now = if skip || is_some (get c view) then shadowed else files_of view c ++ shadowed in
      elim (Bool-cases skip) [
        | inl e ↦ rw e (loop-IsDatumOf shadowed cs)
        | inr e ↦ rw e (
          record { selected = ground arith; holds = mem-files_of view c },
          loop-IsDatumOf (if is_some (get c view) then shadowed else files_of view c ++ shadowed)
              cs,
        )
      ]

  loop_covers :
      (f : Bytes) (shadowed cs : List Bytes)
      → mem f (keys view) ≡ true
      → glob_matches glob f ≡ true
      → mem f cs ≡ true
      → (mem f shadowed || covered f (enum_loop view glob shadowed cs)) ≡ true
  unfolding enum_loop covered mem
  loop_covers f shadowed [] h g m = cc
  loop_covers f shadowed (c ∷ cs) h g m =
      let skip = mem c shadowed || not (glob_matches glob c) in
      let now = if skip || is_some (get c view) then shadowed else files_of view c ++ shadowed in
      ground (
        arith,
        eqs_iff c f,
        mem-files_of view c f,
        mem-append f (files_of view c) shadowed,
        mem-keys f view,
        loop_covers f now cs h g,
      )

get-add_all :
    (f : Bytes) (ps : List Bytes) (m : Map Bool)
    → is_some (get f (add_all ps m)) ≡ (mem f ps || is_some (get f m))
unfolding add_all mem
get-add_all f [] m = refl
get-add_all f (p ∷ ps) m = ground (arith, get-add_all f ps (put p true m), get-put p f true m)

cand_lem :
    (c p : Bytes) (ps : List Bytes)
    → mem p ps ≡ true
    → (eqs p c || mem c (dirs_above [] p)) ≡ true
    → is_some (get c (cand_set ps)) ≡ true
unfolding cand_set mem
cand_lem c p [] h k = cc
cand_lem c p (q ∷ ps) h k = ground (
  arith,
  eqs_iff q p,
  get-put q c true (add_all (dirs_above [] q) (cand_set ps)),
  get-add_all c (dirs_above [] q) (cand_set ps),
  cand_lem c p ps,
)

root_cand : (ps : List Bytes) → is_some (get [] (cand_set ps)) ≡ true
unfolding cand_set get put eqs
root_cand [] = refl
root_cand (q ∷ ps) = ground (
  arith,
  get-put q [] true (add_all (dirs_above [] q) (cand_set ps)),
  get-add_all [] (dirs_above [] q) (cand_set ps),
  root_cand ps,
)

-- A directory is one of those above each path below it.
pub dirs_above-below : (acc d r : Bytes) → mem (acc ++ d) (dirs_above acc (d ++ slash ∷ r)) ≡ true
unfolding dirs_above mem
dirs_above-below acc [] r = ground (arith, append-nil acc, eqs_refl acc)
dirs_above-below acc (c ∷ d) r =
    ground (arith, append_assoc acc (c ∷ []) d, dirs_above-below (acc ++ c ∷ []) d r)

-- Every datum of enumerateDatums has a path that the glob selects, and holds exactly the files of
-- the view that stand at that path or, where it is a directory, below it. Every file of the view
-- that the glob selects is in one of the datums.
pub enumerate_datums_lem :
    (view : View) (glob : Bytes)
    → All (IsDatumOf view glob) (enumerate_datums view glob)
      × ((f : Bytes)
          → mem f (keys view) ≡ true
          → glob_matches glob f ≡ true
          → covered f (enumerate_datums view glob) ≡ true)
unfolding enumerate_datums mem
enumerate_datums_lem view glob = (
  loop-IsDatumOf view glob [] (keys (cand_set (keys view))),
  λ f h g.
      loop_covers view glob f [] (keys (cand_set (keys view))) h g (
        mem-keys f (cand_set (keys view))
        ∙ cand_lem f f (keys view) h (ground (arith, eqs_refl f))),
)

-- The datum of the given path.
abbrev has_datum : Bytes → List DatumSide → Bool
has_datum c [] = false
has_datum c (d ∷ ds) = eqs d.id c || has_datum c ds

-- Directories are not shadowed: `shadowed` holds files alone.
abbrev AreFiles : View → List Bytes → Type 0
AreFiles view s = (c : Bytes) → mem c s ≡ true → mem c (keys view) ≡ true

loop_has_datum :
    (view : View) (glob c : Bytes) (shadowed cs : List Bytes)
    → AreFiles view shadowed
    → glob_matches glob c ≡ true
    → mem c (keys view) ≡ false
    → mem c cs ≡ true
    → has_datum c (enum_loop view glob shadowed cs) ≡ true
unfolding enum_loop mem
loop_has_datum view glob c shadowed [] a g n m = cc
loop_has_datum view glob c shadowed (b ∷ cs) a g n m =
    let skip = mem b shadowed || not (glob_matches glob b) in
    let now = if skip || is_some (get b view) then shadowed else files_of view b ++ shadowed in
    let a' : AreFiles view now =
      λ f h. ground (arith, mem-append f (files_of view b) shadowed, mem-files_of view b f, a f) in
    ground (arith, eqs_iff b c, a c, loop_has_datum view glob c now cs a' g n)

dir_prefix-below : (d r : Bytes) → has_prefix (dir_prefix d) (d ++ slash ∷ r) ≡ true
unfolding has_prefix
dir_prefix-below [] r = refl
dir_prefix-below (c ∷ d) r =
    ap (has_prefix ((c ∷ d) ++ slash ∷ [])) (sym (append_assoc (c ∷ d) (slash ∷ []) r))
    ∙ has_prefix-append ((c ∷ d) ++ slash ∷ []) r

-- Is the file one of those of a datum at the path `c`?
abbrev pub in_datum : Bytes → Bytes → List DatumSide → Bool
in_datum f c [] = false
in_datum f c (d ∷ ds) = (eqs d.id c && mem f d.files) || in_datum f c ds

in_datum_lem :
    (view : View) (glob f c : Bytes) (ds : List DatumSide)
    → All (IsDatumOf view glob) ds
    → has_datum c ds ≡ true
    → mem f (keys view) ≡ true
    → at_or_below view c f ≡ true
    → in_datum f c ds ≡ true
in_datum_lem view glob f c [] a h m b = cc
in_datum_lem view glob f c (d ∷ ds) a h m b = elim (Bool-cases (eqs d.id c)) [
  | inl e ↦
      let same : at_or_below view d.id f ≡ true = rw ((eqs_iff d.id c).0 e) b in
      ground (arith, a.0.holds f, m, same, e)
  | inr e ↦ ground (arith, e, in_datum_lem view glob f c ds a.1, h, m, b)
]

-- With the glob `**`, a file of the view below a directory `d`, which like the root is no file
-- itself, is one of the files of the root's datum and one of the files of the datum of `d`.
pub enumerate_datums_twice :
    (view : View) (d r : Bytes)
    → mem (d ++ slash ∷ r) (keys view) ≡ true
    → mem d (keys view) ≡ false
    → mem [] (keys view) ≡ false
    → (in_datum (d ++ slash ∷ r) [] (enumerate_datums view (codes "**")) ≡ true)
      × (in_datum (d ++ slash ∷ r) d (enumerate_datums view (codes "**")) ≡ true)
unfolding enumerate_datums glob_matches eqs has_prefix mem
enumerate_datums_twice view d r h n e =
    let cs = keys (cand_set (keys view)) in
    let ds = enum_loop view (codes "**") [] cs in
    let datums = loop-IsDatumOf view (codes "**") [] cs in
    let c =
      mem-keys d (cand_set (keys view))
      ∙ cand_lem d (d ++ slash ∷ r) (keys view) h (ground (arith, dirs_above-below [] d r)) in
    (
      in_datum_lem view (codes "**") (d ++ slash ∷ r) [] ds datums
          (loop_has_datum view (codes "**") [] [] cs (λ c m. cc) refl e
            (mem-keys [] (cand_set (keys view)) ∙ root_cand (keys view)))
          h (ground (arith, mem-keys [] view, e)),
      in_datum_lem view (codes "**") (d ++ slash ∷ r) d ds datums
          (loop_has_datum view (codes "**") d [] cs (λ c m. cc) (ground arith) n c) h
          (ground (arith, mem-keys d view, n, dir_prefix-below d r)),
    )
