-- ===== src/Datums/Merge/Contents.antt =====
-- The files of a job's output against the contributions of its datums.
use mathlib.Core.List.{append_assoc}
use mathlib.Core.Path.{subst}
use sandman.Prelude.{
  Bytes, Bool, codes, not, ◌≡◌, refl, sym, ap, ◌∙◌, inl, inr, true, false, ◌&&◌, ◌||◌, Option, none,
  some, List, [], ◌∷◌, ◌++◌, length, length-append, if◌then◌else◌, eqs, eqs_iff, has_prefix,
  has_prefix-append, is_some, slash, Bool-cases, arith,
}
use sandman.Prelude.Map.{Map, get, put, keys, get-put}
use sandman.Prelude.Sort.{mem}
use sandman.Prelude.Unique.{mem-append}
use sandman.Prelude.Result.{ok, ok_inj, chain_ok}
use sandman.Store.Data.{Store}
use sandman.Store.Records.{read_blob}
use sandman.Datums.{FileRef, Datum}
use sandman.Datums.Cross.{for_each}
use sandman.Datums.Enumerate.{dirs_above}
use sandman.Datums.Enumerate.Covers.{mem-keys, dirs_above-below}
use sandman.Datums.Merge.{
  JobExec, state_of, paths_of, carried, is_stale, any_file, any_below, content_of, merge_file,
  merge_files, fresh_paths, contributed, merge_loop, merge_outputs,
}

-- The references with the path, in their order.
abbrev pub at_path : Bytes → List FileRef → List FileRef
at_path p [] = []
at_path p (f ∷ fs) = let rest = at_path p fs in if eqs f.path p then f ∷ rest else rest

-- Their contents one after the other, onto what is there.
abbrev pub appended : Store → Option Bytes → List FileRef → Option Bytes
appended s o [] = o
appended s o (f ∷ fs) = appended s (some (content_of o ++ content_of (read_blob s f.hash))) fs

merge_file_lem :
    (s : Store) (out now : Map Bytes) (f : FileRef)
    → merge_file s out f ≡ ok now
    → ((any_file (dirs_above [] f.path) out || any_below f.path (keys out)) ≡ false)
      × (now ≡ put f.path (content_of (get f.path out) ++ content_of (read_blob s f.hash)) out)
unfolding merge_file
merge_file_lem s out now f h = ground (arith, h)

files_step :
    (s : Store) (f : FileRef) (fs : List FileRef) (out now : Map Bytes)
    → merge_files s out (f ∷ fs) ≡ ok now
    → (mid : Map Bytes) × (merge_file s out f ≡ ok mid) × (merge_files s mid fs ≡ ok now)
unfolding merge_files
files_step s f fs out now h = chain_ok (merge_file s out f) (λ mid. merge_files s mid fs) now h

merge_files_lem :
    (s : Store) (p : Bytes) (fs : List FileRef) (out now : Map Bytes)
    → merge_files s out fs ≡ ok now
    → get p now ≡ appended s (get p out) (at_path p fs)
unfolding merge_files
merge_files_lem s p [] out now h = ap (get p) (sym (ok_inj h))
merge_files_lem s p (f ∷ fs) out now h =
    let (mid, k, l) = files_step s f fs out now h in
    let b = content_of (get f.path out) ++ content_of (read_blob s f.hash) in
    let w = (merge_file_lem s out mid f k).1 in
    let g : get p mid ≡ (if eqs f.path p then some b else get p out) =
      ap (get p) w ∙ get-put f.path p b out in
    merge_files_lem s p fs mid now l ∙ elim (Bool-cases (eqs f.path p)) [
      | inl e ↦ rw (g, e) (rw ((eqs_iff f.path p).0 e) refl)
      | inr e ↦ rw (g, e) refl
    ]

merge_files-append :
    (s : Store) (xs ys : List FileRef) (out mid now : Map Bytes)
    → merge_files s out xs ≡ ok mid
    → merge_files s mid ys ≡ ok now
    → merge_files s out (xs ++ ys) ≡ ok now
unfolding merge_files
merge_files-append s [] ys out mid now h k = rw (ok_inj h) k
merge_files-append s (x ∷ xs) ys out mid now h k =
    let (new, l, m) = files_step s x xs out mid h in
    rw (merge_files, l) (merge_files-append s xs ys new mid now m k)

merge_loop_lem :
    (s : Store) (jx : JobExec) (skipped fresh : List Bytes) (dts : List Datum) (out now : Map Bytes)
    → merge_loop s jx skipped fresh out dts ≡ ok now
    → merge_files s out (for_each (contributed jx skipped fresh) dts) ≡ ok now
unfolding merge_loop merge_files
merge_loop_lem s jx skipped fresh [] out now h = h
merge_loop_lem s jx skipped fresh (dt ∷ dts) out now h =
    let (mid, k, l) =
      chain_ok (merge_files s out (contributed jx skipped fresh dt))
        (λ mid. merge_loop s jx skipped fresh mid dts) now h in
    merge_files-append s (contributed jx skipped fresh dt)
      (for_each (contributed jx skipped fresh) dts) out mid now k
      (merge_loop_lem s jx skipped fresh dts mid now l)

-- No file lies below another.
abbrev pub IsTree : Map Bytes → Type 0
IsTree out = (d r : Bytes) → (is_some (get d out) && is_some (get (d ++ slash ∷ r) out)) ≡ false

abbrev AreApart : Map Bytes → Type 0
AreApart out = (d r : Bytes) → is_some (get d out) ≡ true → get (d ++ slash ∷ r) out ≡ none

AreApart-IsTree : (out : Map Bytes) → AreApart out → IsTree out
AreApart-IsTree out t d r = elim (Bool-cases (is_some (get d out))) [
  | inl e ↦ rw (e, t d r e) refl
  | inr e ↦ rw e refl
]

any_file_lem :
    (d : Bytes) (ds : List Bytes) (out : Map Bytes)
    → any_file ds out ≡ false
    → mem d ds ≡ true
    → is_some (get d out) ≡ false
unfolding any_file mem
any_file_lem d [] out h m = cc
any_file_lem d (e ∷ ds) out h m = elim (Bool-cases (eqs e d)) [
  | inl b ↦ rw⁻¹ ((eqs_iff e d).0 b) (ground arith)
  | inr b ↦ any_file_lem d ds out (ground arith) (ground arith)
]

any_below_lem :
    (p k : Bytes) (ks : List Bytes)
    → any_below p ks ≡ false
    → has_prefix (p ++ slash ∷ []) k ≡ true
    → mem k ks ≡ false
unfolding any_below mem
any_below_lem p k [] h e = refl
any_below_lem p k (j ∷ ks) h e = elim (Bool-cases (eqs j k)) [
  | inl b ↦
      absurd
        (let z : has_prefix (p ++ slash ∷ []) j ≡ true = rw ((eqs_iff j k).0 b) e in ground arith)
  | inr b ↦ rw b (any_below_lem p k ks (ground arith) e)
]

longer : (d r : Bytes) → eqs d (d ++ slash ∷ r) ≡ false
longer d r = elim (Bool-cases (eqs d (d ++ slash ∷ r))) [
  | inr b ↦ b
  | inl b ↦ absurd (
      let z = ap length ((eqs_iff d (d ++ slash ∷ r)).0 b) in
      omega (arith, z, length-append d (slash ∷ r)))
]

none_there : (o : Option Bytes) → is_some o ≡ false → o ≡ none
none_there none h = refl
none_there (some b) h = cc

merge_file-AreApart :
    (s : Store) (out now : Map Bytes) (f : FileRef)
    → merge_file s out f ≡ ok now
    → AreApart out
    → AreApart now
merge_file-AreApart s out now f h t d r e =
    let l = merge_file_lem s out now f h in
    let b = content_of (get f.path out) ++ content_of (read_blob s f.hash) in
    let g : (p : Bytes) → get p now ≡ (if eqs f.path p then some b else get p out) =
      λ p. ap (get p) l.1 ∙ get-put f.path p b out in
    elim (Bool-cases (eqs f.path d)) [
      | inl c ↦
          let same = (eqs_iff f.path d).0 c in
          let n : eqs f.path (d ++ slash ∷ r) ≡ false = rw same (longer d r) in
          let u : any_below d (keys out) ≡ false = rw⁻¹ same (ground (arith, l.0)) in
          let pre : has_prefix (d ++ slash ∷ []) (d ++ slash ∷ r) ≡ true =
            ap (has_prefix (d ++ slash ∷ [])) (sym (append_assoc d (slash ∷ []) r))
            ∙ has_prefix-append (d ++ slash ∷ []) r in
          g (d ++ slash ∷ r)
          ∙ rw n (
              none_there (get (d ++ slash ∷ r) out) (
                sym (mem-keys (d ++ slash ∷ r) out)
                ∙ any_below_lem d (d ++ slash ∷ r) (keys out) u pre))
      | inr c ↦
          let there : is_some (get d out) ≡ true = sym (ap is_some (g d) ∙ rw c refl) ∙ e in
          elim (Bool-cases (eqs f.path (d ++ slash ∷ r))) [
            | inl k ↦ absurd (
                let u : any_file (dirs_above [] (d ++ slash ∷ r)) out ≡ false =
                  rw⁻¹ ((eqs_iff f.path (d ++ slash ∷ r)).0 k) (ground (arith, l.0)) in
                let z =
                  any_file_lem d (dirs_above [] (d ++ slash ∷ r)) out u (dirs_above-below [] d r) in
                ground (arith, z, there))
            | inr k ↦ g (d ++ slash ∷ r) ∙ rw k (t d r there)
          ]
    ]

merge_files-AreApart :
    (s : Store) (fs : List FileRef) (out now : Map Bytes)
    → merge_files s out fs ≡ ok now
    → AreApart out
    → AreApart now
unfolding merge_files
merge_files-AreApart s [] out now h t = subst AreApart (ok_inj h) t
merge_files-AreApart s (f ∷ fs) out now h t =
    let (mid, k, l) = files_step s f fs out now h in
    merge_files-AreApart s fs mid now l (merge_file-AreApart s out mid f k t)

-- Did the datum run its user code in this job?
abbrev pub ran : JobExec → List Bytes → Datum → Bool
ran jx skipped dt =
    let o = (state_of jx dt.id).outcome in
    not (mem dt.id skipped) && (eqs o (codes "success") || eqs o (codes "recovered"))

abbrev pub writes : Bytes → List FileRef → Bool
writes p [] = false
writes p (f ∷ fs) = eqs f.path p || writes p fs

-- Has a datum that ran written the path?
abbrev pub ran_wrote : JobExec → List Bytes → Bytes → List Datum → Bool
ran_wrote jx skipped p [] = false
ran_wrote jx skipped p (dt ∷ dts) =
    (ran jx skipped dt && writes p (state_of jx dt.id).files) || ran_wrote jx skipped p dts

-- Do the datum's files at the path go into the output? Those of a datum that ran or was recorded as
-- skipped do, and those carried for a skipped one unless their record is of another transform and
-- the path was written anew.
abbrev pub counts : JobExec → List Bytes → List Datum → Bytes → Datum → Bool
counts jx skipped datums p dt =
    let st = state_of jx dt.id in
    if mem dt.id skipped
    then eqs st.transform_hash []
      || (eqs st.transform_hash jx.transform_hash || not (ran_wrote jx skipped p datums))
    else ran jx skipped dt || eqs st.outcome (codes "skipped")

-- The references at the path that go into the output, in the order of the datums `dts`.
abbrev pub parts_at : JobExec → List Bytes → List Datum → Bytes → List Datum → List FileRef
parts_at jx skipped datums p [] = []
parts_at jx skipped datums p (dt ∷ dts) =
    let rest = parts_at jx skipped datums p dts in
    if counts jx skipped datums p dt then at_path p (state_of jx dt.id).files ++ rest else rest

at_path-append :
    (p : Bytes) (xs ys : List FileRef) → at_path p (xs ++ ys) ≡ at_path p xs ++ at_path p ys
at_path-append p [] ys = refl
at_path-append p (x ∷ xs) ys = ground (arith, at_path-append p xs ys)

mem-paths_of : (p : Bytes) (fs : List FileRef) → mem p (paths_of fs) ≡ writes p fs
unfolding mem
mem-paths_of p [] = refl
mem-paths_of p (f ∷ fs) = ap (λ (b : Bool). eqs f.path p || b) (mem-paths_of p fs)

mem-fresh_paths :
    (jx : JobExec) (skipped : List Bytes) (p : Bytes) (dts : List Datum)
    → mem p (fresh_paths jx skipped dts) ≡ ran_wrote jx skipped p dts
unfolding fresh_paths mem
mem-fresh_paths jx skipped p [] = refl
mem-fresh_paths jx skipped p (dt ∷ dts) =
    let fs = (state_of jx dt.id).files in
    ground (
      arith,
      mem-append p (paths_of fs) (fresh_paths jx skipped dts),
      mem-paths_of p fs,
      mem-fresh_paths jx skipped p dts,
    )

at_path-carried :
    (p : Bytes) (fresh : List Bytes) (stale : Bool) (fs : List FileRef)
    → at_path p (carried fresh stale fs) ≡ (if mem p fresh && stale then [] else at_path p fs)
at_path-carried p fresh stale [] = ground arith
at_path-carried p fresh stale (f ∷ fs) =
    let k = at_path-carried p fresh stale fs in
    elim (Bool-cases (eqs f.path p)) [
      | inl e ↦
          let same : mem f.path fresh ≡ mem p fresh = rw ((eqs_iff f.path p).0 e) refl in
          ground (arith, same, e, k)
      | inr e ↦ ground (arith, e, k)
    ]

at_path-contributed :
    (jx : JobExec) (skipped : List Bytes) (datums : List Datum) (p : Bytes) (dt : Datum)
    → at_path p (contributed jx skipped (fresh_paths jx skipped datums) dt)
      ≡ (if counts jx skipped datums p dt then at_path p (state_of jx dt.id).files else [])
at_path-contributed jx skipped datums p dt =
    let st = state_of jx dt.id in
    ground (
      arith,
      at_path-carried p (fresh_paths jx skipped datums) (is_stale jx st) st.files,
      mem-fresh_paths jx skipped p datums,
    )

parts_at_lem :
    (jx : JobExec) (skipped : List Bytes) (datums : List Datum) (p : Bytes) (dts : List Datum)
    → at_path p (for_each (contributed jx skipped (fresh_paths jx skipped datums)) dts)
      ≡ parts_at jx skipped datums p dts
parts_at_lem jx skipped datums p [] = refl
parts_at_lem jx skipped datums p (dt ∷ dts) =
    let now = contributed jx skipped (fresh_paths jx skipped datums) dt in
    at_path-append p now (for_each (contributed jx skipped (fresh_paths jx skipped datums)) dts)
    ∙ rw (at_path-contributed jx skipped datums p dt, parts_at_lem jx skipped datums p dts)
        (elim (Bool-cases (counts jx skipped datums p dt)) [
          | inl e ↦ rw e refl
          | inr e ↦ rw e refl
        ])

-- The output that mergeOutputs writes holds at each path the contents of certain files of the
-- datums at that path, one after the other in the order of the datums, and no file at a path
-- without one. These are the files of a datum that ran with success or was recovered, those of one
-- whose record says that it was skipped, and those carried for a skipped datum, unless its record
-- has the hash of another transform and a datum that ran has written the path. A datum that failed
-- adds nothing. No file lies where a directory is needed.
pub merge_outputs_lem :
    (s : Store) (jx : JobExec) (datums : List Datum) (skipped : List Bytes) (out : Map Bytes)
    → merge_outputs s jx datums skipped ≡ ok out
    → ((p : Bytes) → get p out ≡ appended s none (parts_at jx skipped datums p datums)) × IsTree out
unfolding merge_outputs get
merge_outputs_lem s jx datums skipped out h =
    let fresh = fresh_paths jx skipped datums in
    let k = merge_loop_lem s jx skipped fresh datums [] out h in
    let fs = for_each (contributed jx skipped fresh) datums in
    (
      λ p.
          merge_files_lem s p fs [] out k
          ∙ ap (appended s none) (parts_at_lem jx skipped datums p datums),
      AreApart-IsTree out (merge_files-AreApart s fs [] out k (λ d r e. absurd cc)),
    )
