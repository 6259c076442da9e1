-- ===== src/Datums/Chunks/Laws.antt =====
-- The files of the chunks against the files of the datums, and the bounds on the chunks.
use mathlib.Core.List.{append_assoc, append-nil}
use native.Mathlib.Nat.{lt-mul-div-succ}
use sandman.Prelude.{
  Bytes, codes, eqs, ℕ, zero, suc, ◌+◌, ◌-◌, ◌*◌, ◌/◌, ◌≤◌, ◌<◌, ◌≡◌, inl, inr, refl, sym, ap, ◌∙◌,
  ◌&&◌, Option, none, some, List, [], ◌∷◌, ◌++◌, arith, length, take, drop, if◌then◌else◌, ltb, leb,
  if_cases, Bool-cases,
}
use sandman.Store.View.{View}
use sandman.Datums.{DatumSide}
use sandman.Datums.Chunks.{
  ChunkSpec, no_side, merge_from, merge_sides, side_size, by_number, by_size, last_chunk,
  is_nonempty, per_chunk, chunk_side_datums,
}

-- The files of the datums, in order.
abbrev pub all_files : List DatumSide → List Bytes
all_files [] = []
all_files (s ∷ ss) = s.files ++ all_files ss

all_files-append : (xs ys : List DatumSide) → all_files (xs ++ ys) ≡ all_files xs ++ all_files ys
all_files-append [] ys = refl
all_files-append (x ∷ xs) ys = simp (all_files-append xs ys, append_assoc)

files-merge_from :
    (out : DatumSide) (ss : List DatumSide) → (merge_from out ss).files ≡ out.files ++ all_files ss
unfolding merge_from
files-merge_from out [] = sym (append-nil out.files)
files-merge_from out (s ∷ ss) =
    files-merge_from
      (record out {
        name = s.name;
        id = (if eqs out.id [] then out.id else out.id ++ codes ",") ++ s.id;
        files = out.files ++ s.files;
      })
      ss
    ∙ append_assoc out.files s.files (all_files ss)

files-merge_sides : (ss : List DatumSide) → (merge_sides ss).files ≡ all_files ss
unfolding merge_sides
files-merge_sides ss = files-merge_from no_side ss

take-drop {ℓ} : {A : Type ℓ} (n : ℕ) (xs : List A) → take n xs ++ drop n xs ≡ xs
take-drop zero xs = refl
take-drop (suc n) [] = refl
take-drop (suc n) (x ∷ xs) = ap (λ ys. x ∷ ys) (take-drop n xs)

length-drop {ℓ} : {A : Type ℓ} (n : ℕ) (xs : List A) → length (drop n xs) ≡ length xs - n
length-drop zero xs = omega arith
length-drop (suc n) [] = omega arith
length-drop (suc n) (x ∷ xs) = omega (arith, length-drop n xs)

files-by_number :
    (n per : ℕ) (sd : List DatumSide)
    → length sd ≤ n
    → 0 < per
    → all_files (by_number n per sd) ≡ all_files sd
unfolding by_number
files-by_number zero per [] h p = refl
files-by_number zero per (s ∷ sd) h p = absurd (omega arith)
files-by_number (suc n) per [] h p = refl
files-by_number (suc n) per (s ∷ sd) h p =
    let t = take per (s ∷ sd) in
    let d = drop per (s ∷ sd) in
    simp (files-merge_sides t, files-by_number n per d (omega (arith, length-drop per (s ∷ sd))) p)
      (sym (all_files-append t d) ∙ ap all_files (take-drop per (s ∷ sd)))

files-last_chunk : (cur : List DatumSide) → all_files (last_chunk cur) ≡ all_files cur
files-last_chunk [] = refl
files-last_chunk (c ∷ cur) = append-nil (merge_sides (c ∷ cur)).files ∙ files-merge_sides (c ∷ cur)

files-by_size :
    (limit : ℕ) (view : View) (cur : List DatumSide) (size : ℕ) (sd : List DatumSide)
    → all_files (by_size limit view cur size sd) ≡ all_files cur ++ all_files sd
unfolding by_size
files-by_size limit view cur size [] = files-last_chunk cur ∙ sym (append-nil (all_files cur))
files-by_size limit view cur size (s ∷ sd) =
    let n = side_size s view in
    elim (Bool-cases (is_nonempty cur && ltb limit (size + n))) [
      | inl e ↦
          rw e
            (simp (files-merge_sides cur, files-by_size limit view (s ∷ []) n sd, append-nil) refl)
      | inr e ↦ rw e (
          files-by_size limit view (cur ++ s ∷ []) (size + n) sd
          ∙ simp (all_files-append cur (s ∷ []), append-nil, append_assoc) refl)
    ]

per_chunk-positive : (n m : ℕ) → 0 < per_chunk n m
per_chunk-positive n m = ground arith

per_chunk-enough : (n m : ℕ) → 0 < m → n ≤ m * per_chunk n m
per_chunk-enough n m h =
    let q = (n + m - 1) / m in
    let k : n ≤ m * q = grind (arith, lt-mul-div-succ (n + m - 1) {b = m} h) in
    elim (Bool-cases (ltb q 1)) [ inl e ↦ rw e (none_to_take q (ground arith) k) | inr e ↦ rw e k ]
  where
    none_to_take : (q : ℕ) → q < 1 → n ≤ m * q → n ≤ m * 1
    none_to_take q l k = let z : q ≡ 0 = omega arith in grind arith

count-by_number :
    (n per m : ℕ) (sd : List DatumSide)
    → 0 < per
    → length sd ≤ m * per
    → length (by_number n per sd) ≤ m
unfolding by_number
count-by_number zero per m sd p h = omega arith
count-by_number (suc n) per m [] p h = omega arith
count-by_number (suc n) per zero (s ∷ sd) p h = absurd (grind arith)
count-by_number (suc n) per (suc m) (s ∷ sd) p h =
    let k : length (drop per (s ∷ sd)) ≤ m * per = grind (arith, length-drop per (s ∷ sd)) in
    omega (arith, count-by_number n per m (drop per (s ∷ sd)) p k)

-- Chunking a side neither loses, repeats nor reorders a file: the files of the chunks, one chunk
-- after the other, are the files of the datums in their order, whatever the chunk spec asks for.
pub files-chunk_side_datums :
    (sd : List DatumSide) (spec : Option ChunkSpec) (view : View)
    → all_files (chunk_side_datums sd spec view) ≡ all_files sd
unfolding chunk_side_datums
files-chunk_side_datums sd none view = refl
files-chunk_side_datums sd (some spec) view =
    if_cases (λ ys. all_files ys ≡ all_files sd) (leb spec.number 0 && leb spec.size_bytes 0) refl
      (if_cases (λ ys. all_files ys ≡ all_files sd) (ltb 0 spec.number)
        (files-by_number (length sd) (per_chunk (length sd) spec.number) sd (omega arith)
          (per_chunk-positive (length sd) spec.number))
        (files-by_size spec.size_bytes view [] 0 sd))

-- A spec that asks for a number of chunks gives at most that many, for any number of datums.
pub length-chunk_side_datums :
    (sd : List DatumSide) (spec : ChunkSpec) (view : View)
    → 0 < spec.number
    → length (chunk_side_datums sd (some spec) view) ≤ spec.number
unfolding chunk_side_datums
length-chunk_side_datums sd spec view h =
    let l = length sd in
    let k =
      count-by_number l (per_chunk l spec.number) spec.number sd (per_chunk-positive l spec.number)
        (per_chunk-enough l spec.number h) in
    ground (arith, k)
