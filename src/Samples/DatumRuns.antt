-- ===== src/Samples/DatumRuns.antt =====
-- The theorems on datums, run on a view with a file in a directory, and on two sides.
use sandman.Prelude.{
  Bytes, codes, ◌≡◌, ◌≢◌, ◌≤◌, refl, true, some, none, List, [], ◌∷◌, All, Elem, arith, length, eqs,
}
use sandman.Prelude.Map.{keys}
use sandman.Prelude.Sort.{mem}
use sandman.Store.Data.{ViewEntry}
use sandman.Store.View.{View}
use sandman.Datums.{DatumSide, Datum}
use sandman.Datums.Glob.{glob_matches}
use sandman.Datums.Enumerate.{enumerate_datums}
use sandman.Datums.Enumerate.Covers.{
  IsDatumOf, covered, in_datum, enumerate_datums_lem, enumerate_datums_twice,
}
use sandman.Datums.Cross.{joined_id, datum_of, cross_datums}
use sandman.Datums.Cross.Product.{Picks, keyed, cross_datums_lem, joined_id_collides}
use sandman.Datums.Chunks.{ChunkSpec, chunk_side_datums}
use sandman.Datums.Chunks.Laws.{all_files, files-chunk_side_datums, length-chunk_side_datums}

abbrev an_entry : ViewEntry
an_entry = record { parts = [] }

abbrev a_view : View
a_view = (codes "d/f", an_entry) ∷ []

abbrev a_side : Bytes → DatumSide
a_side id = record { name = codes "in"; id = id; files = id ∷ []; merge = none }

abbrev two_datums : List DatumSide
two_datums = a_side (codes "a") ∷ a_side (codes "b") ∷ []

abbrev one_chunk : ChunkSpec
one_chunk = record { number = 1; size_bytes = 0 }

files-chunk_side_datums_example :
    all_files (chunk_side_datums two_datums (some one_chunk) a_view) ≡ codes "a" ∷ codes "b" ∷ []
files-chunk_side_datums_example = files-chunk_side_datums two_datums (some one_chunk) a_view

length-chunk_side_datums_example : length (chunk_side_datums two_datums (some one_chunk) a_view) ≤ 1
length-chunk_side_datums_example =
    length-chunk_side_datums two_datums one_chunk a_view (omega arith)

enumerate_datums_lem_example :
    All (IsDatumOf a_view (codes "*")) (enumerate_datums a_view (codes "*"))
    × ((f : Bytes)
        → mem f (keys a_view) ≡ true
        → glob_matches (codes "*") f ≡ true
        → covered f (enumerate_datums a_view (codes "*")) ≡ true)
enumerate_datums_lem_example = enumerate_datums_lem a_view (codes "*")

enumerate_datums_twice_example :
    (in_datum (codes "d/f") [] (enumerate_datums a_view (codes "**")) ≡ true)
    × (in_datum (codes "d/f") (codes "d") (enumerate_datums a_view (codes "**")) ≡ true)
unfolding mem keys eqs
enumerate_datums_twice_example =
    enumerate_datums_twice a_view (codes "d") (codes "f") refl refl refl

cross_datums_lem_example :
    ((sides : List DatumSide)
      → Picks (two_datums ∷ two_datums ∷ []) sides
      → Elem (datum_of sides) (cross_datums (two_datums ∷ two_datums ∷ [])))
    × All
        (λ (d : Datum).
          (sides : List DatumSide) × Picks (two_datums ∷ two_datums ∷ []) sides
          × (d ≡ datum_of sides))
        (cross_datums (two_datums ∷ two_datums ∷ []))
    × (length (cross_datums (two_datums ∷ two_datums ∷ [])) ≡ 4)
cross_datums_lem_example = cross_datums_lem two_datums two_datums []

-- The sides `a` and `b`, with the paths `x+b=y` and `z`, and with `x` and `y+b=z`.
joined_id_collides_example :
    (joined_id [] (keyed (codes "a") (codes "x+b=y") ∷ keyed (codes "b") (codes "z") ∷ [])
      ≡ joined_id [] (keyed (codes "a") (codes "x") ∷ keyed (codes "b") (codes "y+b=z") ∷ []))
    × (codes "x+b=y" ≢ codes "x")
joined_id_collides_example =
    joined_id_collides (codes "a") (codes "b") (codes "x") (codes "y") (codes "z")
