-- ===== src/Datums/Chunks.antt =====
-- chunkSideDatums and mergeSides: the datums of a side in chunks. A number or a size that is not
-- positive asks for no chunks, as 0 does.
pub mod Laws
use sandman.Prelude.{
  Bytes, codes, ℕ, zero, suc, ◌+◌, ◌-◌, ◌/◌, Bool, true, false, ◌&&◌, Option, none, some, List, [],
  ◌∷◌, ◌++◌, length, take, drop, if◌then◌else◌, eqs, ltb, leb,
}
use sandman.Prelude.Map.{Map, get}
use sandman.Store.View.{View, entry_size}
use sandman.Store.Commits.Copy.{entry_or_zero}
use sandman.Datums.{DatumSide}

pub record ChunkSpec : Type 0 where
  pub number : ℕ
  pub size_bytes : ℕ

abbrev pub no_side : DatumSide
no_side = record { name = []; id = []; files = []; merge = none }

-- The loop of mergeSides, from the chunk made so far.
unfoldable pub merge_from : DatumSide → List DatumSide → DatumSide
merge_from out [] = out
merge_from out (s ∷ ss) =
    merge_from
      (record out {
        name = s.name;
        id = (if eqs out.id [] then out.id else out.id ++ codes ",") ++ s.id;
        files = out.files ++ s.files;
      })
      ss

unfoldable pub merge_sides : List DatumSide → DatumSide
unfolding merge_from
merge_sides sides = merge_from no_side sides

unfoldable pub files_size : View → List Bytes → ℕ
unfolding entry_size
files_size view [] = 0
files_size view (f ∷ fs) = entry_size (entry_or_zero (get f view)) + files_size view fs

unfoldable pub side_size : DatumSide → View → ℕ
unfolding files_size
side_size s view = files_size view s.files

-- The loop over `i`, in steps of `per`; each step takes at least one datum.
unfoldable pub by_number : ℕ → ℕ → List DatumSide → List DatumSide
unfolding merge_sides
by_number zero per sd = []
by_number (suc n) per [] = []
by_number (suc n) per (s ∷ sd) =
    merge_sides (take per (s ∷ sd)) ∷ by_number n per (drop per (s ∷ sd))

abbrev pub last_chunk : List DatumSide → List DatumSide
last_chunk [] = []
last_chunk (c ∷ cur) = merge_sides (c ∷ cur) ∷ []

abbrev pub is_nonempty : List DatumSide → Bool
is_nonempty [] = false
is_nonempty (c ∷ cs) = true

-- The loop over the datums with the open chunk `cur` and its size.
unfoldable pub by_size : ℕ → View → List DatumSide → ℕ → List DatumSide → List DatumSide
unfolding merge_sides side_size
by_size limit view cur cur_size [] = last_chunk cur
by_size limit view cur cur_size (s ∷ sd) =
    let size = side_size s view in
    let full = is_nonempty cur && ltb limit (cur_size + size) in
    let rest =
      by_size limit view (if full then s ∷ [] else cur ++ s ∷ [])
        (if full then size else cur_size + size) sd in
    if full then merge_sides cur ∷ rest else rest

abbrev pub per_chunk : ℕ → ℕ → ℕ
per_chunk n number = if ltb ((n + number - 1) / number) 1 then 1 else (n + number - 1) / number

abbrev pub chunk_with : ChunkSpec → View → List DatumSide → List DatumSide
chunk_with spec view sd =
    if leb spec.number 0 && leb spec.size_bytes 0
    then sd
    else if ltb 0 spec.number
    then by_number (length sd) (per_chunk (length sd) spec.number) sd
    else by_size spec.size_bytes view [] 0 sd

unfoldable pub chunk_side_datums : List DatumSide → Option ChunkSpec → View → List DatumSide
unfolding by_number by_size
chunk_side_datums sd none view = sd
chunk_side_datums sd (some spec) view = chunk_with spec view sd
