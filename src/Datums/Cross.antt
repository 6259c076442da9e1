-- ===== src/Datums/Cross.antt =====
-- crossDatums, joinProduct and datumHash: the combinations of the sides, and their content.
pub mod Product
use sandman.Prelude.{
  Bytes, codes, ℕ, ◌+◌, ◌*◌, Bool, true, false, Option, none, some, List, [], ◌∷◌, ◌++◌, length,
  if◌then◌else◌, eqs, map,
}
use sandman.Prelude.Map.{Map, get, keys}
use sandman.Prelude.Result.{ok, err}
use sandman.Store.Data.{ViewPart, ViewEntry, Store, Env}
use sandman.Store.View.{View, entry_hash}
use sandman.Store.Commits.Copy.{entry_or_zero}
use sandman.Datums.{FileRef, DatumSide, Datum}

-- The id of a combination: the sides' keys, joined by '+'.
unfoldable pub joined_id : Bytes → List DatumSide → Bytes
joined_id id [] = id
joined_id id (sd ∷ sides) =
    joined_id ((if eqs id [] then id else id ++ codes "+") ++ (sd.name ++ codes "=" ++ sd.id)) sides

abbrev pub datum_of : List DatumSide → Datum
datum_of sides = record { id = joined_id [] sides; sides = sides; hash = [] }

-- The calls of `rec` for each side in turn.
abbrev pub for_each {ℓ κ} : {A : Type ℓ} {B : Type κ} → (A → List B) → List A → List B
for_each f [] = []
for_each f (x ∷ xs) = f x ++ for_each f xs

unfoldable pub cross_rec : List (List DatumSide) → List DatumSide → List Datum
unfolding joined_id
cross_rec [] acc = datum_of acc ∷ []
cross_rec (l ∷ ls) acc = for_each (λ (sd : DatumSide). cross_rec ls (acc ++ sd ∷ [])) l

abbrev pub single : DatumSide → Datum
single sd = record { id = sd.id; sides = sd ∷ []; hash = [] }

unfoldable pub cross_datums : List (List DatumSide) → List Datum
unfolding cross_rec
cross_datums (l ∷ []) = map single l
cross_datums ls = cross_rec ls []

-- The combinations for one key of a join.
abbrev pub bucket : Bytes → Map (List DatumSide) → List DatumSide
bucket key m = elim (get key m) [ none ↦ [] | some l ↦ l ]

unfoldable pub join_product : Bytes → List (Map (List DatumSide)) → List Datum
unfolding cross_rec
join_product key buckets = cross_rec (map (bucket key) buckets) []

-- One field of the digested text, with the NUL behind it.
abbrev pub field : Bytes → Bytes
field s = s ++ 0 ∷ []

unfoldable pub part_fields : List ViewPart → Bytes
part_fields [] = []
part_fields (p ∷ ps) = field p.sha ++ part_fields ps

abbrev pub content_fields : FileRef → List ViewPart → Bytes
content_fields r [] = field r.hash
content_fields r (p ∷ ps) = part_fields (p ∷ ps)

unfoldable pub ref_fields : Bytes → Bytes → List FileRef → Bytes
unfolding part_fields
ref_fields name p [] = []
ref_fields name p (r ∷ rs) =
    field name ++ (field p ++ (content_fields r r.parts ++ ref_fields name p rs))

-- The keys of the association list are in order, as sort.Strings leaves them.
unfoldable pub merge_fields : Bytes → Map (List FileRef) → Bytes
unfolding ref_fields
merge_fields name [] = []
merge_fields name ((p, rs) ∷ m) = ref_fields name p rs ++ merge_fields name m

abbrev pub view_at : Map View → Bytes → View
view_at views name = elim (get name views) [ none ↦ [] | some v ↦ v ]

-- The digest of a file's content, nothing where it cannot be read.
abbrev pub file_digest : Env → Store → Map View → Bytes → Bytes → Bytes
file_digest env s views name f =
    elim (entry_hash env s (entry_or_zero (get f (view_at views name)))) [ ok h ↦ h | err e ↦ [] ]

unfoldable pub file_fields : Env → Store → Map View → Bytes → List Bytes → Bytes
file_fields env s views name [] = []
file_fields env s views name (f ∷ fs) =
    field name
    ++ (field f ++ (field (file_digest env s views name f) ++ file_fields env s views name fs))

abbrev pub side_fields_of : Env → Store → Map View → DatumSide → Option (Map (List FileRef)) → Bytes
side_fields_of env s views sd none = file_fields env s views sd.name sd.files
side_fields_of env s views sd (some m) = merge_fields sd.name m

unfoldable pub side_fields : Env → Store → Map View → List DatumSide → Bytes
unfolding file_fields merge_fields
side_fields env s views [] = []
side_fields env s views (sd ∷ sides) =
    side_fields_of env s views sd sd.merge ++ side_fields env s views sides

unfoldable pub datum_hash : Env → Store → Map View → Datum → Bytes
unfolding side_fields
datum_hash env s views dt = env.sha256 (side_fields env s views dt.sides)
