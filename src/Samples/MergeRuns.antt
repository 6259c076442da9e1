-- ===== src/Samples/MergeRuns.antt =====
-- The theorem on the merge of outputs, run on two datums that write one path, one that failed and
-- one that is carried.
use sandman.Prelude.{Bytes, codes, ◌≡◌, refl, none, List, [], ◌∷◌, eqs, lts}
use sandman.Prelude.Map.{Map, get, put, keys}
use sandman.Prelude.Sort.{mem}
use sandman.Prelude.Result.{ok}
use sandman.Store.Records.{read_blob}
use sandman.Datums.{FileRef, Datum}
use sandman.Datums.Merge.{JobExec, DatumState, no_state, state_success, merge_outputs}
use sandman.Datums.Merge.Contents.{appended, parts_at, IsTree, merge_outputs_lem}
use sandman.Samples.{sample_store}

abbrev a_ref : FileRef
a_ref = record { path = codes "o"; hash = codes "x"; size = 1; parts = [] }

abbrev ran_state : DatumState
ran_state = record no_state { outcome = state_success; files = a_ref ∷ [] }

-- A failed datum, and one that is carried from another transform.
abbrev broken : DatumState
broken = record no_state { outcome = codes "failed"; files = a_ref ∷ [] }

abbrev old : DatumState
old = record no_state {
  outcome = state_success;
  files = a_ref ∷ record a_ref { path = codes "q" } ∷ [];
  transform_hash = codes "t";
}

abbrev a_merge : JobExec
a_merge = record {
  dedup =
      (codes "1", ran_state) ∷ (codes "2", ran_state) ∷ (codes "3", broken) ∷ (codes "4", old) ∷ [];
  transform_hash = codes "u";
}

abbrev a_datum : Bytes → Datum
a_datum id = record { id = id; sides = []; hash = [] }

abbrev four_datums : List Datum
four_datums =
    a_datum (codes "1") ∷ a_datum (codes "2") ∷ a_datum (codes "3") ∷ a_datum (codes "4") ∷ []

abbrev old_skipped : List Bytes
old_skipped = codes "4" ∷ []

abbrev merged_files : Map Bytes
merged_files = (codes "o", codes "xx") ∷ (codes "q", codes "x") ∷ []

merged : merge_outputs sample_store a_merge four_datums old_skipped ≡ ok merged_files
unfolding merge_outputs read_blob get put eqs mem keys lts
merged = refl

merge_outputs_lem_example :
    ((p : Bytes)
      → get p merged_files
        ≡ appended sample_store none (parts_at a_merge old_skipped four_datums p four_datums))
    × IsTree merged_files
merge_outputs_lem_example =
    merge_outputs_lem sample_store a_merge four_datums old_skipped merged_files merged
