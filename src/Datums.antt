-- ===== src/Datums.antt =====
-- The datum engine (datum_engine.go): the units of work of a job.
pub mod Glob
pub mod Enumerate
pub mod Cross
pub mod Chunks
pub mod Merge
use sandman.Prelude.{Bytes, ℕ, Option, List}
use sandman.Prelude.Map.{Map}
use sandman.Store.Data.{ViewPart}

pub record FileRef : Type 0 where
  pub path : Bytes
  pub hash : Bytes
  pub size : ℕ
  pub parts : List ViewPart

-- `merge` is `none` for Go's nil map.
pub record DatumSide : Type 0 where
  pub name : Bytes
  pub id : Bytes
  pub files : List Bytes
  pub merge : Option (Map (List FileRef))

pub record Datum : Type 0 where
  pub id : Bytes
  pub sides : List DatumSide
  pub hash : Bytes
