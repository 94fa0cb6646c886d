-- ===== src/BufferServer/Library.antt =====
-- The arrow crate, as the server uses it.
use pmu_data_analytics.Base.{ℕ, ◌≡◌, Option, some, List, ◌∷◌}
use pmu_data_analytics.Base.Bytes.{Bytes}
use pmu_data_analytics.Arrow.{Field, Array}
use pmu_data_analytics.Arrow.Shape.{HasShape}

-- `RecordBatch::try_new`, and `FileWriter::try_new`, `write` and `finish`; the errors are `none`.
pub record ArrowCrate : Type 1 where
  pub Batch : Type 0
  pub Writer : Type 0
  pub try_new_batch : List Field → List Array → Option Batch
  pub try_new_writer : List Field → Option Writer
  pub write : Writer → Batch → Option Writer
  pub finish : Writer → Option Bytes

module _ (arrow : ArrowCrate) where
  -- As documented: a table of at least one column is made of arrays with the types of the fields and
  -- the same number of rows.
  pub record BatchLaws : Type 0 where
    pub accepts :
        (rows : ℕ) (field : Field) (schema : List Field) (arrays : List Array)
        → HasShape rows (field ∷ schema) arrays
        → (batch : arrow.Batch) × (arrow.try_new_batch (field ∷ schema) arrays ≡ some batch)

  -- The writer of a table of its own schema into memory does not fail.
  pub record WriterLaws : Type 0 where
    pub encodes :
        (schema : List Field) (arrays : List Array) (batch : arrow.Batch)
        → arrow.try_new_batch schema arrays ≡ some batch
        → (writer : arrow.Writer) × (written : arrow.Writer) × (bytes : Bytes)
          × (arrow.try_new_writer schema ≡ some writer)
          × (arrow.write writer batch ≡ some written)
          × (arrow.finish written ≡ some bytes)
