-- ===== src/Migrations/Consistent.antt =====
-- What the workers of src/features/migration/services keep true of the job, the shadow table, the
-- Draft's links and the records that workers read before.
use revisium_engine.Base.{
  ℕ, String, Option, none, some, List, [], ◌∷◌, ◌++◌, ◌≡◌, ◌≢◌, ◌⊎◌, Eq-String, length,
}
use revisium_engine.Base.Map
use revisium_engine.Base.Map.{Map}
use revisium_engine.Migrations.{TableMigration, Row, Database, MigrationStatus}
use revisium_engine.Migrations.Copies.{AreCopies}
use revisium_engine.Migrations.Loading.{last_id}
use revisium_engine.Migrations.Events.{World}

module _ {P : Type 0} where
  -- What a worker has read names a shadow table only if the job names it still.
  abbrev pub IsOf : TableMigration P → Option (TableMigration P) → Type 0
  IsOf m none = Unit
  IsOf m (some job) =
      (shadow : String)
      → m.shadow_table_version_id ≡ some shadow
      → job.shadow_table_version_id ≡ some shadow

module _ {J : Type 0} (source_id : String) (source : List (Row J)) where
  -- The shadow table holds the copies of the first rows of the source, as many as the checkpoint says.
  pub record IsCopiedTo (tables : Map String (List (Row J))) (shadow_version : Option String)
      (copied_rows : ℕ) (last_copied : Option String) : Type 0 where
    pub shadow : String
    pub named : shadow_version ≡ some shadow
    pub other : shadow ≢ source_id
    pub copies : List (Row J)
    pub held : Map.get tables shadow ≡ some copies
    pub copied : List (Row J)
    pub left : List (Row J)
    pub split : source ≡ copied ++ left
    pub same : AreCopies copied copies
    pub count : copied_rows ≡ length copied
    pub last : last_copied ≡ last_id copied

  -- No row is copied yet, and there is no shadow table.
  abbrev pub IsUncopied : Option String → ℕ → Option String → Type 0
  IsUncopied shadow copied_rows last = (shadow ≡ none) × (copied_rows ≡ 0) × (last ≡ none)

  -- What each status says; a job that has stopped is where it was when it stopped.
  abbrev pub IsAtStage :
      MigrationStatus → Map String (List (Row J)) → Option String → ℕ → Option String → Type 0
  IsAtStage MigrationStatus.pending tables shadow copied_rows last =
      IsUncopied shadow copied_rows last
  IsAtStage MigrationStatus.copying tables shadow copied_rows last =
      IsCopiedTo tables shadow copied_rows last
  IsAtStage MigrationStatus.swapping tables shadow copied_rows last =
      IsCopiedTo tables shadow copied_rows last × (copied_rows ≡ length source)
  IsAtStage _ tables shadow copied_rows last =
      IsUncopied shadow copied_rows last ⊎ IsCopiedTo tables shadow copied_rows last

module _ {P J : Type 0} (source_id : String) (source : List (Row J)) where
  abbrev pub IsJobConsistent : Map String (List (Row J)) → TableMigration P → Type 0
  IsJobConsistent tables m =
      (m.source_table_version_id ≡ source_id)
      × (m.total_rows ≡ length source)
      × IsAtStage source_id source m.status tables m.shadow_table_version_id m.copied_rows
          m.last_copied_row_id

  abbrev pub IsJob : Map String (List (Row J)) → Option (TableMigration P) → Type 0
  IsJob tables none = Unit
  IsJob tables (some m) = IsJobConsistent tables m

  abbrev pub IsObservation : Option (TableMigration P) → TableMigration P → Type 0
  IsObservation job m = (m.source_table_version_id ≡ source_id) × IsOf m job

  -- The Draft links the source, or, once the job is gone, a table of the copies of all its rows.
  abbrev pub IsLinked : Database P J → Type 0
  IsLinked db =
      (db.linked ≡ source_id ∷ [])
      ⊎ ((db.job ≡ none)
          × (shadow : String) × (copies : List (Row J)) × (db.linked ≡ shadow ∷ [])
          × (shadow ≢ source_id)
          × (Map.get db.tables shadow ≡ some copies)
          × AreCopies source copies)

  pub record IsConsistent (w : World P J) : Type 0 where
    pub kept : Map.get w.database.tables source_id ≡ some source
    pub linked : IsLinked w.database
    pub job : IsJob w.database.tables w.database.job
    pub observed :
        (token : String) (m : TableMigration P)
        → Map.get w.observed token ≡ some m
        → IsObservation w.database.job m
