-- ===== src/Merging.antt =====
-- src/features/partial-changes/assembly/row-merger.ts: the version of a row that takes its id, some
-- paths of its data and some of its columns from the other side.
pub mod Taken
mod Tests
use revisium_engine.Base.{
  ℕ, String, Bool, true, false, Option, none, some, List, [], ◌∷◌, if◌then◌else◌,
}
use revisium_engine.Base.Result.{Result, ok, throw, ◌>>=◌}
use revisium_engine.Pointers.{Text, parse}
use revisium_engine.Pointers.Values.{Json, value_in, assign_in}

-- the columns of a row that the code reads; a time is its milliseconds
pub record Row : Type 0 where
  pub version_id : String
  pub created_id : String
  pub created_at : ℕ
  pub id : String
  pub content : Json
  pub schema_hash : String
  pub published_at : ℕ
  pub meta : Json

pub data OtherSideColumn : Type 0 where
  published_at meta schema_hash : OtherSideColumn

pub record OtherSideParts : Type 0 where
  pub id : Bool
  pub paths : List Text
  pub columns : List OtherSideColumn

pub record RowMerge : Type 0 where
  pub structure_side : Row
  pub other_side : Row
  pub from_other_side : OtherSideParts

pub record NewVersion : Type 0 where
  pub row : Row
  pub other_side_schema_hash : Option String

abbrev is_column : OtherSideColumn → OtherSideColumn → Bool
is_column published_at OtherSideColumn.published_at = true
is_column meta OtherSideColumn.meta = true
is_column schema_hash OtherSideColumn.schema_hash = true
is_column _ _ = false

abbrev pub has_column : List OtherSideColumn → OtherSideColumn → Bool
has_column [] column = false
has_column (c ∷ columns) column = if is_column c column then true else has_column columns column

-- `sideTaking`
abbrev pub side_taking : RowMerge → Bool → Row
side_taking merge takes_other_side =
    if takes_other_side then merge.other_side else merge.structure_side

-- `sideTakingColumn`
abbrev pub side_taking_column : RowMerge → OtherSideColumn → Row
side_taking_column merge column =
    side_taking merge (has_column merge.from_other_side.columns column)

-- the loop of `dataTakingOtherSidePaths`
unfoldable pub take_paths : List Text → Json → Json → Result Json
take_paths [] other doc = ok doc
take_paths (path ∷ paths) other doc = parse path >>= λ pointer.
    assign_in pointer doc (value_in pointer other) >>= λ assigned. take_paths paths other assigned

-- `dataTakingOtherSidePaths`
abbrev pub data_taking_other_side_paths : RowMerge → Result Json
data_taking_other_side_paths merge =
    take_paths merge.from_other_side.paths merge.other_side.content merge.structure_side.content

-- `otherSideSchemaHashOf`
abbrev pub other_side_schema_hash_of : RowMerge → Option String
other_side_schema_hash_of merge =
    if has_column merge.from_other_side.columns OtherSideColumn.schema_hash
    then some merge.other_side.schema_hash
    else none

-- `versionTakingOtherSideParts`
unfoldable pub version_taking_other_side_parts : RowMerge → Result NewVersion
version_taking_other_side_parts merge = data_taking_other_side_paths merge >>= λ content.
    ok (record {
      row = record merge.structure_side {
        id = (side_taking merge merge.from_other_side.id).id;
        content = content;
        published_at = (side_taking_column merge OtherSideColumn.published_at).published_at;
        meta = (side_taking_column merge OtherSideColumn.meta).meta;
      };
      other_side_schema_hash = other_side_schema_hash_of merge;
    })
