-- ===== src/Pointers/Values.antt =====
-- `valueIn` and `assignIn` of json-pointer.ts, on documents. An array is an object whose fields are
-- its indices; the pointers of the program lead through objects. A document is a tree, so that a
-- write to the holder of a place is a write to the place in the document.
use revisium_engine.Base.{
  String, Bool, true, false, List, [], ◌∷◌, Eq-ℕ, Eq-List, ◌==◌, ◌&&◌, if◌then◌else◌,
}
use revisium_engine.Base.Result.{Result, ok, throw}
use revisium_engine.Pointers.{Text, JsonPointer}

mutual
  pub data Json : Type 0 where
    undefined null : Json
    scalar : String → Json
    object : Fields → Json

  pub data Fields : Type 0 where
    empty : Fields
    field : Text → Json → Fields → Fields

abbrev pub own_field : Fields → Text → Json
own_field empty name = undefined
own_field (field key value fields) name = if key == name then value else own_field fields name

-- `ownPropertyOf`
abbrev pub own_property_of : Json → Text → Json
own_property_of (object fields) name = own_field fields name
own_property_of _ name = undefined

abbrev pub is_object : Json → Bool
is_object (object fields) = true
is_object _ = false

abbrev pub set_field : Fields → Text → Json → Fields
set_field empty name value = field name value empty
set_field (field key old fields) name value =
    if key == name then field key value fields else field key old (set_field fields name value)

-- `valueIn`, for the segments of a pointer
unfoldable pub value_at : List Text → Json → Json
value_at [] value = value
value_at (segment ∷ segments) value = value_at segments (own_property_of value segment)

abbrev pub write_field : Json → Text → Json → Json
write_field (object fields) name value = object (set_field fields name value)
write_field other name value = other

-- the document after a write to the holder of the last segment
unfoldable pub write_at : List Text → Json → Json → Json
write_at [] doc value = value
write_at (segment ∷ segments) doc value =
    write_field doc segment (write_at segments (own_property_of doc segment) value)

-- `slice(0, -1)`
unfoldable pub init_of : List Text → List Text
init_of [] = []
init_of (segment ∷ []) = []
init_of (segment ∷ next ∷ segments) = segment ∷ init_of (next ∷ segments)

abbrev pub assign_last : List Text → Json → Json → Result Json
assign_last [] doc value = ok value
assign_last (segment ∷ segments) doc value =
    if is_object (value_at (init_of (segment ∷ segments)) doc)
    then ok (write_at (segment ∷ segments) doc value)
    else throw "No object holds"

abbrev pub value_in : JsonPointer → Json → Json
value_in pointer doc = value_at pointer.segments doc

-- `assignIn`
unfoldable pub assign_in : JsonPointer → Json → Json → Result Json
assign_in pointer doc value = assign_last pointer.segments doc value

abbrev pub is_prefix : List Text → List Text → Bool
is_prefix [] other = true
is_prefix (segment ∷ segments) [] = false
is_prefix (segment ∷ segments) (first ∷ other) = segment == first && is_prefix segments other

-- `isAtOrAbove`
abbrev pub is_at_or_above : JsonPointer → JsonPointer → Bool
is_at_or_above pointer other = is_prefix pointer.segments other.segments
