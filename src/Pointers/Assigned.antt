-- ===== src/Pointers/Assigned.antt =====
-- What `assignIn` of json-pointer.ts changes in a document, and what it leaves.
use revisium_engine.Base.{
  true, false, List, [], ◌∷◌, ◌≡◌, refl, sym, ◌∙◌, ap, Eq-ℕ, Eq-List, ◌==◌, arith, Bool-cases, inl,
  inr, if◌then◌else◌, list_eq_iff,
}
use revisium_engine.Base.Result.{ok, ok_inj}
use revisium_engine.Pointers.{Text, JsonPointer}
use revisium_engine.Pointers.Values.{
  Json, undefined, null, scalar, object, Fields, field, empty, own_field, is_object, set_field,
  value_at, write_at, init_of, assign_last, value_in, assign_in, is_prefix, is_at_or_above,
}

own_field-set_field :
    (fields : Fields) (name key : Text) (value : Json)
    → own_field (set_field fields name value) key
      ≡ (if name == key then value else own_field fields key)
own_field-set_field empty name key value = refl
own_field-set_field (field first old fields) name key value = ground (
  arith,
  list_eq_iff first name,
  list_eq_iff first key,
  list_eq_iff name key,
  own_field-set_field fields name key value,
)

own_field-set_same :
    (fields : Fields) (name : Text) (value : Json)
    → own_field (set_field fields name value) name ≡ value
own_field-set_same fields name value =
    ground (arith, list_eq_iff name name, own_field-set_field fields name name value)

value_at-undefined : (segments : List Text) → value_at segments undefined ≡ undefined
unfolding value_at
value_at-undefined [] = refl
value_at-undefined (segment ∷ segments) = value_at-undefined segments

value_at-write_at :
    (segment : Text) (segments : List Text) (doc value : Json)
    → is_object (value_at (init_of (segment ∷ segments)) doc) ≡ true
    → value_at (segment ∷ segments) (write_at (segment ∷ segments) doc value) ≡ value
unfolding value_at write_at init_of
value_at-write_at segment [] (object fields) value h = own_field-set_same fields segment value
value_at-write_at segment [] undefined value h = cc
value_at-write_at segment [] null value h = cc
value_at-write_at segment [] (scalar text) value h = cc
value_at-write_at segment (next ∷ segments) (object fields) value h =
    ap (λ v. value_at (next ∷ segments) v)
      (own_field-set_same fields segment
        (write_at (next ∷ segments) (own_field fields segment) value))
    ∙ value_at-write_at next segments (own_field fields segment) value h
value_at-write_at segment (next ∷ segments) undefined value h =
    let nothing = ap is_object (value_at-undefined (init_of (next ∷ segments))) in cc
value_at-write_at segment (next ∷ segments) null value h =
    let nothing = ap is_object (value_at-undefined (init_of (next ∷ segments))) in cc
value_at-write_at segment (next ∷ segments) (scalar text) value h =
    let nothing = ap is_object (value_at-undefined (init_of (next ∷ segments))) in cc

value_at-write_apart :
    (segments other : List Text) (doc value : Json)
    → is_prefix segments other ≡ false
    → is_prefix other segments ≡ false
    → value_at other (write_at segments doc value) ≡ value_at other doc
unfolding value_at write_at
value_at-write_apart [] other doc value below above = cc
value_at-write_apart (segment ∷ segments) [] doc value below above = cc
value_at-write_apart (segment ∷ segments) (first ∷ other) undefined value below above = refl
value_at-write_apart (segment ∷ segments) (first ∷ other) null value below above = refl
value_at-write_apart (segment ∷ segments) (first ∷ other) (scalar text) value below above = refl
value_at-write_apart (segment ∷ segments) (first ∷ other) (object fields) value below above =
    let written = write_at segments (own_field fields segment) value in
    elim (Bool-cases (segment == first)) [
      | inr apart ↦ ap (value_at other) (
          own_field-set_field fields segment first written
          ∙ ap (λ b. if b then written else own_field fields first) apart)
      | inl same ↦
          ap (value_at other) (
            own_field-set_field fields segment first written
            ∙ ap (λ b. if b then written else own_field fields first) same)
          ∙ value_at-write_apart segments other (own_field fields segment) value
              (ground (arith, same))
              (ground (arith, same, list_eq_iff segment first, list_eq_iff first segment))
          ∙ ap (λ name. value_at other (own_field fields name)) ((list_eq_iff segment first).0 same)
    ]

assign_last-eq-ok :
    (segments : List Text) (doc value after : Json)
    → assign_last segments doc value ≡ ok after
    → (after ≡ write_at segments doc value) × (value_at segments after ≡ value)
unfolding write_at value_at
assign_last-eq-ok [] doc value after h = (sym (ok_inj h), sym (ok_inj h))
assign_last-eq-ok (segment ∷ segments) doc value after h =
    elim (Bool-cases (is_object (value_at (init_of (segment ∷ segments)) doc))) [
      | inl holds ↦
          let written = sym (ok_inj (rw holds at h)) in
          (
            written,
            ap (value_at (segment ∷ segments)) written
                ∙ value_at-write_at segment segments doc value holds,
          )
      | inr nothing ↦ let thrown = rw nothing at h in (cc, cc)
    ]

-- After an assignment that does not throw, the pointer leads to the value.
pub value_in-assign_in :
    (pointer : JsonPointer) (doc value after : Json)
    → assign_in pointer doc value ≡ ok after
    → value_in pointer after ≡ value
unfolding assign_in
value_in-assign_in pointer doc value after h =
    (assign_last-eq-ok pointer.segments doc value after h).1

-- A pointer that is neither at, nor above, nor below leads where it led before.
pub value_in-assign_apart :
    (pointer other : JsonPointer) (doc value after : Json)
    → assign_in pointer doc value ≡ ok after
    → is_at_or_above pointer other ≡ false
    → is_at_or_above other pointer ≡ false
    → value_in other after ≡ value_in other doc
unfolding assign_in
value_in-assign_apart pointer other doc value after h below above =
    ap (value_at other.segments) (assign_last-eq-ok pointer.segments doc value after h).0
    ∙ value_at-write_apart pointer.segments other.segments doc value below above
