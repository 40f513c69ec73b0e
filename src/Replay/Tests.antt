-- ===== src/Replay/Tests.antt =====
-- The theorems on the replay at a small ledger. A schema is the list of the tables it references.
use revisium_engine.Base.{
  ℕ, String, Bool, true, none, some, List, [], ◌∷◌, Eq-String, Eq-ℕ, Eq-List, ◌≡◌, ◌≢◌, ◌⊎◌, ◌↔◌,
  refl, sym, ap, ◌∙◌, includes, if◌then◌else◌, arith, Bool-cases, inl, inr, ◌==◌, is_some,
  IsDistinct, get_elem?,
}
use text.Mathlib.TextEquality.{eq_iff}
use revisium_engine.Base.Map
use revisium_engine.Base.Map.{Map}
use revisium_engine.Base.Exec
use revisium_engine.Rules.{
  patched_schema, ensure_valid_field_names, ensure_recordable_change, renamed_foreign_keys,
  ensure_valid_patches, ensure_valid_schema, patch_values,
}
use revisium_engine.Ids.{find_table_id_error}
use revisium_engine.Slots.{follow}
use revisium_engine.Replay.Checks.{
  existing_schema, ensure_valid_table_id, ensure_free, missing_of, refuse_missing,
  refuse_referenced, foreign_key_targets_of, references, referrers_of,
  ensure_referenced_tables_exist, ensure_not_referenced, validate_schema, validate_schemas,
  validate_patches, rewritten_after_rename,
}
use revisium_engine.Replay.Steps.{
  taint_if_dependent, taint_across_rename, set_schemas, other_referrers, apply_step,
}
use revisium_engine.Replay.State.{
  is_tainted, is_tainted?, set_schema, taint, record_reads, current_tables,
}
use revisium_engine.Base.Result.{Result, ok, throw}
use revisium_engine.Rules.Messages.{join, quoted, table_referenced}
use revisium_engine.Ledger.{Migration, ChangeType, init, update, rename, remove, JsonPatch}
use revisium_engine.Slots.{table_slots}
use revisium_engine.Slots.Held.{Coherent}
use revisium_engine.Rules.{Toolkit, ValidationOutcome, foreign_keys_of}
use revisium_engine.Rules.Renaming.{RenamesForeignKeys}
use revisium_engine.Replay.State.{
  LedgerReplay, ReplayFailure, failure_of, schema_of, failure_at, slot_schema_of,
}
use revisium_engine.Replay.Run.{ReplayedSlot, ledger_replay, apply_all, apply, keys, result}
use revisium_engine.Replay.Failures.{Contained, outcome_of, started, step_of, apply_failed}
use revisium_engine.Replay.Sticky.{first_failure_stays}
use revisium_engine.Replay.Consistency.{IsClean}
use revisium_engine.Replay.Start.{AreClosed, replay-Integrity, replay_consistent}
use revisium_engine.SlotCheck.{check_table_slot}
use revisium_engine.SlotCheck.Verdicts.{is_reproduced, failure_in}
use revisium_engine.SlotCheck.Replayed.{check_table_slot-result}
use revisium_engine.Replay.Results.{result-schemas, result-unreplayable}

abbrev Schema : Type 0
Schema = List String

abbrev same_schema : Schema → Schema → Bool
same_schema left right = left == right

renamed : Schema → String → String → Schema
renamed [] id next = []
renamed (t ∷ ts) id next = (if t == id then next else t) ∷ renamed ts id next

last_value : Schema → List (JsonPatch Schema) → Result Schema
last_value schema [] = ok schema
last_value schema (JsonPatch.add path v ∷ ps) = last_value v ps
last_value schema (JsonPatch.replace path v ∷ ps) = last_value v ps
last_value schema (JsonPatch.move from to ∷ ps) = throw "move"
last_value schema (JsonPatch.remove path ∷ ps) = throw "remove"

abbrev valid : ValidationOutcome
valid = record { result = true; errors = [] }

abbrev toolkit : Toolkit Schema
toolkit = record {
  foreign_keys = λ schema. schema;
  foreign_key_patches = λ schema id next. JsonPatch.replace "" (renamed schema id next) ∷ [];
  apply_patches = last_value;
  formula_errors = λ schema. none;
  invalid_field_names = λ schema. [];
  validate_meta_schema = λ schema. valid;
  validate_json_patch_schema = λ patches. valid;
}

later :
    {A B : Type 0} {b c : Bool}
    → (c ≡ true → b ≡ true)
    → (A ⊎ ((c ≡ true) × B))
    → A ⊎ ((b ≡ true) × B)
later more (inl a) = inl a
later more (inr (h, n)) = inr (more h, n)

includes-renamed :
    (s : Schema) (id next t : String)
    → includes (renamed s id next) t ≡ true
    → (t ≡ next) ⊎ ((includes s t ≡ true) × (t ≢ id))
unfolding renamed
includes-renamed [] id next t h = absurd (ground arith)
includes-renamed (x ∷ xs) id next t h = elim (Bool-cases (x == id)) [
  | inl same ↦ elim (Bool-cases (next == t)) [
    | inl new ↦ inl (sym ((eq_iff next t).0 new))
    | inr other ↦ later (λ k. ground arith) (includes-renamed xs id next t (ground arith))
  ]
  | inr kept ↦ elim (Bool-cases (x == t)) [
    | inl here ↦ inr (
      ground arith,
      λ e.
          ground (
            arith,
            (eq_iff x t).0 here,
            ap (λ y. x == y) e,
            ap (λ y. x == y) ((eq_iff x t).0 here),
          ),
    )
    | inr other ↦ later (λ k. ground arith) (includes-renamed xs id next t (ground arith))
  ]
]

laws : RenamesForeignKeys toolkit
unfolding last_value
laws = record {
  law = λ s s' id next e t i.
      let same : renamed s id next ≡ s' = cc in
      includes-renamed s id next t (ap (λ l. includes l t) same ∙ i);
}

abbrev ledger : List (Migration Schema)
ledger =
    init "m1" "tags" ("posts" ∷ [])
    ∷ rename "m2" "users" "people"
    ∷ update "m3" "posts" (JsonPatch.add "/properties/tag" ("people" ∷ "tags" ∷ []) ∷ [])
    ∷ []

abbrev schemas : Map String Schema
schemas = ("users", []) ∷ ("posts", "users" ∷ []) ∷ []

abbrev start : LedgerReplay Schema
start = ledger_replay schemas true

abbrev final : LedgerReplay Schema
final = apply_all toolkit ledger start

final_schemas :
    final.slot_schemas
    ≡ (0, record { schema = some []; failure = none })
      ∷ (1, record { schema = some ("people" ∷ "tags" ∷ []); failure = none })
      ∷ (2, record { schema = some ("posts" ∷ []); failure = none })
      ∷ []
unfolding apply_all ledger_replay follow table_slots last_value renamed Map.get Map.set Map.delete
    Exec.pure Exec.lift Exec.gets Exec.update Exec.◌>>=◌ foreign_keys_of patched_schema
    ensure_valid_field_names ensure_recordable_change renamed_foreign_keys ensure_valid_patches
    ensure_valid_schema patch_values existing_schema ensure_valid_table_id ensure_free missing_of
    refuse_missing refuse_referenced foreign_key_targets_of references referrers_of
    ensure_referenced_tables_exist ensure_not_referenced validate_schema validate_schemas
    validate_patches rewritten_after_rename taint_if_dependent taint_across_rename set_schemas
    other_referrers apply_step find_table_id_error slot_schema_of schema_of failure_at is_tainted
    is_tainted? set_schema taint record_reads current_tables
final_schemas = refl

clean : IsClean final
unfolding failure_at slot_schema_of Map.get
clean k = ground (arith, ap (λ m. Map.get m k) final_schemas)

closed : AreClosed toolkit schemas
unfolding Map.get keys foreign_keys_of
closed id s t g i = ground arith

distinct : IsDistinct (keys schemas)
unfolding keys
distinct = (refl, (refl, tt))

at_posts : (Map.get final.table_slots.current "posts" ≡ some 1)
unfolding apply_all ledger_replay follow table_slots last_value renamed Map.get Map.set Map.delete
    Exec.pure Exec.lift Exec.gets Exec.update Exec.◌>>=◌ foreign_keys_of patched_schema
    ensure_valid_field_names ensure_recordable_change renamed_foreign_keys ensure_valid_patches
    ensure_valid_schema patch_values existing_schema ensure_valid_table_id ensure_free missing_of
    refuse_missing refuse_referenced foreign_key_targets_of references referrers_of
    ensure_referenced_tables_exist ensure_not_referenced validate_schema validate_schemas
    validate_patches rewritten_after_rename taint_if_dependent taint_across_rename set_schemas
    other_referrers apply_step find_table_id_error slot_schema_of schema_of failure_at is_tainted
    is_tainted? set_schema taint record_reads current_tables
at_posts = refl

schema_at_posts : schema_of 1 final ≡ some ("people" ∷ "tags" ∷ [])
unfolding schema_of slot_schema_of Map.get
schema_at_posts = ground (arith, ap (λ m. Map.get m 1) final_schemas)

replay_consistent_example : is_some (Map.get final.table_slots.current "people") ≡ true
replay_consistent_example =
    replay_consistent toolkit laws ledger schemas true distinct closed clean "posts" 1
      ("people" ∷ "tags" ∷ []) "people" at_posts schema_at_posts (unfold foreign_keys_of in refl)

-- A table that another one references cannot be removed.
abbrev removing : Migration Schema
removing = remove "m5" "users"

abbrev message : String
message = "Table \"users\" is referenced by \"posts\""

abbrev refusal : ReplayFailure
refusal = record { migration = "m5"; step = ChangeType.remove; error = message }

refused : outcome_of toolkit removing start ≡ throw message
unfolding apply ledger_replay outcome_of started step_of failure_of join table_referenced quoted
    refuse_referenced follow table_slots last_value renamed Map.get Map.set Map.delete Exec.pure
    Exec.lift Exec.gets Exec.update Exec.◌>>=◌ foreign_keys_of patched_schema
    ensure_valid_field_names ensure_recordable_change renamed_foreign_keys ensure_valid_patches
    ensure_valid_schema patch_values existing_schema ensure_valid_table_id ensure_free missing_of
    refuse_missing foreign_key_targets_of references referrers_of ensure_referenced_tables_exist
    ensure_not_referenced validate_schema validate_schemas validate_patches rewritten_after_rename
    taint_if_dependent taint_across_rename set_schemas other_referrers apply_step
    find_table_id_error slot_schema_of schema_of failure_at is_tainted is_tainted? set_schema taint
    record_reads current_tables
refused = refl

apply_failed_example : Contained toolkit removing start message (apply toolkit removing start)
apply_failed_example = apply_failed toolkit removing start message refused

tainted_users : failure_at 0 (apply toolkit removing start) ≡ some refusal
unfolding apply ledger_replay outcome_of started step_of failure_of join table_referenced quoted
    refuse_referenced follow table_slots last_value renamed Map.get Map.set Map.delete Exec.pure
    Exec.lift Exec.gets Exec.update Exec.◌>>=◌ foreign_keys_of patched_schema
    ensure_valid_field_names ensure_recordable_change renamed_foreign_keys ensure_valid_patches
    ensure_valid_schema patch_values existing_schema ensure_valid_table_id ensure_free missing_of
    refuse_missing foreign_key_targets_of references referrers_of ensure_referenced_tables_exist
    ensure_not_referenced validate_schema validate_schemas validate_patches rewritten_after_rename
    taint_if_dependent taint_across_rename set_schemas other_referrers apply_step
    find_table_id_error slot_schema_of schema_of failure_at is_tainted is_tainted? set_schema taint
    record_reads current_tables
tainted_users = refl

first_failure_stays_example :
    failure_at 0 (apply_all toolkit ledger (apply toolkit removing start)) ≡ some refusal
first_failure_stays_example =
    first_failure_stays toolkit ledger (apply toolkit removing start) 0 refusal tainted_users

coherent : Coherent final.table_slots
coherent = (replay-Integrity toolkit laws ledger schemas true distinct closed clean).coherent

result-schemas_example :
    (Map.get (result final).schemas "posts" ≡ some ("people" ∷ "tags" ∷ [])) ↔ (
      (k : ℕ) × (slot : ReplayedSlot Schema) × (Map.get final.table_slots.current "posts" ≡ some k)
      × (get_elem? (result final).slots k ≡ some slot)
      × (slot.broken_by ≡ none)
      × (slot.failure ≡ none)
      × (slot.schema ≡ some ("people" ∷ "tags" ∷ [])))
result-schemas_example = result-schemas final "posts" ("people" ∷ "tags" ∷ []) coherent

result-unreplayable_example : (Map.get (result final).unreplayable "posts" ≡ some refusal) ↔ (
    (k : ℕ) × (slot : ReplayedSlot Schema) × (Map.get final.table_slots.current "posts" ≡ some k)
    × (get_elem? (result final).slots k ≡ some slot)
    × (slot.broken_by ≡ none)
    × (slot.failure ≡ some refusal))
result-unreplayable_example = result-unreplayable final "posts" refusal coherent

-- the check of the table posts against the schema that its migrations make
check_table_slot-result_example :
    ((is_reproduced
          (check_table_slot same_schema (result final) "posts" (some ("people" ∷ "tags" ∷ [])))
        ≡ true)
      ↔ ((a : Schema) × (Map.get (result final).schemas "posts" ≡ some a)
          × (same_schema a ("people" ∷ "tags" ∷ []) ≡ true)))
    × ((failure_in
            (check_table_slot same_schema (result final) "posts" (some ("people" ∷ "tags" ∷ [])))
          ≡ some refusal)
        ↔ (Map.get (result final).unreplayable "posts" ≡ some refusal))
check_table_slot-result_example =
    check_table_slot-result same_schema final "posts" ("people" ∷ "tags" ∷ []) refusal coherent
