-- ===== src/Lib.antt =====
-- revisium-engine keeps versioned tables: each branch has a Head revision and a Draft, and a
-- ledger of migrations says how each table's schema came to be. This library models the parts that
-- decide what a ledger means and what a partial commit or revert of a Draft makes of its rows and
-- tables, the pages that list the changes of a Draft, and the jobs that migrate large tables.
--
-- The parts and the files that model them, with paths from the repository's root:
--   Ledger: the migrations and patches, as the schema toolkit defines them, with the fields that
--     the modelled code reads. A schema is a value of an arbitrary type.
--   Slots: src/features/share/ledger-replay/table-slots.ts. A slot is one table's life under its
--     ids. The class TableSlots is a record of a list of slots and the map `current`; a slot is
--     shared by the list, the map and the steps, so that it stands for its index in the list, and
--     `follow`, `occupy`, `place`, `vacate` and the others return the new state beside their
--     result.
--   Rules: native-schema-rules.ts of the same folder, what may be recorded. The record Toolkit
--     holds what @revisium/schema-toolkit and the schema validator compute.
--   Ids: src/features/share/utils/validateUrlLikeId, which texts are ids of tables, rows,
--     branches, fields.
--   Replay: src/features/share/ledger-replay/ledger-replay.ts. State has the fields of
--     LedgerReplay and the methods that read or write one of them, Checks the methods that refuse
--     a step, Steps the four kinds of step, Run the class as a whole and its result. A method that
--     may throw is a function from the state to a result and a state: what it wrote before a throw
--     stays written.
--   SlotCheck: src/features/share/ledger-replay/slot-check.ts, the verdict on a replayed slot.
--   Attribution: src/features/share/ledger/pending-attribution.ts and
--     src/features/partial-changes/snapshot/ledger-attribution.ts, which table a pending migration
--     is of. A slot carries its index there, since the code tells slots apart by identity; it
--     tells migrations apart by identity too, the model by their ids, which a ledger has once
--     each.
--   Timeline: src/features/partial-changes/closure/table-id-timeline.ts, the changes of each table
--     id.
--   Choice, Outcome: src/features/partial-changes/assembly/outcome-rules.ts. Choice is its class
--     OutcomeRules, which side each unit takes; Outcome is TableOutcomeRules, which side each row,
--     each part of a row and each table of a partial commit or revert comes from.
--   Findings: findings.ts and plan-blocker.ts below src/features/partial-changes, what checks
--     find.
--   Closure: src/features/partial-changes/closure/dependency-closure.ts, the units that a
--     selection needs beside itself. The estimate, the assembly and the checks are a record of
--     functions.
--   CodePoints: src/features/share/utils/compare-code-points.ts, the order of texts. A text is the
--     list of its UTF-16 units.
--   Pointers: src/features/partial-changes/structure/json-pointer.ts, the pointers to places in a
--     document. Pointers holds their texts, Values the reading and writing of documents.
--   Merging: the row-merger.ts of src/features/partial-changes/assembly, as far as it takes parts
--     of a row from the other side.
--   Listing: src/features/partial-changes/listing and the unit-order.ts of the catalogue. Pages
--     holds the class ListingPage, whose methods return the new page, and the loops of UnitListing
--     that fill it.
--   Migrations: src/features/migration, the jobs that migrate a large table beside the users of
--     the Draft. Migrations is the record of a job with the tables and links that it changes;
--     Leases is migration-leases.ts and migration-ownership.ts, who may work on a job; Transitions
--     is migration-transitions.ts, each guarded change of the record; Batches is
--     migration-batch.service.ts; Swap is migration-swap.service.ts and swap-recheck.service.ts;
--     Steps is migration.service.ts, the steps and loops of a worker; Events is what the workers
--     do, and users who abort the job, in any order: a relation whose steps are the transactions,
--     with what each worker has read as the state between its transactions.
--   Base: the shared types and lemmas. A JavaScript Map is an association list in insertion order,
--     a Set the list of its elements, undefined is none, and a thrown error is its message.
--
-- Pointers name what a merge takes and the order of code points is the order of a listing. Slots
-- feed the replay, the attribution and the timeline, the replay feeds the slot checks; the closure
-- asks for units until the target that the outcome rules describe has no finding that can be met.
--
-- Bounds: the replay and the slots recurse on the ledger. The closure calls itself while units are
-- added; the model takes fuel, and a bound on the fuel that is enough is among the results. The
-- binary search of a timeline has one more than the number of changes as fuel. The comparison of
-- texts takes the length of the left one, a page its size for the reads of each table, and a
-- worker as many steps as the results say; a worker whose claim the model lets go on without end
-- is described by single steps. A number is printed with as much fuel as its value, which is never
-- less than its number of digits.
--
-- Not modelled: how a ledger is split into its published and pending parts; the hash and the date
-- of a migration, which this code does not read; an error that the toolkit throws while it lists
-- foreign keys; the deadline that can abort a closure; NativeSchemaStore; the public form of a
-- required unit; a field of a document that is named __proto__, and arrays, which are objects of
-- their indices; the text of a listing's cursor; and everything else that reads or writes the
-- database. Of a migration of a large table: the timer of the heartbeat, the list of the leases
-- that a process holds, file references, the log, the queries that find a job, other jobs, and
-- what else users do to the Draft while the job is there, such as a revert; the schema toolkit,
-- plugins, validation of rows, views and the checks of the ledger are parameters.
--
-- What the results assume of the toolkit is the record RenamesForeignKeys: the patches for a
-- rename take each reference to the old id to the new one and add no other.
pub mod Base
pub mod CodePoints
pub mod Pointers
pub mod Ledger
pub mod Slots
pub mod Rules
pub mod Ids
pub mod Replay
pub mod SlotCheck
pub mod Attribution
pub mod Timeline
pub mod Choice
pub mod Outcome
pub mod Findings
pub mod Closure
pub mod Merging
pub mod Listing
pub mod Migrations
