-- ===== src/Lib.antt =====
-- A model of ro-builder, a build generator for Ragnarok Online (Go).
--
-- A request is queued as a generation (internal/buildlibrary). A worker (internal/workers) claims
-- it under a lease and runs the model's tool loop (internal/orchestrator). The loop submits
-- trajectories (internal/domain) through the submit_trajectory tool (internal/llm/tools); each
-- chosen snapshot is scored by a calculator sidecar and judged by the quality gates
-- (internal/scoring/gates). A session keeps the answer of record, and the worker saves it and
-- completes the generation in one transaction. The game data comes from database files of the
-- Hercules emulator (internal/data/sources/hercules) through the catalog (internal/catalog).
--
-- Prelude and its children: numbers, lists, results. Go's `int` is an unbounded integer: game data
-- and counters stay far inside its range. Scoring: the records of internal/scoring/types.go, and
-- the operations of `float64` that the program uses. GameData: the records of
-- internal/data/sources/hercules, in whole.
-- Domain.Gate, Domain.Snapshot, Domain.Trajectory: gate results of internal/domain/server.go and
-- internal/domain/trajectory.go; `validate` is `Validate`, with errors as values. Domain.Profile and
-- its children: the profile, its validation and `ResolveEnemy` of internal/domain/server.go.
-- Domain.Build: internal/domain/build.go, and `ToScoreRequest` of a build and of a snapshot.
-- Hercules.Cursor and Hercules.Tokenizer: tokenizer.go in internal/data/sources/hercules; the
-- source is a list of bytes, and the cursor holds what is left of it with the line and the column.
-- `skip` runs on fuel, a unit for each byte, and each of its rounds takes a byte.
-- Hercules.Parser: parser.go there. It runs on two units of fuel for each byte and one more: a
-- call of `parse_value` takes a token or goes on to a call that does.
-- Hercules.Rows, ItemDb, MobDb and SkillDb: items.go, mobs.go and skills.go there, from the bytes
-- of a file; a range over an object goes through its fields in order. Hercules.Roots, SkillTree
-- and JobDb: skill_tree.go and job_db.go, whose loop over named entries is one definition. It has
-- two units of fuel for each byte and two more: a round takes a token, and its value no more fuel
-- than is left. Hercules.Keys has their maps and sorts. The texts of the records come from bytes
-- through a parameter `decode`.
-- Catalog and its children: internal/catalog/catalog.go. Names has its text functions, Load the
-- index that `Load` builds, Classes the class trees, Progression the chain of jobs and the skill
-- points, Search the item search. `visit` recurses on one unit of fuel more than there are classes:
-- each nested call has entered one more class of the catalog.
-- Submission and its children: internal/llm/tools/submit_trajectory.go, with buff_resolve.go
-- (Buffs) and attack_skill_resolve.go (AttackSkills). Select chooses the snapshots to score, Score
-- asks the calculator and stamps them, Scan reads their gates, Execute is the tool. Sessions and
-- Publishes put it together with the session and with the guard of the library.
-- BuildLibrary.Rows and BuildLibrary.Generations: generations.go in internal/buildlibrary. The
-- table is a list of rows, each method a function from the table to the next one, and a history a
-- list of calls in the order in which the database commits them.
-- BuildLibrary.Saved: save.go and accept.go there, over both tables; the vector column of a saved
-- row is left out. A history of the queue has the calls of SaveAndComplete too.
-- The two UPDATEs of RecoverExpiredLeases run on one table, as if no other call committed between
-- them.
-- Workers.Pool: the outcomes of `runJob` in internal/workers/pool.go and what each writes.
-- Orchestrator.Session: internal/orchestrator/session.go. Orchestrator.Wiring, Generate, Loop and
-- Request: internal/orchestrator/orchestrator.go, behind its prompts. The bound on the turns is the
-- fuel of the loop.
-- Gates and its children: internal/scoring/gates, over three lookups into the catalog; `Evaluate`
-- is `evaluate`.
-- Tests: each theorem at a concrete input, and runs of the definitions.
--
-- Not modelled: the network, the database driver and its failures, JSON, prompts and log lines,
-- and generated code. `strings.ToLower` is modelled on ASCII letters. The text of an error or a
-- reason is its format and its arguments. The calculator sidecar is TypeScript beside
-- this code and is used through its answers only, which may
-- differ from call to call; so may the answers of the model provider and of the other tools. A nil
-- dereference, which a malformed catalog can bring about, is an error value of its own.
pub mod Prelude
pub mod Scoring
pub mod GameData
pub mod Catalog
pub mod Submission
pub mod BuildLibrary
pub mod Domain
pub mod Gates
pub mod Hercules
pub mod Orchestrator
pub mod Workers
mod Tests
