-- ===== src/Lib.antt =====
-- Danus: a verification library for the engine under danus/.
--
-- Danus runs several proof-writing agents on one problem. Each paid round of an agent needs a slot
-- of the coordinator. The agents' candidate facts go through a paid verifier, and what it accepts
-- enters a content-addressed graph of facts.
--
-- Base has the shared lists, dictionaries, tests and results.
--
-- Coordination is danus/coordination/. Policy is policy.py, the settings of a project and the
-- choice of its paid lanes, with what they give in Policy/Settings and Policy/Rosters, and
-- Directive its paid directive. The rest is store.py: Rows has the tables of the store's database
-- as lists of records, Binding the checks that tie a slot to its task and prompt, Advance the end
-- of a phase and of a generation, Transactions the commit and the roll-back, Admit `admit`, and
-- Slots `pin_prompt`, `activate`, `mark_ambiguous` and `complete`. Evolution says how a store may
-- change, and its children show it of each transaction; Candidates has `register_candidate` and
-- `record_exact_fact_reuse`, Outcomes `terminalize_candidate` and
-- `resolve_candidate_outcome_unknown`, History how their rows may change. Requests runs any
-- sequence of all these transactions; PhaseEnds, CarryForward, Admissions, OpenSlots and
-- CandidateEnds say what the end of a phase, the next generation's tasks, an admission without and
-- with an open slot, and the end of a candidate are, and Searches what the queries' tests say. A
-- transaction runs alone, as SQLite's BEGIN IMMEDIATE has it, so a store is a value and a
-- transaction a function. The columns that are computed from others (digests, sizes) are computed
-- where they are read, and the checks that compare a column with such a value are left out; so are
-- the rows of older databases, `record_candidate`, the evidence, the recommendations and the set-up
-- of the database. The id of a new slot, random in the source, is an argument. What the store uses
-- of Python's strings, regular expressions, JSON and hashes are the parameters `Text`, `Receipts`
-- and `RoleText`.
--
-- Core is danus/core/. Verdict models verification.py, the contract that the verifier's answer must
-- meet, over a type of JSON values; Verdict/Accepted says what an accepted answer is. The text of
-- an error leaves out what it interpolates beyond the path.
--
-- Graph is danus/core/factgraph.py, the graph of facts and its recovery after a crash. Disk has the
-- files that the graph keeps, Descendants `_descendants_unchecked`, Glossaries the project's
-- glossary. Revoke has `_revoke_unlocked` and `_resume_pending_revocation_unlocked`, Add has
-- `_add_unlocked` and `_rollback_pending_add_unlocked`, both as lists of steps, one for each write
-- that the source makes durable, so that a crash is a list that is cut. Operations has `add` and
-- `revoke`, each after its recovery. Their children say what they do: Descendants/Correct,
-- Glossaries/Merge, Revoke/Resume, Revoke/Effect and Revoke/Returns, Add/Atomic and Add/Effect,
-- Operations/Sound and Operations/Crashes. The locks let one operation run at a time. Files are
-- given with what parse_frontmatter reads in them, journals and the glossary as values, so that the
-- decoding of their JSON and the tests of its shape are left out; left out too are the tests of
-- their format and of ids, the older formats, the full identity and the content hash of a fact,
-- what the text of an error interpolates, and system calls that fail other than by ending the
-- process, but for the write of the commit marker.
--
-- Verify is danus/verify/. Verify/Scheduler models verify/scheduler.py, the single paid verifier
-- slot: State has the data, Cache the result cache, Moves and Calls the critical sections of
-- `execute`, System the callers and every order of their steps, Accounts and Bounds the invariants,
-- Safety what follows from them, and Reuse where the cached results come from. Python's json is a
-- parameter (`Codec`).
--
-- Times are natural numbers, where the source has floats. Every loop of the source runs over a list
-- but one: the search of Descendants has the fuel `length files + 2`, which is enough, since a
-- round takes one id from the stack and each file enters it once at most.
--
-- Not modelled: hashing, logging, the HTTP layer and the agents' processes, which are input and
-- output; the selection of definitions and the contexts of the graph of facts, the evidence and the
-- recommendations of the store, the prechecks of the verifier, and the parts of danus/ that are not
-- named above.
pub mod Base
pub mod Coordination
pub mod Core
pub mod Verify
