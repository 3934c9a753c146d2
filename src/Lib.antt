-- ===== src/Lib.antt =====
-- A model of Home Compass: how a rule that was drafted from a public notice becomes a rule that takes
-- part in verdicts, who may decide that, what is kept of it, and how the engines answer a
-- household from the rules, the regions and the constants of the model.
--
-- The parts and the files that model them (paths of the code from the repository's root):
--   Store: backend/src/home_compass/store/. Models.antt has the entities of models.py and `Db`,
--     the tables of sqlite_schema.py; Action.antt the form of a repository method (`Action A`:
--     the tables go in, a result or an error and the tables come out); Validation.antt the checks
--     of validation.py; Drafts.antt, Versions.antt, Approvals.antt and Audit.antt the methods of
--     sqlite_store.py, with the CHECK constraints, keys and triggers of sqlite_schema.py as tests
--     before a row is written; Json.antt JSON objects and Python's dict over them; Reach.antt
--     every sequence of writing calls.
--   Auth: backend/src/home_compass/auth.py. Sessions.antt is SessionStore (create, resolve,
--     delete), Permissions.antt is PERMISSIONS, allows and csrf_matches, Gate.antt is record of
--     auth.py with _record_denial and authorize of main.py, Login.antt the handlers of the login and
--     the logout with optional_session, Seeds.antt is ensure_seed_accounts.
--   Approval: backend/src/home_compass/main.py. Payload.antt is _merged_payload, Decide.antt is
--     _decide and _apply_decision, Batch.antt is _batch_approve with _release_claims and
--     _approval_preflight, Endpoints.antt the three handlers that decide on drafts, each behind
--     authorize.
--   Reports: the report of a counselor and the queue of the reports in main.py (Reports.antt), behind
--     authorize as well; the check of the target reads the clock for itself, so that it has a time
--     of its own.
--   Lineage: the facts behind an answer and the grade of them. Lineage.antt is grade_facts of main.py with
--     freshness_threshold_keys, Facts.antt build_lineage, with required_constant_keys of
--     engines/__init__.py.
--   Review: _highlight_segments of main.py (Review.antt), on texts as lists of code points.
--   Engines: backend/src/home_compass/engines/, where a sentence of a rationale is a constructor
--     with the values that it quotes. Affordability.antt is affordability.py; Eligibility.antt is
--     eligibility.py; Fees.antt, Scenario.antt and Scenarios.antt are tco.py, from the fee table over
--     one scenario to the comparison of four; Risk.antt is risk.py; Loans.antt and Analyze.antt are
--     __init__.py, where `analyze` runs the four engines one behind the other and hands the
--     deposit and the loan of the best scenario to the risk. Floats.antt is what is used of floats,
--     with floor_to and ratio of common.py, Floats/Laws.antt the laws of their order that a
--     theorem may ask for; Faults.antt is what an engine ends with, a value, a ValueError or a
--     KeyError; Money.antt is money of backend/src/home_compass/common.py.
--   Ingest: backend/src/home_compass/ingest/. Ingest/Attempts.antt is the loop of extract_one of
--     extraction.py and Ingest/Extraction.antt the rest of it, over the store. Ingest/Quotes.antt
--     has the checks of a quote, Ingest/Verify.antt is verify of extraction_verify.py behind the
--     check of the envelope and of the JSON Schema; what passes those is a `Draft` and its list
--     of `Entry`.
--     Ingest/Market.antt has the statistics of market/pipeline.py: medians, the rates over cells, outliers
--     and the months of a window; Ingest/Market/Stale.antt is what a failed run does to the regions,
--     `_mark_stale` without its audit event.
--   Prelude holds the names of the libraries that all share, tests and lemmas on lists. Examples
--     holds a store, sessions and requests, and the theorems applied to them.
--
-- How the parts meet: a handler runs `authorize` over the sessions and the tables and, if it is
-- let in, the body; the body calls the repositories' methods in the order of the code, and what
-- was written before an error stays written, since only the statements of one transaction roll
-- back.
--
-- State is passed on explicitly. Calls that run at the same time appear where the store
-- serialises them: as a list of callers in the order of their UPDATEs (Store/Drafts/Claim), as
-- arbitrary sequences of calls (Store/Reach), and as arbitrary tables between the reads and the
-- claims of a batch (Approval/Batch). There is no fuel but for the digits of a number, which
-- are no more than its units and one: every other loop goes over a list or counts down the
-- attempts that are left. Instants are natural numbers of microseconds; no machine-width
-- integer occurs. Amounts of a request are natural, since ProfileRequest allows none below zero
-- and safe_int gives such a number back; the model constants are the fields of records, so a
-- missing key is not modelled.
--
-- Parameters of the model, for code outside the repository: the JSON Schema check of a
-- provenance (`provenance_ok`), the call of the language model with the JSON Schema check of
-- its answer (`Answer`), the argon2 hash of a password and its check, the environment,
-- `isoformat`, the arithmetic of floats (any arithmetic, so that nothing depends on rounding,
-- with laws of their order as named hypotheses), the text of the n-th `uuid4`, and NFC
-- normalisation. Identifiers and tokens that `secrets` draws are arguments.
--
-- Not modelled, and why: the texts of messages (only status and code are kept); regions, model
-- constants and the seed of the store; password hashing (third party) and what a start prints;
-- the summary sentences of eligibility.py and the particle that a summary picks, the loading of
-- notices and the run of the ingest of market data around its statistics, the other handlers of
-- main.py; prompts and calls of a language model; command lines, scripts and screens, which are
-- input and output.
pub mod Prelude
pub mod Engines
pub mod Store
pub mod Auth
pub mod Approval
pub mod Ingest
pub mod Review
pub mod Reports
pub mod Lineage
pub mod Examples
