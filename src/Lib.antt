-- ===== src/Lib.antt =====
-- RoleModel Helper V2: an assistant that answers which automated systems and roles an employee may
-- use, and how to ask for access, from a versioned catalog.
--
-- The parts, and how they meet. A client posts a message to the runtime service
-- (app/runtime/service.py), which looks for a stored response of the same request, reads the
-- session's state, runs the agent (app/agent/service.py) and commits the turn to the state store
-- (app/runtime/postgres.py). The agent takes the active bundle from the catalog cache
-- (app/catalog/cache.py), tries its deterministic handlers, which search the bundle with the tools
-- of app/tools/catalog.py, and asks a planner only if none of them replies; the planner is the
-- provider of app/providers/gigachat.py. A trace (app/telemetry.py) goes with the turn into its
-- diagnostics. The catalog is extracted from a snapshot of the first version of the program
-- (app/catalog/v1_snapshot.py), validated and published as a release (app/catalog/postgres.py),
-- from which the cache loads it. The settings (app/config.py) are checked for collisions with that
-- version, and the migrations make the tables of both schemas.
--
-- Prelude has the library names that all files share, with Prelude/Equality (the tests of Python),
-- Prelude/Lists and Prelude/Dict (dict). Text has str as lists of code points, Text/Words
-- splitting and joining, Text/Chars the numbers in texts. Score has the floats.
--
-- Catalog/Normalization: normalize_query, parse_department_number and normalized_tokens of
-- app/catalog/normalization.py; its laws are in Normalization/Laws. Catalog/Bundle: CatalogBundle
-- and from_mapping of app/catalog/cache.py. Catalog/Cache: CatalogCache, one function for each
-- critical section of refresh and _record_source_error; Cache/Threads has the threads between them
-- as a step relation (waiting and waking included) and Cache/Safety what holds in every reachable
-- state. Catalog/Validation: _validate_catalog of app/catalog/postgres.py. Catalog/Releases: the
-- transaction of PostgresCatalogPublisher.publish after the validation, and PostgresCatalogSource,
-- over the tables catalog_release and catalog_pointer; Releases/Rows has the rows of the other
-- tables (_insert_entities, _insert_aliases, _insert_relations) and their primary keys.
--
-- Catalog/Snapshot: V1SnapshotCatalogAdapter of app/catalog/v1_snapshot.py, on the rows that its
-- queries return (Snapshot/Rows, with _stable_id and _append_unique). Snapshot/City is
-- _extract_city with its regular expression, Snapshot/Aliases, Snapshot/Entries and
-- Snapshot/Access are the loops of _build_document in their order, and Snapshot/References
-- compares their result with the validation.
--
-- Settings: app/config.py. Migrations: what PostgresMigrator of app/runtime/postgres.py and
-- PostgresCatalogMigrator of app/catalog/postgres.py share, as a run over a list of steps;
-- Migrations/Runtime and Migrations/Catalog have the steps, the rights and verify_ready of each.
--
-- Gigachat: app/providers/gigachat.py. Gigachat/Token is GigaChatTokenManager, Gigachat/Candidates
-- _catalog_candidates, Gigachat/Json the values of json, Gigachat/Planner the payload, post_json
-- and plan, and Gigachat/Turn the provider as the planner of the agent.
--
-- Tools/Rank and Tools/Search: _rank_text and CatalogSearchTools of app/tools/catalog.py, one
-- function for each tool; Difflib is the SequenceMatcher that they call.
--
-- Agent/Models: app/agent/models.py. Agent/Phrases, Agent/Matches and Agent/Answers: _normalize,
-- _contains_phrase, _system_matches, _roles_answer and _instruction_answer of
-- app/agent/service.py. Agent/Dialogue: Reply is what a handler returns and
-- _candidate_clarification, Profile is _finish_profile_access, Slot is _handle_pending_slot,
-- Organization is _organization_request. Agent/Deterministic is _deterministic, Agent/Engine is
-- handle and _provider_rejection. Engine/Replies and Engine/Plans say what a reply has,
-- Engine/Outcomes how a turn ends, Engine/Total that it ends. Telemetry is app/telemetry.py.
--
-- Runtime/Payload: _state_payload, _state_from_payload and _result_payload of
-- app/runtime/service.py. Runtime/Store: PostgresStateStore of app/runtime/postgres.py over its
-- two tables, with the invariant of the tables in Store/Invariant. Runtime/Service:
-- RuntimeService, alone in Service/Laws, with the agent in Service/Agent and Service/Causes, and
-- under concurrent requests in Service/Threads.
--
-- Api: the handlers of app/api.py over the service and the cache. Bootstrap: app/bootstrap.py,
-- which makes the source, the cache, the planner and the service from the settings, and
-- JsonCatalogSource of app/catalog/json_source.py.
--
-- Conventions. A method that changes state takes the state and returns it with its result; an
-- exception is a value (Result, the none of an Option, or raised). A transaction of the store is
-- one step. The recursion that is not structural has fuel: decimal has one unit more than the
-- number, which has fewer digits, and the matching blocks of Difflib have one unit for each
-- character of both texts.
--
-- Abstractions. Documents of the catalog are typed records, so a missing required key is not
-- modelled. An access level of a role is missing, a number that is not negative, or a value that
-- int refuses. The texts that come to the store hold no NUL, which PostgreSQL cannot store. The
-- queries of the snapshot adapter stand for the lists of rows that they return, in their order. A
-- schema under migration is its versions and the part of its content that the theorems speak of.
-- Case folding and the classes of regular expressions are those of ASCII and the Cyrillic block.
-- Floats are fractions of natural numbers, compared by cross multiplication. The clock, the trace
-- ids, the planner and the source of the catalog are parameters; so are SHA-256, Base64, the JSON
-- functions and number conversions of Python, the paths of the system and the HTTP client. The
-- readings of the clock in one call for a token are a record. The times of messages are left out,
-- and so are the texts of exceptions that are not answers.
--
-- Not modelled: the telemetry report (app/runtime/telemetry.py), the entry points, the pages and
-- the lifespan of app/api.py, the timer thread of the cache, the locks and the details of the data
-- definition statements of the migrations, the payloads of entity rows, and the scripts, which are
-- input and output around these parts or are independent of them.
pub mod Prelude
pub mod Text
pub mod Catalog
pub mod Score
pub mod Agent
pub mod Telemetry
pub mod Runtime
pub mod Difflib
pub mod Gigachat
pub mod Settings
pub mod Api
pub mod Bootstrap
pub mod Migrations
pub mod Tools
pub mod Tests
