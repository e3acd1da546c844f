-- ===== src/Lib.antt =====
-- Governed Agent Platform: the run lifecycle, the approval gate, the model gateway,
-- the tools, retrieval and their stores.
--
-- The program runs agent tasks. The orchestrator (packages/orchestrator) takes a run through the
-- steps classify, retrieve, decide tools, execute tools, request approval if needed, generate
-- response, complete. It calls collaborators for each step, writes the status of the run to a
-- run store and events to a trace recorder, and pauses a run whose tools need approval. The
-- runtime controller (packages/runtime) keeps the contexts of paused runs so that the resolution
-- of an approval can resume them. The gateway (packages/gateway) selects the provider and the
-- model of a request and falls back to a second provider. The tool executor (packages/tools)
-- runs a tool behind its schema, its timeout, its retries and its approval flag. Tracing
-- (packages/tracing) defines the events, the recorder and the timeline.
--
-- Files:
-- - Prelude and its child modules: names of the libraries passed on, tests, lists, dictionaries
--   in insertion order, equality, the values of JSON, and `Exec`, code that changes a state and
--   may raise. What was written before a raise stays written.
-- - Tracing, Tracing/Timeline: packages/tracing/src/tracing/events.py, recorder.py, timeline.py.
-- - Orchestrator/Models, Errors, StateMachine, Interfaces, Approval: the files of
--   packages/orchestrator/src/orchestrator with these names (steps.py belongs to StateMachine).
--   StateMachine/Order and StateMachine/Sequence are about the diagram of the states and the
--   order of the steps.
-- - Orchestrator/Engine: engine.py. Engine/State has the state of a method: the context, which
--   the source changes in place, beside the world of the collaborators. Engine/Methods has
--   `_transition_state`, `_record_event`, `_request_approval`, `_cancel_run`, `_fail_run`;
--   Engine/Turns has the body of the loop of `_execute`, a function for each step; Engine itself
--   has the loop, the `except` clause, `start_run` and `resume_after_approval`.
--   Engine/Termination, Lifecycle, Gate, Resume and Store hold the theorems.
-- - Runtime: packages/runtime/src/runtime/engine.py. Runtime/Views is about its queries, and
--   Runtime/Pause puts the controller in the place of the engine's runtime hooks.
-- - Gateway/Types, Config, Policies, Router: the files of packages/gateway/src/gateway with
--   these names. Config/Environment reads the configuration; Config/Complete, Gateway/Routes and
--   Gateway/Fallback hold the theorems. Gateway/Providers/OpenAi, Anthropic and Mock: the adapters
--   in providers/, the first two over the HTTP client of Providers/Http; Providers/Errors and
--   Providers/Retries hold the theorems.
-- - Tools/Schemas: schemas.py, permissions.py and the look-up of registry.py in
--   packages/tools/src/tools; Tools/Executor: executor.py. Tools/Reports and Tools/Returns hold
--   the theorems.
--   Tools/Implementations: the look-ups and the drafted refund of implementations/;
--   Tools/Implementations/Tenants is about their tenants. Tools/SearchDocs: search_docs.py, with
--   its theorems in SearchDocs/Results and SearchDocs/Ranked. Tools/Registry: registry.py, with
--   the default tools; Registry/Outputs, Registry/Handlers and Registry/Disclosure say what a call
--   of one discloses.
-- - Retrieval: packages/retrieval/src/retrieval. Floats and Embedding: embeddings.py; Types:
--   types.py and citations.py; Filters: filters.py; Store, Ranking, Store/Pg and Store/Postgres:
--   store.py (the store in memory, the order of its ranks, the store over a session on PostgreSQL
--   and elsewhere); Chunking and Documents: chunking.py; Service: service.py. The other modules
--   below these hold the theorems.
-- - Db/Enums, Session, Runs, Approvals, ToolInvocations: enums.py, models/ and repositories/ of
--   packages/db/src/db. Db/Stores puts the repositories in the place of the engine's stores.
--   Db/Runs/Events, Db/Approvals/Resolution and Db/Stores/Status hold the theorems. Db/Evals:
--   eval_repository.py and its rows, over a session of their own; Db/Evals/Cases is about the cases.
-- - Orchestrator/Decisions: the translations of statuses in approval.py.
-- - Evals/Scoring, Reports: cases.py, scoring.py and reports.py of packages/evals/src/evals.
--   Evals/Cases, Responses, Runner: runner.py, with the choice of the tool, the response made of
--   its result, and the run. Evals/Reports/Comparison, Evals/Cases/Arguments, Evals/Runner/Outcome
--   and Evals/Runner/Baseline hold the theorems.
-- - App/Platform: apps/api/app/demo.py, the service for runs; App/Approvals: the resolution of
--   approvals in apps/api/app/main.py; App/Demo: the routes and the plan of the demo in demo.py;
--   App/Demo/Tools: its responses and the execution of its tools; App/Reports: the reports of the
--   evals, read from the database. App/Platform/Started, App/Approvals/Refused, App/Demo/Plans,
--   App/Demo/Execution and App/Reports/Reading hold the theorems.
-- - Tests: concrete collaborators and providers, runs of the code on them, and each theorem at
--   an input that meets its hypotheses.
--
-- Parameters: the collaborators of the engine (Orchestrator/Interfaces) and the adapters of the
-- gateway (Gateway/Types) are arguments of the model, over a type `W` of worlds that their calls
-- may change, and so are the schema and the handler of a tool and the clock of the tool
-- executor; any call may raise any exception, and a later call may answer differently. Only
-- Exception is modelled, not an interrupt.
--
-- Of other libraries, the HTTP client with its exceptions, the environment, the operations on
-- floats and their order (Retrieval/Floats, Ranking), the test of white space, the words, upper case and the hash of a text, the text of a value, and the
-- sessions of the database (Retrieval/Store/Pg, Retrieval/Store/Postgres, Db/Session) are
-- arguments too. A session is given by the rows that its queries see and what its calls do to
-- them; its laws, IsSession, hold where nothing of the database fails. The seed data of the tools
-- and the documents are arguments.
--
-- Fuel: the loop of `_execute` takes a unit of fuel for each turn and `execute` gives it
-- `max_turns`, eight. Orchestrator/Engine/Termination shows that this is enough from every step.
-- The loop of the tool executor takes one for each attempt and is given one more than the
-- retries, which Tools/Reports shows to be enough. The loop of `_slice_text` takes one for each
-- slice: slice_text-Ends of Retrieval/Chunking/Progress says when one more than the length of the
-- text is enough, and slice_text-stuck when no fuel is.
--
-- Representation: an enumeration is a data type with its values as text; a UUID is a number; a
-- payload is a list of named JSON values; a float that is only handed on is its literal; the
-- body of a tool result is a payload. The controller keeps a waiting context by value: the
-- engine does not change a context between its pause and its resumption. The gateway is modelled
-- with the two policies of policies.py, which are its defaults; `is_configured` of an adapter is
-- a constant. A log of the providers' calls is whatever the world keeps. The number of retries
-- and the timeout of a tool are not negative; a handler answers with the milliseconds that it
-- took, and is late when they are more than its timeout.
--
-- A text that is cut into chunks is the list of its characters. A row has the columns that the
-- program reads; a time is a number. An eval score is 1 or 0, a total is
-- in eighths, and an average is a sum beside a count. What a search in memory shares with its
-- store is by value.
--
-- Not modelled: the files that the eval cases are read from, the deltas of a comparison, the
-- retrieval adapter, the trace and the start of the evals in the demo's service, the other HTTP
-- routes, the migrations, the console and the scripts.
pub mod Prelude
pub mod Tracing
pub mod Orchestrator
pub mod Runtime
pub mod Gateway
pub mod Tools
pub mod Retrieval
pub mod Evals
pub mod Db
pub mod App
pub mod Tests
