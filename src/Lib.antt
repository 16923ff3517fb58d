-- ===== src/Lib.antt =====
-- The model of vfobs, the event store and observability service in src/vfobs, and of its Python
-- SDK in sdk/python/vfobs_sdk.
--
-- Controllers and harnesses send typed events to the ingest endpoint, which runs them through a
-- pipeline into a repository. Readers ask the read endpoints for tasks, workgraphs, pages of
-- events and cost rollups; these combine the repository with metadata of the service vtaskforge,
-- which also validates the tokens of readers. The SDK pages through a task's events, and its
-- watcher turns them into a verdict on the task. Its emitter buffers events and sends them in the
-- background.
--
-- Which file models which part:
-- - Prelude: Boolean tests, lists and integers over the native naturals, exceptions and results
--   (Prelude/Result), and dictionaries as association lists (Prelude/Dict).
-- - Events: src/vfobs/events. Events/Base has the envelope `Event` and its construction
--   `new_event`, Events/Values the values of its enumeration, Events/Classes the classes with
--   their `type`, the registry and the namespace validator, Events/Schemas the dump of their
--   schemas, Events/Namespaces the typed payloads, Events/Factory the methods of `EventFactory`,
--   with any call of them as a value in Events/Factory/Calls, Events/Json an event as JSON, and
--   Events/Fields how pydantic reads the fields of a model from JSON. A model's field `payload` is
--   the field `data` of the source; `type` is computed from the payload's class. Floats, datetimes
--   and `str.strip` are the parameter `Platform` (Events/Platform).
-- - Repository: src/vfobs/repositories/event_repository.py. Repository/Model has the read models
--   and the clamped limit; Repository/Interface the abstract class as a record of methods over a
--   state, the view of a state as a log, and the contract; Repository/Log what queries and rollups
--   mean on a log; Repository/Memory the class `InMemoryEventRepository`, one function for each
--   method, with the rollup in Repository/Memory/Cost. A method that changes the state returns the
--   new one. Repository/Postgres has the class `PostgresEventRepository`: it builds the clauses
--   and parameters of each query as the source does, and hands them to a database.
--   Repository/Postgres/Sql has the clauses, the statements and their texts, and what the database
--   is taken to do with them; Repository/Postgres/Rows the conversion of events and rows;
--   Repository/Postgres/Costs the rollup's query with its text and its meaning.
-- - Adapters: src/vfobs/adapters. Adapters/Vtf has the client, over a parameter for the HTTP
--   client and the validation; Adapters/Validate that validation on JSON; Adapters/Stub the stub
--   of vtaskforge in scripts/scenario/vtfstub/app.py, with the client against it.
-- - Api: src/vfobs/api. Api/Reads, Api/Cost and Api/Events have the endpoints, over any repository
--   that keeps the contract; Api/Auth and Api/ReadAuth the two authentication strategies, the
--   latter with its cache as a state that each call passes on; Api/ReadAuth/Answered has it over
--   the client of vtaskforge, Api/Routes the read and cost endpoints behind it, in requests one
--   after the other, and Api/ReadAuth/Interleaved the same strategy with calls that run at the
--   same time, cut where `verify` awaits vtaskforge. Api/Body has the union `AnyEvent` as the body
--   of a post is validated by it, Api/Ingest the endpoint behind its authentication and that
--   validation, Api/Health the probes; Api/Query the builder of a query from the parameters of a
--   URL; Api/Dto the response models.
-- - Sdk: sdk/python/vfobs_sdk. Sdk/ReadClient has the paging client, Sdk/Watch the watcher: the
--   fold over the events (State), the rules (Rules), the polling loop (Loop), the command line
--   (Main). Sdk/Emitter has the emitter: one step for each call and for each turn that its drain
--   task gets; Sdk/Emitter/Warnings the rate limit of its warnings, and Sdk/Emitter/Substitutes
--   the other two emitters. Sdk/Events has the SDK's own event models, and Sdk/Events/Wire the
--   JSON that is posted of them.
-- - App: `create_app` and `_lifespan` of src/vfobs/main.py.
-- - Middleware: `RequestLoggingMiddleware` of src/vfobs/middleware/logging.py with its metrics,
--   and in Middleware/Ingested the middleware around the ingest endpoint.
-- - Delivery: the posts of the SDK's emitter as requests to the ingest endpoint, and what the
--   server's log and the SDK's reader have of them.
-- - Schema: the partitions (Schema/Months), checks and grants that
--   alembic/versions/0001_initial_schema.py creates, and the URL of alembic/env.py.
-- - Tests: concrete data, and the theorems at concrete inputs.
--
-- Exceptions are values (`Result`), and None is `Option.none`. The paging client has fuel for its
-- rounds: one more than the number of the task's events is enough, since a page with a cursor is
-- never empty. The polling loop runs over the list of polls to come, and gives None where it still
-- runs after all of them. Requests run one after the other, and the calls that await are atomic
-- steps, but for the emitter's drain task and for the interleaved calls of the read
-- authentication. A post reaches the server once or not at all, since httpx does not send it
-- again.
--
-- A drain task needs a round, a turn and the answer to its post, for each queued event and two
-- more.
--
-- Parameters, with what is documented of them as named hypotheses: hmac.compare_digest
-- (`HmacLaws`), the order of points in time (`OrderLaws`), the hash of tokens and the clock
-- (`Runtime`), the HTTP client and pydantic's validation (`Http`), and the JSON that pydantic
-- dumps (`Wire`). As `StoredEvent.event` is declared with the base class `Event`, pydantic dumps
-- it without `data`. The database is `Database` with `DatabaseLaws`, and for the rollup
-- `CostDatabase` with `CostLaws`; the JSON codec of payloads is `Codec` with `CodecLaws`, and the
-- integers that pydantic reads from a URL are `Pydantic`. What pydantic reads as a text, an
-- integer, a float or a time from JSON is `Scalars` with `ScalarLaws`, and of vtaskforge's answers
-- `DtoScalars` with `DtoLaws`; an object of JSON has distinct keys, as Python's `dict` does. The
-- laws of the database speak of statements whose parameters the driver takes (texts in the
-- encoding of the database, integers in the range of BIGINT) on a connection that is there; of
-- others they say nothing. JSONB may reorder the keys of an object, and `KeepsJson` takes the
-- value that comes back as the same, as Python's `dict` equality does. A row is routed to a
-- partition by the date of its timestamp. The registry of prometheus_client is `Metrics` with
-- `MetricsLaws`, and the exception handlers of FastAPI are `Handlers` with `HandlerLaws`. A
-- statement is a value whose text `statement_text` gives; the laws say what the database does with
-- such a statement.
--
-- Not modelled: the rest of the schema in alembic and the runs of alembic/env.py (DDL and calls of
-- SQLAlchemy); the settings, which pydantic reads from the environment, and the engine; the output
-- of the watcher; the routing of FastAPI.
pub mod Prelude
pub mod Events
pub mod Repository
pub mod Adapters
pub mod Api
pub mod Sdk
pub mod App
pub mod Middleware
pub mod Delivery
pub mod Schema
pub mod Tests
