-- ===== src/Lib.antt =====
-- A multi-tenant feature flag service (thinking-feature-flag-service/app).
--
-- A tenant registers, gets an API key, and keeps flags, each with one config per environment.
-- Evaluation resolves a flag for a user from a compiled flag set, which Redis caches and every
-- write invalidates; every write leaves an audit record. Two middlewares surround the endpoints:
-- one limits the requests of an API key in a minute, one names, counts and logs each request. The
-- files follow the modules of the service:
--
--   Values: flag values, their types, Python's `==` and `str` on them (schemas.py, models.py).
--   Evaluation: `bucket_for`, `_matches`, `evaluate`, `evaluate_all` (evaluation.py).
--   Models: the tables as lists of rows, queries as filters (models.py); Models/Integrity states
--     what well-formed tables are.
--   Ddl and Migration: the statements of the migration
--     (migrations/versions/0001_initial_schema.py), the metadata of the models (models.py), and in
--     Migration/Rows what Postgres does to the rows under that schema. Postgres is a parameter,
--     and `RowLaws` names what its documentation says of row triggers and referential actions.
--   Schemas: request bodies and their validators (schemas.py).
--   Outcome: a handler returns or raises; an exception that nothing catches is a 500.
--   Services: the settings (config.py), and what lies outside the repository as parameters:
--     SHA-256, the Redis client, JSON text, the text of a uuid, the size of a column, the order of
--     texts, the rank of a percentile and the rounding to three digits. The record `ServiceLaws`
--     names what the code relies on, `CounterLaws` and `CounterAnswers` what the limiter needs;
--     Tests/Redis gives an instance of each.
--   Payload and Cache: cached items, keys, reads, writes, invalidation, and the one client
--     (cache.py).
--   Security: key hashing, `require_admin`, `authenticate`, `require_tenant` (security.py).
--   Metrics: counters, bounded samples and the snapshot (metrics.py).
--   World: the state of the service: tables, Redis server, cache counters and metrics.
--   Routers: the endpoints (routers/tenants.py, routers/evaluate.py, routers/flags.py). A session
--     is a change of the tables that is committed or dropped.
--   Api: a request with its header as one step of the world, dependencies and validators first,
--     and sequences of requests. Api/Effect describes the steps as a relation, on which the
--     theorems about tenants, tables, audit log and cache stand. Api/Replay reads the audit log as
--     a history.
--   Http: requests and responses around the Api. Http/Root has the probes and the metrics endpoint
--     (main.py), Http/Routed turns an outcome into a response, Http/RateLimit is the limiter and
--     Http/Correlation the outer middleware (middleware.py); `app` composes them in the order of
--     main.py, and `run` sends requests one after the other. Http/Invariants carries what every
--     handler keeps over to `run`.
--   Logging: the fields of a log line, the loggers, and what their handlers write for a record
--     (logging_config.py).
--   Common: tests, lists, sorting, and texts with the digits of numbers.
--   Tests: a small service, on which the theorems are applied.
--
-- Numbers: percentages, counts and instants are natural numbers, an instant counts microseconds, a
-- latency steps of the smallest positive float, which makes every latency a whole number, a
-- uuid is the number of its bits, and a finite float is an integer over a power of two. No
-- definition takes fuel but the printing of decimal digits, which gets one more step than the
-- number itself.
--
-- Not modelled: requests run one after the other, so that interleavings are absent but for the one
-- race of Api/Coherence/Race; db.py and migrations/env.py, which are calls of SQLAlchemy and
-- Alembic; TRUNCATE and what a statement that alters the schema does to the rows; the lifespan and
-- the documentation of main.py; the log lines other than `request_completed`; FastAPI's routing
-- and parsing. A counter of the limiter is kept as long as no key of Redis expires: that is a
-- hypothesis, `CounterLaws`, where a theorem counts requests.
pub mod Common
pub mod Ddl
pub mod Values
pub mod Evaluation
pub mod Migration
pub mod Models
pub mod Schemas
pub mod Outcome
pub mod Payload
pub mod Services
pub mod Cache
pub mod World
pub mod Security
pub mod Metrics
pub mod Routers
pub mod Api
pub mod Http
pub mod Logging
pub mod Tests
