-- ===== src/Lib.antt =====
-- Verification of the EvalLedger backend, a registry of evaluation benchmarks that checks their
-- artifacts for contamination by training corpora.
--
-- A request passes the middlewares of backend/app/main.py (Http), the rate limiter of
-- backend/app/ratelimit.py (RateLimit), authentication (Registry.Auth), and then a handler, which
-- reads and writes the database in one transaction (Registry), stores artifacts, and queues a Celery
-- task that runs the contamination engine (Contamination). Exceptions become responses in
-- backend/app/errors.py (Errors).
--
-- Files, by the code that they are about:
--   Base: numbers, texts, tables, and the parts of Python's str and pathlib that the code uses. A text
--     is the list of its code points, a table the list of its rows.
--   Errors: backend/app/errors.py. AppError, the exceptions with a handler, and their responses.
--   Security: backend/app/security.py and the state tokens of backend/app/routers/oauth.py.
--   RateLimit/Identity, RateLimit/Limiter: backend/app/ratelimit.py, whose functions keep their names;
--     `call` is RateLimit.__call__. Spoofing and Window hold the theorems.
--   Http/Message, Http/ClientIp, Http/Caching, Http/Idempotency: the middlewares of
--     backend/app/main.py and backend/app/idempotency.py. Race runs several requests at once.
--     Http/Context: request_context, around idempotency, with the request counter of
--     backend/app/metrics.py, the log line and the filter of backend/app/logging.py, and the health route.
--   Uploads: backend/app/utils/uploads.py. Storage: backend/app/services/storage.py, a store being the
--     list of its files or objects with their contents.
--   Contamination/Score, Shingles: backend/app/utils/minhash.py. Classify, Examples, Detection,
--     Reports: backend/app/services/contamination_engine.py; run_detection is the whole job. Job:
--     backend/app/tasks/contamination_tasks.py. CorpusIndex: backend/app/services/corpus_index.py, on
--     the JSON documents of JsonFile. AdHoc: backend/app/routers/contamination.py.
--   Registry/Db: the tables of backend/app/models. Session: backend/app/database.py and
--     backend/app/services/audit.py; a handler is an Action on a World, which has the committed and the
--     working database, the object storage and the task queue. Auth: backend/app/dependencies.py.
--     Account: backend/app/routers/auth.py and backend/app/services/account.py. SignIn:
--     backend/app/services/oauth.py. Providers, Callback: the routes of
--     backend/app/routers/oauth.py. Citations: backend/app/services/versioning.py and provenance.py.
--     Published: the routes of backend/app/routers/versions.py that read. Benchmarks, Versions,
--     Reviews (admin.py) and Reports: the routers of these names in backend/app/routers.
--   Scripts/Dsn, Artifacts, Restore, Backup, LoadTest: check_artifacts.py, check_restore.py,
--     db_backup.py and loadtest.py of backend/app/scripts, without what they print.
--   Witnesses: concrete inputs, with stand-ins for PyJWT, Redis and the decoders.
--
-- Every loop is a structural recursion on a list, a text, a stream, a document or, for the numbered
-- usernames, on the 9,999 numbers that the code tries. One has fuel, the loop over the chunks of an
-- upload, which needs a round for each byte and one more at most and is given as many, so that it
-- never runs out. The caps of the detection pass (max_examples, max_flagged_examples,
-- max_example_chars) are the engine's own.
-- Numbers have no upper bound, as Python's have none. Ids and times are numbers. A similarity or an
-- overlap is the exact fraction, where the program has a float: the rounding of what is stored to four
-- digits is left out.
--
-- PyJWT, Redis, datasketch, the OAuth providers, the decoders of artifacts, S3, semver, hashes and the
-- Unicode tables are parameters; what a theorem needs of them is a named hypothesis (DecodesSigned,
-- Laws of Counters, Stores, RoundTrips, Sketches, ReadsWritten, Incremental), which the stand-ins in
-- Witnesses fulfil.
--
-- Not modelled: the redelivery of a task whose worker was lost; messages, durations, summaries and metadata of audit events; search and statistics;
-- what the scripts print; the seed data; the migrations, the command line client and the web frontend.
pub mod Base
pub mod Errors
pub mod Security
pub mod RateLimit
pub mod Http
pub mod Uploads
pub mod Storage
pub mod Contamination
pub mod Registry
pub mod Scripts
pub mod Witnesses
