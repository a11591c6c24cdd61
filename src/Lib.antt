-- ===== src/Lib.antt =====
-- Verification of the backend of the analyst application (backend/): the tables and their helpers,
-- the rules of the model registry, accounts and keys, share links, scheduled reports, the ceilings,
-- retention and erasure, uploads and the training job, retraining and monitoring, the artifact store
-- and its signatures, the analyst's loop and its sandbox.
--
-- The parts and how they interact. Every component keeps its state in tables of one database
-- (backend/db.py), and its helpers are transactions of their own. backend/auth.py says who calls;
-- backend/limits.py refuses what an account may no longer do, and writes to the audit log
-- (backend/audit.py). An upload is received by backend/utils/uploads.py, gets its run key from
-- backend/utils/hashing.py, and becomes a job that backend/routes/upload.py runs to its end: the job
-- writes a signed bundle (backend/utils/artifacts.py), publishes it (backend/utils/storage.py) and
-- enters the run and its first version in the registry (backend/registry.py), which decides which
-- version is served. backend/monitoring.py logs what is served and compares it with the training
-- (backend/ml/drift.py); backend/retraining.py trains a challenger and lets the registry decide.
-- backend/sharing.py and backend/report_schedule.py grant access to a run and act on it later;
-- backend/lifecycle.py removes a run from all tables and from the artifact store.
-- backend/routes/chat.py takes a question, stores it with its answer and bills it;
-- backend/analyst/agent.py drives a language model and its tools, and backend/analyst/sandbox.py runs
-- the code that the model writes in a child process (backend/analyst/runner.py), in a container
-- (backend/analyst/container.py) if one is configured.
--
-- Files. Base, Text, Table, Owned and Common: lists, texts, tables with a primary key, the owner
-- check. A table is the list of its rows in insertion order; SQLModel's `session.get`, `session.add`,
-- a write to the columns of a row and an ordered query are the operations of Table. Jobs, Runs,
-- Predictions, Conversations, Usage, Versions, Share, Schedules, Users and Audit: the record classes
-- of backend/db.py and the helper functions on them, under the names that they have there. Database:
-- the record of all tables, and the calls on it, which return a value or raise (Http) and leave the
-- tables as far as they were written. Registry: backend/registry.py. Auth: backend/auth.py and the key
-- handlers of backend/routes/admin.py. Sharing: backend/sharing.py. Reports: backend/report_schedule.py.
-- Limits: backend/limits.py and the door of `upload_dataset` in backend/routes/upload.py. Storage:
-- backend/utils/storage.py, with what a machine publishes and fetches in Storage/Mirror. Lifecycle:
-- backend/lifecycle.py, `delete_run` of backend/routes/runs.py and `delete_my_data` of
-- backend/routes/admin.py. Security: backend/utils/security.py. Artifacts: backend/utils/artifacts.py.
-- Hashing: backend/utils/hashing.py. Uploads: backend/utils/uploads.py. Pipeline:
-- `_run_upload_pipeline`, `_register_run` and `upload_status` of backend/routes/upload.py, with the
-- errors of backend/exceptions.py; its steps are functions that change the database or raise
-- (Pipeline/Work), and what its calls return is one record (Pipeline/Lab). Retraining:
-- backend/retraining.py. Monitoring: backend/monitoring.py and backend/ml/drift.py. Chat:
-- backend/routes/chat.py. Agent: backend/analyst/agent.py. Sandbox: backend/analyst/sandbox.py,
-- runner.py and container.py. Examples: concrete inputs.
--
-- Conventions. A moment is a number of seconds since the epoch; a call takes the moment at which it
-- runs, and what `secrets` and `uuid4` draw, as arguments. A score is a fixed-point integer, a
-- margin, a PSI and a rate are in millionths, an amount of money is in millionths of a dollar. SHA-256,
-- HMAC, joblib, lower-casing, the language model, the tools, JSON dumps, the delivery of mail and the
-- start of a process are parameters. A call of pandas, scikit-learn or of a module of backend/ml/ other
-- than drift.py is an outcome, a value or an exception, that a theorem holds for all of. Handlers run
-- one after the other, but for an upload, which is let through in one move of Limits/Burst and has its
-- job in a later one. All loops are structural recursion on a list or on the number of rounds left;
-- only the decimal text of a number (Registry/Decimal) takes fuel, one more than the number itself,
-- which has no more digits than that.
--
-- Not modelled: the machine learning (scikit-learn and floats), what a child process does inside its
-- operating system, CSV parsing, logging, metrics, configuration files, migrations, the HTTP layer
-- beyond the handlers named above, and the frontend.
pub mod Base
pub mod Table
pub mod Common
pub mod Text
pub mod Settings
pub mod Http
pub mod Owned
pub mod Jobs
pub mod Runs
pub mod Predictions
pub mod Versions
pub mod Registry
pub mod Conversations
pub mod Artifacts
pub mod Audit
pub mod Uploads
pub mod Usage
pub mod Share
pub mod Schedules
pub mod Users
pub mod Storage
pub mod Database
pub mod Lifecycle
pub mod Auth
pub mod Sharing
pub mod Hashing
pub mod Limits
pub mod Reports
pub mod Security
pub mod Agent
pub mod Sandbox
pub mod Pipeline
pub mod Retraining
pub mod Monitoring
pub mod Chat
pub mod Examples
