-- ===== src/Lib.antt =====
-- ChargePulse watches a fleet of charge points for electric vehicles. This library models the backend:
-- the gateway that the chargers connect to by OCPP, the services behind the HTTP interface, and the
-- workers that turn events into incidents and alerts.
--
-- The parts, and the files that model them:
-- - Database: the tables of backend/init.sql as lists of rows, and the payloads of events.
-- - Gateway.Router: `MessageRouter` (backend/gateway/message_router.py), the only writer of the gateway.
--   A method is a function on `World`, which is the database and the log of the additions to the streams. Router/Sessions
--   is about the numbering of sessions, Router/Frame about the rows of other chargers, Router/Archive
--   about the agreement of table and additions, Router/Streams about what a trimmed stream holds of them,
--   Router/Status about a charger's status.
-- - Gateway.V16 and Gateway.V201: the handlers of backend/gateway/handler_v16.py and handler_v201.py.
--   A handler takes the request, the readings of the clock, the connection's state and the world, and
--   returns both with the response, or the error that it raises.
-- - Gateway.Profiles: the vendor profiles of backend/gateway/vendor_profiles, which normalise error
--   codes, statuses and meter values before the handlers pass them to the router.
-- - Gateway.Server: the registry of connections of backend/gateway/server.py, as a step relation over
--   registrations, ends of connections and other work in any order.
-- - Gateway.Watchdog: the scan of backend/gateway/heartbeat_watchdog.py over the registered handlers.
-- - Gateway.Commands: backend/gateway/command_consumer.py, which reads the commands that the chargers
--   service writes to the streams and calls the registered handler.
-- - Chargers: backend/app/chargers/service.py, with the quota, the bulk import and the pages of lists.
--   Chargers.Reads holds the queries on one charger, Chargers.Commands `send_command` and what it gets back from
--   the gateway, Chargers.Table the specification of the table as a finite map, Chargers.Reuse what an id that
--   is used again carries over.
-- - Incidents: the rules of backend/ml/rules.py (Incidents.Rules), the worker that evaluates them,
--   backend/workers/inference_worker.py, and the requests of backend/app/incidents/service.py
--   (Incidents.Service), which work on the same table.
-- - Alerts: backend/workers/alert_worker.py and backend/app/alerts/dispatcher.py, which read the
--   entries that the inference worker writes. Alerts.Configs is backend/app/alerts/service.py, and
--   Alerts.Delivered puts the requests and the worker together.
-- - Features: the 24 features of a window, backend/ml/features.py; Features.Worker is
--   backend/workers/feature_worker.py, which stores them for the inference worker and the health worker.
-- - Health: the score of backend/workers/health_score_worker.py.
-- - Models: the rows that backend/ml/training/train_anomaly.py writes, the decisions of
--   backend/workers/training_scheduler.py, and the cache of backend/ml/inference.py. Models.Training is
--   about the samples (backend/ml/training/data_loader.py) and the early stopping, Models.Scoring about the window
--   that is scored.
-- - Fleet: `overview` of backend/app/fleet/service.py and `vendor_comparison` of
--   backend/app/analytics/service.py.
-- - Live: the sockets of backend/app/ws.py, which receive the entries of the inference worker.
-- - Accounts: backend/app/auth/service.py (with Accounts.Profiles), and backend/app/users/service.py
--   (Accounts.Members).
-- - Access: tokens and roles (backend/app/auth/security.py, backend/app/dependencies.py,
--   backend/app/auth/permissions.py).
-- - Admin: the superadmin's operations of backend/app/admin/service.py, on the same accounts.
-- - Prelude holds the shared types and lemmas, Examples the runs at concrete inputs.
--
-- Conventions. A UUID is a number, a time is a number of microseconds, a table is the list of its rows
-- in the order of insertion. Session ids are those of a BIGSERIAL sequence; a transaction id is the
-- session's id modulo 2^31, as in the source, and where a theorem needs that no id wraps around it says
-- so. No definition uses fuel: every loop of the source goes over a finite list. The loop of `send_command`, which the
-- clock ends, goes over the list of the reads that return before its deadline. Lengths of time are exact
-- until a float is made of them. A stream is the log of what was added to it, and how an addition trims the stream
-- (maxlen, approximate) is a field of the addition; for commands and replies, which are read as they come, it is
-- left out. ORDER BY is one function for each query, which need not agree with that of another.
--
-- Parameters stand for code that is not in the repository: datetime.fromisoformat, the interpreter's
-- floats and numpy (`Floats`, `Numbers`), the signing of tokens (`Jose`), json.loads, int and the call
-- of a charger (Gateway.Commands), bcrypt
-- (`Bcrypt`), the senders of alerts (`Transports`) and the database's ORDER BY. The verdict of the
-- trained model of backend/ml/inference.py, which calls torch, is a field of `Arrival`.
--
-- Not modelled: the frontend, the landing page, scripts and deployment; the HTTP routers and the
-- configuration; the networks, their optimisation and their scores, and the failure classifier; map_data,
-- uptime, reliability and predictions, which only read; the timers and the reads of Redis around the loops;
-- failures of the database or of Redis for reasons of their own, such as a number that is no INT.
mod Prelude
pub mod Database
pub mod Gateway
pub mod Chargers
pub mod Incidents
pub mod Alerts
pub mod Accounts
pub mod Access
pub mod Admin
pub mod Features
pub mod Health
pub mod Fleet
pub mod Live
pub mod Models
pub mod Examples
