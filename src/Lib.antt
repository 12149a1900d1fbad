-- ===== src/Lib.antt =====
-- A production data hub: an HTTP service over two SQLite databases of production records, with
-- webhook notifications, anomaly scans, material links and a desktop manager. This library models
-- the parts that keep state of their own and that the others call.
--
-- RateLimiter (shared/rate_limiter.py) is the sliding window limiter in front of every route. Its
-- state is a record of the two limits and a dictionary from address to time stamps; `is_allowed`,
-- `remaining`, `retry_after`, `cleanup` and `get_stats` are the methods of those names, each a
-- function of the address, the time and the state. The lock makes a method one step, so calls of
-- several threads are a sequence.
--
-- Access (api/main.py, shared/auth.py) is the middleware around every route: the limiter of the kind
-- of request admits it, `authenticate` grants it, and only then the route runs. A route is a
-- parameter there, a function of the request and of the rest of the server.
--
-- Notifications (api/notifications/) delivers events to webhooks. `emit_event` (Events, events.py)
-- looks up the active webhooks (Webhooks, webhooks_repo.py, with the validators of Schemas,
-- schemas.py) and writes rows of `webhook_deliveries` (Deliveries, Requeue and Pages,
-- deliveries_repo.py). A worker (Worker, worker.py) ticks: it puts back orphaned rows, claims due
-- ones, sends each (Dispatcher, dispatcher.py), and records the outcome with the time of a further
-- attempt (Backoff, backoff.py). The rows and the two tables are in Model (_store_models.py,
-- _store_connection.py).
--
-- Anomaly (api/anomaly/store_state.py, `_emit_new` of detector.py) emits what a scan found through
-- `emit_event`, after asking for each key whether its cooldown has passed. Its state, the cooldown
-- file, is a record with a dictionary from key to the time of the last emission. The emitted findings
-- are kept in a history (Findings, store_findings.py), whose table is a list of rows; Stale is
-- `detect_stale_items` of rules.py.
--
-- Materials (api/materials/, api/routers/materials.py) takes in material requests by dataset. The bot
-- sends whole sheets; `upsert_materials` (Store, store.py) merges them by document and position and
-- leaves out documents that were deleted, of which a tombstone stays. Runs (runs.py, automation.py)
-- is the history of backups and automations with the trigger of the bot. Router joins the two.
--
-- Records (api/routers/records.py, `escape_like_wildcards` of shared/validators.py, `_normalize_date`
-- of api/_http_helpers.py) is the listing of production records: the filters become clauses with
-- positional parameters (Sql renders a condition as the text of the source and evaluates it as SQLite
-- does), the statement over the databases is Database's, and a page ends in a cursor.
--
-- PortalJobs (portal_jobs_logic.py) merges the manager's form for a collection job into the bot's
-- configuration: its jobs, collectors and routes, after `validate_form` has found no error (Checked).
--
-- Database (shared/database.py) picks the databases that a range of dates needs and builds the
-- statements over them with their parameters.
--
--   RateLimiter.antt          the state and the methods; Window, Admission: lemmas on time stamps
--   RateLimiter/Trace         sequences of requests; Retry, Cleanup, Reachable: the other methods
--   Access                    both middlewares; Auth, Grants: credentials; Served: what is reached
--   Notifications/Model       rows, tables and results; Keys: the primary key
--   Notifications/Deliveries  inserts, claims, attempts, recovery; Stamped, Due, Claims: what a claim does
--   Notifications/Worker      one tick; Flight: rows in flight; Attempts: the number of attempts
--   Notifications/Requeue     requeues and counters; Effective: statuses; Bulk: the bulk requeue
--   Notifications/Pages       the keyset pages; Walk: following the cursor
--   Notifications/Schemas     the validators; Urls, EventTypes: what they accept
--   Notifications/Webhooks    the webhook table; Linked, Kept, Reach: the invariant of the tables
--   Notifications/Events      emission; Queued: what an asynchronous event queues
--   Anomaly                   findings and cooldowns; Cooldown: one scan; Scans: sequences of scans
--   Anomaly/Findings, Stale   the history of findings; the rule on items that are not produced
--   Materials/Store           tables and tombstones; Upsert, Counts, Resend: what an upsert does
--   Materials/Runs            the run history; Single: one automation at a time; Trigger: its answers
--   Materials/Router          the routes; Buried, Deleted: documents that were deleted
--   Materials/DocDate         the date in a document number; Digits, Dashes: reading it back
--   Records/Sql, Like          the conditions of a clause, their text and what they test
--   Records/Filters           the clauses with their parameters; Bound: what they test
--   Records/Pages             one request; Stored, Answers: what it is answered with; Order, Distinct,
--                             Follow, Complete: following the cursors
--   PortalJobs                the merge; Values: JSON; Kept, Saved, Merged: what it keeps and saves;
--                             Checked: the checks of the form before it
--   Database                  targets and statements; Routing: the rows and the parameters of them
--   Prelude                   tests, lists, SQL statements on rows, sorting, dictionaries, texts
--
-- Times are natural numbers of microseconds, in Anomaly of seconds, and a draw of `random` is a
-- number of millionths; the source has floats and ISO texts of one time zone, which compare in the
-- same order. Dates in Database are natural numbers in the order of their texts. Subtraction
-- that could go below zero is written as an addition on the other side. A table is the list of its
-- rows in the order of insertion; a statement that raises is a Boolean argument, and its
-- transaction is rolled back. Every loop is structural on the list it walks, so no model has fuel,
-- except for the clients in Pages/Walk and Pages/Follow, whose fuel counts the pages they may ask
-- for, and for the decimal digits of a number, of which there are no more than it counts. In
-- Records a text that `LIKE` reads is the list of its code points, and a day is its number.
--
-- Not code of the repository, and therefore parameters: the exchange with a receiver (a response with
-- the chunks of its body and their decoder, or an exception of some class), `urlparse`,
-- `ip_address` and `str.lower`, the secrets, the clock, the random draws, the portal bot and `str` of a
-- value that is not a text.
--
-- Not modelled: connections, migrations, the audit log, logging and signatures, the worker's thread, the metrics
-- text, the base64 text of a cursor, the summaries and the remaining routers with their request
-- parsing, the volume rule of anomaly/rules.py and a finding's details, the desktop manager and the tools.
pub mod Prelude
pub mod RateLimiter
pub mod Access
pub mod Materials
pub mod Records
pub mod PortalJobs
pub mod Database
pub mod Anomaly
pub mod Notifications
