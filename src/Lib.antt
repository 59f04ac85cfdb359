-- ===== src/Lib.antt =====
-- research-ops-automation: scheduled research runs whose results are sent by email. A scheduler
-- and the web interface queue runs; a worker claims a run together with its task, executes it
-- under a lease, and leaves a composed message as a delivery handoff; the SMTP queue then delivers
-- the message, with one dispatcher, and records receipts, retries and what was reported. All state
-- is in one SQLite database, and every operation is one transaction of it.
--
-- Domain models researchops/domain/models.py and the tables of researchops/storage/schema.sql: the
-- record Db holds one list of rows for each table that a modelled operation reads or writes. An
-- operation is a function from Db to a Result (Base/Errors): a transaction that raises leaves the
-- tables as they were (settle, settle_with). SELECT, UPDATE, DELETE and EXISTS are the functions
-- of Base/Table, whose laws are in Base/Table/Laws and Keys; Base/Json, Base/Text, Base/Split and
-- Base/Order are JSON values and the tests, parts and order of texts that the code uses. Base/Host
-- is what comes from Python's library: SHA-256, the spellings of json.dumps, and rounding. No
-- theorem assumes anything of them.
--
-- Runs models the run ownership of class RunRepository in researchops/storage/repositories.py:
-- Runs/Status is update_run_status, Runs/Control the execution controls, Runs/Lease the leases and
-- the fencing tests, Runs/Claim claim_next_run and acquire_lease, and Runs/Steps all of them as
-- steps of one database. Runs/Ownership, Progress, Claiming, Fencing, Held, Fitting, Clashes and
-- Cleanup prove their properties over every sequence of steps.
--
-- Delivery models what the queue rests on: Delivery/Timeline is researchops/delivery/timeline.py,
-- Delivery/Authorization researchops/delivery/authorization.py, Delivery/RetryGuard
-- researchops/delivery/retry_guard.py, and Delivery/Reported the keys of
-- researchops/engine/dedupe.py with SmtpQueue._commit_reported. Delivery/Binding, Clear and
-- Catalogue prove what they promise.
--
-- Queue models class SmtpQueue of researchops/delivery/queue.py: Queue/Insert is enqueue and the
-- unique indexes of smtp_attempts, Queue/Dispatch claim, start_data and record_stage, Queue/Retry
-- requested, retry and _insert_retry, Queue/Finish finish, with the sender's report in
-- Queue/Report, the receipt and its effect on the run in Queue/Receipts and the automatic retry in
-- Queue/AutoRetry, and Queue/Recovery recover_interrupted and cancel_pending_for_run. Queue/Steps
-- puts them together as steps of one database. The proofs go through an abstract view of
-- smtp_attempts: Queue/Moves lists the four moves that the table can make, a change of rows that
-- starts no DATA, a start of DATA, a first attempt and a further one; Queue/Attempts, Renewals,
-- Outcomes and History show that every operation is a sequence of moves, Queue/Invariant and
-- Stages what a move keeps, and Queue/Promises, Once, Endings, Permissions, Requests and
-- Cancelling state what follows.
--
-- Dedupe models researchops/engine/dedupe.py: Dedupe/Aliases is validate_entity_aliases and
-- equivalent_records, Dedupe/Records is ContentDeduplicator.process_records with
-- StateRepository.is_reported_item_unchanged, and Dedupe/Partition, Filter and Remembered prove where
-- records go. A list of field names is its text entries, and a warning is a constructor in place of
-- its sentence.
--
-- Auth models researchops/services/auth_service.py: Auth/Rows is the accounts' tables, Auth/Passwords
-- the stored credentials and the checks of names, Auth/Sessions the sessions and the setup token,
-- Auth/Attempts the limits on attempts, Auth/Setup the first administrator with adopt_unowned of
-- researchops/services/ownership.py, Auth/Login the login, Auth/Users and Manage what an
-- administrator and a user change, Auth/Access what a user may reach, and Auth/Steps the
-- transactions of all these as steps of one database. An operation that reads before its
-- transaction takes as an argument, meanwhile, what other connections do in between; setup and
-- login, whose first transaction stays when a later step fails, give the tables with their result.
-- Base64, scrypt and str.lower are the record Crypt. Auth/Soundness, Kept, Managed, Updated and
-- Promises prove what the sessions keep, Auth/Admins, Staffed and Refused what the
-- administrators keep, and Auth/Reach, Credentials and Limits the rest.
--
-- Ownership models researchops/services/ownership.py with require_catalog_active and
-- require_catalog_references of researchops/storage/repositories.py, and Plan models
-- researchops/engine/execution_plan.py: Plan/Stages is the settings of a stage, Plan/Build
-- build_execution_plan and validate_execution_plan, Plan/RoundTrip relates those two.
--
-- Scheduler models researchops/services/scheduler.py: Scheduler/Cron is the parsing of an
-- expression, Scheduler/Occurrence the calendar and occurrence_between, Scheduler/Tick and Decide
-- _tick_task, Scheduler/Loop schedule_tick. The loop over the days visits each day from the start's
-- to the end's, which is as many rounds as the search is given; range() is given one step for each
-- value between its ends (Scheduler/Bounds). The Gregorian calendar is that of datetime.date, and
-- Seoul is nine hours ahead of UTC; isoformat and strftime are the record Format, on which only
-- stored texts depend. Scheduler/Search, Days and Exact prove the search, Scheduler/Advance,
-- Watermarks, Due and Served the tick.
--
-- The clock, the fresh identifiers and the process's own number are arguments of each operation.
-- An instant is a number of microseconds; the code compares ISO 8601 texts in UTC,
-- in which the order is the same. A run's family is climbed with one round of fuel for each row,
-- which is enough, since each round takes a row out of the search; the recursive query for the
-- family is given one step for each row. Of rows with equal keys in an ORDER BY, the model takes
-- one where SQLite leaves the choice open. claim_token and claim_pid are set together by claim, so
-- a row that is being sent has both.
--
-- Not modelled: the queries that only read for display, the upgrade of an old smtp_attempts table,
-- run creation and stored results, the publication of tasks, the worker's loop, the services over
-- runs and tasks, the gates on messages, the runners, the web interface, the command line and
-- deployment. Samples, Queue/Calls and
-- the modules named Examples hold concrete data and the theorems at it.
pub mod Base
pub mod Auth
pub mod Domain
pub mod Runs
pub mod Delivery
pub mod Queue
pub mod Dedupe
pub mod Ownership
pub mod Plan
pub mod Scheduler
pub mod Samples
