-- ===== src/Lib.antt =====
-- A verification library for the backend of the chat archive: the Python services under
-- services/backend/app that capture conversations from a browser extension, keep every version of
-- every message, archive the raw events through a durable job queue, and delete by policy.
--
-- The parts and their files:
--   Prelude (Tests, Lists, Rows, Sorting, Texts, Results, Order): shared names; Rows is a database table
--     as a list of rows, with SELECT, UPDATE and DELETE by a Boolean test and the laws of these, and
--     Sorting is ORDER BY.
--   Enums: models/enums.py.
--   Jobs: services/jobs.py and models/jobs.py. enqueue_job, complete_job, fail_job,
--     recover_stale_jobs, pending_job_count; Jobs/Claim has claim_jobs, Jobs/Keeps and
--     Jobs/Claim/Invariant the invariant of the table, Jobs/Steps the queue as a step relation,
--     Jobs/Claim/Exclusive and Jobs/Claim/Order the claim, Jobs/Retry failures, Jobs/Backoff delays,
--     Jobs/Enqueued the dedupe keys, Jobs/Release the end of a claim, Jobs/Recovery stale locks.
--   Worker: workers/worker.py and the table of handlers of workers/handlers.py. Worker executes a job,
--     Worker/Loop is the cycle; Worker/Settles, Outcomes and Periodic are about these.
--   RateLimit: core/ratelimit.py. SlidingWindowLimiter in RateLimit, its window in RateLimit/Window
--     and RateLimit/Guarantee; CompositeRateLimiter in RateLimit/Composite.
--   Policy: services/policy.py, with the rows of models/identity.py; Policy/Decision the verdict on a
--     workspace, Policy/Workspaces the rows.
--   Sanitize: core/sanitize.py. Fingerprint: core/crypto.py.
--   Contract: schemas/ingest.py and schemas/common.py. Archive: models/conversation.py, events.py and
--     governance.py, and the store of a session.
--   Ingest: services/ingest.py. Ingest has the context, the idempotency keys and the capture events,
--     Ingest/Conversations get_or_create_conversation and upsert_conversation, Ingest/Messages and
--     Ingest/Versions ingest_message, Ingest/Batch the batches, Ingest/Feedback the feedback;
--     Ingest/Frames, Numbering, Replay, History, Outbox, Isolation and Completeness are about these.
--   Retention: services/retention.py; Retention/Holds and Retention/Grace are about it.
--   Filenames: safe_filename of core/crypto.py. Storage: services/storage.py, the keys of objects and the
--     object store as a list of them; Filenames/Laws and Storage/Segments are about these.
--   Attachments: services/attachments.py and models/attachment.py. Attachments/Init has init_attachment,
--     Attachments/Complete complete_attachment, Attachments/Bytes the detection of types,
--     Attachments/Finalize handle_finalize_attachment of workers/handlers.py; Attachments/Lifecycle,
--     Changes, Reach, Verified, Queued and LongText are about these.
--   Exports: services/exports.py and the approvals and exports of models/governance.py. Exports/Records has
--     build_conversation_record, Exports/Run run_export and Exports/Handle handle_run_export of
--     workers/handlers.py; Exports/Eligible, Splits, Parts and Settled are about these. A share of a split
--     is a number of parts of a million, and the times of the filters are times; the code has floats, and
--     the texts of the times, which the driver does not take.
--   Handlers: workers/handlers.py, with handle_archive_raw_event in Handlers/Events and
--     handle_reconcile_partial in Handlers/Reconcile; Handlers/Settled and Handlers/Reruns are about these.
--     Handlers/Upkeep has handle_retention_sweep and handle_cleanup_stale.
--   Compliance: services/compliance_import.py, the storing of upstream events; Compliance/Poller has run_cycle
--     of workers/compliance_poller.py, and Compliance/Import the folding of events into conversations;
--     Compliance/Stored, Compliance/Polled, Compliance/Imported,
--     Compliance/Distinct and Compliance/Repeated are about these.
--   Snapshots: services/snapshots.py, with handle_build_snapshot in Snapshots/Write; Snapshots/Whole and
--     Snapshots/Stored are about these.
--   Samples: rows for the runs in the tests.
--   Exif: services/exif.py; Exif/Jpeg and Exif/Segments (for PNG) are about it.
--   Accounts: services/accounts.py, devices and sessions; Accounts/Tokens and Accounts/Revocation are
--     about it.
--
-- How they interact: ingestion passes the gates of the policy, cleans and fingerprints the text, writes
-- the archive, and enqueues jobs in the same transaction, which is one function of the store here;
-- workers claim, complete and fail the jobs; retention updates and deletes the archive's rows.
--
-- State: a function of a database session takes the tables and returns them. A table is a list of rows
-- in the order of insertion. An identifier is a number, drawn from a counter where the program calls
-- uuid.uuid4(). A time is a number of microseconds; the clock reading of a call is its argument `now`,
-- one for all the readings within the call, and a random draw is an argument. A text is a list of code
-- points where the program walks or cuts it, and a native string where it only compares it. JSON
-- payloads of jobs are lists of names with scalars; a raw event's object key stands there by its parts.
-- A session is alone with its tables, except where the program provides for others: rows that are locked
-- or inserted meanwhile are arguments of claim_jobs and resolve_workspace, a copy of a row that the
-- session still holds is an argument of fail_job, and what the database raises is a fault of a batch
-- or an outcome of a handler. A handler takes what the object store answers its writes. Rows that a
-- session has added and not flushed are visible to its next statement here, but in Compliance/Import,
-- where that matters; a connection that is lost is not modelled.
--
-- Parameters, for code that is not in the repository: SHA-256, NFKC, case folding, the text of a UUID,
-- str.strip and str.lower (for labels), bleach, JSON text, gzip. Nothing is assumed of them.
--
-- Fuel: the decimal digits of n take n + 1 steps, more than it has digits. The loops over the bytes of
-- an image take the length of the file as fuel; each step consumes two bytes at least. The slices of
-- an export take the number of records as fuel, and each slice holds one at least. Every other loop is
-- structural.
--
-- Not modelled: the handlers of partitions and compliance, sign-in and access tokens,
-- partitions and runtime configuration, which are to follow; audit rows and reports
-- (queue_stats, retention_summary, sync_summary, capture_policy_dict), which nothing reads back; the
-- HTTP layer, SQLAlchemy, boto3 and the browser extension. In a batch of capture
-- events an item that raises is rolled back alone.
pub mod Accounts
pub mod Archive
pub mod Attachments
pub mod Compliance
pub mod Contract
pub mod Enums
pub mod Exif
pub mod Exports
pub mod Filenames
pub mod Fingerprint
pub mod Handlers
pub mod Ingest
pub mod Jobs
pub mod Policy
pub mod Prelude
pub mod RateLimit
pub mod Retention
pub mod Samples
pub mod Sanitize
pub mod Snapshots
pub mod Storage
pub mod Worker
