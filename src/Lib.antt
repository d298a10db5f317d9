-- ===== src/Lib.antt =====
-- SawtAI, the API service (services/api/src/sawtai): cases that citizens' messages open, replies
-- that officers write and another officer lets out, accounts with refresh tokens, notifications,
-- documents that answer citizens, inbound messages, and the append-only ledger to which nearly all
-- of them write.
--
-- The parts, and the files that model them:
-- - database.py and the columns of migrations/versions/0001_core_schema.sql: Schema has the rows and
--   the database as their collection, Table a table under its primary key, Session a request's
--   transaction. A service's coroutine is an `Exec`, a function from a session to a result and a
--   session; an exception is an `err`, and what was written before it is dropped when the request
--   ends, unless it was committed.
-- - audit/service.py: Audit has `write_audit`, with the query for the tenant's latest row and the
--   digest. Audit/Chain states that the ledger is a hash chain.
-- - cases/service.py: Cases/Status, Sla, Rows, Create, Edit, Workflow, Intake and Queries have its
--   functions under their names. Cases/Operations has all that change state as one data type, `run`
--   for one of them, and `serve` for a sequence of requests.
-- - channels/service.py and channels/whatsapp.py: Replies/Drafts, Linking, Approval, Delivery and
--   Distance; the outbox of the session has the messages that left or may have, confirmed or not;
--   again with Operations for sequences.
-- - auth/service.py and auth/routes.py: Auth/Tokens, Accounts, Tickets and Routes.
-- - notifications/service.py: Notifications/Rules has the rules as functions of the rows and the
--   time, Emit the writing of what is new, Reading the inbox.
-- - rag/service.py and rag/ingestion.py: Knowledge/Chunks has `structure_chunks`, Uploads and
--   Extraction the checks and the text of a file, Encoding the adapters, Rows and Documents the
--   statements and `create_document`, Ingestion uploads and their failures, Life approval, retirement
--   and new indexes, Retrieval and Generation the answers; Operations again has sequences.
-- - ingest/service.py: Ingest/Redaction, Simhash and Messages. Ingest/Webhook has the webhook of
--   channels/routes.py with channels/models.py and channels/security.py; its answer has the jobs that
--   the queue took and what was returned or raised after the commit; the queue, a field of `Wire`, may
--   refuse a connection or a job.
-- The other files below these have proofs; Examples has the theorems at concrete inputs.
--
-- How they interact: every service writes to the ledger with `write_audit`, in its own transaction.
-- The validity of a refresh token is read from the ledger, and so are the notifications. The intake
-- of a message opens a case; the rules of notification read cases and replies. The vetting of a
-- document reads its creator from the ledger; a generated reply quotes a retrieved section and is
-- a draft among the replies.
--
-- Conventions. UUIDs and times are numbers, times in microseconds; the text of a case's reference is
-- its year and the number of its six hexadecimal digits. A date is a number of days. The score of a
-- reply is in thousandths and that of a section in hundred-thousandths, both rounded down where the
-- source has floating point. Enumerations are data types, JSON columns are lists of keys with
-- scalars. Requests run one after the other: the row locks and the advisory lock of the source order
-- those that touch the same rows. Loops are
-- recursion on the list that the source goes through; only the slices of a paragraph have fuel, the
-- number of its words, which a lemma of Knowledge/SliceLaws shows to be enough.
--
-- Outside code is a field of `World`, of its `Engine`, of `Crypto`, of `Wire` or of `Settings`:
-- SHA-256 and JSON encoding, the clock, random and named UUIDs, text tables, ILIKE, the Graph API,
-- PyJWT and Argon2; file formats, OCR, the object store, the encoder and the reranker, similarity,
-- regular expressions and text normalisation; the signature and the decoding of a webhook, and the
-- queue's client. What a theorem relies on is among its hypotheses, as a clock that does not run
-- backwards.
--
-- Not modelled: the processing of a stored message (channels/service.py), the read-only queries of
-- the knowledge base, account administration, language classifiers, analytics, crisis and data
-- routes, the worker behind the job queue, start-up, logging, demo data, and the servers around the language models.
-- `hash_embedding` and `normalize_for_search` are fields of `Engine`: the one is floating point, the
-- other Unicode tables. Interleaved transactions are not modelled.
pub mod Prelude
pub mod Table
pub mod Schema
pub mod Session
pub mod Audit
pub mod Text
pub mod Cases
pub mod Replies
pub mod Auth
pub mod Notifications
pub mod Knowledge
pub mod Ingest
pub mod Examples
