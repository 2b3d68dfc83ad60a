-- ===== src/Lib.antt =====
-- A verification library of the parts of fileagent that must not lose or duplicate work: the
-- agent's durable queue, the worker pool that runs on it, the uploader, the control plane's
-- subscription to the metadata log of the filer, its registry of connected agents, its delivery of
-- events, the stores of its requests to agents, and its ledger of files.
--
-- How the parts interact. The watcher and the scheduler of the agent hand files to
-- Executor.Submit, which enqueues a task and trims the queue. Workers dequeue tasks, upload them
-- by a function that is given, and persist a result or handle the failure. A task that is evicted,
-- abandoned or completed as a duplicate leaves an abort record for its multipart upload, which the
-- abort worker drains. A result is resent until the control plane acknowledges it. The upload
-- function is Uploader.UploadFile, which resumes an upload in parts or discards it, and records
-- its progress in the queue. The control plane follows the metadata log of the filer: it
-- translates each event to changes of objects, reads each object back, hands what it finds to a
-- sink, and persists how far it has come. The registry of the control plane holds the connection
-- of each agent, over which commands go. Its event engine sends each event to the webhooks and
-- subjects of the rules, and retries what fails. Requests for a listing or a dry run wait in a
-- store for the result of the agent that they went to. The indexer keeps the ledger of files: the
-- results of the agents and the events of the storage, by one of two sinks, write the rows, and an
-- older observation does not overwrite a newer one.
--
-- Which file models which part.
--   Queue/Types      agent/internal/queue: the five tables, one record per row
--   Queue/Monad      statements and transactions against SQLite, with their failures
--   Queue/Sql        SELECT, UPDATE, DELETE and ORDER BY on a table as a list of rows
--   Queue/Tasks      queue.go: Enqueue, EnqueueIfNoActive, CountPending, CountActive,
--                    DeleteOldestEvictable
--   Queue/Lifecycle  queue.go: DequeuePending, ResetRunningToPending, SaveMultipartProgress,
--                    UpdateStatus, MarkFailed, ListByStatus
--   Queue/Files      queue.go: TailOffsets, UpsertProcessedFile, IsProcessed, UpsertRule, GetRule
--   Queue/Aborts     aborts.go: the abort outbox, MarkFailedAbandoned,
--                    MarkCompletedAbandoningUpload
--   Queue/Reports    reports.go: SaveReport to CompleteReported
--   Queue/Keeps, Queue/Outcomes   the rules by which a property is carried through a block
--   Queue/Rows, Queue/Changes     lemmas on rows, and on the operations that write one table
--   Queue/Tracking, Eviction, Dedup, Restart, Acks   proofs
--   Executor/Types      agent/internal/executor: the configuration and the messages
--   Executor/Abandon    executor.go: abandonTaskUpload, drainAbortOutbox, the delays
--   Executor/Failure    reports.go: persistResult; executor.go: handleFailure and its retry
--   Executor/Process    executor.go: processTask, Submit, enforceCapacity
--   Executor/Recovery   executor.go: recoverFailedTasks; reports.go: sendDueReports,
--                       HandleAcknowledgement
--   Executor/Delays, Releases, Untouched, Failing, NoLoss, Capacity, Termination, Gate,
--   Resurrection, Once  proofs
--   Uploader/Types      agent/internal/uploader: the object store, the configuration and the results
--   Uploader/Etags      uploader.go: normalizeETag, etagIsComparable; multipart.go: partRange,
--                       canResumeParts
--   Uploader/Multipart  multipart.go: multipartUpload and its parts, discardStaleUpload
--   Uploader/File       uploader.go: UploadFile, singlePartUpload, AbandonUpload
--   Uploader/Laws       what is relied on of the object store and of MD5
--   Uploader/Parts, Remote, Faithful, Reports, Discard   proofs
--   Filer/Paths, Filer/Translate   controlplane/internal/storage/seaweedfs/translate.go
--   Filer/Cursor, Filer/LogName    controlplane/internal/storage/seaweedfs/cursor.go, with the bounds
--                       of its arithmetic
--   Filer/Host          seaweedfs/adapter.go: what the adapter keeps, and what it meets outside
--   Filer/Subscribe     seaweedfs/readback.go; subscribe.go: processChange to persistCursor, runStream
--   Filer/Run           seaweedfs/subscribe.go: Run, selfCheck
--   Filer/Split, Scope, Heartbeat, Keeps, Handled, Complete, Stream, Restart   proofs
--   Registry/Conns      controlplane/internal/grpcserver/registry.go: the registry and its operations
--   Registry/Schedule   registry.go: sendSync, waitForWrite, RevokeConn; handler.go: the send goroutine
--                       of Connect
--   Registry/Fifo, Lawful, Membership, Invariant, Later, Revoke   proofs
--   Delivery/Types      controlplane/internal/event: the deliveries, the rules and the world outside
--   Delivery/Engine     engine.go: processRetries, retryDelivery; indexer/queries.go: the statements on
--                       event_deliveries
--   Delivery/Dispatch   engine.go: HandleEvent, dispatch; webhook.go: Send, scheduleRetry
--   Delivery/Rows, Bounded, Attempts, Advance   proofs
--   Pending/Store       controlplane/internal/dirstore/store.go and controlplane/internal/dryrun/store.go
--   Pending/Owner, Deliver   proofs
--   Indexer/Types       controlplane/internal/indexer: the rows, the parameters and the world outside
--   Indexer/Ledger      controlplane/internal/db/ingest.sql.go, ingest.go: the statements on file_entries
--   Indexer/Tags, PathVars    indexer/indexer.go: the tags of a rule and of a path; queries.go
--   Indexer/Classify    indexer/classifier.go; indexer.go: classifyFileType
--   Indexer/Effects, Upload   indexer.go: HandleUploadResult and what it counts and publishes
--   Indexer/Storage     indexer.go: IndexUpload, IndexDeletion, their reporting forms, RowState
--   Indexer/Sink        controlplane/internal/storageevent/sink.go: both sinks
--   Indexer/ReadBack    the adapter of the filer on top of the ledger
--   Indexer/Newest, TagKeeps, Keeps, Writes, History, Outcomes, Marks, Reports, Removals, Sinks,
--   Sunk, Handled, Explicit, Accounted, Logged, Results, Accounts, Total, Answering, Liveness
--                       proofs
--   Prelude/Action      actions with errors on a state, and rules for properties of them
--
-- State. A World holds the tables, the number of the next outside call (its turn), the uploads
-- that a remote abort has released, and oracles that say, for each turn, whether a statement
-- fails, what the clock shows and whether a remote abort succeeds. An operation takes a world and
-- gives a result and the next world, so that a theorem over all worlds is over all schedules of
-- failures. A transaction that fails, or whose commit fails, leaves the tables as they were at its
-- begin. A table is the list of its rows in the order of their row ids, and rows that ORDER BY
-- does not tell apart keep it.
--
-- What a value is. The status is one of the five constants, not any text. Wall-clock columns are
-- natural numbers of seconds, the clock is in milliseconds; file times, sizes, offsets and the
-- retry schedule are signed. A limit is a natural number, and a queue_max_size of 0 stands for
-- every value that is not positive. The column append_mode is one of its three constants. Foreign
-- keys are not enabled when the database is opened, so ON DELETE CASCADE does nothing. A file is
-- the list of its bytes, and each reading of it may find another list; the sizes in the
-- configuration are in bytes; a part size of 0, which the configuration does not let through,
-- plans no part. Nanoseconds are integers: resume_from is meant for a declared value that is not
-- negative, where its difference is an int64; in gap_window the wrap-around of the difference is
-- written out. The white space that strings.TrimSpace
-- removes and the letters that strings.ToLower lowers are those of ASCII.
--
-- The adapter of the filer has a Host in the place of a World, with the same turns. It keeps a
-- list of the changes that processChange has processed, which the code does not: the theorems read
-- it, and no operation does. SaveCursor never lowers the persisted value, as the interface
-- documents.
--
-- A Registry holds the map of the agents and a heap of all connections that were made. The
-- goroutines take their steps, one critical section each, in the order of a list of actions, and a
-- theorem over all lists is over all interleavings. The lists of what a channel has accepted and
-- of what a stream has written are kept for the theorems. A panic of the runtime is a flag.
-- CancelFunc and the closing of stopCh set a flag of the connection, and what Connect then does is
-- left to the schedule.
--
-- The world of the event engine has turns as well, and lists the sendings for the theorems. The
-- first sending of a delivery has the number 0. A Store holds all channels that were registered,
-- and the calls of Deliver between their check and their sending; its channels keep the sender
-- with the result.
--
-- The world of the indexer holds the rows that it writes, and has turns as well; the tables that it
-- only reads are fixed while it runs. A map of a rule's metadata is the list of its entries in the
-- order of one iteration. A statement on file_entries walks to the row of its bucket and path, which
-- the table has at most once.
--
-- What is given from outside. The upload function of the executor, which may change the task and
-- the world; protobuf's marshal and unmarshal, and the texts that fmt.Errorf makes, one function
-- for all its formats; the result of os.Stat; the fresh identifier of a task. The object store is
-- a record of calls over a state of its own, and its laws are those of S3: what is put is what is
-- there, a part that is put leaves the others, the etag of a listed part, where it is an MD5, is
-- that of its content, and a completed upload is the listed parts in their order. That MD5 tells
-- contents apart is asked of the parts and the ranges that a resumption compares, and of no others. The digests and
-- the JSON text of the parts are functions. What the filer delivers on a stream, the database, the
-- clock and the sink are oracles of the Host. So are the answers of webhooks and of the publisher,
-- and what the JSON of a rule's configuration gives. For the indexer: filepath.Match, the JSON of a
-- rule's metadata, of which a failing decoder may have read a part, the values that pkg/trollsift
-- reads from a path, and the order of texts of the database.
--
-- Bounds and fuel. DeleteOldestEvictable makes 8 attempts, as in the source. The loop of
-- enforceCapacity runs on fuel, which the caller gives; a round that goes on deletes a row, so the
-- number of rows and one is the fuel to give. Sequence numbers of messages are unbounded. Run of
-- the adapter goes on until its context is cancelled: the model takes the number of times it tries
-- to load the cursor and the number of streams it opens, and a theorem on it holds for all of
-- them.
--
-- What is not modelled. The goroutines and channels of the agent, wake-up signals, timers (a timer
-- that is armed is the result of the operation that arms it, and a time-out is a choice),
-- contexts, logging, opening and migrating the database. The texts of errors are given shorter.
-- Of the indexer, loadRuleMetadata, which nothing calls, and the payloads of its
-- messages are not modelled. The adapter of the minio client, the time-out of the self-check, the watcher, the network code,
-- the web interface and the rest of the control plane are outside.
--
-- An upload is tracked when a row that will run again records it (pending, running, or failed with
-- a positive schedule), when an abort record names it, or when a remote abort has released it.
pub mod Prelude
pub mod Queue
pub mod Executor
pub mod Filer
pub mod Uploader
pub mod Registry
pub mod Delivery
pub mod Pending
pub mod Indexer
