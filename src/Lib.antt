-- ===== src/Lib.antt =====
-- narou-viewer: the durable task queue of the novel fetcher, and stores of the viewer API: reading
-- states, bookmarks, extraction jobs and the identities of characters.
--
-- The novel fetcher (services/novel-fetcher) downloads and updates novels as tasks that survive a
-- restart. Clients enqueue, pause, resume and cancel tasks over HTTP; a single worker claims the
-- head of the queue, runs it, reports its progress and finalizes it. All task state is in two SQLite
-- tables, and every operation is one transaction on them.
--
-- Parts and files, with paths below services/novel-fetcher/internal:
--   Prelude        tests on numbers and texts, lists, results with their postconditions
--   Taskstate      taskstate/ and the two tables of storage/migration/runner.go
--     Model        model.go and the columns: Status, Row, Db, Task, Outcome
--     Target       request.go, CanonicalTarget
--     Request      request.go, validateRequest, RequestForTask, DecodeRequest
--     Schema       the CHECK constraints and unique indexes (violation), and the SQL statements
--     Scan         sqlite.go, getTx and scanTask
--     Enqueue, Claim, Control, Progress, Finalize, Recover
--                  sqlite.go: Enqueue; ClaimNext; RequestPause, RequestCancel and RequestResume; the
--                  writes of a running attempt; Finalize; RecoverOnStartup
--     Commit       storage/store.go, CompleteWorkForTask
--     Tables, Invariant, Updates, Constraints, Reads
--                  the laws of the statements, and the invariant Inv of the two tables
--     Keeps        the invariant, operation by operation
--     History      sequences of transactions (Op, perform, step, run)
--     Evolution    how the row of a task changes over a history
--     Behaviour    what each operation answers on tables that meet the invariant (in Decided, and
--                  after any later history)
--   Taskqueue      taskqueue/: the wake-up signal, reports by task id, payloads of the API
--   Worker         worker/runner.go: controls and finalization of the current task; the loop, the
--                  clients and the wake-up channel as steps in any order (Loop)
--   Fetcher        fetcher/rate_limiter.go: when a request to a host may go out
--   Storage        storage/pathutil/sanitize.go: the names of files and directories
--   Publications   apps/viewer-api-go/internal/publications/isbn.go, with its whole path
--   ReadingState   apps/viewer-api-go/internal/state/readingstate, with its whole path: a document
--                  with a version for each novel, which clients put under the version they expect
--   Bookmarks      apps/viewer-api-go/internal/state/bookmarks: Repository (repository.go), and the list
--                  of bookmarks that the file stands for (Ledger, Refines)
--   Schemaguard    apps/viewer-api-go/internal/state/schemaguard: which versions of a document are read
--   Extraction     apps/viewer-api-go/internal/extraction: the documents of extraction jobs
--     Jobs, Names, Files, Reading, Saving, Controls, Recovery
--                  job_domain.go and job_store.go, in the order of use
--     Coordinator  application/extraction/job_coordinator.go: which job is processed next
--     Directory, Records, OneActive, Keeps, History, View, Transitions, Lives, Recovered, Oldest
--                  the laws of the directory, and what they give for its operations
--   Characters     apps/viewer-api-go/internal/characters: Episodes (episode_order.go), Identity
--                  (event_store.go, merged characters), Allocator (id_allocator.go)
--     Chains, Fuel, Acyclic, Merged, Resolved; Ordinals, Assigned
--                  chains of merges and their loops; the ids that are drawn
--   Scenarios      the theorems on small concrete inputs
--
-- How the model stands for the code:
--   - A database is a value Db: the rows of fetch_tasks, and the task_id column of fetch_task_queue
--     in the order of seq. An operation is a function from a Db to a Result: the new Db when the
--     transaction commits, or the error value, which leaves the Db as it was (rollback). AddWarning is
--     a SELECT and an UPDATE outside a transaction: add_warning takes the tables that each of them
--     finds, and a history has the UPDATE as an operation of its own, with any texts. The UPDATE that
--     the store makes for an episode (record_checkpoint) is an operation of histories too.
--   - A statement checks the constraints on the whole table that it would leave (Schema.violation),
--     and answers the first one violated. The text of a driver's or a fmt.Errorf error is left out.
--   - The JSON columns hold the decoded value; RequestJson has a value for a text that does not
--     decode. A time is a number of nanoseconds, and '' in a time column is none. The clock's value
--     is an argument of each operation. NewTaskID's draw is paired with each task of Enqueue.
--   - net/url, strings.ToLower, path.Clean and the SHA-256 of the fingerprint are fields of Env, an
--     argument of the definitions that use them; no property rests on a law of theirs.
--   - Go's int is the signed type of Prelude.Int, without its bounds; attempt numbers are natural
--     numbers, as the column's CHECK makes them.
--   - Recursion is structural. The loop of Filename has the number of runes as fuel, and every pass
--     that goes on removes a rune. The two loops of the runner that wait for the driver run over the
--     list of the answers they get, which ends with the runner's context.
--   - extraction_jobs is a Store: its files by name, as the decoders read them. An operation gives the
--     store that it leaves with its result, also where it fails. Names of checkpoints, which are
--     digests, are parameters; so is the SHA-1 of a text, from which a character's id is made. The loops over chains of merges and over
--     ordinals have as fuel the number of merges, or of used ids, and one or two rounds more.
--   - sort_stable is an insertion sort, which agrees with sort.SliceStable where the order is
--     transitive. The order of merges is not, for episodes with numbers and others mixed; what is
--     stated of normalized merges does not rest on their order.
--   - The reports of Queue by task id look up the attempt and write in two statements, and are given
--     one Db for both; a history has the writes alone.
--   - The runner's controls of one task hold its lock, so each is one step.
--
-- Not modelled: failures of the driver inside a transaction, Repository.Summary (a read), the
-- execution of a fetch, the HTTP server, the site parsers, the works, episodes and checkpoints tables
-- apart from the status that CompleteWorkForTask writes, and the viewer (apps/) apart from the parts above.
-- The YAML files of the reading states and bookmarks are taken to hold what was written; a
-- write of the bookmarks may fail before or after it replaces the file, one of the reading states is
-- taken to succeed.
mod Prelude
pub mod Taskstate
pub mod Taskqueue
pub mod Worker
pub mod Fetcher
pub mod Publications
pub mod ReadingState
pub mod Bookmarks
pub mod Storage
pub mod Schemaguard
pub mod Extraction
pub mod Characters
mod Scenarios
