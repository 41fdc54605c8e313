-- ===== src/Lib.antt =====
-- Verification of MentisEterna, a note server in Go with background jobs, backups, a receipt
-- printer and a dashboard of tasks. The modules model the parts of it that keep a state or
-- decide something by rules of their own, as functions from the state and the input to the
-- state and the answer, and relate them to what they are for.
--
-- - Prelude: Boolean tests and conditionals (Tests), equality of keys as an interface with
--   its instances, lists measured by native numbers (Lists), members and reorderings
--   (Membership), Go numbers that may be negative (Integers), and Go maps as association
--   lists with their laws (Maps).
-- - Throttle: internal/server/login_throttle.go. `LoginThrottle` holds the two maps; `allow`,
--   `record_failure` and `record_success` are the methods of these names, with the clock as
--   an argument, since the mutex makes each one step. Delays are bit patterns of int64, so
--   that the doubling wraps as it does in Go. Delay and Series follow a series of failures,
--   Isolation what one key does to others.
-- - Jobs: internal/jobs/jobs.go on the tables of internal/db/db.go. Table has the rows of
--   `job_runs`, the partial unique index and each SQL statement; Manager the requests of
--   clients, the recovery after a crash and the janitor; Worker the claim of a run and its
--   end; Schedule the ticks. Interleaving has one step per statement of any worker, client,
--   scheduler, janitor or restart, a recovery after a panic of the task or of the observer
--   included, and Claimed, Exclusion and Lifecycle are about every sequence of such steps.
--   Recovery is about such a panic; Unique, Sound, Requests, Fifo and Janitor are about whole
--   operations, between whose statements other goroutines may act.
-- - Printer: pkg/printer/printer.go. CodePage encodes runes with the tables in the source,
--   Buffer builds the ESC/POS stream, Layout cuts and pads text, Transfer sends the stream in
--   chunks to a device. A device is a list of answers that it will give, so that short writes
--   and errors come at any place. Tables, Safe and Lossless are about the encoding, Fit about
--   the layout, Delivery about the transfer.
-- - Backup: internal/backup/retention.go. Calendar has the days, weeks and months that the
--   rules count by, Retention the functions of the file. Greedy tells without the maps what
--   the loop keeps; Sorting, Chosen and Policy go from there to the rules of the policy.
-- - Gate: internal/llm/gate.go. `round_trip` is one request: it takes a slot and waits for
--   the cooldown, runs the attempt loop, and gives the slot back. Attempts is about what it
--   answers.
-- - Uploads: internal/server/chunked_upload.go. Sessions has the rows and the chunk files
--   with the statements on them, Handlers the requests but the last, Finalize the finish,
--   between whose statements other goroutines may act. Rows, Sound, Opening, Closing and
--   Preserve are about the invariant, Counting, Assembly, Delivery, AutoFinish, Finishing and
--   Completion about the way of a file, with the finish of the client and that of the
--   goroutine one after the other, Once about concurrent finishes, Race about concurrent
--   chunks.
-- - Media: internal/media/service.go on the tables of internal/db/db.go, with the deletion of
--   a note in internal/server/notes.go. Tables has the rows and the statements, Service the
--   references and deletions, Replicas the creation of a file and the tasks on replicas.
--   Consistent has the invariant, which Deletion, Creation and Lifecycle keep; Reconcile,
--   Saved and Named tell how far a save keeps it; Inline relates a save to a set of
--   references, Shared is about files of two notes, Deleted about files that are gone.
-- - Live: internal/server/live.go. Hub has the clients with their channels and devices,
--   Messages what a client may send and the server announces. Isolation is about users,
--   Overflow about channels that are full. A hub drops a client for each level of fuel, so
--   that the number of devices is enough.
-- - Auth: internal/server/auth.go and internal/db/auth.go, with the throttle. Sessions has
--   the table and the handlers; Lifetime is about who is let in after any history, Granted
--   about what a login gives.
-- - Speech: internal/media/sttchunk.go. `merge_transcriptions` joins the texts of chunks of a
--   recording; Overlap is about the words that it drops.
-- - Search: internal/server/search.go. `fts_column_query` makes the MATCH expression of a
--   query from its words, and `is_subsequence` is the last test of the in-memory scorer.
--   Tokens is about the one, Subsequence about the other.
-- - TaskOverview: pkg/notetype/taskoverview, the files types.go, scoring.go, tasks.go and
--   daily.go. Scoring has the scores and the daily selection, TimeText and Stats the
--   durations and counts, Daily the table of generations. Selection, Latest, Generations and
--   History are about them.
--
-- The parts meet in the server: the login consults the throttle, which Auth uses as it is,
-- enqueue runs of jobs, and the schedules run the purge of old backups and the daily selection
-- as jobs. Otherwise the models share the helpers alone, as the packages do.
--
-- What is not code of the repository is a parameter: the task that a job runs, the observer of
-- its events, the texts of dates in SQLite, the statements of others between two of an
-- operation, the parsing of dates and durations by Go's `time`, the sorting functions with
-- their documented behaviour, float64 arithmetic, the tables of Unicode, the conversion of a
-- float64 that int64 does not hold, the reading of notes for a row, the answers of a language
-- model's server, and those of a printer.
--
-- Loops are structural recursion over the list they visit. Three have a bound: the attempts of
-- a request are those of the configuration, the claim of a run has the three attempts of the
-- source, and the chunks of a transfer have the number of bytes, of which each round that goes
-- on takes at least one. Times are natural numbers from an epoch that each file names.
--
-- Not modelled are most HTTP handlers, the SQL schema besides the tables named above, object
-- storage, encryption, the clients behind the gate, most note types and the web client, all of
-- which are mainly input and output or calls of libraries; of the printer the word wrap, images
-- and the USB device, and of the task overview the queries that load notes.
pub mod Prelude
pub mod Throttle
pub mod Jobs
pub mod Printer
pub mod Backup
pub mod TaskOverview
pub mod Gate
pub mod Speech
pub mod Uploads
pub mod Media
pub mod Live
pub mod Auth
pub mod Search
