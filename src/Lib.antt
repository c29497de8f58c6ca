-- ===== src/Lib.antt =====
-- Remy CC keeps an index of a code base up to date. Its daemon holds a queue of scan jobs in an SQLite
-- database and runs one job at a time in a worker process. This library models the queue: the store of
-- jobs (remy-cc/src/state.rs), the scheduler that owns it (remy-cc/src/scheduler.rs) and the connections
-- of clients that send it commands (remy-cc/src/server.rs). It also models parts of what a job runs, the
-- scanner (remy-cc/scanner-core/src), and of what reads its result, the queries of the tools' server
-- (remy-cc/src/mcp).
--
-- The parts, and where they are modelled:
--   Job        job priorities, states, types and rows, the errors (state.rs). Job/Columns: the columns
--              `status` and `priority`, written and read.
--   Host       what comes from outside: serde_json, the file system and the clock, as a record that
--              every definition that uses it takes as an argument. The one assumption on it, that
--              serde_json reads back what it wrote, is the record RoundTrips.
--   Paths      the normalisation of paths (state.rs, `normalize_*`) on Unix. `Path::components`,
--              `extension` and `push` of the standard library are written out on texts.
--   Store      the struct StateStore. Store/Monad: the tables `projects`, `jobs` and
--              `published_provider` as a record of lists, and a method as a program from a state to
--              a result and a state; `transaction` restores the tables where its program fails. A
--              file for each group of methods: Load (`load_job`, `get`), Transition (`transition_job`, `cancel`,
--              `confirm_cancelled`), Submit (`submit`, `submit_full_scan`, `promote`,
--              `publish_provider`), Claim (`claim_next_pending`), Complete (`update_progress`,
--              `complete`), Recover (`recover`), Listing (`list`, `recent_failed`).
--   Store/Valid     the schema: the checks of the DDL, the unique indexes, the foreign keys; a file for
--              each group of methods. A statement that breaks a constraint is an error in SQLite; the
--              programs have that error only for the check on the times of a project, which a clock
--              that went back can break. That no other can be broken is what these files are about.
--   Store/Runs      which jobs execute: the methods that leave them alone, and what the others do.
--   Store/Rollback  what a failed transaction leaves.
--   Scheduler  the function `run` with its commands, the slot `active_job` and the events of the
--              worker. A round of the loop takes the oldest command of the channel; a Turn is what
--              a round finds outside, the commands that have arrived, the clock and whether a worker
--              starts. A run is a list of turns, so any interleaving of callers, worker events and
--              clock readings is one. The thread that forwards worker events adds no state: its events
--              are arrivals. Scheduler/Slot: the slot against the tables. Scheduler/Work: the loop.
--   Protocol   the requests and responses (remy-cc/src/protocol.rs) as values. A message of an error is
--              kept as what its format string is filled with.
--   Server     one connection (remy-cc/src/server.rs, `handle_connection`): the handling of a line is a
--              tree of responses that are written and commands that are sent to the scheduler, each
--              with what follows on its reply. Server/Dialogue: the lines in order, with arbitrary
--              replies, since the scheduler serves others in between. Server/Answers: the replies;
--              Server/Outcomes: one line; Server/Connection: all of them. The host of the configuration pages
--              (remy-cc/src/ui_host.rs) is a function of the Session.
--   Scanner    Scanner/Fnmatch: the wildcard patterns (remy-cc/scanner-core/src/fnmatch.rs), with what
--              a pattern denotes in Denotes, for tokens, and in Means, for its characters (Classes and
--              CharSets have those of a class).
--              Of the same directory, Scanner/Selection: the choice of one symbol for each name
--              (selection.rs). Scanner/Config: the text of the configuration and the layer of a file
--              (config.rs). Scanner/Exclusions: what the patterns of a configuration exclude, for an
--              entry of the walk and for a stored path (config.rs, discovery.rs). Scanner/Language: the
--              language of a file name and its id (language.rs). Scanner/Hashes: the hash of a symbol
--              and the newlines of a source (hashes.rs).
--   Mcp        the graph queries (remy-cc/src/mcp/graph.rs). Mcp/Index: the tables of the index that they read
--              (skills/remy-index/schema.sql). Mcp/Graph: the levels of callers and callees; Calls has
--              the relation that the SQL of a level finds, and Distance the distance in it. Mcp/Flow: the
--              search for a path from both ends, with its parent maps as forests.
--   Prelude    rows and sets, comparisons in the sense of `std::cmp` and a stable sort.
--   Tests      sample tables and the instances of the theorems.
--
-- Numbers are natural numbers: the columns are 64-bit integers that the schema keeps at or above zero,
-- and `now_millis` refuses a clock past them. Ids and counters do not reach the bound in a database
-- that fits a disk. A job id of a request is a natural number too, as no row has a negative one. A
-- progress report of the worker may be negative and is an integer. Most loops are
-- over lists of rows, path components, lines and turns. Two run on fuel: the loop of `fnmatchcase` on
-- n * (t + 1) + t for a name of n characters and t tokens, as a mismatch that goes back to a star gives
-- up a character and any other step a token; and the walk along a parent map of `reconstruct_path` on
-- the number of its entries. A run that is out of fuel is a result of its own, which the theorems on
-- these functions exclude. A negative depth or limit of a query is as zero.
--
-- Not modelled: SQLite's own failures (a locked or full database), which no program of the store has,
-- though the server's handling of them is modelled; opening and migrating the file, the worker's process, sockets, the installer, the rest of the tools' server (its configuration and the
-- formatting of answers), and the scanner's parsers, database writer and directory iteration: they are
-- I/O, or walks over the trees of the tree-sitter libraries.
pub mod Prelude
pub mod Host
pub mod Job
pub mod Paths
pub mod Store
pub mod Scheduler
pub mod Protocol
pub mod Server
pub mod Scanner
pub mod Mcp
mod Tests
