-- ===== src/Lib.antt =====
-- The gateway of vgen schedules video tasks on workers: a consumer prepares and commits a task, a
-- worker leases it under a fencing token, sends heartbeats and reports its end, and sweeps take back
-- what has lapsed. All of this is statements in transactions on one SQLite database. A broker on its
-- owner's machine polls the gateway for commands (rewrapping a task's key for another worker) and
-- executes them. This library models those statements, the protocol tables that they share with the
-- other programs, and the broker's loop.
--
-- Files and the code that they are about (paths from the repository's root):
--   Base, Table       names shared by all; SQL's tables, and their laws in Table/Laws (each key is
--                     listed once), Table/Select, Table/First and Table/Counts (what a selected row
--                     and a count say)
--   Protocol          src/vgen/protocol/models.py: states and transition tables; Protocol/Graph has the
--                     theorems on chains of transitions
--   Protocol/Errors   src/vgen/protocol/errors.py: the registry, entry by entry
--   Gateway/Db        src/vgen/gateway/database.py: a record for a table's row, and the record Db of all
--                     tables
--   Gateway/Tx        GatewayDatabase.transaction, and the errors
--   Gateway/Installs  src/vgen/gateway/schemas.py: specifications and results of maintenance jobs
--   Gateway/Access, Commands, Sweep, Expiry, Jobs, Workers, Brokers, Tasks, Leasing, Heartbeat,
--   Rekey, Prepare, Preflight, Receipts, Outcome, Usage, Outputs, Finish, Artifacts
--                     src/vgen/gateway/repository.py: one function for each method, under its name
--                     without the leading underscore; the statements that a method runs together
--                     have a function of their own (store_lease, store_finish, store_retry)
--   Gateway/Jobs/*    of the same file: Jobs/Reports and Jobs/Completion (what the worker that holds a
--                     maintenance job reports), Jobs/Authorizations (what a success writes),
--                     Jobs/Consumers (commit and cancellation) and Jobs/Uploads; Jobs/Machine is
--                     the abstract life of a job; Jobs/*Moves and Jobs/Requests relate the code to it
--   Gateway/Requests  the requests on the database, and histories of them
--   Gateway/Safety    the consistency of the database (IsConsistent), and a module for each group of
--                     methods that keeps it; Safety/Runs puts them together for histories
--   Gateway/Commands/*, Workers/*, Leasing/*, Rekey/*, Prepare/*, Preflight/*, Tasks/*, Sweep/*,
--   Heartbeat/*, Finish/*, Outcome/*, Usage/*, Artifacts/*, and the rest of Jobs/*
--                     what the methods of the module above them promise
--   Broker/Journal, Broker/Daemon, Broker/Cursor
--                     src/vgen/broker/journal.py and daemon.py: the broker's journal, one round of its
--                     loop over the gateway's commands, and where the loop stops. The gateway's client
--                     and the command handler are arguments (Outside)
--   Tests             a small database and the theorems at concrete requests
--
-- How the code corresponds. A method's body is a function from the database to a Result: an error,
-- or the answer with the database that is left. `transaction` turns it into what the caller sees:
-- after an error the database is the former one. A table is the list of its keys with a function to
-- its rows, so an UPDATE rewrites the function, and a SELECT walks over the keys. `now()` and the
-- span of a lease are arguments, and `new_id` draws from a counter of the database, so that new
-- identifiers are fresh. Identifiers are numbers, since the code compares them only; times are
-- numbers of microseconds.
--
-- Bounds. There is no fuel: every loop of the modelled code runs over a list of rows. Numbers are
-- unbounded, as Python's are; the columns of SQLite hold 64 bits, which counters of tokens and
-- attempts do not reach.
--
-- What is left out. `_matches_requirements` is a parameter of the preparation, the preflight and the
-- retry: a function of the database, the worker's row and the request or the task. The check of an owner's signature and the patterns of a specification are parameters of the
-- completion of a maintenance job, and the projections of a worker's report are parameters of its
-- heartbeat. The projection of reported progress and media metadata is applied to a report before it
-- enters the model. Columns that no modelled statement reads are left out (the rate snapshot, the
-- ledger's hash chain, the details of a failure), and so are the audit events. The creation of
-- maintenance jobs, the accounts, the HTTP layer, the broker's rekey handler, and the programs of the
-- worker and the command line are not modelled.
pub mod Base
pub mod Table
pub mod Protocol
pub mod Gateway
pub mod Broker
pub mod Tests
