-- ===== src/Lib.antt =====
-- pgstore keeps the storage backends of looprig in PostgreSQL: a key-value store with revision
-- compare-and-swap (KV), an append-only log per name (Ledger), an ordered index with keyset pages
-- and leases. Every operation is the same round: guard.Bound gives the context a deadline, the
-- arguments are checked, one statement or one short transaction is sent through pgx, and where its
-- answer is lost the outcome is read back with a fresh deadline.
--
-- What models what:
--   Options, Options.Valid     options.go: resolve and its checks
--   Tables                     the names of the tables, as every package builds them
--   Postgres, Postgres.Quote   internal/postgres/postgres.go
--   Guard, Guard.Defs          internal/guard/guard.go, and safeCause and failure, of which each
--                              package has its own copy
--   Errors                     the error types that the code makes or tells apart
--   Driver, Driver.Triples,    pgx and the server: worlds, round trips, transactions, and a Hoare
--   Driver.Rules               logic for the programs over them
--   Kv and below               internal/kv/kv.go and the table kv of migrations/0001_ledger_kv.sql
--   Ledger and below           internal/ledger/ledger.go and the two ledger tables of that file
--   Lease and below            internal/lease/lease.go and the table of migrations/0002_leases.sql
--   Lease.Life.Registry        the registry of a lease store's leases, newLease and Close
--   Migrations and below       migrations.go and the scripts under migrations/
--   Facade, Facade.Opening     pgstore.go: Open and Close
--   OrderedIndex and below     internal/orderedindex/orderedindex.go, internal/orderedquery/
--                              orderedquery.go (OrderedIndex.Query) and the two tables of
--                              migrations/0003_ordered_index.sql (OrderedIndex.Sql)
--   Records                    the records of looprig/storage that the ordered index builds
--   Text, Storage, Prelude     strings and bytes, the argument checks of looprig/storage, and the
--                              shared notation and lemmas
-- A definition has the name of the Go function, in lower case with underscores; the branches that
-- follow a call are its helpers, `put_reply` after the call in Put, `resolve_put_reply` after the
-- query in resolvePut.
--
-- The world. The committed tables are association lists of rows; a statement of the source is a
-- function on them that returns its rows and the new tables, or an error (Kv.Sql, Ledger.Sql,
-- Lease.Sql, OrderedIndex.Sql, with the constraints
-- of the migration). pgx, the network and the server are a
-- parameter, `Driver`: for each moment it says what other clients commit before the statement
-- arrives (any function on the tables), whether the answer arrives, the statement fails before it
-- runs, or it runs and its answer is lost, and with which error; and what the clocks read. So a
-- driver without hypotheses stands for every failure and every interleaving of other clients'
-- commits with this client's statements. The writes of a transaction are kept apart until its
-- commit; from a SELECT ... FOR UPDATE, or a lease's UPDATE that changes a row, to the end of the
-- transaction the other clients are held off. That is more than the server promises, which holds
-- off only those that want the same row; the source relies on it only for rows that another client
-- reaches through that lock or through the foreign key on it.
-- A context does what the code sees of it: its deadline and what ctx.Err() says at each moment. That
-- a statement under a context that has ended fails is an outcome of the driver; the calls of
-- renewLoop, whose contexts come from the store's own, go to one driver before Close has canceled
-- that and to another after it (`UnderStore`).
--
-- Numbers. Go's int and uint64 are natural numbers, with the wrap of expected + 1 written out; a
-- bigint column refuses what is beyond 2^63 - 1, a numeric(20, 0) column of the ordered index what
-- is beyond 2^64 - 1. Durations are nanoseconds. Signed arguments are
-- integers (Prelude.Int). A nil slice is `none`, apart from the empty one.
--
-- Loops. The retry loops run by the attempts left, from `attempts` = 4, and panic with none left as
-- the source does behind its loops. updateOnce and deleteOnce share their end, as do the three
-- listings their query. A caller's walk through the pages of a listing is given a number of pages.
-- The cursor's loop has the records left as its bound. renewLoop runs over the list of what its
-- select wakes to.
--
-- Parameters: pgxpool.ParseConfig and net.ParseIP (`Network`), ValidateName of looprig/storage
-- (`Storage`) and its checks of ordered records (`OrderedStorage`), encoding/json on cursor
-- envelopes (`Json`), pgx and the server (`Driver`), crypto/rand and the advance of the server's
-- clock within a statement (`Host`).
--
-- Parameters of the migrations and of Open: what a script does to the database's objects and the
-- order in which Go walks the map of replacements (`Setting`), and pgxpool.NewWithConfig. The
-- advisory lock holds off whoever else changes the version table, all of whom take it.
--
-- Not modelled: the tests. Release, a round of renewLoop and Close are one step each, so none stands
-- in the middle of another; the timers of renewLoop are the wake-ups that it is given. Of the errors'
-- texts only the operation's name is kept.
mod Prelude
pub mod Text
pub mod Records
pub mod Errors
pub mod Driver
pub mod Guard
pub mod Postgres
pub mod Storage
pub mod Options
pub mod Tables
pub mod Kv
pub mod Ledger
pub mod Lease
pub mod OrderedIndex
pub mod Migrations
pub mod Facade
