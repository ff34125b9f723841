-- ===== src/Lib.antt =====
-- omnistash, a registry for OCI artifacts.
--
-- A request of the OCI distribution API goes through rest/ to one of four services: namespaces
-- (internal/namespace), blobs (internal/blob), manifests (internal/manifest) and referrers
-- (internal/referrer). A service checks its arguments and calls two stores: the metadata store
-- (internal/metastore, implemented over SQLite in internal/metastore/sqlite), which records what
-- belongs to which namespace, and the blob store (internal/blobstore, implemented over files in
-- internal/blobstore/fs), which holds the bytes. An upload is a staging file; a commit links it
-- under the path of its digest. Errors are sentinels wrapped on the way up, which rest/errors.go
-- maps to a status.
--
-- Shared modules
--   Base, Base.Equality, Base.Tests, Base.Table, Base.Int: names passed on, `==`, the conditional,
--     `length`, `take`, `drop`, keyed tables, and the integers of sizes and offsets.
--   Errors: the sentinels of internal/ocierror, internal/blobstore and internal/metastore, `Result`.
--   Env: what go-digest, uuid and the JSON decoders do, as parameters, and what go-digest documents,
--     as the named laws `IsLawful`.
--   World: database, files and the answers of the outside, and the monad `Proc` of steps on it.
--
-- Components
--   Metastore.Tables: the tables of migration/sqlite.go. Metastore.Sql: the statements of
--     internal/metastore/sqlite/sql.go. Metastore.Tx: the operations of a transaction, one for each
--     method of `sqliteTx`. Metastore.Store: `Atomic` and `NamespaceExists`.
--     Metastore.Handle: opening and closing the store, of internal/metastore/sqlite/store.go.
--     Metastore.Keeps, References, Valid, Integrity, Atomic, Blobs, Manifests, Listing: what holds
--     of them.
--   Blobstore.Files: names, inodes and their bytes. Blobstore.Os: the calls of `os` and `io`, and
--     internal/blobstore/fs/utils.go. Blobstore.Digests: internal/blobstore/digest.go.
--     Blobstore.Writer: store.go. Blobstore.Upload: stream.go. Blobstore.Reader: reader.go.
--     Blobstore.Deleter: deleter.go, and `removeBatch` and `removeCommandPaths` of vacuum.go.
--     Blobstore.Vacuum: `Start` of vacuum.go and its stop function. Blobstore.Sweep: the sweep of
--     stale uploads of vacuum.go.
--     Blobstore.Spares, Batches, Swept, Emptied, Cleared, Contents, Put, Left, Storing, Uploads,
--     Chunks, Commits, Deletes, Ranges, Roundtrips, Running: what holds of them.
--   Regexp, Name: internal/namespace/validate.go, its pattern with a matcher by derivatives.
--     Name.Components, Grammar: what holds of the names.
--   Namespaces: internal/namespace/service.go.
--   Blob.Service, Blob.Session: internal/blob (validate.go, service.go, upload.go).
--     Blob.Registered, Committed, Finals, Mounted, Cleanup: what holds of them.
--   Manifests: internal/manifest. Referrers: internal/referrer. Referrers.Members: what it lists.
--   Migration: migration/sqlite.go. Migration.Created, Open, Applied: what holds of it.
--   Programs: cmd/omnistash/main.go and cmd/migrate/main.go. Programs.Exits: what holds of them.
--   Rest.Status: `errToStatusCode` of rest/errors.go. Rest.Replies: what it replies. Rest.Http: requests, responses and the rest of
--     errors.go. Rest.Paths: `splitNamespacedPath` of rest/middleware.go. Rest.Decimal: the numbers of
--     headers. Rest.Ranges: rest/range.go. Rest.Blobs: rest/blob.go. Rest.Uploads:
--     rest/blob_uploader.go. Rest.ManifestRoutes: rest/manifest.go and rest/referrers.go.
--     Rest.NamespaceRoutes: rest/handler.go and internal/health. Rest.Mux: `ServeMux` of `net/http`.
--     Rest.Router: rest/routes.go, `withNamespace` and rest/server.go.
--     Rest.LastIndex, Splits, Rejoins, Parsed, Progress, Transfers, RangedGets, Pushes,
--     PushedManifests, Referred, Removed, Answers, Handled, Served, Shadowed: what holds of them.
--   Contracts.Stores: the interfaces of internal/metastore/contract.go and
--     internal/blobstore/contract.go as records of operations, and the two stores as their values.
--     Contracts.Testing: subtests and assertions. Contracts.Metadata: the suite of
--     internal/metastore/metastoretest, a module for each file. Contracts.Blobs: the suite of
--     internal/blobstore/blobstoretest, a module for each file. Contracts.Passes: runs of the two
--     suites on the two stores, with the new store that each test is given.
--   Tests: a concrete environment, runs, and the theorems at concrete inputs.
--
-- How code is modelled
--   A function of the code has the name of its Go function. A Go function `(T, error)` is a
--   `Proc T` where it touches the world, and returns a `Result T` where it does not. A value that
--   comes with an error is dropped, unless the caller reads it. Every call that leaves the program
--   (the engine, the operating system, the client's body) draws one entry of `World.faults`: a
--   success, or an error that the code does not test for; errors that it does test for, such as
--   `ErrNotExist`, follow from the state. `calm` is a world in which every later call succeeds, so a
--   theorem on it is what its words "while the operating system answers" or "while the engine
--   answers" mean. A close whose error is logged and one of a reader draw an entry where the order
--   of the calls makes them visible.
--   An error is the list of the sentinels in its tree: text added by `%w` is dropped, `errors.Join`
--   appends, and `errors.Is` is membership.
--   A path is an inode's name, and a link is a second name of one inode, so a write through one name
--   shows through the other. A transaction is serializable, so it is one step; so is a batch of the
--   vacuum, whose caller waits for the worker, and so is what a handler does. Loops are recursion on
--   lists; only the printing of a number is recursion on fuel, which is the number itself: that is
--   enough, since each digit divides what is left by ten.
--   A handler is a function of a request to a `Proc` of a response, which is the status, the headers
--   and the body as they are when the handler returns; a failed write of a body is only logged.
--   A test of a contract suite is a `Proc` on a store, which returns nil if every assertion holds; an
--   assertion that fails is an error without a sentinel. A subtest runs on a new store, and what it
--   leaves there is dropped. The transactions that a test starts at once run in sequence, since a
--   transaction is one step. A panic is an error with a sentinel of its own: `Atomic` recovers it in a
--   branch of its own and passes it on, and the test recovers it.
--   A database whose schema is applied or checked is the list of the tables, views and indexes of its
--   `sqlite_master`, in which SQLite finds a name in any case of its letters.
--   The mux of `net/http` is modelled for the patterns of the code. The clean form of a path is a
--   parameter, and so is the answer by which the mux redirects a path that is not clean.
--   Sizes and readers beside an error, and times that are compared with the zero time, are left out.
--   A program is a `Proc` of its exit code. What the package `flag` makes of its arguments is given,
--   and so is what happens to the server while it runs: a signal or an error of `ListenAndServe`,
--   and what `Shutdown` returns.
--   Bytes and code points are natural numbers, sizes that clients give are integers, sizes of files
--   are natural numbers; the code does no arithmetic on them that could leave 64 bits before a file
--   has that size.
--
-- Not modelled: directories, permissions and contexts beyond a call that they let fail; logging; the
-- rows of `manifest_tags`, which no code uses; several requests at once; what the
-- pragma `foreign_keys` and `SetMaxOpenConns(1)` do to the engine, which is assumed: foreign keys are
-- checked, and a write transaction ends before the next one begins; what `filepath.Join` makes of an
-- upload's id with `../` in it, since the mux hands on one segment, which has no slash unless it was
-- escaped; escaped paths and the `Allow` header; a walk over directories that changes while it
-- runs; time-outs of the server; the clock and the options of constructors, which only set a field;
-- and the fake clock, the mocks and the stubs that the tests of single parts use.
pub mod Base
pub mod Errors
pub mod Metastore
pub mod Blobstore
pub mod World
pub mod Env
pub mod Regexp
pub mod Name
pub mod Blob
pub mod Manifests
pub mod Namespaces
pub mod Referrers
pub mod Migration
pub mod Rest
pub mod Contracts
pub mod Programs
mod Tests
