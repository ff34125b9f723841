-- ===== src/Programs.antt =====
-- The programs: cmd/omnistash/main.go and cmd/migrate/main.go. What the package `flag` makes of the
-- arguments, and what happens to the server while it runs, are given.
pub mod Exits
use omnistash.Base.{ℕ, String, Option, none, some, List, ◌==◌, string_eq, if◌then◌else◌}
use omnistash.Errors.{Error, Result, ok, err, is, local, LocalError}
use omnistash.Metastore.Handle.{new_sqlite_metadata_store, close}
use omnistash.Migration.{Object, apply_sqlite_migrations}
use omnistash.World.{Proc, pure, raise, lift, attempt, quietly, ◌>>=◌, ◌>>◌}

-- What `fs.Parse` says: the flags that are given, `ErrHelp`, or another error.
pub data Flags {ℓ} (A : Type ℓ) : Type ℓ where
  given : A → Flags A
  help refused : Flags A

-- `config`
pub record Config : Type 0 where
  pub addr : String
  pub metastore_dsn : String
  pub blobstore_path : String

-- The values of the three flags, where they are given.
pub record Arguments : Type 0 where
  pub addr : Option String
  pub metastore_dsn : Option String
  pub blobstore_path : Option String

abbrev pub or_default : Option String → String → String
or_default none s = s
or_default (some t) s = t

-- `parseConfig`
unfoldable pub parse_config : Flags Arguments → Flags Config
parse_config (given a) = given (record {
  addr = or_default a.addr ":10080";
  metastore_dsn = or_default a.metastore_dsn "omnistash.db";
  blobstore_path = or_default a.blobstore_path "blobs";
})
parse_config help = help
parse_config refused = refused

-- What the `select` of `run` receives first: a signal, or the error of `ListenAndServe`.
pub data First : Type 0 where
  signal : First
  served : Error → First

-- What happens to the server: what comes first, what `Shutdown` returns within its time-out, and what
-- `ListenAndServe` returns after it.
pub record Course : Type 0 where
  pub first : First
  pub shutdown : Result (Unit {0})
  pub after : Result (Unit {0})

abbrev pub unless_closed : Result (Unit {0}) → Result (Unit {0})
unless_closed (ok done) = ok tt
unless_closed (err e) = if is e (local LocalError.server_closed) then ok tt else err e

abbrev pub wait : Course → First → Proc (Unit {0})
wait c (served e) = raise e
wait c signal = do lift c.shutdown; lift (unless_closed c.after)

-- `run`. The deferred close comes last, and its error is logged.
unfoldable pub run : Course → Proc (Unit {0})
run c = do new_sqlite_metadata_store; r ← attempt (wait c c.first); quietly close; lift r

abbrev pub exit_code : Result (Unit {0}) → ℕ
exit_code (ok done) = 0
exit_code (err e) = 1

abbrev pub start : Course → Flags Config → Proc ℕ
start c help = pure 0
start c refused = pure 2
start c (given config) = do r ← attempt (run c); pure (exit_code r)

-- `main` of cmd/omnistash: its exit code
unfoldable pub omnistash_main : Flags Arguments → Course → Proc ℕ
unfolding parse_config run
omnistash_main args c = start c (parse_config args)

abbrev pub apply_to : List Object → Proc (ℕ × List Object)
apply_to tables = do r ← apply_sqlite_migrations tables; pure (exit_code r.0, r.1)

-- `main` of cmd/migrate, by the value of `-dsn`, which is empty by default: its exit code, and the
-- objects of the database afterwards
unfoldable pub migrate_main : Flags String → List Object → Proc (ℕ × List Object)
migrate_main help tables = pure (0, tables)
migrate_main refused tables = pure (2, tables)
migrate_main (given dsn) tables = if dsn == "" then pure (2, tables) else apply_to tables
