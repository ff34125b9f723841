-- ===== src/Metastore/Handle.antt =====
-- Opening and closing the store handle of internal/metastore/sqlite/store.go. Each call of the
-- database package may fail; a store that could not be opened is given up as it is.
use omnistash.Base.{◌++◌, ◌∷◌, []}
use omnistash.Errors.{Error, Result, ok, err, meta, MetaError}
use omnistash.World.{Proc, attempt, lift, trip, ◌>>=◌, ◌>>◌}

-- `NewSQLiteMetadataStore`: the handle for writing, its two pragmas, and the handle for reading
unfoldable pub new_sqlite_metadata_store : Proc (Unit {0})
new_sqlite_metadata_store = do trip; trip; trip; trip

-- `errors.Join` of two errors, either of which may be nil
abbrev pub both : Result (Unit {0}) → Result (Unit {0}) → Error
both (ok a) (ok b) = []
both (ok a) (err f) = f
both (err e) (ok b) = e
both (err e) (err f) = e ++ f

abbrev pub closed : Result (Unit {0}) → Result (Unit {0}) → Result (Unit {0})
closed (ok a) (ok b) = ok tt
closed (ok a) (err f) = err (meta MetaError.metastore_close ∷ both (ok a) (err f))
closed (err e) r = err (meta MetaError.metastore_close ∷ both (err e) r)

-- `Close`: the handle for reading is closed also if that for writing cannot be.
unfoldable pub close : Proc (Unit {0})
close = do write ← attempt trip; read ← attempt trip; lift (closed write read)
