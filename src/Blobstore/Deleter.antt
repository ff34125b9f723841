-- ===== src/Blobstore/Deleter.antt =====
-- internal/blobstore/fs/deleter.go, and `removeBatch` and `removeCommandPaths` of vacuum.go. A
-- worker takes a command as a whole and the caller waits for its answer, so a batch is one step.
use omnistash.Base.{ℕ, zero, suc, ◌+◌, String, ◌==◌, string_eq, if◌then◌else◌}
use omnistash.Base.{Option, none, some, List, [], ◌∷◌, ◌++◌}
use omnistash.Errors.{Error, Result, ok, err, fail, is, store, local, sys}
use omnistash.Errors.{StoreError, LocalError, SysError}
use omnistash.Metastore.Tables.{Digest}
use omnistash.Env.{Env}
use omnistash.Blobstore.Files.{FilePath}
use omnistash.Blobstore.Os.{build_blob_path, os_remove}
use omnistash.Blobstore.Digests.{validate_digest}
use omnistash.World.{Proc, pure, throw, lift, gets, attempt, trip, quietly}
use omnistash.World.{◌>>=◌, ◌>>◌}

-- `batchDeleteResult`: the number of files removed, and an error or nil for each path
abbrev pub Batch : Type 0
Batch = ℕ × List (Option Error)

abbrev pub counted : Result (Unit {0}) → Batch → Batch
counted (ok done) (n, errs) = (n + 1, none ∷ errs)
counted (err e) (n, errs) = (n, (if is e (sys SysError.not_exist) then none else some e) ∷ errs)

-- `root.Remove`, after the test that the path lies under the root
abbrev pub remove_under : String → FilePath → Proc (Unit {0})
remove_under root p =
    if p.0 == root then os_remove p else throw (local LocalError.path_escapes_root)

-- `removeCommandPaths`
unfoldable pub remove_command_paths : String → List FilePath → Proc Batch
remove_command_paths root [] = pure (0, [])
remove_command_paths root (p ∷ ps) = do
  r ← attempt (remove_under root p)
  rest ← remove_command_paths root ps
  pure (counted r rest)

abbrev pub run_batch : String → List FilePath → Proc Batch
run_batch root [] = pure (0, [])
run_batch root (p ∷ ps) = do
  -- `os.OpenRoot`. A directory that does not exist holds none of the paths.
  trip
  -- the send on the channel, which the context may end
  sent ← attempt trip
  r ← attempt (do lift sent; remove_command_paths root (p ∷ ps))
  quietly trip
  lift r

abbrev pub if_started : Option ℕ → Proc Batch → Proc Batch
if_started none m = throw (local LocalError.vacuum_not_started)
if_started (some jobs) m = m

-- `removeBatch`
unfoldable pub remove_batch : String → List FilePath → Proc Batch
remove_batch root ps = do jobs ← gets (λ w. w.jobs); if_started jobs (run_batch root ps)

-- `errors.Join` of a slice: nil if all are nil
abbrev pub join_errors : List (Option Error) → Option Error
join_errors [] = none
join_errors (none ∷ es) = join_errors es
join_errors (some e ∷ es) = elim (join_errors es) [ none ↦ some e | some f ↦ some (e ++ f) ]

abbrev pub unless_error : Option Error → Result (Unit {0})
unless_error none = ok tt
unless_error (some e) = err e

abbrev pub if_removed : ℕ → Result (Unit {0})
if_removed zero = fail (store StoreError.blob_unknown)
if_removed (suc n) = ok tt

-- `DeleteBlob`; the first call asks the context.
unfoldable pub delete_blob : Env → String → Digest → Proc (Unit {0})
delete_blob env ns d = do
  trip
  lift (validate_digest env d)
  batch ← remove_batch ns (build_blob_path env ns d ∷ [])
  lift (unless_error (join_errors batch.1))
  lift (if_removed batch.0)

abbrev pub sort_digest :
    FilePath
    → Result (Unit {0})
    → List FilePath × List (Option Error)
    → List FilePath × List (Option Error)
sort_digest p (ok done) (ps, errs) = (p ∷ ps, errs)
sort_digest p (err e) (ps, errs) = (ps, some e ∷ errs)

-- The loop over the digests: the paths of the valid ones, and the errors of the others.
unfoldable pub sort_digests : Env → String → List Digest → List FilePath × List (Option Error)
sort_digests env ns [] = ([], [])
sort_digests env ns (d ∷ ds) =
    sort_digest (build_blob_path env ns d) (validate_digest env d) (sort_digests env ns ds)

abbrev pub batch_of : Result Batch → Batch
batch_of (ok b) = b
batch_of (err e) = (0, some e ∷ [])

abbrev pub batch_error : ℕ → Option Error → Result (Unit {0})
batch_error n none = ok tt
batch_error zero (some e) = err e
batch_error (suc n) (some e) = err (store StoreError.partial_deletion ∷ e)

-- `BatchDeleteBlobs`
unfoldable pub batch_delete_blobs : Env → String → List Digest → Proc (Unit {0})
batch_delete_blobs env ns digests = do
  trip
  let sorted = sort_digests env ns digests
  r ← attempt (remove_batch ns sorted.0)
  let batch = batch_of r
  lift (batch_error batch.0 (join_errors (sorted.1 ++ batch.1)))
