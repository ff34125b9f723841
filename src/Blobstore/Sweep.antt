-- ===== src/Blobstore/Sweep.antt =====
-- The sweep of stale uploads: `VacuumStagingBlobs` and `findStaleStagingEntries` of
-- internal/blobstore/fs/vacuum.go.
--
-- A walk visits the staging directories in the order of the table of names, and in each the files in
-- that order; a directory that holds no file is passed over. An entry that a walk cannot reach or
-- stat is only logged.
use omnistash.Base.{
  ℕ, ◌+◌, String, ◌==◌, string_eq, Bool, ◌||◌, true, false, Option, some, List, [], ◌∷◌, ◌++◌, ltb,
  if◌then◌else◌,
}
use omnistash.Base.Table.{Table}
use omnistash.Errors.{Error, Result, ok, err}
use omnistash.Blobstore.Files.{FilePath}
use omnistash.Blobstore.Deleter.{Batch, remove_batch, join_errors, unless_error}
use omnistash.World.{Proc, pure, lift, gets, attempt, trip, ◌>>=◌, ◌>>◌}

abbrev pub mentions : String → List String → Bool
mentions s [] = false
mentions s (t ∷ ts) = (t == s) || mentions s ts

-- `d.Name() == ".staging"`
abbrev pub is_staging : FilePath → Bool
is_staging p = p.1.0 == ".staging"

abbrev pub add_namespace : FilePath → List String → List String
add_namespace p found =
    if is_staging p then (if mentions p.0 found then found else p.0 ∷ found) else found

-- The namespaces with a staging directory.
unfoldable pub staging_directories : Table FilePath ℕ → List String
staging_directories [] = []
staging_directories ((p, i) ∷ names) = add_namespace p (staging_directories names)

-- The files of one of them.
unfoldable pub staging_entries : String → Table FilePath ℕ → List FilePath
staging_entries ns [] = []
staging_entries ns ((p, i) ∷ names) =
    let rest = staging_entries ns names in
    if is_staging p then (if p.0 == ns then p ∷ rest else rest) else rest

-- The entries that were found, and the error that ended the walk.
abbrev pub Found : Type 0
Found = List FilePath × Result (Unit {0})

-- Each file with its modification time, at the time `now`.
module _ (modified : FilePath → ℕ) (now grace : ℕ) where
  -- `now.Sub(info.ModTime()) < gracePeriod` is false.
  abbrev pub is_stale : FilePath → Bool
  is_stale p = if ltb now (modified p + grace) then false else true

  abbrev pub collected : FilePath → Result (Unit {0}) → Found → Found
  collected p (err e) found = found
  collected p (ok info) (ps, ended) = (if is_stale p then p ∷ ps else ps, ended)

  abbrev pub unless_done : Result (Unit {0}) → Proc Found → Proc Found
  unless_done (err e) next = pure ([], err e)
  unless_done (ok running) next = next

  abbrev pub stat_entry : FilePath → Proc Found → Proc Found
  stat_entry p next = do info ← attempt trip; found ← next; pure (collected p info found)

  -- The walk over the files: of each the context is asked, then its information.
  unfoldable pub walk_entries : List FilePath → Proc Found
  walk_entries [] = pure ([], ok tt)
  walk_entries (p ∷ ps) = do
    context ← attempt trip
    unless_done context (stat_entry p (walk_entries ps))

  -- `findStaleStagingEntries`: an error at the directory itself ends the walk.
  unfoldable pub find_stale_staging_entries : List FilePath → Proc Found
  find_stale_staging_entries entries = do
    opened ← attempt trip
    unless_done opened (walk_entries entries)

  abbrev pub batch_errors : Result Batch → List (Option Error)
  batch_errors (ok batch) = batch.1
  batch_errors (err e) = some e ∷ []

  abbrev pub remove_entries : String → List FilePath → Proc (List (Option Error))
  remove_entries ns [] = pure []
  remove_entries ns (p ∷ ps) = do r ← attempt (remove_batch ns (p ∷ ps)); pure (batch_errors r)

  abbrev pub walk_error : Result (Unit {0}) → List (Option Error)
  walk_error (ok done) = []
  walk_error (err e) = some e ∷ []

  -- What is done in one staging directory. Every entry lies in it, so the batch is that of the
  -- namespace.
  abbrev pub sweep_entries : String → List FilePath → Proc (List (Option Error))
  sweep_entries ns entries = do
    found ← find_stale_staging_entries entries
    errs ← remove_entries ns found.0
    pure (errs ++ walk_error found.1)

  abbrev pub if_reached :
      Result (Unit {0}) → Proc (List (Option Error)) → Proc (List (Option Error))
  if_reached (err e) sweep = pure []
  if_reached (ok done) sweep = sweep

  -- The walk over the directories.
  unfoldable pub sweep_directories : List String → Proc (List (Option Error))
  unfolding staging_entries
  sweep_directories [] = pure []
  sweep_directories (ns ∷ rest) = do
    reached ← attempt trip
    entries ← gets (λ w. staging_entries ns w.files.names)
    errs ← if_reached reached (sweep_entries ns entries)
    more ← sweep_directories rest
    pure (errs ++ more)

  -- `VacuumStagingBlobs`
  unfoldable pub vacuum_staging_blobs : Proc (Unit {0})
  unfolding staging_directories
  vacuum_staging_blobs = do
    trip
    directories ← gets (λ w. staging_directories w.files.names)
    errs ← sweep_directories directories
    lift (unless_error (join_errors errs))
