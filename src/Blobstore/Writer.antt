-- ===== src/Blobstore/Writer.antt =====
-- internal/blobstore/fs/store.go: `PutBlob` and `StatBlob`.
use omnistash.Base.{ℕ, ◌+◌, String}
use omnistash.Base.{if◌then◌else◌}
use omnistash.Base.Int.{ℤ, is_neg, eq_int}
use omnistash.Errors.{Sentinel, Result, ok, err, fail, is, sys, store, SysError, StoreError}
use omnistash.Metastore.Tables.{Digest}
use omnistash.Env.{Env}
use omnistash.Blobstore.Files.{FilePath}
use omnistash.Blobstore.Os.{Body, build_blob_path, build_staging_path, map_not_exist_err}
use omnistash.Blobstore.Os.{os_create, os_link, os_stat, copy_body, remove_file_if_exists}
use omnistash.Blobstore.Digests.{validate_digest, hasher_for, match_digest}
use omnistash.World.{Proc, pure, raise, lift, attempt, trip, quietly}
use omnistash.World.{◌>>=◌, ◌>>◌}

-- `uuid.New().String()`
unfoldable pub new_uuid : Env → Proc String
new_uuid env w = (ok (env.uuid w.drawn), record w { drawn = w.drawn + 1 })

-- A count of bytes and an error, both of which Go returns.
abbrev pub Counted : Type 0
Counted = ℕ × Result (Unit {0})

-- The deferred close: its error counts if there is none yet, and on an error the file goes.
abbrev pub first_error : Result (Unit {0}) → Result (Unit {0}) → Result (Unit {0})
first_error (ok done) r = r
first_error (err e) r = err e

abbrev pub clean_up : FilePath → Result (Unit {0}) → Proc (Unit {0})
clean_up path (ok done) = pure tt
clean_up path (err e) = quietly (remove_file_if_exists path)

abbrev pub close_staging : FilePath → Counted → Proc Counted
close_staging path (n, r) = do
  c ← attempt trip
  clean_up path (first_error r c)
  pure (n, first_error r c)

abbrev pub synced : ℕ → Result (Unit {0}) → Counted
synced n (ok done) = (n, ok tt)
synced n (err e) = (0, err e)

-- A failed copy returns its count; a failed sync returns 0.
abbrev pub sync_copy : Counted → Proc Counted
sync_copy (n, err e) = pure (n, err e)
sync_copy (n, ok done) = do r ← attempt trip; pure (synced n r)

abbrev pub fill_staging : FilePath → Body → Result ℕ → Proc Counted
fill_staging path body (err e) = pure (0, err e)
fill_staging path body (ok i) = do
  copied ← copy_body i body
  counted ← sync_copy copied
  close_staging path counted

abbrev pub open_staging : FilePath → Body → Result (Unit {0}) → Proc Counted
open_staging path body (err e) = pure (0, err e)
open_staging path body (ok done) = do
  opened ← attempt (os_create path)
  fill_staging path body opened

-- `writeToStaging`
unfoldable pub write_to_staging : FilePath → Body → Proc Counted
write_to_staging path body = do dir ← attempt trip; open_staging path body dir

abbrev pub or_remove : FilePath → Result (Unit {0}) → Proc (Unit {0})
or_remove path (ok done) = pure tt
or_remove path (err e) = do quietly (remove_file_if_exists path); raise e

-- `writeBlob`. The count is compared before the error is looked at. The hasher has read what the
-- body gave, which is all of it where there is no error.
unfoldable pub write_blob : Env → FilePath → Digest → ℤ → Body → Proc ℕ
write_blob env path d size body = do
  algorithm ← lift (hasher_for env d)
  counted ← write_to_staging path body
  or_remove path (if eq_int counted.0 size then ok tt else fail (store StoreError.size_invalid))
  lift counted.1
  or_remove path (match_digest d (env.new_digest algorithm body.bytes))
  pure counted.0

abbrev pub map_exist : Result (Unit {0}) → Result (Unit {0})
map_exist (ok done) = ok tt
map_exist (err e) =
    if is e (sys SysError.exist) then fail (store StoreError.blob_committed) else err e

-- `linkStagedFile`
unfoldable pub link_staged_file : Env → String → FilePath → Digest → Proc (Unit {0})
link_staged_file env ns path d = do
  trip
  r ← attempt (os_link path (build_blob_path env ns d))
  lift (map_exist r)

abbrev pub non_negative : ℤ → Result (Unit {0})
non_negative size = if is_neg size then fail (store StoreError.size_invalid) else ok tt

-- `PutBlob`; the staged name goes by a deferred call.
unfoldable pub put_blob : Env → String → Digest → ℤ → Body → Proc ℕ
put_blob env ns d size body = do
  lift (validate_digest env d)
  lift (non_negative size)
  id ← new_uuid env
  let path = build_staging_path ns id
  r ← attempt (do n ← write_blob env path d size body; link_staged_file env ns path d; pure n)
  quietly (remove_file_if_exists path)
  lift r

abbrev pub map_missing : {A : Type 0} → Sentinel → Result A → Result A
map_missing s (ok a) = ok a
map_missing s (err e) = err (map_not_exist_err e s)

-- `StatBlob`
unfoldable pub stat_blob : Env → String → Digest → Proc ℕ
stat_blob env ns d = do
  lift (validate_digest env d)
  r ← attempt (os_stat (build_blob_path env ns d))
  lift (map_missing (store StoreError.blob_unknown) r)
