-- ===== src/Blob/Service.antt =====
-- internal/blob/validate.go, internal/blob/service.go, and `MonolithicUpload` and `MountBlob` of
-- internal/blob/upload.go.
use omnistash.Base.{ℕ, String, Bool, true, false, ◌||◌, ◌++◌, ◌∷◌, [], if◌then◌else◌}
use omnistash.Base.Int.{ℤ, pos, lt_int}
use omnistash.Errors.{Error, Sentinel, Result, ok, err, fail, is, oci, store, meta, local}
use omnistash.Errors.{OciError, StoreError, MetaError, LocalError}
use omnistash.Metastore.Tables.{Digest}
use omnistash.Metastore.Tx
use omnistash.Metastore.Store
use omnistash.Metastore.Store.{atomic}
use omnistash.Env.{Env, Verdict, valid, unsupported, malformed}
use omnistash.Name.{validate_name}
use omnistash.Blobstore.Files.{Bytes}
use omnistash.Blobstore.Os.{Body}
use omnistash.Blobstore.Writer
use omnistash.Blobstore.Reader
use omnistash.Blobstore.Deleter
use omnistash.World.{Proc, pure, raise, lift, attempt, trip, ◌>>=◌, ◌>>◌}

abbrev pub if_exists : Bool → Result (Unit {0})
if_exists true = ok tt
if_exists false = fail (oci OciError.name_unknown)

-- `validateNamespace`
unfoldable pub validate_namespace : String → Proc (Unit {0})
validate_namespace name = do
  lift (validate_name name)
  exists ← Store.namespace_exists name
  lift (if_exists exists)

abbrev pub judged : Verdict → Result (Unit {0})
judged valid = ok tt
judged unsupported = fail (oci OciError.unsupported)
judged malformed = fail (oci OciError.digest_invalid)

-- `ValidateDigest`
unfoldable pub validate_digest : Env → Digest → Result (Unit {0})
validate_digest env d = judged (env.validate d)

-- `validateNamespaceDigest`
unfoldable pub validate_namespace_digest : Env → String → Digest → Proc (Unit {0})
validate_namespace_digest env name d = do
  lift (validate_name name)
  lift (validate_digest env d)
  exists ← Store.namespace_exists name
  lift (if_exists exists)

-- `if errors.Is(err, from) { return …, to }`
abbrev pub map_is : {A : Type 0} → Sentinel → Sentinel → Result A → Result A
map_is from to (ok a) = ok a
map_is from to (err e) = if is e from then fail to else err e

-- `Service.statBlob`
unfoldable pub registered_size : String → Digest → Proc ℕ
registered_size name d = atomic (do
  r ← attempt (Tx.stat_namespace_blob name d)
  lift (map_is (meta MetaError.blob_unknown) (oci OciError.blob_unknown) r))

-- `StatBlob`
unfoldable pub stat_blob : Env → String → Digest → Proc ℕ
stat_blob env name d = do validate_namespace_digest env name d; registered_size name d

-- `GetBlob`: the bytes of the reader, and the registered size
unfoldable pub get_blob : Env → String → Digest → Proc (Bytes × ℕ)
get_blob env name d = do
  validate_namespace_digest env name d
  size ← registered_size name d
  r ← attempt (Reader.get_blob env name d)
  got ← lift (map_is (store StoreError.blob_unknown) (oci OciError.blob_unknown) r)
  pure (got.0, size)

abbrev pub pipe_range : Env → String → Digest → ℤ → ℤ → Bool → Proc (Result (Result Bytes))
pipe_range env name d first last false = pure (fail (oci OciError.range_not_satisfiable))
pipe_range env name d first last true = do
  piped ← attempt (Reader.get_blob_range env name d first last)
  pure (ok piped)

-- `GetBlobRange`: the reader of a pipe, which gives bytes or an error, and the total size. The error
-- for a range behind the end has the total size beside it.
unfoldable pub get_blob_range : Env → String → Digest → ℤ → ℤ → Proc (Result (Result Bytes) × ℕ)
get_blob_range env name d first last = do
  validate_namespace_digest env name d
  total ← registered_size name d
  r ← pipe_range env name d first last (lt_int last (pos total))
  pure (r, total)

-- The join of the error of a registration and that of its clean-up.
abbrev pub join_cleanup : {A : Type 0} → Error → Result (Unit {0}) → Result A
join_cleanup e (ok done) = err e
join_cleanup e (err c) = err (e ++ c)

-- `Atomic` with `InsertNamespaceBlob`
unfoldable pub register : String → Digest → ℕ → Proc (Unit {0})
register name d size = atomic (Tx.insert_namespace_blob name d size)

abbrev pub delete_unregistered : Env → String → Digest → Result (Unit {0}) → Proc (Unit {0})
delete_unregistered env name d (ok done) = pure tt
delete_unregistered env name d (err e) = do
  c ← attempt (Deleter.delete_blob env name d)
  lift (join_cleanup e c)

-- What `MonolithicUpload` does with an error of `PutBlob`.
abbrev pub map_put_error : Error → Error
map_put_error e =
    if is e (store StoreError.size_invalid)
    then oci OciError.size_invalid ∷ []
    else if is e (store StoreError.digest_mismatch) || is e (store StoreError.invalid_digest)
    then oci OciError.digest_invalid ∷ []
    else e

-- The size to register: what was written, or that of the blob that is there.
abbrev pub put_size : Env → String → Digest → (Error → Error) → Result ℕ → Proc ℕ
put_size env name d other (ok n) = pure n
put_size env name d other (err e) =
    if is e (store StoreError.blob_committed) then Writer.stat_blob env name d else raise (other e)

-- `MonolithicUpload`
unfoldable pub monolithic_upload : Env → String → Digest → ℤ → Body → Proc (Unit {0})
monolithic_upload env name d size body = do
  validate_namespace_digest env name d
  put ← attempt (Writer.put_blob env name d size body)
  actual ← put_size env name d map_put_error put
  r ← attempt (register name d actual)
  delete_unregistered env name d r

-- Only a blob that this call stored is removed again.
abbrev pub unmount : Env → String → Digest → Result ℕ → Result (Unit {0}) → Proc (Unit {0})
unmount env name d put (ok done) = pure tt
unmount env name d (ok n) (err e) = do
  c ← attempt (Deleter.delete_blob env name d)
  lift (join_cleanup e c)
unmount env name d (err put) (err e) = raise e

-- `mountBlobCopy`
unfoldable pub mount_blob_copy : Env → String → Digest → Bytes → ℕ → Proc (Unit {0})
mount_blob_copy env target d bytes size = do
  put ← attempt (Writer.put_blob env target d (pos size) (record { bytes = bytes; broken = false }))
  actual ← put_size env target d (λ e. e) put
  r ← attempt (register target d actual)
  unmount env target d put r

abbrev pub or_mount_failed : Result (Unit {0}) → Result (Unit {0})
or_mount_failed (ok done) = ok tt
or_mount_failed (err e) = fail (local LocalError.mount_failed)

-- `MountBlob`. The close of the source is the last call.
unfoldable pub mount_blob : Env → String → String → Digest → Proc (Unit {0})
mount_blob env source target d = do
  validate_namespace_digest env target d
  lift (or_mount_failed (validate_name source))
  exists ← Store.namespace_exists source
  lift (if exists then ok tt else fail (local LocalError.mount_failed))
  r ← attempt (Reader.get_blob env source d)
  got ← lift (map_is (store StoreError.blob_unknown) (local LocalError.mount_failed) r)
  mounted ← attempt (mount_blob_copy env target d got.0 got.1)
  closed ← attempt trip
  lift mounted
  lift closed
