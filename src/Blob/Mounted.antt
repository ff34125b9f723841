-- ===== src/Blob/Mounted.antt =====
-- `MountBlob` of internal/blob/upload.go, while the database engine and the operating system answer.
use omnistash.Base.{◌≡◌, ◌≢◌, refl, true, none, some, String, string_eq, pair_eq, length, arith}
use omnistash.Base.Table.{lookup}
use omnistash.Errors.{ok}
use omnistash.Metastore.Tables.{Digest}
use omnistash.Metastore.Sql
use omnistash.Metastore.Store
use omnistash.Metastore.Blobs.{registered_size}
use omnistash.Env.{Env, IsLawful, valid}
use omnistash.Name.{validate_name}
use omnistash.Blobstore.Files.{Bytes, inode, content}
use omnistash.Blobstore.Os.{build_blob_path, os_open, file_stat}
use omnistash.Blobstore.Digests.{validate_digest}
use omnistash.Blobstore.Contents.{IsSound}
use omnistash.Blobstore.Put.{IsFree}
use omnistash.Blobstore.Reader
use omnistash.Blob.Service
use omnistash.Blob.Service.{mount_blob, mount_blob_copy}
use omnistash.Blob.Registered.{
  validate_calm, register-calm, get_of_registered, put_calm, put_world, uploaded, name_stays,
  size_there, bytes_there,
}
use omnistash.World.{World, calm, ◌>>=◌}

-- Reading a blob that is there changes nothing.
read_calm :
    (env : Env) (ns : String) (d : Digest) (w : World) (b : Bytes)
    → env.validate d ≡ valid
    → content (build_blob_path env ns d) w.files ≡ some b
    → Reader.get_blob env ns d (calm w) ≡ (ok (b, length b), calm w)
unfolding Reader.get_blob validate_digest os_open file_stat content ◌>>=◌
read_calm env ns d w b v h = ground (arith, v, h)

module _ (env : Env) (L : IsLawful env) (source target : String) (d : Digest) (b : Bytes)
    (w : World) (free : IsFree env target w) (n : validate_name target ≡ ok tt)
    (v : env.validate d ≡ valid) (e : lookup target w.db.namespace ≢ none)
    (new : inode (build_blob_path env target d) w.files ≡ none)
    (same : d ≡ env.new_digest (env.algorithm d) b) (from : validate_name source ≡ ok tt)
    (there : lookup source w.db.namespace ≢ none)
    (held : content (build_blob_path env source d) w.files ≡ some b) where
  copy_calm :
      mount_blob_copy env target d b (length b) (calm w)
      ≡ (ok tt, calm (uploaded env L target d b w free n v e new same))
  unfolding mount_blob_copy ◌>>=◌
  copy_calm = rw (
    put_calm env L target d b w free n v e new same,
    register-calm env target d (put_world env L target d b w free n v e new same) (length b) e,
  )

  source_calm : Store.namespace_exists source (calm w) ≡ (ok true, calm w)
  unfolding Store.namespace_exists Sql.namespace_exists ◌>>=◌
  source_calm = ground arith

  mount_calm :
      mount_blob env source target d (calm w)
      ≡ (ok tt, calm (uploaded env L target d b w free n v e new same))
  unfolding mount_blob ◌>>=◌
  mount_calm = rw (
    validate_calm env target d w n v e,
    from,
    source_calm,
    read_calm env source d w b v held,
    copy_calm,
  )

  -- While engine and operating system answer, from sound files with a free staging path, the mount of
  -- a blob that a source namespace holds, with the bytes of its digest, and the target does not hold,
  -- succeeds if both namespaces exist; `GetBlob` in the target then gives these bytes, and beside
  -- them the registered size, which is their number unless the target had the digest registered.
  pub get_blob-mount_blob :
      IsSound w.files
      → ((mount_blob env source target d (calm w)).0 ≡ ok tt)
        × ((Service.get_blob env target d (mount_blob env source target d (calm w)).1).0
            ≡ ok (b, registered_size (lookup (target, d) w.db.namespace_blobs) (length b)))
  get_blob-mount_blob sound = rw mount_calm (
    refl,
    get_of_registered env target d (uploaded env L target d b w free n v e new same) b _ n v
        (name_stays env L target d b w free n v e new same)
        (size_there env L target d b w free n v e new same)
        (bytes_there env L target d b w free n v e new same sound),
  )
