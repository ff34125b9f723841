-- ===== src/Blob/Registered.antt =====
-- `MonolithicUpload` and `GetBlob` of internal/blob, while the database engine and the operating
-- system answer.
use omnistash.Base.{ℕ, ◌+◌, ◌≡◌, ◌≢◌, refl, sym, ap, ◌∙◌, false, Option, none, some, String, arith}
use omnistash.Base.{==_refl, string_eq, pair_eq, length}
use omnistash.Base.Int.{pos}
use omnistash.Base.Table.{lookup}
use omnistash.Errors.{ok}
use omnistash.Metastore.Tables.{Digest, Key, Db, BlobColumns}
use omnistash.Metastore.Sql
use omnistash.Metastore.Tx
use omnistash.Metastore.Tx.{query_row}
use omnistash.Metastore.Store
use omnistash.Metastore.Atomic.{atomic-calm_ok}
use omnistash.Metastore.Blobs.{registered, registered_size, insert_lem, size-registered}
use omnistash.Env.{Env, IsLawful, valid}
use omnistash.Name.{validate_name}
use omnistash.Blobstore.Files.{Bytes, Files, inode, content}
use omnistash.Blobstore.Os.{build_blob_path, build_staging_path}
use omnistash.Blobstore.Contents.{IsSound}
use omnistash.Blobstore.Put.{write_outcome, IsFree, blob_ne_staging}
use omnistash.Blobstore.Storing.{put_ready}
use omnistash.Blobstore.Left.{left_files, content-left_files}
use omnistash.Blobstore.Roundtrips.{get_of_content}
use omnistash.Blobstore.Writer.{put_blob}
use omnistash.Blob.Service.{validate_digest, validate_namespace_digest, monolithic_upload, register}
use omnistash.Blob.Service
use omnistash.World.{World, calm, ◌>>=◌}

module _ (env : Env) (name : String) (d : Digest) where
  -- The checks that the operations begin with.
  pub validate_calm :
      (w : World)
      → validate_name name ≡ ok tt
      → env.validate d ≡ valid
      → lookup name w.db.namespace ≢ none
      → validate_namespace_digest env name d (calm w) ≡ (ok tt, calm w)
  unfolding validate_namespace_digest validate_digest Store.namespace_exists Sql.namespace_exists
      ◌>>=◌
  validate_calm w n v e = rw (n, v) (ground arith)

  pub register-calm :
      (w : World) (size : ℕ)
      → lookup name w.db.namespace ≢ none
      → register name d size (calm w) ≡ (
        ok tt,
        record (calm w) {
          db = registered w.now (name, d) size w.db (lookup (name, d) w.db.namespace_blobs);
        },
      )
  unfolding register
  register-calm w size e =
      let new = registered w.now (name, d) size w.db (lookup (name, d) w.db.namespace_blobs) in
      atomic-calm_ok _ w (record w { db = new }) tt (insert_lem w name d size e)

  pub size_calm :
      (w : World) (n : ℕ)
      → Sql.get_namespace_blob_size (name, d) w.db ≡ some n
      → Service.registered_size name d (calm w) ≡ (ok n, calm w)
  unfolding Service.registered_size Tx.stat_namespace_blob query_row ◌>>=◌
  size_calm w n e = atomic-calm_ok _ w w n (rw e)

  -- A blob that is registered and stored can be read.
  pub get_of_registered :
      (w : World) (b : Bytes) (size : ℕ)
      → validate_name name ≡ ok tt
      → env.validate d ≡ valid
      → lookup name w.db.namespace ≢ none
      → Sql.get_namespace_blob_size (name, d) w.db ≡ some size
      → content (build_blob_path env name d) w.files ≡ some b
      → (Service.get_blob env name d (calm w)).0 ≡ ok (b, size)
  unfolding Service.get_blob ◌>>=◌
  get_of_registered w b size n v e s c =
      rw (validate_calm w n v e, size_calm w size s, get_of_content env name d w b v c) refl

pub namespace-registered :
    (now : ℕ) (key : Key) (size : ℕ) (db : Db) (row : Option BlobColumns)
    → (registered now key size db row).namespace ≡ db.namespace
namespace-registered now key size db none = refl
namespace-registered now key size db (some b) = refl

pub outcome_of_match :
    (env : Env) (d : Digest) (b : Bytes)
    → d ≡ env.new_digest (env.algorithm d) b
    → write_outcome env d (pos (length b)) b false ≡ ok (length b)
outcome_of_match env d b same = ground (arith, same)

module _ (env : Env) (L : IsLawful env) (name : String) (d : Digest) (b : Bytes) (w : World)
    (free : IsFree env name w) (n : validate_name name ≡ ok tt) (v : env.validate d ≡ valid)
    (e : lookup name w.db.namespace ≢ none)
    (new : inode (build_blob_path env name d) w.files ≡ none)
    (same : d ≡ env.new_digest (env.algorithm d) b) where
  abbrev pub put_files : Files
  put_files =
      left_files (build_staging_path name (env.uuid w.drawn)) (build_blob_path env name d) b w.files
        (ok (length b))

  abbrev pub put_world : World
  put_world = record w { drawn = w.drawn + 1; files = put_files }

  abbrev pub new_db : Db
  new_db = registered w.now (name, d) (length b) w.db (lookup (name, d) w.db.namespace_blobs)

  pub put_calm :
      put_blob env name d (pos (length b)) (record { bytes = b; broken = false }) (calm w)
      ≡ (ok (length b), calm put_world)
  put_calm =
      put_ready env L name d (pos (length b)) b false w free v refl (ok (length b))
        (outcome_of_match env d b same) none new

  upload_calm :
      monolithic_upload env name d (pos (length b)) (record { bytes = b; broken = false }) (calm w)
      ≡ (ok tt, calm (record put_world { db = new_db }))
  unfolding monolithic_upload ◌>>=◌
  upload_calm =
      rw (
        validate_calm env name d w n v e,
        put_calm,
        register-calm env name d put_world (length b) e,
      )

  abbrev pub uploaded : World
  uploaded = record put_world { db = new_db }

  pub name_stays : lookup name new_db.namespace ≢ none
  name_stays h =
      e (ap (lookup name) (sym (namespace-registered w.now (name, d) (length b) w.db _)) ∙ h)

  pub size_there :
      Sql.get_namespace_blob_size (name, d) new_db
      ≡ some (registered_size (lookup (name, d) w.db.namespace_blobs) (length b))
  size_there =
      rw (size-registered w.now (name, d) (length b) w.db _ (name, d), ==_refl {A = Key} (name, d))
        refl

  pub bytes_there : IsSound w.files → content (build_blob_path env name d) uploaded.files ≡ some b
  bytes_there sound =
      rw
        (
          content-left_files (build_staging_path name (env.uuid w.drawn))
              (build_blob_path env name d) b w.files (build_blob_path env name d) (ok (length b))
              sound free (blob_ne_staging env L name d _ v),
          ==_refl (build_blob_path env name d),
        )
        refl

  -- While engine and operating system answer, from sound files with a free staging path, a blob
  -- that is new, uploaded whole with its size and its digest into a namespace that exists, is
  -- accepted; `GetBlob` of the service then gives its bytes, and beside them the registered size,
  -- which is their number unless the digest was registered before.
  pub get_blob-monolithic_upload :
      IsSound w.files
      → ((monolithic_upload env name d
            (pos (length b))
            (record { bytes = b; broken = false })
            (calm w)).0
          ≡ ok tt)
        × ((Service.get_blob env name d
              (monolithic_upload env name d
                (pos (length b))
                (record { bytes = b; broken = false })
                (calm w)).1).0
            ≡ ok (b, registered_size (lookup (name, d) w.db.namespace_blobs) (length b)))
  get_blob-monolithic_upload sound = rw upload_calm (
    refl,
    get_of_registered env name d uploaded b _ n v name_stays size_there (bytes_there sound),
  )
