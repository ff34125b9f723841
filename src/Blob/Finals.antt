-- ===== src/Blob/Finals.antt =====
-- `CommitUpload` of internal/blob/upload.go with a final chunk in its body.
use omnistash.Base.{ℕ, ◌≡◌, ◌≢◌, refl, ap, sym, ◌∙◌, false, Option, none, some, String}
use omnistash.Base.{string_eq, pair_eq, nat_eq, length, length-append, ◌++◌, [], ◌∷◌, ◌+◌}
use mathlib.Core.Path.{subst}
use omnistash.Base.Table.{lookup}
use omnistash.Errors.{ok, fail, store, StoreError}
use omnistash.Metastore.Tables.{Digest}
use omnistash.Metastore.Blobs.{registered_size}
use omnistash.Env.{Env, IsLawful, valid}
use omnistash.Name.{validate_name}
use omnistash.Blobstore.Files.{Bytes, Files, inode, read, append, unlink}
use omnistash.Blobstore.Os.{Body, build_blob_path, build_staging_path, os_stat}
use omnistash.Blobstore.Contents.{inode-append}
use omnistash.Blobstore.Chunks.{append_lem, read_grown}
use omnistash.Blobstore.Upload.{get_blob_upload_offset}
use omnistash.Blob.Service
use omnistash.Blob.Session.{commit_upload, append_final_chunk}
use omnistash.Blob.Registered.{validate_calm}
use omnistash.Blob.Committed.{get_blob-commit_upload, commit_upload_conflict}
use omnistash.Rest.Status.{err_to_status_code}
use omnistash.World.{World, calm, ◌>>=◌}

-- The body of a commit, and the bytes of the upload with it.
abbrev pub final_body : Option Bytes → Option Body
final_body none = none
final_body (some b) = some (record { bytes = b; broken = false })

abbrev pub with_final : Option Bytes → Bytes → Bytes
with_final none old = old
with_final (some b) old = old ++ b

-- The files with the chunk in the upload.
abbrev pub after_final : Option Bytes → ℕ → Files → Files
after_final none i fs = fs
after_final (some b) i fs = append i b fs

module _ (name id : String) (i : ℕ) (b : Bytes) (w : World)
    (staged : inode (build_staging_path name id) w.files ≡ some i) where
  abbrev grown : World
  grown = record w { files = append i b w.files }

  still_staged : inode (build_staging_path name id) grown.files ≡ some i
  still_staged = inode-append w.files i b _ ∙ staged

  append_calm :
      append_final_chunk name id (final_body (some b)) (calm w)
      ≡ (ok (length (read i w.files) + length b), calm grown)
  unfolding append_final_chunk get_blob_upload_offset os_stat ◌>>=◌
  append_calm = rw (staged, append_lem name id i w b staged) refl

  offset_grown :
      append_final_chunk name id none (calm grown)
      ≡ (ok (length (read i w.files) + length b), calm grown)
  unfolding append_final_chunk get_blob_upload_offset os_stat ◌>>=◌
  offset_grown = rw (still_staged, read_grown name id i b w.files, length-append) refl

  -- A final chunk is a chunk that is appended before a commit without one.
  commit_upload-final_body :
      (env : Env) (d : Digest)
      → validate_name name ≡ ok tt
      → env.validate d ≡ valid
      → lookup name w.db.namespace ≢ none
      → commit_upload env name id d (final_body (some b)) (calm w)
        ≡ commit_upload env name id d none (calm grown)
  unfolding commit_upload ◌>>=◌
  commit_upload-final_body env d n v e = rw (
    validate_calm env name d w n v e,
    validate_calm env name d grown n v e,
    append_calm,
    offset_grown,
  )

module _ (env : Env) (L : IsLawful env) (name id : String) (d : Digest) (i : ℕ) (w : World)
    (n : validate_name name ≡ ok tt) (v : env.validate d ≡ valid)
    (e : lookup name w.db.namespace ≢ none)
    (staged : inode (build_staging_path name id) w.files ≡ some i)
    (new : inode (build_blob_path env name d) w.files ≡ none) where
  abbrev Commits : Option Bytes → World → Bytes → Type 0
  Commits final u t =
      ((commit_upload env name id d (final_body final) (calm u)).0 ≡ ok tt)
      × ((Service.get_blob env name d (commit_upload env name id d (final_body final) (calm u)).1).0
          ≡ ok (t, registered_size (lookup (name, d) w.db.namespace_blobs) (length t)))

  -- While engine and operating system answer, CommitUpload of a new blob in a namespace that exists,
  -- with or without a final chunk, succeeds if the digest is that of the bytes of the upload and the
  -- chunk together; GetBlob of the service then gives these bytes, and beside them the registered
  -- size, which is their number unless the digest was registered before.
  pub get_blob-commit_upload_final :
      (final : Option Bytes)
      → d ≡ env.new_digest (env.algorithm d) (with_final final (read i w.files))
      → ((commit_upload env name id d (final_body final) (calm w)).0 ≡ ok tt)
        × ((Service.get_blob env name d
              (commit_upload env name id d (final_body final) (calm w)).1).0
            ≡ ok (
              with_final final (read i w.files),
              registered_size
                  (lookup (name, d) w.db.namespace_blobs)
                  (length (with_final final (read i w.files))),
            ))
  get_blob-commit_upload_final none same =
      get_blob-commit_upload env L name id d i w n v e staged same new
  get_blob-commit_upload_final (some b) same =
      rw (commit_upload-final_body name id i b w staged env d n v e) (
        subst (Commits none (grown name id i b w staged)) (read_grown name id i b w.files) (
          get_blob-commit_upload env L name id d i (grown name id i b w staged) n v e
            (still_staged name id i b w staged)
            (same ∙ ap (env.new_digest (env.algorithm d)) (sym (read_grown name id i b w.files)))
            (inode-append w.files i b _ ∙ new)))

module _ (env : Env) (L : IsLawful env) (name id : String) (d : Digest) (i j : ℕ) (w : World)
    (n : validate_name name ≡ ok tt) (v : env.validate d ≡ valid)
    (e : lookup name w.db.namespace ≢ none)
    (staged : inode (build_staging_path name id) w.files ≡ some i)
    (there : inode (build_blob_path env name d) w.files ≡ some j) where
  -- While engine and operating system answer, CommitUpload of a blob that the store holds already,
  -- in a namespace that exists, with or without a final chunk, fails with ErrBlobCommitted if the
  -- digest is that of the bytes of the upload and the chunk together. The API reports this error as
  -- 500. Nothing is registered, the chunk is appended to the file of the upload, and the upload is
  -- gone.
  pub commit_upload_final_conflict :
      (final : Option Bytes)
      → d ≡ env.new_digest (env.algorithm d) (with_final final (read i w.files))
      → (commit_upload env name id d (final_body final) (calm w) ≡ (
        fail (store StoreError.blob_committed),
        record (calm w) {
          files = unlink (build_staging_path name id) (after_final final i w.files);
        },
      ))
        × (err_to_status_code (store StoreError.blob_committed ∷ []) ≡ (500, "INTERNAL_ERROR"))
  commit_upload_final_conflict none same =
      commit_upload_conflict env L name id d i w n v e staged same j there
  commit_upload_final_conflict (some b) same =
      rw (commit_upload-final_body name id i b w staged env d n v e) (
        commit_upload_conflict env L name id d i (grown name id i b w staged) n v e
          (still_staged name id i b w staged)
          (same ∙ ap (env.new_digest (env.algorithm d)) (sym (read_grown name id i b w.files))) j
          (inode-append w.files i b _ ∙ there))
