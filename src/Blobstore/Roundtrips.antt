-- ===== src/Blobstore/Roundtrips.antt =====
-- Reading back what was stored, while the operating system answers.
use omnistash.Base.{ℕ, ◌≡◌, refl, Bool, Option, none, some, String, arith}
use omnistash.Base.{==_refl, string_eq, pair_eq, length}
use omnistash.Base.Int.{ℤ}
use omnistash.Errors.{Result, ok, fail, store, StoreError}
use omnistash.Metastore.Tables.{Digest}
use omnistash.Env.{Env, IsLawful, valid}
use omnistash.Blobstore.Files.{Bytes, inode, content}
use omnistash.Blobstore.Os.{build_blob_path, build_staging_path, os_open, file_stat}
use omnistash.Blobstore.Digests.{validate_digest}
use omnistash.Blobstore.Writer.{put_blob}
use omnistash.Blobstore.Upload.{finalize_blob_upload}
use omnistash.Blobstore.Reader.{get_blob}
use omnistash.Blobstore.Contents.{IsSound}
use omnistash.Blobstore.Put.{IsFree, blob_ne_staging}
use omnistash.Blobstore.Storing.{if_valid, put_outcome, content-put_blob}
use omnistash.Blobstore.Commits.{finalize_outcome, valid_of_ok, content-finalize_ok}
use omnistash.World.{World, calm, ◌>>=◌}

-- What `GetBlob` gives, by what the blob's path reads as.
abbrev pub get_outcome : Option Bytes → Result (Bytes × ℕ)
get_outcome none = fail (store StoreError.blob_unknown)
get_outcome (some b) = ok (b, length b)

module _ (env : Env) (ns : String) (d : Digest) where
  get_blob-get_outcome :
      (w : World)
      → (get_blob env ns d (calm w)).0
        ≡ if_valid (env.validate d) (get_outcome (content (build_blob_path env ns d) w.files))
  unfolding get_blob validate_digest os_open file_stat content ◌>>=◌
  get_blob-get_outcome w = ground arith

  pub get_of_content :
      (w : World) (b : Bytes)
      → env.validate d ≡ valid
      → content (build_blob_path env ns d) w.files ≡ some b
      → (get_blob env ns d (calm w)).0 ≡ ok (b, length b)
  get_of_content w b v e = rw (get_blob-get_outcome w, v, e) refl

module _ (env : Env) (L : IsLawful env) (ns : String) (d : Digest) (size : ℤ) where
  -- What a successful `PutBlob` stores, `GetBlob` reads, with its length.
  pub get_blob-put_blob :
      (b : Bytes) (broken : Bool) (w : World) (n : ℕ)
      → IsFree env ns w
      → IsSound w.files
      → put_outcome env d size b broken (inode (build_blob_path env ns d) w.files) ≡ ok n
      → (get_blob env ns d
          (calm (put_blob env ns d size (record { bytes = b; broken = broken }) (calm w)).1)).0
        ≡ ok (b, length b)
  get_blob-put_blob b broken w n free sound h =
      get_of_content env ns d
        (put_blob env ns d size (record { bytes = b; broken = broken }) (calm w)).1 b
        (valid_of_ok (env.validate d) _ h).0
        (rw (content-put_blob env L ns d size b broken w free sound (build_blob_path env ns d), h)
          (ground (arith, ==_refl (build_blob_path env ns d))))

  -- What a successful `FinalizeBlobUpload` commits, `GetBlob` reads, with its length.
  pub get_blob-finalize_blob_upload :
      (id : String) (b : Bytes) (w : World)
      → content (build_staging_path ns id) w.files ≡ some b
      → finalize_outcome env d size (some b) (inode (build_blob_path env ns d) w.files) ≡ ok tt
      → (get_blob env ns d (calm (finalize_blob_upload env ns id d size (calm w)).1)).0
        ≡ ok (b, length b)
  get_blob-finalize_blob_upload id b w staged h =
      let v = (valid_of_ok (env.validate d) _ h).0 in
      get_of_content env ns d (finalize_blob_upload env ns id d size (calm w)).1 b v (
        rw
          (
            content-finalize_ok env L ns id d size w (rw staged h) (build_blob_path env ns d),
            blob_ne_staging env L ns d id v,
            staged,
          )
          (ground (arith, ==_refl (build_blob_path env ns d))))
