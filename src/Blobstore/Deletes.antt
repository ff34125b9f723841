-- ===== src/Blobstore/Deletes.antt =====
-- `DeleteBlob` while the operating system answers.
use omnistash.Base.{ℕ, ◌≡◌, refl, Bool, true, false, Option, none, some, String}
use omnistash.Base.{◌==◌, ==_refl, string_eq, pair_eq, if◌then◌else◌}
use omnistash.Errors.{Result, ok, fail, store, local, StoreError, LocalError}
use omnistash.Metastore.Tables.{Digest}
use omnistash.Env.{Env, Verdict, valid, unsupported, malformed}
use omnistash.Blobstore.Files.{FilePath, Files, inode, unlink, content, read_at}
use omnistash.Blobstore.Os.{build_blob_path, os_remove}
use omnistash.Blobstore.Digests.{validate_digest}
use omnistash.Blobstore.Deleter.{delete_blob, remove_batch, remove_command_paths}
use omnistash.Blobstore.Contents.{inode-unlink, read-unlink, unlink_absent}
use omnistash.Blobstore.Storing.{if_valid}
use omnistash.World.{World, calm, ◌>>=◌}

abbrev pub if_there : Option ℕ → Result (Unit {0})
if_there none = fail (store StoreError.blob_unknown)
if_there (some i) = ok tt

-- What `DeleteBlob` returns, by the vacuum's channel and the inode of the blob's path.
abbrev pub delete_outcome : Option ℕ → Option ℕ → Result (Unit {0})
delete_outcome none there = fail (local LocalError.vacuum_not_started)
delete_outcome (some jobs) there = if_there there

-- The files after `DeleteBlob`, by the vacuum's channel.
abbrev pub deleted_files : FilePath → Files → Option ℕ → Files
deleted_files p fs none = fs
deleted_files p fs (some jobs) = unlink p fs

module _ (env : Env) (ns : String) (d : Digest) (w : World) where
  pub delete_lem :
      env.validate d ≡ valid
      → (jobs : Option ℕ) → w.jobs ≡ jobs
      → (there : Option ℕ) → inode (build_blob_path env ns d) w.files ≡ there
      → delete_blob env ns d (calm w) ≡ (
        delete_outcome jobs there,
        record (calm w) { files = deleted_files (build_blob_path env ns d) w.files jobs },
      )
  unfolding delete_blob validate_digest remove_batch remove_command_paths os_remove ◌>>=◌
  delete_lem v none j there e = rw (v, j)
  delete_lem v (some c) j none e =
      rw (v, j, ==_refl ns, e, unlink_absent (build_blob_path env ns d) w.files e)
  delete_lem v (some c) j (some i) e = rw (v, j, ==_refl ns, e)

  -- While the operating system answers, `DeleteBlob` returns what `delete_outcome` says of a valid
  -- digest, and `ErrInvalidDigest` for another.
  pub delete_blob-delete_outcome :
      (delete_blob env ns d (calm w)).0
      ≡ if_valid (env.validate d) (delete_outcome w.jobs (inode (build_blob_path env ns d) w.files))
  unfolding delete_blob validate_digest ◌>>=◌
  delete_blob-delete_outcome = go (env.validate d) refl
    where
      go :
          (v : Verdict)
          → env.validate d ≡ v
          → (delete_blob env ns d (calm w)).0
            ≡ if_valid v (delete_outcome w.jobs (inode (build_blob_path env ns d) w.files))
      go valid e = rw (delete_lem e _ refl _ refl)
      go unsupported e = rw e
      go malformed e = rw e

  -- With the vacuum running and a valid digest, the blob's path is gone afterwards, whether it was
  -- there or not, and every other path reads as before.
  pub content-delete_blob :
      (jobs : ℕ)
      → w.jobs ≡ some jobs
      → env.validate d ≡ valid
      → (p : FilePath)
      → content p (delete_blob env ns d (calm w)).1.files
        ≡ (if p == build_blob_path env ns d then none else content p w.files)
  unfolding content
  content-delete_blob jobs j v p =
      rw (delete_lem v _ j _ refl, inode-unlink)
        (go (p == build_blob_path env ns d) (inode p w.files))
    where
      go :
          (same : Bool) (o : Option ℕ)
          → read_at (unlink (build_blob_path env ns d) w.files) (if same then none else o)
            ≡ (if same then none else read_at w.files o)
      go true o = refl
      go false none = refl
      go false (some i) = rw read-unlink
