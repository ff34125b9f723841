-- ===== src/Blobstore/Commits.antt =====
-- `FinalizeBlobUpload` while the operating system answers.
use omnistash.Base.{ℕ, ◌≡◌, refl, not, Option, none, some, String, arith}
use omnistash.Base.{◌==◌, string_eq, pair_eq, if◌then◌else◌, length}
use omnistash.Base.Int.{ℤ, eq_int}
use omnistash.Errors.{Result, ok, err, fail, store, StoreError}
use omnistash.Metastore.Tables.{Digest}
use omnistash.Env.{Env, IsLawful, Verdict, valid, unsupported, malformed}
use omnistash.Blobstore.Files.{FilePath, Bytes, Files, read, inode, link, unlink, content, read_at}
use omnistash.Blobstore.Os.{build_blob_path, build_staging_path, os_open, os_stat, os_link}
use omnistash.Blobstore.Digests.{validate_digest, match_digest}
use omnistash.Blobstore.Writer.{link_staged_file}
use omnistash.Blobstore.Upload.{finalize_blob_upload, verify_staging_blob, commit_staging_blob}
use omnistash.Blobstore.Contents.{remove_calm, inode-unlink, inode-link, read-unlink, read-link}
use omnistash.Blobstore.Storing.{if_valid, hasher_of_valid}
use omnistash.World.{World, calm, ◌>>=◌}

read-moved :
    (path blob : FilePath) (i : ℕ) (fs : Files) (j : ℕ)
    → read j (unlink path (link i blob fs)) ≡ read j fs
read-moved path blob i fs j = rw (read-unlink, read-link)

inode-moved :
    (path blob : FilePath) (i : ℕ) (fs : Files) (p : FilePath)
    → inode p (unlink path (link i blob fs))
      ≡ (if p == path then none else if p == blob then some i else inode p fs)
inode-moved path blob i fs p = rw (inode-unlink, inode-link) refl

-- A file that is linked under a second name and loses its first.
pub content-moved :
    (path blob : FilePath) (i : ℕ) (fs : Files) (p : FilePath) (o : Option ℕ)
    → inode p fs ≡ o
    → content p (unlink path (link i blob fs))
      ≡ (if p == path then none else if p == blob then some (read i fs) else read_at fs o)
unfolding content
content-moved path blob i fs p none e =
    ground (arith, inode-moved path blob i fs p, read-moved path blob i fs i)
content-moved path blob i fs p (some j) e =
    ground (
      arith,
      inode-moved path blob i fs p,
      read-moved path blob i fs i,
      read-moved path blob i fs j,
    )

-- What `verifyStagingBlob` says of the staged bytes.
abbrev pub verify_outcome : Env → Digest → ℤ → Option Bytes → Result (Unit {0})
verify_outcome env d size none = fail (store StoreError.blob_upload_unknown)
verify_outcome env d size (some b) =
    if not (eq_int (length b) size)
    then fail (store StoreError.size_invalid)
    else if not (d == env.new_digest (env.algorithm d) b)
    then fail (store StoreError.digest_mismatch)
    else ok tt

-- What the commit makes of verified bytes, by the inode that the blob's path has before.
abbrev pub commit_outcome : Result (Unit {0}) → Option ℕ → Result (Unit {0})
commit_outcome (err e) there = err e
commit_outcome (ok done) none = ok tt
commit_outcome (ok done) (some i) = fail (store StoreError.blob_committed)

module _ (env : Env) (L : IsLawful env) (ns id : String) (d : Digest) (size : ℤ) (w : World)
    (v : env.validate d ≡ valid) where
  abbrev path : FilePath
  path = build_staging_path ns id

  abbrev blob : FilePath
  blob = build_blob_path env ns d

  verify_calm :
      (o : Option ℕ)
      → inode path w.files ≡ o
      → verify_staging_blob env path d size (calm w)
        ≡ (verify_outcome env d size (read_at w.files o), calm w)
  unfolding verify_staging_blob os_stat os_open match_digest ◌>>=◌
  verify_calm none e = rw e
  verify_calm (some i) e = rw (e, hasher_of_valid env L d v) (ground arith)

  -- The files afterwards: with the staged inode under the blob's path, or without the staging file
  -- alone, or as before.
  abbrev pub committed_files : Option ℕ → Result (Unit {0}) → Option ℕ → Files
  committed_files o (err e) there = w.files
  committed_files o (ok done) (some j) = unlink path w.files
  committed_files none (ok done) none = w.files
  committed_files (some i) (ok done) none = unlink path (link i blob w.files)

  pub finalize_lem :
      (o : Option ℕ)
      → inode path w.files ≡ o
      → (there : Option ℕ) → inode blob w.files ≡ there
      → (r : Result (Unit {0})) → verify_outcome env d size (read_at w.files o) ≡ r
      → finalize_blob_upload env ns id d size (calm w)
        ≡ (commit_outcome r there, record (calm w) { files = committed_files o r there })
  unfolding finalize_blob_upload validate_digest commit_staging_blob link_staged_file os_link ◌>>=◌
  finalize_lem o e there f (err x) p = rw (v, verify_calm o e, p)
  finalize_lem none e there f (ok done) p = cc
  finalize_lem (some i) e none f (ok done) p = rw (
    v,
    verify_calm (some i) e,
    p,
    e,
    f,
    remove_calm path (record w { files = link i blob w.files }),
  )
  finalize_lem (some i) e (some j) f (ok done) p =
      rw (v, verify_calm (some i) e, p, e, f, remove_calm path w)

pub valid_of_ok :
    {A : Type 0} (v : Verdict) (r : Result A) {a : A}
    → if_valid v r ≡ ok a
    → (v ≡ valid) × (r ≡ ok a)
valid_of_ok valid r h = (refl, h)
valid_of_ok unsupported r h = cc
valid_of_ok malformed r h = cc

abbrev pub finalize_outcome : Env → Digest → ℤ → Option Bytes → Option ℕ → Result (Unit {0})
finalize_outcome env d size staged there =
    if_valid (env.validate d) (commit_outcome (verify_outcome env d size staged) there)

module _ (env : Env) (L : IsLawful env) (ns id : String) (d : Digest) (size : ℤ) (w : World) where
  -- While the operating system answers, `FinalizeBlobUpload` returns what `finalize_outcome` says:
  -- the digest is valid, the upload is there, it has the size and the digest that are given, and
  -- the blob is new; else the error of the first that fails.
  pub finalize_blob_upload-finalize_outcome :
      (finalize_blob_upload env ns id d size (calm w)).0
      ≡ finalize_outcome env d size
          (content (build_staging_path ns id) w.files)
          (inode (build_blob_path env ns d) w.files)
  unfolding finalize_blob_upload validate_digest content ◌>>=◌
  finalize_blob_upload-finalize_outcome = go (env.validate d) refl
    where
      go :
          (v : Verdict)
          → env.validate d ≡ v
          → (finalize_blob_upload env ns id d size (calm w)).0
            ≡ finalize_outcome env d size
                (read_at w.files (inode (build_staging_path ns id) w.files))
                (inode (build_blob_path env ns d) w.files)
      go valid e = rw (finalize_lem env L ns id d size w e _ refl _ refl _ refl) (rw e)
      go unsupported e = rw e
      go malformed e = rw e

  -- A commit that returns nil moves the upload: its staging path is gone, the blob's path reads as
  -- what was staged, and every other path reads as before.
  pub content-finalize_ok :
      finalize_outcome env d size
          (content (build_staging_path ns id) w.files)
          (inode (build_blob_path env ns d) w.files)
        ≡ ok tt
      → (p : FilePath)
      → content p (finalize_blob_upload env ns id d size (calm w)).1.files ≡ (
          if p == build_staging_path ns id
          then none
          else if p == build_blob_path env ns d
          then content (build_staging_path ns id) w.files
          else content p w.files)
  unfolding content
  content-finalize_ok h p =
      let (v, ready) = valid_of_ok (env.validate d) _ h in go v _ refl _ refl _ refl ready
    where
      go :
          env.validate d ≡ valid
          → (o : Option ℕ) → inode (build_staging_path ns id) w.files ≡ o
          → (t : Option ℕ) → inode (build_blob_path env ns d) w.files ≡ t
          → (r : Result (Unit {0})) → verify_outcome env d size (read_at w.files o) ≡ r
          → commit_outcome r t ≡ ok tt
          → content p (finalize_blob_upload env ns id d size (calm w)).1.files ≡ (
              if p == build_staging_path ns id
              then none
              else if p == build_blob_path env ns d
              then read_at w.files (inode (build_staging_path ns id) w.files)
              else read_at w.files (inode p w.files))
      go v none e t f r q k = cc
      go v (some i) e t f (err x) q k = cc
      go v (some i) e (some j) f (ok done) q k = cc
      go v (some i) e none f (ok done) q k =
          rw (finalize_lem env L ns id d size w v (some i) e none f (ok done) q, e)
            (content-moved (build_staging_path ns id) (build_blob_path env ns d) i w.files p _ refl)
