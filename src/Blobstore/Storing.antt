-- ===== src/Blobstore/Storing.antt =====
-- `PutBlob` while the operating system answers: its outcome on every branch, and every file
-- afterwards.
use omnistash.Base.{
  ℕ, ◌+◌, ◌≡◌, refl, Bool, true, false, not, ◌&&◌, Option, none, some, String, arith,
}
use omnistash.Base.{◌==◌, string_eq, pair_eq, nat_eq, if◌then◌else◌, length}
use omnistash.Base.Int.{ℤ, is_neg, eq_int}
use omnistash.Errors.{Result, ok, err, fail, store, sys, StoreError, SysError}
use omnistash.Metastore.Tables.{Digest}
use omnistash.Env.{Env, IsLawful, Verdict, valid, unsupported, malformed}
use omnistash.Blobstore.Files.{FilePath, Bytes, inode, link, unlink}
use omnistash.Blobstore.Files.{content}
use omnistash.Blobstore.Os.{build_blob_path, build_staging_path}
use omnistash.Blobstore.Digests.{validate_digest, hasher_for}
use omnistash.Blobstore.Writer.{put_blob, new_uuid}
use omnistash.Blobstore.Contents.{IsSound, remove_calm, unlink-unlink}
use omnistash.Blobstore.Put.{IsFree, write_outcome, written, write_blob-calm}
use omnistash.Blobstore.Put.{link_calm, blob_ne_staging}
use omnistash.Blobstore.Left.{left_files, is_ok, content-left_files}
use omnistash.World.{World, calm, ◌>>=◌}

abbrev linked : ℕ → Option ℕ → Result ℕ
linked n none = ok n
linked n (some i) = fail (store StoreError.blob_committed)

abbrev link_outcome : Result ℕ → Option ℕ → Result ℕ
link_outcome (err e) there = err e
link_outcome (ok n) there = linked n there

pub hasher_of_valid :
    (env : Env)
    → IsLawful env
    → (d : Digest) → env.validate d ≡ valid
    → hasher_for env d ≡ ok (env.algorithm d)
unfolding hasher_for
hasher_of_valid env L d v = rw (L.valid_available d v)

module _ (env : Env) (L : IsLawful env) (ns : String) (d : Digest) (size : ℤ) (b : Bytes)
    (broken : Bool) (w : World) (free : IsFree env ns w) (v : env.validate d ≡ valid) where
  abbrev path : FilePath
  path = build_staging_path ns (env.uuid w.drawn)

  abbrev blob : FilePath
  blob = build_blob_path env ns d

  abbrev drawn : World
  drawn = record w { drawn = w.drawn + 1 }

  pub put_ready :
      is_neg size ≡ false
      → (r : Result ℕ) → write_outcome env d size b broken ≡ r
      → (there : Option ℕ) → inode blob w.files ≡ there
      → put_blob env ns d size (record { bytes = b; broken = broken }) (calm w) ≡ (
        link_outcome r there,
        record (calm drawn) { files = left_files path blob b w.files (link_outcome r there) },
      )
  unfolding put_blob validate_digest new_uuid ◌>>=◌
  put_ready n (err e) p there q = rw (
    v,
    n,
    write_blob-calm env d size path b drawn broken (hasher_of_valid env L d v) free,
    p,
    remove_calm path (record drawn { files = unlink path (written path b w.files) }),
    unlink-unlink,
  )
  put_ready n (ok k) p none q = rw (
    v,
    n,
    write_blob-calm env d size path b drawn broken (hasher_of_valid env L d v) free,
    p,
    link_calm env ns d path b drawn (blob_ne_staging env L ns d _ v) none q,
    remove_calm path (record drawn { files = link w.files.made blob (written path b w.files) }),
  )
  put_ready n (ok k) p (some i) q = rw (
    v,
    n,
    write_blob-calm env d size path b drawn broken (hasher_of_valid env L d v) free,
    p,
    link_calm env ns d path b drawn (blob_ne_staging env L ns d _ v) (some i) q,
    remove_calm path (record drawn { files = written path b w.files }),
  )

abbrev pub if_valid : {A : Type 0} → Verdict → Result A → Result A
if_valid valid r = r
if_valid unsupported r = fail (store StoreError.invalid_digest)
if_valid malformed r = fail (store StoreError.invalid_digest)

abbrev pub if_new : Option ℕ → Result ℕ → Result ℕ
if_new none r = r
if_new (some i) r = fail (store StoreError.blob_committed)

-- What `PutBlob` returns, in the order in which the code looks. `there` is the inode that the path
-- of the blob has before.
abbrev pub put_outcome : Env → Digest → ℤ → Bytes → Bool → Option ℕ → Result ℕ
put_outcome env d size b broken there = if_valid (env.validate d) (
    if is_neg size
    then fail (store StoreError.size_invalid)
    else if not (eq_int (length b) size)
    then fail (store StoreError.size_invalid)
    else if broken
    then fail (sys SysError.external)
    else if not (d == env.new_digest (env.algorithm d) b)
    then fail (store StoreError.digest_mismatch)
    else if_new there (ok (length b)))

link-write_outcome :
    (env : Env) (d : Digest) (size : ℤ) (b : Bytes) (broken : Bool) (there : Option ℕ)
    → env.validate d ≡ valid
    → is_neg size ≡ false
    → link_outcome (write_outcome env d size b broken) there ≡ put_outcome env d size b broken there
link-write_outcome env d size b broken there v n = rw (v, n) (ground arith)

module _ (env : Env) (L : IsLawful env) (ns : String) (d : Digest) (size : ℤ) (b : Bytes)
    (broken : Bool) (w : World) (free : IsFree env ns w) where
  -- While the operating system answers, `PutBlob` returns what `put_outcome` says.
  pub put_blob-put_outcome :
      (put_blob env ns d size (record { bytes = b; broken = broken }) (calm w)).0
      ≡ put_outcome env d size b broken (inode (build_blob_path env ns d) w.files)
  unfolding put_blob validate_digest ◌>>=◌
  put_blob-put_outcome = go (env.validate d) refl (is_neg size) refl
    where
      go :
          (v : Verdict)
          → env.validate d ≡ v
          → (n : Bool) → is_neg size ≡ n
          → (put_blob env ns d size (record { bytes = b; broken = broken }) (calm w)).0
            ≡ put_outcome env d size b broken (inode (build_blob_path env ns d) w.files)
      go valid e false f =
          rw (put_ready env L ns d size b broken w free e f _ refl _ refl)
            (link-write_outcome env d size b broken _ e f)
      go valid e true f = rw (e, f)
      go unsupported e n f = rw e
      go malformed e n f = rw e

  -- Afterwards the path of the blob reads as the bytes if the call succeeded, and every other path,
  -- staging paths among them, reads as before. If it failed no path has changed.
  pub content-put_blob :
      IsSound w.files
      → (p : FilePath)
      → content p (put_blob env ns d size (record { bytes = b; broken = broken }) (calm w)).1.files
        ≡ (if is_ok (put_outcome env d size b broken (inode (build_blob_path env ns d) w.files))
              && (p == build_blob_path env ns d)
            then some b
            else content p w.files)
  unfolding put_blob validate_digest ◌>>=◌
  content-put_blob sound p = go (env.validate d) refl (is_neg size) refl
    where
      go :
          (v : Verdict)
          → env.validate d ≡ v
          → (n : Bool) → is_neg size ≡ n
          → content p
              (put_blob env ns d size (record { bytes = b; broken = broken }) (calm w)).1.files
            ≡ (if is_ok (put_outcome env d size b broken (inode (build_blob_path env ns d) w.files))
                  && (p == build_blob_path env ns d)
                then some b
                else content p w.files)
      go valid e false f = rw (put_ready env L ns d size b broken w free e f _ refl _ refl) (
          rw
            (← link-write_outcome env d size b broken (inode (build_blob_path env ns d) w.files) e
              f)
            (content-left_files (build_staging_path ns (env.uuid w.drawn))
              (build_blob_path env ns d) b w.files p _ sound free (blob_ne_staging env L ns d _ e)))
      go valid e true f = rw (e, f)
      go unsupported e n f = rw e
      go malformed e n f = rw e
