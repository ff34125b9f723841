-- ===== src/Blobstore/Put.antt =====
-- `PutBlob` while the operating system answers: its outcome on every branch, and the files that it
-- leaves.
use omnistash.Base.{ℕ, ◌≡◌, refl, Bool, true, false, not, Option, none, some}
use omnistash.Base.{
  arith, Bool-cases, inl, inr, ◌==◌, ==_refl, string_eq, pair_eq, if◌then◌else◌, length, String,
}
use omnistash.Base.Int.{ℤ, eq_int}
use omnistash.Errors.{Result, ok, err, fail, store, sys, StoreError, SysError}
use omnistash.Metastore.Tables.{Digest}
use omnistash.Env.{Env, IsLawful, valid}
use omnistash.Blobstore.Files.{FilePath, Bytes, Files, inode, create, append, link, unlink}
use omnistash.Blobstore.Os.{build_blob_path, build_staging_path, os_create, copy_body, os_link}
use omnistash.Blobstore.Digests.{hasher_for, match_digest}
use omnistash.Blobstore.Writer.{write_blob, write_to_staging, link_staged_file}
use omnistash.Blobstore.Contents.{remove_calm, unlink-unlink, inode-append, inode-create}
use omnistash.World.{World, calm, ◌>>=◌}

-- The staging file after the copy.
abbrev pub written : FilePath → Bytes → Files → Files
written path b fs = append fs.made b (create path fs)

abbrev left_by : FilePath → Bytes → Bool → Files → Files
left_by path b true fs = unlink path (written path b fs)
left_by path b false fs = written path b fs

write_calm :
    (path : FilePath) (b : Bytes) (broken : Bool) (w : World)
    → inode path w.files ≡ none
    → write_to_staging path (record { bytes = b; broken = broken }) (calm w) ≡ (
      ok (length b, if broken then fail (sys SysError.external) else ok tt),
      record (calm w) { files = left_by path b broken w.files },
    )
unfolding write_to_staging os_create copy_body ◌>>=◌
write_calm path b true w free =
    rw (free, remove_calm path (record w { files = written path b w.files }))
write_calm path b false w free = rw free

-- What `writeBlob` returns for a digest with a hasher, and the files that it leaves.
abbrev pub write_outcome : Env → Digest → ℤ → Bytes → Bool → Result ℕ
write_outcome env d size b broken =
    if not (eq_int (length b) size)
    then fail (store StoreError.size_invalid)
    else if broken
    then fail (sys SysError.external)
    else if not (d == env.new_digest (env.algorithm d) b)
    then fail (store StoreError.digest_mismatch)
    else ok (length b)

abbrev pub write_files : {A : Type 0} → FilePath → Bytes → Files → Result A → Files
write_files path b fs (ok n) = written path b fs
write_files path b fs (err e) = unlink path (written path b fs)

module _ (env : Env) (d : Digest) (size : ℤ) (path : FilePath) (b : Bytes) (w : World) where
  pub write_blob-calm :
      (broken : Bool)
      → hasher_for env d ≡ ok (env.algorithm d)
      → inode path w.files ≡ none
      → write_blob env path d size (record { bytes = b; broken = broken }) (calm w) ≡ (
        write_outcome env d size b broken,
        record (calm w) { files = write_files path b w.files (write_outcome env d size b broken) },
      )
  unfolding write_blob match_digest ◌>>=◌
  write_blob-calm true hasher free = elim (Bool-cases (eq_int (length b) size)) [
    | inl e ↦ rw (hasher, write_calm path b true w free, e)
    | inr e ↦ rw (
      hasher,
      write_calm path b true w free,
      e,
      remove_calm path (record w { files = unlink path (written path b w.files) }),
      unlink-unlink,
    )
  ]
  write_blob-calm false hasher free = elim (Bool-cases (eq_int (length b) size)) [
    | inl e ↦ elim (Bool-cases (d == env.new_digest (env.algorithm d) b)) [
      | inl same ↦ rw (hasher, write_calm path b false w free, e, same)
      | inr differ ↦ rw (
        hasher,
        write_calm path b false w free,
        e,
        differ,
        remove_calm path (record w { files = written path b w.files }),
      )
    ]
    | inr e ↦ rw (
      hasher,
      write_calm path b false w free,
      e,
      remove_calm path (record w { files = written path b w.files }),
    )
  ]

-- The staging file of the next `PutBlob`, which must be free. UUIDs are unique, so it is.
abbrev pub IsFree : Env → String → World → Type 0
IsFree env ns w = inode (build_staging_path ns (env.uuid w.drawn)) w.files ≡ none

-- What `linkStagedFile` makes of a blob that is ready, by the blob that is there.
abbrev linked : ℕ → Option ℕ → Result ℕ
linked n none = ok n
linked n (some i) = fail (store StoreError.blob_committed)

abbrev pub link_outcome : Result ℕ → Option ℕ → Result ℕ
link_outcome (err e) there = err e
link_outcome (ok n) there = linked n there

abbrev linked_files : FilePath → FilePath → Bytes → Files → Result ℕ → Files
linked_files path blob b fs (ok n) = unlink path (link fs.made blob (written path b fs))
linked_files path blob b fs (err e) = unlink path (written path b fs)

pub inode-written :
    (path : FilePath) (b : Bytes) (fs : Files) (q : FilePath)
    → inode q (written path b fs) ≡ (if q == path then some fs.made else inode q fs)
inode-written path b fs q = rw (inode-append, inode-create) refl

abbrev pub link_result : Option ℕ → Result (Unit {0})
link_result none = ok tt
link_result (some i) = fail (store StoreError.blob_committed)

abbrev pub link_files : FilePath → FilePath → Bytes → Files → Option ℕ → Files
link_files path blob b fs none = link fs.made blob (written path b fs)
link_files path blob b fs (some i) = written path b fs

-- `linkStagedFile` after the copy.
pub link_calm :
    (env : Env) (ns : String) (d : Digest) (path : FilePath) (b : Bytes) (w : World)
    → (build_blob_path env ns d == path) ≡ false
    → (there : Option ℕ) → inode (build_blob_path env ns d) w.files ≡ there
    → link_staged_file env ns path d (record (calm w) { files = written path b w.files }) ≡ (
      link_result there,
      record (calm w) { files = link_files path (build_blob_path env ns d) b w.files there },
    )
unfolding link_staged_file os_link ◌>>=◌
link_calm env ns d path b w ne none e = rw (
  inode-written path b w.files path,
  ==_refl path,
  inode-written path b w.files (build_blob_path env ns d),
  ne,
  e,
)
link_calm env ns d path b w ne (some i) e = rw (
  inode-written path b w.files path,
  ==_refl path,
  inode-written path b w.files (build_blob_path env ns d),
  ne,
  e,
)

-- A blob's path is no staging path.
pub blob_ne_staging :
    (env : Env)
    → IsLawful env
    → (ns : String) (d : Digest) (id : String) → env.validate d ≡ valid
    → (build_blob_path env ns d == build_staging_path ns id) ≡ false
blob_ne_staging env L ns d id v = ground (arith, L.valid_visible d v)
