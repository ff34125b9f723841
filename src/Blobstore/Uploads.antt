-- ===== src/Blobstore/Uploads.antt =====
-- Uploads while the operating system answers: what a chunk adds, and what a commit checks.
use omnistash.Base.{
  ℕ, ◌+◌, ◌≡◌, refl, Bool, true, false, not, ◌&&◌, Option, none, some, String, arith,
}
use omnistash.Base.{◌==◌, string_eq, pair_eq, nat_eq, if◌then◌else◌, length}
use omnistash.Base.{◌++◌}
use omnistash.Base.Int.{ℤ, pos, negsuc, eq_int}
use omnistash.Errors.{Result, ok, fail, store, sys, StoreError, SysError}
use omnistash.Blobstore.Files.{FilePath, Bytes, Files, inode, append}
use omnistash.Blobstore.Files.{content, read_at}
use omnistash.Blobstore.Os.{Body, build_staging_path, os_open, file_stat}
use omnistash.Blobstore.Os.{copy_body}
use omnistash.Blobstore.Upload.{append_blob_chunk}
use omnistash.Blobstore.Contents.{read-append, inode-append}
use omnistash.World.{World, calm, ◌>>=◌}

-- What `AppendBlobChunk` returns for an upload that has the inode `there`.
abbrev pub append_outcome : ℤ → Bytes → Bool → Option Bytes → Result ℕ
append_outcome (negsuc n) b broken there = fail (store StoreError.blob_upload_invalid)
append_outcome (pos n) b broken none = fail (store StoreError.blob_upload_unknown)
append_outcome (pos n) b broken (some old) =
    if not (eq_int (length old) (pos n))
    then fail (store StoreError.range_not_satisfiable)
    else if broken
    then fail (sys SysError.external)
    else ok (length old + length b)

-- Whether the chunk is added: the upload is there and ends at the offset. A body that breaks off
-- leaves what it gave.
abbrev pub adds : ℤ → Option Bytes → Bool
adds offset none = false
adds offset (some old) = eq_int (length old) offset

-- Two names of one file.
abbrev pub shares : Option ℕ → Option ℕ → Bool
shares (some i) (some j) = i == j
shares none j = false
shares (some i) none = false

abbrev longer : Option Bytes → Bytes → Option Bytes
longer none b = none
longer (some old) b = some (old ++ b)

abbrev appended : Option ℕ → Bytes → Files → Files
appended none b fs = fs
appended (some i) b fs = append i b fs

content-appended :
    (o q : Option ℕ) (added : Bool) (b : Bytes) (fs : Files) (p : FilePath)
    → inode p fs ≡ q
    → content p (if added then appended o b fs else fs)
      ≡ (if added && shares q o then longer (read_at fs o) b else read_at fs q)
unfolding content
content-appended o q false b fs p e = rw e
content-appended none none true b fs p e = rw e
content-appended none (some j) true b fs p e = rw e
content-appended (some i) none true b fs p e = rw (inode-append, e)
content-appended (some i) (some j) true b fs p e =
    rw (inode-append, e) (ground (arith, read-append fs i b j))

module _ (ns id : String) (b : Bytes) (broken : Bool) (w : World) (offset : ℤ) where
  abbrev path : FilePath
  path = build_staging_path ns id

  abbrev chunk : Body
  chunk = record { bytes = b; broken = broken }

  -- While the operating system answers, `AppendBlobChunk` returns what `append_outcome` says.
  pub append_blob_chunk-append_outcome :
      (append_blob_chunk ns id offset chunk (calm w)).0
      ≡ append_outcome offset b broken (content path w.files)
  unfolding append_blob_chunk os_open file_stat copy_body content ◌>>=◌
  append_blob_chunk-append_outcome = go offset (inode path w.files) refl
    where
      go :
          (z : ℤ) (o : Option ℕ)
          → inode path w.files ≡ o
          → (append_blob_chunk ns id z chunk (calm w)).0
            ≡ append_outcome z b broken (read_at w.files (inode path w.files))
      go (negsuc n) o e = refl
      go (pos n) none e = rw e
      go (pos n) (some i) e = rw e (ground arith)

  append_files :
      (z : ℤ) (o : Option ℕ)
      → inode path w.files ≡ o
      → (append_blob_chunk ns id z chunk (calm w)).1.files
        ≡ (if adds z (read_at w.files o) then appended o b w.files else w.files)
  unfolding append_blob_chunk os_open file_stat copy_body ◌>>=◌
  append_files (negsuc n) none e = refl
  append_files (negsuc n) (some i) e = refl
  append_files (pos n) none e = rw e
  append_files (pos n) (some i) e = rw e (ground arith)

  -- Afterwards the names of the upload's file read as what was there and the chunk, if the upload is
  -- there and ends at the offset; every other path reads as before.
  pub content-append_blob_chunk :
      (p : FilePath)
      → content p (append_blob_chunk ns id offset chunk (calm w)).1.files ≡ (
          if adds offset (content path w.files) && shares (inode p w.files) (inode path w.files)
          then longer (content path w.files) b
          else content p w.files)
  unfolding content
  content-append_blob_chunk p = rw (append_files offset _ refl) (
      (content-appended (inode path w.files) _ (adds offset (read_at w.files (inode path w.files)))
        b w.files p refl))
