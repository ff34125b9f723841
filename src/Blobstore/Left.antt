-- ===== src/Blobstore/Left.antt =====
-- The files that `PutBlob` leaves, and what they read as.
use omnistash.Base.{ℕ, ◌≡◌, refl, Bool, true, false, ◌&&◌, Option, none, some, arith}
use omnistash.Base.{◌==◌, string_eq, pair_eq, nat_eq, if◌then◌else◌}
use omnistash.Errors.{Result, ok, err}
use omnistash.Blobstore.Files.{FilePath, Bytes, Files, read, inode, link, unlink}
use omnistash.Blobstore.Files.{content, read_at}
use omnistash.Blobstore.Contents.{IsSound, inode-unlink, inode-link}
use omnistash.Blobstore.Contents.{read-unlink, read-link, read-append, read-create}
use omnistash.Blobstore.Put.{written}
use omnistash.Blobstore.Put.{inode-written}

abbrev pub left_files : FilePath → FilePath → Bytes → Files → Result ℕ → Files
left_files path blob b fs (ok n) = unlink path (link fs.made blob (written path b fs))
left_files path blob b fs (err e) = unlink path (written path b fs)

inode-left :
    (path blob : FilePath) (b : Bytes) (fs : Files) (p : FilePath)
    → inode p (unlink path (link fs.made blob (written path b fs)))
      ≡ (if p == path then none else if p == blob then some fs.made else inode p fs)
inode-left path blob b fs p = rw (inode-unlink, inode-link, inode-written) (ground arith)

read-left :
    (path blob : FilePath) (b : Bytes) (fs : Files) (i : ℕ)
    → read i (unlink path (link fs.made blob (written path b fs)))
      ≡ (if i == fs.made then b else read i fs)
read-left path blob b fs i =
    rw (read-unlink, read-link, read-append, read-create) (ground (arith, read-create fs path i))

read-staged :
    (path : FilePath) (b : Bytes) (fs : Files) (i : ℕ)
    → read i (unlink path (written path b fs)) ≡ (if i == fs.made then b else read i fs)
read-staged path b fs i =
    rw (read-unlink, read-append, read-create) (ground (arith, read-create fs path i))

inode-staged :
    (path : FilePath) (b : Bytes) (fs : Files) (p : FilePath)
    → inode p (unlink path (written path b fs)) ≡ (if p == path then none else inode p fs)
inode-staged path b fs p = rw (inode-unlink, inode-written) (ground arith)

-- The files after a success, and after an error that left nothing behind.
content-left :
    (path blob : FilePath) (b : Bytes) (fs : Files) (p : FilePath)
    → IsSound fs
    → inode path fs ≡ none
    → (blob == path) ≡ false
    → content p (unlink path (link fs.made blob (written path b fs)))
      ≡ (if p == blob then some b else content p fs)
unfolding content
content-left path blob b fs p sound free ne = go (inode p fs) refl
  where
    go :
        (o : Option ℕ)
        → inode p fs ≡ o
        → read_at
            (unlink path (link fs.made blob (written path b fs)))
            (inode p (unlink path (link fs.made blob (written path b fs))))
          ≡ (if p == blob then some b else read_at fs (inode p fs))
    go none e = ground (arith, inode-left path blob b fs p, read-left path blob b fs fs.made)
    go (some i) e = ground (
      arith,
      inode-left path blob b fs p,
      read-left path blob b fs fs.made,
      read-left path blob b fs i,
      sound.below p i e,
    )

content-staged :
    (path : FilePath) (b : Bytes) (fs : Files) (p : FilePath)
    → IsSound fs
    → inode path fs ≡ none
    → content p (unlink path (written path b fs)) ≡ content p fs
unfolding content
content-staged path b fs p sound free = go (inode p fs) refl
  where
    go :
        (o : Option ℕ)
        → inode p fs ≡ o
        → read_at (unlink path (written path b fs)) (inode p (unlink path (written path b fs)))
          ≡ read_at fs (inode p fs)
    go none e = ground (arith, inode-staged path b fs p)
    go (some i) e =
        ground (arith, inode-staged path b fs p, read-staged path b fs i, sound.below p i e)

abbrev pub is_ok : {A : Type 0} → Result A → Bool
is_ok (ok a) = true
is_ok (err e) = false

pub content-left_files :
    (path blob : FilePath) (b : Bytes) (fs : Files) (p : FilePath) (r : Result ℕ)
    → IsSound fs
    → inode path fs ≡ none
    → (blob == path) ≡ false
    → content p (left_files path blob b fs r)
      ≡ (if is_ok r && (p == blob) then some b else content p fs)
content-left_files path blob b fs p (ok n) sound free ne =
    content-left path blob b fs p sound free ne
content-left_files path _ b fs p (err e) sound free _ = content-staged path b fs p sound free
