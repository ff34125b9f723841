-- ===== src/Blobstore/Contents.antt =====
-- The laws of names and inodes, and the calls of Os.antt while the operating system answers.
use omnistash.Base.{ℕ, ◌<◌, ◌≡◌, refl, Option, none, some, [], ◌∷◌, ◌++◌, arith}
use omnistash.Base.{◌==◌, nat_eq, string_eq, pair_eq, if◌then◌else◌}
use omnistash.Base.Table.{Table, lookup, remove, lookup-put, lookup-remove}
use omnistash.Errors.{ok}
use omnistash.Blobstore.Files.{FilePath, Bytes, Files, read, inode, create, append, link, unlink}
use omnistash.Blobstore.Os.{os_remove, remove_file_if_exists}
use omnistash.World.{World, calm, ◌>>=◌}

-- Every name stands for an inode that was made.
pub record IsSound (fs : Files) : Type 0 where
  pub below : (p : FilePath) (i : ℕ) → inode p fs ≡ some i → i < fs.made

module _ (fs : Files) where
  pub inode-create :
      (p q : FilePath) → inode q (create p fs) ≡ (if q == p then some fs.made else inode q fs)
  unfolding inode create
  inode-create p q = lookup-put q p fs.made fs.names

  pub read-create :
      (p : FilePath) (i : ℕ) → read i (create p fs) ≡ (if i == fs.made then [] else read i fs)
  unfolding read create
  read-create p i = ground (arith, lookup-put i fs.made [] fs.contents)

  pub inode-append : (i : ℕ) (b : Bytes) (q : FilePath) → inode q (append i b fs) ≡ inode q fs
  unfolding inode append
  inode-append i b q = refl

  pub read-append :
      (i : ℕ) (b : Bytes) (j : ℕ)
      → read j (append i b fs) ≡ (if j == i then read i fs ++ b else read j fs)
  unfolding read append
  read-append i b j = ground (arith, lookup-put j i (read i fs ++ b) fs.contents)

  pub inode-link :
      (i : ℕ) (p q : FilePath) → inode q (link i p fs) ≡ (if q == p then some i else inode q fs)
  unfolding inode link
  inode-link i p q = lookup-put q p i fs.names

  pub read-link : (i : ℕ) (p : FilePath) (j : ℕ) → read j (link i p fs) ≡ read j fs
  unfolding read link
  read-link i p j = refl

  pub inode-unlink :
      (p q : FilePath) → inode q (unlink p fs) ≡ (if q == p then none else inode q fs)
  unfolding inode unlink
  inode-unlink p q = lookup-remove q p fs.names

  pub read-unlink : (p : FilePath) (j : ℕ) → read j (unlink p fs) ≡ read j fs
  unfolding read unlink
  read-unlink p j = refl

pub ruleset file_laws = (
  inode-create, read-create, inode-append, read-append, inode-link, read-link, inode-unlink,
  read-unlink,
)

module _ {V : Type 0} where
  remove_absent : (p : FilePath) (t : Table FilePath V) → lookup p t ≡ none → remove p t ≡ t
  unfolding remove lookup
  remove_absent p [] h = refl
  remove_absent p ((q, v) ∷ t) h = ground (arith, remove_absent p t)

pub unlink_absent : (p : FilePath) (fs : Files) → inode p fs ≡ none → unlink p fs ≡ fs
unfolding unlink inode
unlink_absent p fs h = rw (remove_absent p fs.names h)

pub unlink-unlink : (p : FilePath) (fs : Files) → unlink p (unlink p fs) ≡ unlink p fs
unlink-unlink p fs = unlink_absent p (unlink p fs) (ground (arith, inode-unlink fs p p))

-- Removing a file that may not be there, while the system answers.
pub remove_calm :
    (p : FilePath) (w : World)
    → remove_file_if_exists p (calm w) ≡ (ok tt, record (calm w) { files = unlink p w.files })
unfolding remove_file_if_exists os_remove ◌>>=◌
remove_calm p w = go (inode p w.files) refl
  where
    go :
        (o : Option ℕ)
        → inode p w.files ≡ o
        → remove_file_if_exists p (calm w) ≡ (ok tt, record (calm w) { files = unlink p w.files })
    go none e = rw (e, unlink_absent p w.files e)
    go (some i) e = rw e
