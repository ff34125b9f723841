-- ===== src/Blobstore/Files.antt =====
-- Paths and files. A file is an inode that may have several names, as after `os.Link`: writing
-- through one name changes what is read through the others.
use omnistash.Base.{ℕ, ◌+◌, String, Option, none, some, List, [], ◌++◌, nat_eq, string_eq}
use omnistash.Base.{pair_eq}
use omnistash.Base.Table.{Table, lookup, put, remove}

-- The path prefix/dir/sub/file. `prefix` is the same in all, and `dir` is a namespace. Directories
-- are not modelled: `os.MkdirAll` stands in front of every creation.
abbrev pub FilePath : Type 0
FilePath = String × (String × String)

abbrev pub Bytes : Type 0
Bytes = List ℕ

pub record Files : Type 0 where
  pub names : Table FilePath ℕ
  pub contents : Table ℕ Bytes
  -- the number of the next inode
  pub made : ℕ

abbrev pub no_files : Files
no_files = record { names = []; contents = []; made = 0 }

-- What is written in an inode.
abbrev pub bytes_or_empty : Option Bytes → Bytes
bytes_or_empty none = []
bytes_or_empty (some b) = b

unfoldable pub read : ℕ → Files → Bytes
read i fs = bytes_or_empty (lookup i fs.contents)

unfoldable pub inode : FilePath → Files → Option ℕ
inode p fs = lookup p fs.names

unfoldable pub create : FilePath → Files → Files
create p fs = record {
  names = put p fs.made fs.names;
  contents = put fs.made [] fs.contents;
  made = fs.made + 1;
}

unfoldable pub append : ℕ → Bytes → Files → Files
unfolding read
append i b fs = record fs { contents = put i (read i fs ++ b) fs.contents }

unfoldable pub link : ℕ → FilePath → Files → Files
link i p fs = record fs { names = put p i fs.names }

unfoldable pub unlink : FilePath → Files → Files
unlink p fs = record fs { names = remove p fs.names }

-- What a path reads as.
abbrev pub read_at : Files → Option ℕ → Option Bytes
read_at fs none = none
read_at fs (some i) = some (read i fs)

unfoldable pub content : FilePath → Files → Option Bytes
content p fs = read_at fs (inode p fs)
