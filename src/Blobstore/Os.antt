-- ===== src/Blobstore/Os.antt =====
-- The calls of the packages `os` and `io` that the blob store makes, and the helpers of
-- internal/blobstore/fs/utils.go.
use omnistash.Base.{ℕ, String, Bool, Option, none, some, [], ◌∷◌}
use omnistash.Base.{length, take, if◌then◌else◌}
use omnistash.Errors.{Error, Sentinel, Result, ok, err, fail, is, sys, SysError}
use omnistash.Metastore.Tables.{Digest}
use omnistash.Env.{Env}
use omnistash.Blobstore.Files.{FilePath, Bytes, Files, read, inode, create, append, link, unlink}
use omnistash.World.{World, Proc, pure, raise, lift, gets, attempt, draw, trip}
use omnistash.World.{◌>>=◌, ◌>>◌}

-- `buildBlobPath`
abbrev pub build_blob_path : Env → String → Digest → FilePath
build_blob_path env ns d = (ns, (env.algorithm d, env.hex d))

-- `buildStagingPath`
abbrev pub build_staging_path : String → String → FilePath
build_staging_path ns id = (ns, (".staging", id))

-- `mapNotExistErr`
abbrev pub map_not_exist_err : Error → Sentinel → Error
map_not_exist_err e s = if is e (sys SysError.not_exist) then s ∷ [] else e

abbrev pub set_files : (Files → Files) → Proc (Unit {0})
set_files f w = (ok tt, record w { files = f w.files })

abbrev pub found : Option ℕ → Result ℕ
found none = fail (sys SysError.not_exist)
found (some i) = ok i

-- `os.Open`, and `os.OpenFile` with neither O_CREATE nor O_EXCL: a handle is the inode.
unfoldable pub os_open : FilePath → Proc ℕ
os_open p = do trip; o ← gets (λ w. inode p w.files); lift (found o)

-- `os.Stat`, and `File.Stat` through a handle
unfoldable pub os_stat : FilePath → Proc ℕ
os_stat p = do
  trip
  o ← gets (λ w. inode p w.files)
  i ← lift (found o)
  gets (λ w. length (read i w.files))

unfoldable pub file_stat : ℕ → Proc ℕ
file_stat i = do trip; gets (λ w. length (read i w.files))

abbrev pub create_if_free : FilePath → Option ℕ → Proc ℕ
create_if_free p (some i) w = (fail (sys SysError.exist), w)
create_if_free p none w = (ok w.files.made, record w { files = create p w.files })

-- `os.OpenFile` with O_CREATE and O_EXCL
unfoldable pub os_create : FilePath → Proc ℕ
os_create p = do trip; (λ w. create_if_free p (inode p w.files) w)

abbrev pub link_if_free : ℕ → FilePath → Option ℕ → Proc (Unit {0})
link_if_free i p (some j) w = (fail (sys SysError.exist), w)
link_if_free i p none w = (ok tt, record w { files = link i p w.files })

-- `os.Link`
unfoldable pub os_link : FilePath → FilePath → Proc (Unit {0})
os_link old new = do
  trip
  o ← gets (λ w. inode old w.files)
  i ← lift (found o)
  (λ w. link_if_free i new (inode new w.files) w)

abbrev pub unlink_if_there : FilePath → Option ℕ → Proc (Unit {0})
unlink_if_there p none w = (fail (sys SysError.not_exist), w)
unlink_if_there p (some i) w = (ok tt, record w { files = unlink p w.files })

-- `os.Remove`
unfoldable pub os_remove : FilePath → Proc (Unit {0})
os_remove p = do trip; (λ w. unlink_if_there p (inode p w.files) w)

abbrev pub unless_missing : Result (Unit {0}) → Proc (Unit {0})
unless_missing (ok done) = pure tt
unless_missing (err e) = if is e (sys SysError.not_exist) then pure tt else raise e

-- `removeFileIfExists`
unfoldable pub remove_file_if_exists : FilePath → Proc (Unit {0})
remove_file_if_exists p = do r ← attempt (os_remove p); unless_missing r

-- A request body: the bytes that arrive, and whether reading ends by an error.
pub record Body : Type 0 where
  pub bytes : Bytes
  pub broken : Bool

abbrev pub write_bytes : ℕ → Body → Option ℕ → World → (ℕ × Result (Unit {0})) × World
write_bytes i body none w = (
  (length body.bytes, if body.broken then fail (sys SysError.external) else ok tt),
  record w { files = append i body.bytes w.files },
)
write_bytes i body (some n) w = (
  (length (take n body.bytes), fail (sys SysError.external)),
  record w { files = append i (take n body.bytes) w.files },
)

-- `io.Copy(f, r)`: the number of bytes written, and the error
unfoldable pub copy_body : ℕ → Body → Proc (ℕ × Result (Unit {0}))
copy_body i body = do f ← draw; (λ w. let (r, w') = write_bytes i body f w in (ok r, w'))
