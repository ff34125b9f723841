-- ===== src/Blobstore/Reader.antt =====
-- internal/blobstore/fs/reader.go. A reader stands for the bytes that it gives; bytes that were
-- written before an error are not part of the result.
use omnistash.Base.{ℕ, ◌+◌, ◌-◌, String, ◌||◌, ◌++◌, if◌then◌else◌}
use omnistash.Base.{take, drop}
use omnistash.Base.Int.{ℤ, pos, negsuc, is_neg, lt_int}
use omnistash.Errors.{Result, ok, err, fail, store, StoreError}
use omnistash.Metastore.Tables.{Digest}
use omnistash.Env.{Env}
use omnistash.Blobstore.Files.{Bytes, read}
use omnistash.Blobstore.Os.{build_blob_path, os_open, file_stat}
use omnistash.Blobstore.Digests.{validate_digest}
use omnistash.Blobstore.Writer.{map_missing}
use omnistash.World.{Proc, lift, gets, attempt, trip, ◌>>=◌, ◌>>◌}

-- The error of a close that follows another error is joined to it.
abbrev pub close_after : {A : Type 0} → Result A → Result (Unit {0}) → Result A
close_after (ok a) (ok done) = ok a
close_after (ok a) (err c) = err c
close_after (err e) (ok done) = err e
close_after (err e) (err c) = err (e ++ c)

abbrev pub sized_reader : ℕ → Result ℕ → Proc (Bytes × ℕ)
sized_reader i (ok size) = gets (λ w. (read i w.files, size))
sized_reader i (err e) = do c ← attempt trip; lift (close_after (err e) c)

-- `GetBlob`: a reader and the stored size
unfoldable pub get_blob : Env → String → Digest → Proc (Bytes × ℕ)
get_blob env ns d = do
  lift (validate_digest env d)
  opened ← attempt (os_open (build_blob_path env ns d))
  i ← lift (map_missing (store StoreError.blob_unknown) opened)
  stat ← attempt (file_stat i)
  sized_reader i stat

-- The inclusive range [first, last] of the bytes.
abbrev pub slice : ℤ → ℤ → Bytes → Bytes
slice (pos first) (pos last) b = take (last - first + 1) (drop first b)
slice (pos first) (negsuc last) b = b
slice (negsuc first) last b = b

abbrev pub check_range : ℤ → ℤ → Result (Unit {0})
check_range first last =
    if is_neg first || lt_int last first then fail (store StoreError.invalid_range) else ok tt

abbrev pub read_range : ℕ → ℤ → ℤ → Proc Bytes
read_range i first last = do
  size ← file_stat i
  lift (if lt_int last (pos size) then ok tt else fail (store StoreError.range_not_satisfiable))
  trip
  trip
  gets (λ w. slice first last (read i w.files))

-- `GetBlobRange`: what it writes. The calls after `Stat` are the seek and the copy.
unfoldable pub get_blob_range : Env → String → Digest → ℤ → ℤ → Proc Bytes
get_blob_range env ns d first last = do
  lift (validate_digest env d)
  lift (check_range first last)
  opened ← attempt (os_open (build_blob_path env ns d))
  i ← lift (map_missing (store StoreError.blob_unknown) opened)
  r ← attempt (read_range i first last)
  c ← attempt trip
  lift (close_after r c)
