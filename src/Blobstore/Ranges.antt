-- ===== src/Blobstore/Ranges.antt =====
-- Reading a committed blob while the operating system answers.
use omnistash.Base.{ℕ, ◌+◌, ◌-◌, ◌≤◌, ◌<◌, ◌≡◌, refl, Option, none, some, String, arith}
use omnistash.Base.{ltb, zero, suc, if◌then◌else◌, length, take, drop, [], ◌∷◌}
use omnistash.Base.Int.{pos}
use omnistash.Errors.{Result, ok, fail, store, StoreError}
use omnistash.Metastore.Tables.{Digest}
use omnistash.Env.{Env, valid}
use omnistash.Blobstore.Files.{Bytes, content}
use omnistash.Blobstore.Os.{build_blob_path, os_open, file_stat}
use omnistash.Blobstore.Digests.{validate_digest}
use omnistash.Blobstore.Reader.{get_blob_range}
use omnistash.Blobstore.Storing.{if_valid}
use omnistash.World.{World, calm, ◌>>=◌}

-- What `GetBlobRange` writes, by what the blob's path reads as.
abbrev pub range_outcome : ℕ → ℕ → Option Bytes → Result Bytes
range_outcome first last there =
    if ltb last first then fail (store StoreError.invalid_range) else elim there [
      | none ↦ fail (store StoreError.blob_unknown)
      | some b ↦
          if ltb last (length b)
          then ok (take (last - first + 1) (drop first b))
          else fail (store StoreError.range_not_satisfiable)
    ]

length-take-drop :
    (first n : ℕ) (b : Bytes) → first + n ≤ length b → length (take n (drop first b)) ≡ n
length-take-drop zero zero b h = refl
length-take-drop zero (suc n) [] h = absurd (omega arith)
length-take-drop zero (suc n) (x ∷ b) h = omega (arith, length-take-drop zero n b)
length-take-drop (suc f) n [] h = ground arith
length-take-drop (suc f) n (x ∷ b) h = length-take-drop f n b (omega arith)

module _ (env : Env) (ns : String) (d : Digest) (w : World) where
  -- While the operating system answers, `GetBlobRange` writes what `range_outcome` says, and the
  -- world does not change.
  pub get_blob_range_lem :
      (first last : ℕ)
      → get_blob_range env ns d (pos first) (pos last) (calm w) ≡ (
        if_valid
            (env.validate d)
            (range_outcome first last (content (build_blob_path env ns d) w.files)),
        calm w,
      )
  unfolding get_blob_range validate_digest os_open file_stat content ◌>>=◌
  get_blob_range_lem first last = ground arith

  -- While the operating system answers, a range that begins no later than it ends and ends within a
  -- committed blob gives as many bytes as it names.
  pub length-get_blob_range :
      (b : Bytes) (first last : ℕ)
      → env.validate d ≡ valid
      → content (build_blob_path env ns d) w.files ≡ some b
      → first ≤ last
      → last < length b
      → ((get_blob_range env ns d (pos first) (pos last) (calm w)).0
          ≡ ok (take (last - first + 1) (drop first b)))
        × (length (take (last - first + 1) (drop first b)) ≡ last - first + 1)
  length-get_blob_range b first last v there order within = (
    rw (get_blob_range_lem first last, v, there) (ground arith),
    length-take-drop first (last - first + 1) b (omega arith),
  )
