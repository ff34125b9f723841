-- ===== src/Blobstore/Chunks.antt =====
-- An upload in chunks, while the operating system answers.
use omnistash.Base.{ℕ, ◌+◌, ◌≡◌, refl, ap, ◌∙◌, false, some, String, arith, List, [], ◌∷◌, ◌++◌}
use omnistash.Base.{==_refl, nat_eq, length, length-append}
use mathlib.Core.Path.{subst}
use mathlib.Core.List.{append_assoc, append-nil}
use omnistash.Base.Int.{pos}
use omnistash.Errors.{ok}
use omnistash.Blobstore.Files.{Bytes, Files, inode, read, append, content}
use omnistash.Blobstore.Os.{build_staging_path, os_open, file_stat, copy_body}
use omnistash.Blobstore.Upload.{append_blob_chunk}
use omnistash.Blobstore.Contents.{inode-append, read-append}
use omnistash.World.{World, Proc, pure, calm, ◌>>=◌}

-- A client that sends every chunk at the offset that the call before returned.
pub append_chunks : String → String → ℕ → List Bytes → Proc ℕ
append_chunks ns id offset [] = pure offset
append_chunks ns id offset (b ∷ bs) = do
  n ← append_blob_chunk ns id (pos offset) (record { bytes = b; broken = false })
  append_chunks ns id n bs

abbrev pub together : List Bytes → Bytes
together [] = []
together (b ∷ bs) = b ++ together bs

module _ (ns id : String) (i : ℕ) where
  pub append_lem :
      (w : World) (b : Bytes)
      → inode (build_staging_path ns id) w.files ≡ some i
      → append_blob_chunk ns id
          (pos (length (read i w.files)))
          (record { bytes = b; broken = false })
          (calm w)
        ≡ (ok (length (read i w.files) + length b), record (calm w) { files = append i b w.files })
  unfolding append_blob_chunk os_open file_stat copy_body ◌>>=◌
  append_lem w b e = rw e (ground arith)

  pub read_grown : (b : Bytes) (fs : Files) → read i (append i b fs) ≡ read i fs ++ b
  read_grown b fs = rw (read-append, ==_refl)

  -- The upload ends with the bytes, and the offset is their number.
  abbrev EndsWith : List Bytes → World → ℕ → Bytes → Type 0
  EndsWith bs w n t =
      ((append_chunks ns id n bs (calm w)).0 ≡ ok (length t))
      × (content (build_staging_path ns id) (append_chunks ns id n bs (calm w)).1.files ≡ some t)

  abbrev after : Bytes → World → World
  after b w = record w { files = append i b w.files }

  -- The chunks of an upload that is there add up: the last offset is the length, and the file holds
  -- what it held and the chunks, in their order.
  pub append_chunks_lem :
      (bs : List Bytes) (w : World)
      → inode (build_staging_path ns id) w.files ≡ some i
      → ((append_chunks ns id (length (read i w.files)) bs (calm w)).0
          ≡ ok (length (read i w.files ++ together bs)))
        × (content
              (build_staging_path ns id)
              (append_chunks ns id (length (read i w.files)) bs (calm w)).1.files
            ≡ some (read i w.files ++ together bs))
  unfolding append_chunks content ◌>>=◌
  append_chunks_lem [] w e = rw (append-nil, e) (refl, refl)
  append_chunks_lem (b ∷ bs) w e = rw (append_lem w b e) (
      subst (λ n. EndsWith bs (after b w) n (read i w.files ++ (b ++ together bs)))
        (ap length (read_grown b w.files) ∙ length-append (read i w.files) b)
        (subst (λ t. EndsWith bs (after b w) (length (read i (append i b w.files))) t)
          (ap (λ t. t ++ together bs) (read_grown b w.files)
            ∙ append_assoc (read i w.files) b (together bs))
          (append_chunks_lem bs (after b w) (inode-append w.files i b _ ∙ e))))
