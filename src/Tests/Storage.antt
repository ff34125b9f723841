-- ===== src/Tests/Storage.antt =====
-- The blob store at concrete inputs.
use omnistash.Base.{ℕ, ◌≡◌, refl, false, none, some, [], ◌∷◌, string_eq, pair_eq, nat_eq}
use omnistash.Base.Table.{lookup}
use omnistash.Base.{◌≢◌, ltb}
use omnistash.Blobstore.Chunks.{append_chunks, append_chunks_lem}
use omnistash.Blobstore.Vacuum.{
  new_vacuum, member, start_vacuum_process, stop_vacuum_process, Reachable, fresh, started, stopped,
}
use omnistash.Blobstore.Running.{IsOrderly, reachable-IsOrderly, stop_vacuum_process_lem}
use omnistash.Base.Int.{pos}
use omnistash.Errors.{ok}
use omnistash.Blobstore.Files.{inode, read, content}
use omnistash.Blobstore.Os.{build_blob_path}
use omnistash.Blobstore.Writer.{put_blob}
use omnistash.Blobstore.Upload.{append_blob_chunk, finalize_blob_upload}
use omnistash.Blobstore.Deleter.{delete_blob}
use omnistash.Blobstore.Reader.{get_blob_range}
use omnistash.Blobstore.Storing.{put_outcome, put_blob-put_outcome, content-put_blob}
use omnistash.Blobstore.Uploads.{append_blob_chunk-append_outcome, content-append_blob_chunk}
use omnistash.Blobstore.Commits.{finalize_blob_upload-finalize_outcome, content-finalize_ok}
use omnistash.Blobstore.Deletes.{delete_blob-delete_outcome, content-delete_blob}
use omnistash.Blobstore.Ranges.{get_blob_range_lem}
use omnistash.World.{calm}
use omnistash.Tests.Fixture.{
  files-IsSound, free, world, two_files, env, env-IsLawful, one_digest, two_digest,
}

put_blob-put_outcome_example :
    (put_blob env "app" one_digest
      (pos 2)
      (record { bytes = 7 ∷ 8 ∷ []; broken = false })
      (calm world)).0
    ≡ put_outcome env one_digest
        (pos 2)
        (7 ∷ 8 ∷ [])
        false
        (inode (build_blob_path env "app" one_digest) two_files)
put_blob-put_outcome_example =
    put_blob-put_outcome env env-IsLawful "app" one_digest (pos 2) (7 ∷ 8 ∷ []) false world free

content-put_blob_example :
    content
      ("app", ("sha256", "0a"))
      (put_blob env "app" one_digest
        (pos 2)
        (record { bytes = 7 ∷ 8 ∷ []; broken = false })
        (calm world)).1.files
    ≡ some (7 ∷ 8 ∷ [])
unfolding inode lookup string_eq pair_eq nat_eq
content-put_blob_example =
    content-put_blob env env-IsLawful "app" one_digest (pos 2) (7 ∷ 8 ∷ []) false world free
      files-IsSound ("app", ("sha256", "0a"))

append_blob_chunk-append_outcome_example :
    (append_blob_chunk "app" "s1"
      (pos 3)
      (record { bytes = 4 ∷ []; broken = false })
      (calm world)).0
    ≡ ok 4
unfolding content read inode lookup string_eq pair_eq nat_eq
append_blob_chunk-append_outcome_example =
    append_blob_chunk-append_outcome "app" "s1" (4 ∷ []) false world (pos 3)

content-append_blob_chunk_example :
    content
      ("app", (".staging", "s1"))
      (append_blob_chunk "app" "s1"
        (pos 3)
        (record { bytes = 4 ∷ []; broken = false })
        (calm world)).1.files
    ≡ some (1 ∷ 2 ∷ 3 ∷ 4 ∷ [])
unfolding content read inode lookup string_eq pair_eq nat_eq
content-append_blob_chunk_example =
    content-append_blob_chunk "app" "s1" (4 ∷ []) false world (pos 3) ("app", (".staging", "s1"))

finalize_blob_upload-finalize_outcome_example :
    (finalize_blob_upload env "app" "s1" one_digest (pos 3) (calm world)).0 ≡ ok tt
unfolding content read inode lookup string_eq pair_eq nat_eq
finalize_blob_upload-finalize_outcome_example =
    finalize_blob_upload-finalize_outcome env env-IsLawful "app" "s1" one_digest (pos 3) world

content-finalize_ok_example :
    content
      ("app", ("sha256", "0a"))
      (finalize_blob_upload env "app" "s1" one_digest (pos 3) (calm world)).1.files
    ≡ some (1 ∷ 2 ∷ 3 ∷ [])
unfolding content read inode lookup string_eq pair_eq nat_eq
content-finalize_ok_example =
    content-finalize_ok env env-IsLawful "app" "s1" one_digest (pos 3) world refl
      ("app", ("sha256", "0a"))

delete_blob-delete_outcome_example : (delete_blob env "app" two_digest (calm world)).0 ≡ ok tt
unfolding inode lookup string_eq pair_eq nat_eq
delete_blob-delete_outcome_example = delete_blob-delete_outcome env "app" two_digest world

content-delete_blob_example :
    content ("app", ("sha256", "0b")) (delete_blob env "app" two_digest (calm world)).1.files ≡ none
unfolding string_eq pair_eq
content-delete_blob_example =
    content-delete_blob env "app" two_digest world 0 refl refl ("app", ("sha256", "0b"))

get_blob_range_lem_example :
    get_blob_range env "app" two_digest (pos 0) (pos 0) (calm world) ≡ (ok (5 ∷ []), calm world)
unfolding content read inode lookup string_eq pair_eq nat_eq
get_blob_range_lem_example = get_blob_range_lem env "app" two_digest world 0 0

append_chunks_lem_example :
    ((append_chunks "app" "s1" 3 ((4 ∷ 5 ∷ []) ∷ (6 ∷ []) ∷ []) (calm world)).0 ≡ ok 6)
    × (content
          ("app", (".staging", "s1"))
          (append_chunks "app" "s1" 3 ((4 ∷ 5 ∷ []) ∷ (6 ∷ []) ∷ []) (calm world)).1.files
        ≡ some (1 ∷ 2 ∷ 3 ∷ 4 ∷ 5 ∷ 6 ∷ []))
unfolding read inode lookup string_eq pair_eq nat_eq
append_chunks_lem_example = append_chunks_lem "app" "s1" 0 ((4 ∷ 5 ∷ []) ∷ (6 ∷ []) ∷ []) world refl

started_stopped : Reachable (stop_vacuum_process (start_vacuum_process new_vacuum))
started_stopped =
    stopped (start_vacuum_process new_vacuum) (started new_vacuum (fresh refl) refl) refl

reachable-IsOrderly_example : IsOrderly (stop_vacuum_process (start_vacuum_process new_vacuum))
reachable-IsOrderly_example =
    reachable-IsOrderly (stop_vacuum_process (start_vacuum_process new_vacuum)) started_stopped

stop_vacuum_process_lem_example :
    ((start_vacuum_process (start_vacuum_process new_vacuum)).jobs ≢ none)
    × ((stop_vacuum_process (start_vacuum_process new_vacuum)).jobs ≡ none)
    × ((c : ℕ)
        → member c (stop_vacuum_process (start_vacuum_process new_vacuum)).closed
          ≡ ltb c (start_vacuum_process new_vacuum).made)
stop_vacuum_process_lem_example =
    stop_vacuum_process_lem (start_vacuum_process new_vacuum) (started new_vacuum (fresh refl) refl)
