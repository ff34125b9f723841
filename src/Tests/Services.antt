-- ===== src/Tests/Services.antt =====
-- The services at concrete inputs.
use omnistash.Base.{some, ◌≡◌, refl, false, [], ◌∷◌, string_eq, pair_eq, nat_eq}
use omnistash.Base.Table.{lookup}
use omnistash.Base.Int.{pos}
use omnistash.Errors.{ok, fail, store, StoreError}
use omnistash.Regexp.{matches, derive, nullable}
use omnistash.Name.{validate_name}
use omnistash.Blobstore.Files.{inode, read, content, unlink}
use omnistash.Blob.Service
use omnistash.Blob.Service.{monolithic_upload, mount_blob}
use omnistash.Blob.Registered.{get_blob-monolithic_upload}
use omnistash.Blob.Mounted.{get_blob-mount_blob}
use omnistash.Blobstore.Put.{IsFree}
use omnistash.Blob.Session.{commit_upload}
use omnistash.Blob.Finals.{
  final_body, after_final, get_blob-commit_upload_final, commit_upload_final_conflict,
}
use omnistash.Rest.Status.{err_to_status_code}
use omnistash.World.{World, calm}
use omnistash.Tests.Fixture.{
  unregistered, world, two_files, env, env-IsLawful, one_digest, two_digest, one_db, app_exists,
}
use omnistash.Tests.Fixture.{files-IsSound, free}

app_accepted : validate_name "app" ≡ ok tt
unfolding validate_name matches derive nullable string_eq
app_accepted = refl

get_blob-monolithic_upload_example :
    ((monolithic_upload env "app" one_digest
        (pos 3)
        (record { bytes = 7 ∷ 8 ∷ 9 ∷ []; broken = false })
        (calm world)).0
      ≡ ok tt)
    × ((Service.get_blob env "app" one_digest
          (monolithic_upload env "app" one_digest
            (pos 3)
            (record { bytes = 7 ∷ 8 ∷ 9 ∷ []; broken = false })
            (calm world)).1).0
        ≡ ok (7 ∷ 8 ∷ 9 ∷ [], 3))
unfolding inode lookup string_eq pair_eq
get_blob-monolithic_upload_example =
    get_blob-monolithic_upload env env-IsLawful "app" one_digest (7 ∷ 8 ∷ 9 ∷ []) world free
      app_accepted refl app_exists refl refl files-IsSound

-- The upload's bytes are in the store already.
abbrev twin : World
twin = record world {
  files = record two_files { names = (("app", ("sha256", "0a")), 1) ∷ two_files.names };
}

-- The last two of five bytes come with the commit.
commit_upload_final_conflict_example :
    (commit_upload env "app" "s1" one_digest (final_body (some (4 ∷ 5 ∷ []))) (calm twin) ≡ (
      fail (store StoreError.blob_committed),
      record (calm twin) {
        files = unlink ("app", (".staging", "s1")) (after_final (some (4 ∷ 5 ∷ [])) 0 twin.files);
      },
    ))
    × (err_to_status_code (store StoreError.blob_committed ∷ []) ≡ (500, "INTERNAL_ERROR"))
unfolding inode read lookup string_eq pair_eq nat_eq
commit_upload_final_conflict_example =
    commit_upload_final_conflict env env-IsLawful "app" "s1" one_digest 0 1 twin app_accepted refl
      app_exists refl refl (some (4 ∷ 5 ∷ [])) refl

-- The last two of five bytes come with the commit.
get_blob-commit_upload_final_example :
    ((commit_upload env "app" "s1" one_digest
        (final_body (some (4 ∷ 5 ∷ [])))
        (calm unregistered)).0
      ≡ ok tt)
    × ((Service.get_blob env "app" one_digest
          (commit_upload env "app" "s1" one_digest
            (final_body (some (4 ∷ 5 ∷ [])))
            (calm unregistered)).1).0
        ≡ ok (1 ∷ 2 ∷ 3 ∷ 4 ∷ 5 ∷ [], 5))
unfolding inode read lookup string_eq pair_eq nat_eq
get_blob-commit_upload_final_example =
    get_blob-commit_upload_final env env-IsLawful "app" "s1" one_digest 0 unregistered app_accepted
      refl app_exists refl refl (some (4 ∷ 5 ∷ [])) refl

-- A second namespace.
abbrev shared : World
shared = record world {
  db = record one_db {
    namespace = ("team", record { created_at = 1; updated_at = 1 }) ∷ one_db.namespace;
  };
}

team_accepted : validate_name "team" ≡ ok tt
unfolding validate_name matches derive nullable string_eq
team_accepted = refl

team_free : IsFree env "team" shared
unfolding inode lookup string_eq pair_eq
team_free = refl

get_blob-mount_blob_example :
    ((mount_blob env "app" "team" two_digest (calm shared)).0 ≡ ok tt)
    × ((Service.get_blob env "team" two_digest
          (mount_blob env "app" "team" two_digest (calm shared)).1).0
        ≡ ok (5 ∷ [], 1))
unfolding inode read content lookup string_eq pair_eq nat_eq
get_blob-mount_blob_example =
    get_blob-mount_blob env env-IsLawful "app" "team" two_digest (5 ∷ []) shared team_free
      team_accepted refl (λ h. cc) refl refl app_accepted (λ h. cc) refl files-IsSound
