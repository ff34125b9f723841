-- ===== src/Tests/Referrals.antt =====
-- Referrers and the deletion of a manifest at concrete inputs.
use omnistash.Base.{
  ◌≡◌, refl, ◌==◌, some, none, inl, false, [], ◌∷◌, string_eq, pair_eq, nat_eq, arith,
  if◌then◌else◌,
}
use mathlib.Core.List.Memᴰ.{Memᴰ}
use omnistash.Base.Table.{lookup}
use omnistash.Errors.{ok}
use omnistash.Metastore.Tables.{Db, Key, active}
use omnistash.Metastore.Sql
use omnistash.Blobstore.Files.{inode}
use omnistash.Manifests.{parse_manifest_body}
use omnistash.Referrers.{ListResult}
use omnistash.Referrers.Members.{describes}
use omnistash.Rest.Http.{bare, header_value, query_value}
use omnistash.Rest.ManifestRoutes.{
  handle_put_manifest, handle_get_manifest, handle_delete_manifest, handle_get_referrers,
}
use omnistash.Rest.Referred.{indexed, refers_as, handle_get_referrers-put_manifest}
use omnistash.Rest.Removed.{missing, handle_get_manifest-handle_delete_manifest}
use omnistash.World.{World, calm}
use omnistash.Tests.Fixture
use omnistash.Tests.Pushes.{
  manifest, reading, reading-IsLawful, app_named, reading_free, push_request, pull_request,
}

handle_get_referrers-put_manifest_example :
    (r : ListResult) × ((handle_get_referrers reading "app" Fixture.two_digest pull_request
        (handle_put_manifest reading "app" Fixture.one_digest push_request
          (calm Fixture.world)).1).0
      ≡ ok (indexed r))
    × Memᴰ (refers_as manifest Fixture.one_digest 2) r.manifests
unfolding inode lookup string_eq pair_eq nat_eq header_value query_value parse_manifest_body
handle_get_referrers-put_manifest_example =
    handle_get_referrers-put_manifest reading reading-IsLawful "app" Fixture.one_digest ""
      (1 ∷ 2 ∷ []) manifest Fixture.world reading_free app_named refl refl refl refl
      Fixture.app_exists refl refl refl Fixture.files-IsSound push_request pull_request refl refl
      (omega arith) Fixture.two_digest refl refl (inl refl)

-- A manifest, and itself as a referrer of the other digest.
abbrev tables : Db
tables = record Fixture.one_db {
  manifests =
      (
        ("app", Fixture.one_digest),
        record {
          media_type = "m";
          size = 2;
          lifecycle = active;
          created_at = 1;
          deleted_at = none;
        },
      )
      ∷ [];
  manifest_referrers =
      (
        ("app", Fixture.one_digest),
        record {
          subject_digest = Fixture.two_digest;
          media_type = "m";
          artifact_type = "a";
          size = 2;
          annotations = some [];
          created_at = 1;
        },
      )
      ∷ [];
}

abbrev holding : World
holding = record Fixture.world { db = tables }

handle_get_manifest-handle_delete_manifest_example :
    ((handle_delete_manifest reading "app" Fixture.one_digest push_request (calm holding)).0
      ≡ ok (bare 202))
    × ((handle_get_manifest reading "app" Fixture.one_digest pull_request
          (handle_delete_manifest reading "app" Fixture.one_digest push_request (calm holding)).1).0
        ≡ ok missing)
    × ((handle_delete_manifest reading "app" Fixture.one_digest push_request
          (handle_delete_manifest reading "app" Fixture.one_digest push_request (calm holding)).1)
        ≡ (
          ok missing,
          (handle_delete_manifest reading "app" Fixture.one_digest push_request (calm holding)).1,
        ))
    × ((r : ListResult) × ((handle_get_referrers reading "app" Fixture.two_digest pull_request
            (handle_delete_manifest reading "app" Fixture.one_digest push_request
              (calm holding)).1).0
          ≡ ok (indexed r))
        × (describes Fixture.one_digest r.manifests ≡ false))
    × ((j : Key)
        → Sql.get_manifest_by_digest j
            (handle_delete_manifest reading "app" Fixture.one_digest push_request
              (calm holding)).1.db
          ≡ (if j == ("app", Fixture.one_digest)
              then none
              else Sql.get_manifest_by_digest j holding.db))
unfolding lookup string_eq pair_eq Sql.get_manifest_by_digest
handle_get_manifest-handle_delete_manifest_example =
    handle_get_manifest-handle_delete_manifest reading "app" Fixture.one_digest app_named refl refl
      holding push_request pull_request Fixture.two_digest refl
      (record { namespace = "app"; digest = Fixture.one_digest; media_type = "m"; size = 2 })
      Fixture.app_exists refl
