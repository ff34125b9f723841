-- ===== src/Tests/Metadata.antt =====
-- The metadata store at concrete inputs.
use omnistash.Base.{none, ◌≡◌, refl, List, [], ◌∷◌, string_eq, pair_eq, if◌then◌else◌, ◌==◌}
use omnistash.Base.Table.{lookup}
use omnistash.Errors.{ok, err, sys, SysError, oci, OciError, fail}
use omnistash.Metastore.Tables.{Digest, Key, empty_db}
use omnistash.Metastore.Listing.{listed, refers, IsByDate, list_referrers_lem}
use omnistash.Metastore.Valid.{IsValid}
use omnistash.Metastore.Sql
use omnistash.Metastore.Tx
use omnistash.Metastore.Store.{atomic}
use omnistash.Metastore.Atomic.{Call, session, session-IsValid, atomic_failed}
use omnistash.Metastore.Blobs.{stat-insert, registered_size}
use omnistash.Metastore.Manifests.{get-insert, found_after_insert}
use omnistash.World.{calm, ◌>>=◌}
use omnistash.Tests.Fixture.{app_exists, world, fresh, one_db, one_digest, two_digest}

empty-IsValid : IsValid empty_db
unfolding lookup
empty-IsValid = record {
  namespace_keys = tt;
  blob_keys = tt;
  manifest_keys = tt;
  referrer_keys = tt;
  blob_names = λ name d h. refl;
  manifest_names = λ name d h. refl;
  referrer_names = λ name d h. refl;
}

abbrev pushed : List (List Call)
pushed =
    (Call.create_namespace "app" ∷ Call.insert_namespace_blob "app" one_digest 3 ∷ [])
    ∷ (Call.insert_manifest "app" two_digest "m" 4 ∷ Call.delete_namespace "app" ∷ [])
    ∷ []

session-IsValid_example : IsValid (session pushed (calm fresh)).db
session-IsValid_example = session-IsValid pushed (calm fresh) empty-IsValid

failing : (atomic (Tx.create_namespace "app") fresh).0 ≡ err (sys SysError.external ∷ [])
unfolding atomic Tx.create_namespace Tx.exec_counted Tx.query_row ◌>>=◌
failing = refl

atomic_failed_example : (atomic (Tx.create_namespace "app") fresh).1.db ≡ empty_db
atomic_failed_example = atomic_failed (Tx.create_namespace "app") fresh failing

stat-insert_example :
    ((Tx.insert_namespace_blob "app" one_digest 7 (calm world)).0 ≡ ok tt)
    × ((j : Key)
        → (Tx.stat_namespace_blob j.0 j.1
            (Tx.insert_namespace_blob "app" one_digest 7 (calm world)).1).0
          ≡ (if j == ("app", one_digest)
              then ok (registered_size (lookup ("app", one_digest) one_db.namespace_blobs) 7)
              else (Tx.stat_namespace_blob j.0 j.1 (calm world)).0))
stat-insert_example = stat-insert world "app" one_digest 7 app_exists

get-insert_example :
    ((Tx.insert_manifest "app" two_digest "m" 4 (calm world)).0 ≡ ok tt)
    × ((j : Key)
        → (Tx.get_manifest_by_digest j.0 j.1
            (Tx.insert_manifest "app" two_digest "m" 4 (calm world)).1).0
          ≡ (if j == ("app", two_digest)
              then found_after_insert "app" two_digest "m" 4
                  (lookup ("app", two_digest) one_db.manifests)
              else (Tx.get_manifest_by_digest j.0 j.1 (calm world)).0))
get-insert_example = get-insert "app" two_digest "m" 4 world app_exists

-- A manifest that is marked for deletion stays unknown when it is inserted again.
stays_unknown :
    (Tx.get_manifest_by_digest "app" two_digest
      (Tx.insert_manifest "app" two_digest "m" 4 (calm world)).1).0
    ≡ fail (oci OciError.manifest_unknown)
unfolding Tx.get_manifest_by_digest Tx.insert_manifest Sql.insert_manifest
    Sql.get_manifest_by_digest Tx.query_row Tx.exec ◌>>=◌ lookup string_eq pair_eq
stays_unknown = refl

abbrev referring : List (List Call)
referring =
    (Call.create_namespace "app"
      ∷ Call.upsert_referrer "app" (record {
        subject_digest = one_digest;
        digest = two_digest;
        media_type = "m";
        artifact_type = "a";
        size = 4;
        annotations = none;
      })
      ∷ [])
    ∷ []

list_referrers_lem_example :
    ((d : Digest)
      → listed d (Sql.list_referrers "app" one_digest (session referring (calm fresh)).db)
        ≡ refers one_digest
            (lookup ("app", d) (session referring (calm fresh)).db.manifest_referrers))
    × IsByDate (Sql.list_referrers "app" one_digest (session referring (calm fresh)).db)
list_referrers_lem_example =
    list_referrers_lem "app" one_digest (session referring (calm fresh)).db
      (session-IsValid referring (calm fresh) empty-IsValid)
