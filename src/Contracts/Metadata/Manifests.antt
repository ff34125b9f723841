-- ===== src/Contracts/Metadata/Manifests.antt =====
-- internal/metastore/metastoretest/manifest.go
use omnistash.Base.{String, [], ◌∷◌, ◌==◌, string_eq, eqb}
use omnistash.Errors.{oci, OciError}
use omnistash.Metastore.Tables.{Digest, ManifestRow}
use omnistash.Contracts.Stores.{MetadataStore}
use omnistash.Contracts.Testing.{Test, assert, must_fail, subtest, run_all}
use omnistash.Contracts.Metadata.Fixtures.{
  Setup, default_name, test_size, must_atomic, seed_namespace, unless_exists,
}
use omnistash.World.{Proc, pure, attempt, ◌>>=◌, ◌>>◌}

abbrev pub test_media_type : String
test_media_type = "application/vnd.oci.image.manifest.v1+json"

module _ (store : MetadataStore) (d : Digest) where
  -- `seedManifest`
  unfoldable pub seed_manifest : Test
  seed_manifest = must_atomic store (Unit {0}) (λ tx. do
    r ← attempt (tx.create_namespace default_name)
    unless_exists store r
    tx.insert_manifest default_name d test_media_type test_size)

  -- `tx.GetManifestByDigest` and `tx.DeleteManifestByDigest` in a transaction of their own
  abbrev pub get_manifest : Proc ManifestRow
  get_manifest = store.atomic ManifestRow (λ tx. tx.get_manifest_by_digest default_name d)

  abbrev pub delete_manifest : Test
  delete_manifest = store.atomic (Unit {0}) (λ tx. tx.delete_manifest_by_digest default_name d)

  unfoldable pub insert_manifest_twice : Test
  insert_manifest_twice = do
    seed_manifest
    seed_manifest
    must_atomic store ManifestRow (λ tx. tx.get_manifest_by_digest default_name d)
    pure tt

  unfoldable pub insert_then_get_manifest : Test
  insert_then_get_manifest = do
    seed_manifest
    row ← must_atomic store ManifestRow (λ tx. tx.get_manifest_by_digest default_name d)
    assert (row.namespace == default_name)
    assert (row.digest == d)
    assert (row.media_type == test_media_type)
    assert (eqb row.size test_size)

  unfoldable pub get_missing_manifest : Test
  get_missing_manifest = do
    seed_namespace store
    must_fail (oci OciError.manifest_unknown) get_manifest

  unfoldable pub delete_then_get_manifest : Test
  delete_then_get_manifest = do
    seed_manifest
    must_atomic store (Unit {0}) (λ tx. tx.delete_manifest_by_digest default_name d)
    must_fail (oci OciError.manifest_unknown) get_manifest

  unfoldable pub delete_missing_manifest : Test
  delete_missing_manifest = do
    seed_namespace store
    must_fail (oci OciError.manifest_unknown) delete_manifest

module _ (s : Setup) where
  abbrev on_new : (MetadataStore → Digest → Test) → Test
  on_new t = subtest s.new_store (t s.store s.digests.manifest)

  -- `exerciseInsertManifest`
  unfoldable pub exercise_insert_manifest : Test
  exercise_insert_manifest =
      run_all (on_new insert_manifest_twice ∷ on_new insert_then_get_manifest ∷ [])

  -- `exerciseGetManifestByDigest`
  unfoldable pub exercise_get_manifest_by_digest : Test
  exercise_get_manifest_by_digest =
      run_all (on_new get_missing_manifest ∷ on_new delete_then_get_manifest ∷ [])

  -- `exerciseDeleteManifestByDigest`
  unfoldable pub exercise_delete_manifest_by_digest : Test
  exercise_delete_manifest_by_digest =
      run_all (on_new delete_missing_manifest ∷ on_new delete_then_get_manifest ∷ [])

  -- `ExerciseManifestOpsContract`
  unfoldable pub exercise_manifest_ops_contract : Test
  exercise_manifest_ops_contract = run_all (
      exercise_insert_manifest ∷ exercise_get_manifest_by_digest
      ∷ exercise_delete_manifest_by_digest ∷ [])
