-- ===== src/Contracts/Metadata/Referrers.antt =====
-- internal/metastore/metastoretest/referrer.go
use omnistash.Base.{Bool, true, false, String, none, some, List, [], ◌∷◌, ◌==◌}
use omnistash.Base.{string_eq, nat_eq, pair_eq, eqb, length}
use omnistash.Metastore.Tables.{Digest, ReferrerRow, Annotations}
use omnistash.Contracts.Stores.{MetadataStore}
use omnistash.Contracts.Testing.{Test, assert, subtest, run_all}
use omnistash.Contracts.Metadata.Fixtures.{
  Setup, Digests, default_name, test_size, must_atomic, seed_namespace,
}
use omnistash.World.{Proc, pure, raise, ◌>>=◌, ◌>>◌}

abbrev pub test_referrer_artifact_type : String
test_referrer_artifact_type = "application/vnd.example.referrer"

abbrev pub test_referrer_media_type : String
test_referrer_media_type = "application/vnd.oci.image.manifest.v1+json"

abbrev pub updated_type : String
updated_type = "application/vnd.example.updated"

-- `defaultReferrerRow`
abbrev pub default_referrer_row : Digests → ReferrerRow
default_referrer_row d = record {
  subject_digest = d.subject;
  digest = d.referrer;
  media_type = test_referrer_media_type;
  artifact_type = test_referrer_artifact_type;
  size = test_size;
  annotations = some (("key", "value") ∷ []);
}

-- `assert.Equal` on maps with at most one entry; a nil map is no empty map.
abbrev pub equal_maps : Annotations → Annotations → Bool
equal_maps none none = true
equal_maps (some []) (some []) = true
equal_maps (some (a ∷ [])) (some (b ∷ [])) = a == b
equal_maps m n = false

-- `rows[0]` after `require.Len(t, rows, 1)`
abbrev pub only : List ReferrerRow → Proc ReferrerRow
only (row ∷ []) = pure row
only rows = raise []

module _ (store : MetadataStore) where
  -- `seedReferrer`
  unfoldable pub seed_referrer : ReferrerRow → Test
  seed_referrer row = must_atomic store (Unit {0}) (λ tx. tx.upsert_referrer default_name row)

  -- `tx.ListReferrers` in a transaction of its own
  abbrev pub list : Digest → Proc (List ReferrerRow)
  list subject = must_atomic store (List ReferrerRow) (λ tx. tx.list_referrers default_name subject)

module _ (store : MetadataStore) (d : Digests) where
  -- `exerciseUpsertReferrerHappyPath`
  unfoldable pub upsert_then_list : Test
  upsert_then_list = do
    seed_namespace store
    seed_referrer store (default_referrer_row d)
    rows ← list store d.subject
    row ← only rows
    assert (row.subject_digest == d.subject)
    assert (row.digest == d.referrer)
    assert (row.media_type == test_referrer_media_type)
    assert (row.artifact_type == test_referrer_artifact_type)
    assert (eqb row.size test_size)
    assert (equal_maps row.annotations (some (("key", "value") ∷ [])))

  -- `exerciseUpsertReferrerIdempotent`
  unfoldable pub upsert_twice : Test
  upsert_twice = do
    seed_namespace store
    seed_referrer store (default_referrer_row d)
    seed_referrer store (record (default_referrer_row d) { artifact_type = updated_type })
    rows ← list store d.subject
    row ← only rows
    assert (row.artifact_type == updated_type)

  -- `exerciseUpsertReferrerNilAnnotations`
  unfoldable pub upsert_nil_annotations : Test
  upsert_nil_annotations = do
    seed_namespace store
    seed_referrer store (record (default_referrer_row d) { annotations = none })
    rows ← list store d.subject
    row ← only rows
    assert (equal_maps row.annotations (some []))

  unfoldable pub list_unknown : Test
  list_unknown = do seed_namespace store; rows ← list store d.unknown; assert (eqb (length rows) 0)

  unfoldable pub list_two : Test
  list_two = do
    seed_namespace store
    seed_referrer store (default_referrer_row d)
    seed_referrer store (record (default_referrer_row d) { digest = d.referrer_2 })
    rows ← list store d.subject
    assert (eqb (length rows) 2)

  unfoldable pub delete_then_list : Test
  delete_then_list = do
    seed_namespace store
    seed_referrer store (default_referrer_row d)
    must_atomic store (Unit {0}) (λ tx. tx.delete_referrer default_name d.referrer)
    rows ← list store d.subject
    assert (eqb (length rows) 0)

  unfoldable pub delete_missing_referrer : Test
  delete_missing_referrer = do
    seed_namespace store
    must_atomic store (Unit {0}) (λ tx. tx.delete_referrer default_name d.unknown)

module _ (s : Setup) where
  abbrev on_new : (MetadataStore → Digests → Test) → Test
  on_new t = subtest s.new_store (t s.store s.digests)

  -- `exerciseUpsertReferrer`
  unfoldable pub exercise_upsert_referrer : Test
  exercise_upsert_referrer =
      run_all (on_new upsert_then_list ∷ on_new upsert_twice ∷ on_new upsert_nil_annotations ∷ [])

  -- `exerciseListReferrers`
  unfoldable pub exercise_list_referrers : Test
  exercise_list_referrers = run_all (on_new list_unknown ∷ on_new list_two ∷ [])

  -- `exerciseDeleteReferrer`
  unfoldable pub exercise_delete_referrer : Test
  exercise_delete_referrer = run_all (on_new delete_then_list ∷ on_new delete_missing_referrer ∷ [])

  -- `ExerciseReferrerOpsContract`
  unfoldable pub exercise_referrer_ops_contract : Test
  exercise_referrer_ops_contract =
      run_all (exercise_upsert_referrer ∷ exercise_list_referrers ∷ exercise_delete_referrer ∷ [])
