-- ===== src/Contracts/Metadata/Blobs.antt =====
-- internal/metastore/metastoretest/blob.go
use omnistash.Base.{ℕ, String, Option, none, some, [], ◌∷◌, eqb}
use omnistash.Errors.{Sentinel, meta, MetaError}
use omnistash.Metastore.Tables.{Digest}
use omnistash.Contracts.Stores.{TxOps, MetadataStore}
use omnistash.Contracts.Testing.{Test, assert, must, must_fail, subtest, run_all}
use omnistash.Contracts.Metadata.Fixtures.{
  Setup, default_name, other_name, test_size, must_atomic, seed_namespace_blob,
}
use omnistash.World.{Proc, pure, ◌>>=◌, ◌>>◌}

module _ (store : MetadataStore) (d : Digest) where
  unfoldable pub insert_twice : Test
  insert_twice = do
    seed_namespace_blob store d
    seed_namespace_blob store d
    must_atomic store ℕ (λ tx. tx.get_namespace_blob default_name d)
    pure tt

  unfoldable pub insert_in_two : Test
  insert_in_two = do
    seed_namespace_blob store d
    must_atomic store (Unit {0})
        (λ tx. do tx.create_namespace other_name; tx.insert_namespace_blob other_name d test_size)
    must_atomic store ℕ
        (λ tx. do tx.get_namespace_blob default_name d; tx.get_namespace_blob other_name d)
    pure tt

  unfoldable pub insert_then_get : Test
  insert_then_get = do
    seed_namespace_blob store d
    got ← must_atomic store ℕ (λ tx. tx.get_namespace_blob default_name d)
    assert (eqb got test_size)

-- A test case of `exerciseNamespaceBlobQuery`: whether it registers the digest first, the namespace
-- that is asked, and the error or the size that is wanted.
pub data Want : Type 0 where
  size : ℕ → Want
  failure : Sentinel → Want

abbrev pub wanted : Want → Proc ℕ → Test
wanted (size n) query = do got ← must query; assert (eqb got n)
wanted (failure e) query = must_fail e query

pub record QueryCase : Type 0 where
  pub registered : Option Digest
  pub ns : String
  pub want : Want

abbrev pub set_up : MetadataStore → Option Digest → Test
set_up store none = pure tt
set_up store (some d) = seed_namespace_blob store d

-- A query of a size in a transaction, `GetNamespaceBlob` or `StatNamespaceBlob` of the test digest.
abbrev pub Query : Type 0
Query = TxOps → String → Proc ℕ

unfoldable pub run_query : MetadataStore → Query → QueryCase → Test
run_query store query c = do
  set_up store c.registered
  wanted c.want (store.atomic ℕ (λ tx. query tx c.ns))

abbrev pub absent : QueryCase
absent = record {
  registered = none;
  ns = default_name;
  want = Want.failure (meta MetaError.blob_unknown);
}

abbrev pub elsewhere : Digest → QueryCase
elsewhere d = record {
  registered = some d;
  ns = other_name;
  want = Want.failure (meta MetaError.blob_unknown);
}

abbrev pub active_blob : Digest → QueryCase
active_blob d = record { registered = some d; ns = default_name; want = Want.size test_size }

module _ (s : Setup) where
  abbrev on_new : Test → Test
  on_new = subtest s.new_store

  -- `exerciseInsertNamespaceBlob`
  unfoldable pub exercise_insert_namespace_blob : Test
  exercise_insert_namespace_blob =
      let d = s.digests.test in
      run_all (
        on_new (insert_twice s.store d)
        ∷ on_new (insert_in_two s.store d)
        ∷ on_new (insert_then_get s.store d)
        ∷ [])

  -- `exerciseNamespaceBlobQuery`
  unfoldable pub exercise_namespace_blob_query : Query → Test
  exercise_namespace_blob_query query =
      let d = s.digests.test in
      run_all (
        on_new (run_query s.store query absent)
        ∷ on_new (run_query s.store query (elsewhere d))
        ∷ on_new (run_query s.store query (active_blob d))
        ∷ [])

  -- `exerciseGetNamespaceBlob`
  abbrev pub exercise_get_namespace_blob : Test
  exercise_get_namespace_blob =
      exercise_namespace_blob_query (λ tx ns. tx.get_namespace_blob ns s.digests.test)

  -- `exerciseStatNamespaceBlob`
  abbrev pub exercise_stat_namespace_blob : Test
  exercise_stat_namespace_blob =
      exercise_namespace_blob_query (λ tx ns. tx.stat_namespace_blob ns s.digests.test)

  -- `ExerciseBlobOpsContract`
  unfoldable pub exercise_blob_ops_contract : Test
  exercise_blob_ops_contract = run_all (
      exercise_insert_namespace_blob ∷ exercise_get_namespace_blob ∷ exercise_stat_namespace_blob
      ∷ [])
