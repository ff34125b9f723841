-- ===== src/Contracts/Metadata/Namespaces.antt =====
-- internal/metastore/metastoretest/namespace.go
use omnistash.Base.{not, []}
use omnistash.Base.{◌∷◌, ◌==◌, string_eq}
use omnistash.Errors.{meta, MetaError}
use omnistash.Metastore.Tables.{NamespaceRow}
use omnistash.Contracts.Stores.{MetadataStore}
use omnistash.Contracts.Testing.{Test, assert, must, must_fail, subtest, run_all}
use omnistash.Contracts.Metadata.Fixtures.{Setup, default_name}
use omnistash.World.{Proc, ◌>>=◌, ◌>>◌}

module _ (store : MetadataStore) where
  -- `tx.CreateNamespace(ctx, DefaultName)` and `tx.DeleteNamespace(ctx, DefaultName)` in a
  -- transaction of their own
  abbrev pub create : Proc NamespaceRow
  create = store.atomic NamespaceRow (λ tx. tx.create_namespace default_name)

  abbrev pub delete : Proc NamespaceRow
  delete = store.atomic NamespaceRow (λ tx. tx.delete_namespace default_name)

  unfoldable pub create_twice : Test
  create_twice = do must create; must_fail (meta MetaError.name_exists) create

  -- The times of a row are compared with the zero time, which no stored time is.
  unfoldable pub create_once : Test
  create_once = do
    ns ← must create
    assert (ns.name == default_name)
    exists ← must (store.namespace_exists default_name)
    assert exists

  unfoldable pub delete_missing : Test
  delete_missing = must_fail (meta MetaError.name_unknown) delete

  unfoldable pub delete_once : Test
  delete_once = do
    must create
    ns ← must delete
    assert (ns.name == default_name)
    exists ← must (store.namespace_exists default_name)
    assert (not exists)

module _ (s : Setup) where
  -- `exerciseCreateNamespace`
  unfoldable pub exercise_create_namespace : Test
  exercise_create_namespace =
      run_all (
        subtest s.new_store (create_twice s.store) ∷ subtest s.new_store (create_once s.store) ∷ [])

  -- `exerciseDeleteNamespace`
  unfoldable pub exercise_delete_namespace : Test
  exercise_delete_namespace = run_all (
      subtest s.new_store (delete_missing s.store) ∷ subtest s.new_store (delete_once s.store) ∷ [])

  -- `ExerciseNamespaceOpsContract`
  unfoldable pub exercise_namespace_ops_contract : Test
  exercise_namespace_ops_contract =
      run_all (exercise_create_namespace ∷ exercise_delete_namespace ∷ [])
