-- ===== src/Contracts/Metadata/Atomicity.antt =====
-- internal/metastore/metastoretest/atomic.go
use omnistash.Base.{ℕ, zero, suc, ◌+◌, not, List, [], ◌∷◌, eqb}
use omnistash.Errors.{Result, ok, err, local, meta, LocalError, MetaError}
use omnistash.Metastore.Tables.{NamespaceRow}
use omnistash.Contracts.Stores.{MetadataStore}
use omnistash.Contracts.Testing.{Test, assert, error_is, must, must_fail, subtest, run_all}
use omnistash.Contracts.Metadata.Fixtures.{
  Setup, default_name, other_name, must_atomic, seed_namespace,
}
use omnistash.Contracts.Metadata.Namespaces.{create}
use omnistash.World.{Proc, pure, throw, attempt, ◌>>=◌, ◌>>◌}

module _ (store : MetadataStore) where
  unfoldable pub rolls_back : Test
  rolls_back = do
    must_fail (local LocalError.atomic_test) (
        store.atomic (Unit {0})
          (λ tx. do tx.create_namespace default_name; throw (local LocalError.atomic_test)))
    exists ← must (store.namespace_exists default_name)
    assert (not exists)

  unfoldable pub commits : Test
  commits = do
    seed_namespace store
    exists ← must (store.namespace_exists default_name)
    assert exists

  -- The workers' transactions, in the order in which the store runs them.
  unfoldable pub work : ℕ → Proc (List (Result NamespaceRow))
  unfolding ◌>>=◌
  work zero = pure []
  work (suc n) = do e ← attempt (create store); es ← work n; pure (e ∷ es)

  -- The loop over the errors: how many are nil, where the others are to be `ErrNameExists`.
  unfoldable pub created : List (Result NamespaceRow) → Proc ℕ
  unfolding ◌>>=◌
  created [] = pure 0
  created (ok row ∷ es) = do n ← created es; pure (n + 1)
  created (err e ∷ es) = do
    error_is {A = NamespaceRow} (meta MetaError.name_exists) (err e)
    created es

  -- `exerciseAtomicSerialization`, for any number of workers
  unfoldable pub serializes : ℕ → Test
  unfolding work created
  serializes workers = do errs ← work workers; n ← created errs; assert (eqb n 1)

  -- `exerciseAtomicPanic`: the panic is recovered as an error.
  unfoldable pub panics : Test
  panics = do
    must_fail (local LocalError.panicked) (
        store.atomic (Unit {0})
          (λ tx. do tx.create_namespace default_name; throw (local LocalError.panicked)))
    exists ← must (store.namespace_exists default_name)
    assert (not exists)
    must_atomic store NamespaceRow (λ tx. tx.create_namespace other_name)
    other_exists ← must (store.namespace_exists other_name)
    assert other_exists

abbrev pub workers : ℕ
workers = 5

-- `ExerciseAtomicContract`
unfoldable pub exercise_atomic_contract : Setup → Test
exercise_atomic_contract s = run_all (
    subtest s.new_store (rolls_back s.store)
    ∷ subtest s.new_store (panics s.store)
    ∷ subtest s.new_store (serializes s.store workers)
    ∷ subtest s.new_store (commits s.store)
    ∷ [])
