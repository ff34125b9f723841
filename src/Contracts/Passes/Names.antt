-- ===== src/Contracts/Passes/Names.antt =====
-- The tests of transactions and namespaces, over SQLite.
use omnistash.Base.{ℕ, zero, suc, ◌≡◌, refl, List, [], ◌∷◌}
use omnistash.Errors.{Result, ok, err, meta, MetaError}
use omnistash.Metastore.Tables.{NamespaceRow}
use omnistash.Contracts.Testing.{run_all}
use omnistash.Contracts.Metadata.Fixtures.{Digests, default_name, seed_namespace}
use omnistash.Contracts.Metadata.Namespaces.{
  create, create_twice, create_once, delete_missing, delete_once, exercise_create_namespace,
  exercise_delete_namespace, exercise_namespace_ops_contract,
}
use omnistash.Contracts.Metadata.Atomicity.{
  rolls_back, panics, commits, work, created, serializes, exercise_atomic_contract,
}
use omnistash.Contracts.Passes.Sqlite.{store, on, new_sqlite, sqlite, named}
use omnistash.World.{World, ◌>>=◌}

module _ (w : World) where
  abbrev first : NamespaceRow
  first = record { name = default_name; created_at = w.now; updated_at = w.now }

  create_first : create store (new_sqlite w) ≡ (ok first, on w (named w.now))
  unfolding store
  create_first = refl

  create_again :
      create store (on w (named w.now))
      ≡ (err (meta MetaError.name_exists ∷ []), on w (named w.now))
  unfolding store
  create_again = refl

  pub seed_name : seed_namespace store (new_sqlite w) ≡ (ok first, on w (named w.now))
  unfolding seed_namespace store
  seed_name = refl

  -- The results of the workers that come too late.
  late : ℕ → List (Result NamespaceRow)
  late zero = []
  late (suc n) = err (meta MetaError.name_exists ∷ []) ∷ late n

  work-late : (n : ℕ) → work store n (on w (named w.now)) ≡ (ok (late n), on w (named w.now))
  unfolding work late ◌>>=◌
  work-late zero = refl
  work-late (suc n) = rw (create_again, work-late n)

  created-late : (n : ℕ) (v : World) → created store (late n) v ≡ (ok 0, v)
  unfolding created late ◌>>=◌
  created-late zero v = refl
  created-late (suc n) v = created-late n v

  -- Of any number of workers, but not none, exactly one creates the namespace.
  pub serializes_lem : (n : ℕ) → (serializes store (suc n) (new_sqlite w)).0 ≡ ok tt
  unfolding serializes work created ◌>>=◌
  serializes_lem n = rw (create_first, work-late n, created-late n)

  rolls_back_passes : (rolls_back store (new_sqlite w)).0 ≡ ok tt
  unfolding rolls_back store
  rolls_back_passes = refl

  panics_passes : (panics store (new_sqlite w)).0 ≡ ok tt
  unfolding panics store
  panics_passes = refl

  commits_passes : (commits store (new_sqlite w)).0 ≡ ok tt
  unfolding commits seed_namespace store
  commits_passes = refl

  pub atomic_passes : (d : Digests) → exercise_atomic_contract (sqlite d) w ≡ (ok tt, w)
  unfolding exercise_atomic_contract run_all ◌>>=◌
  atomic_passes d = rw (rolls_back_passes, panics_passes, serializes_lem 4, commits_passes)

  pub names_pass : (d : Digests) → exercise_namespace_ops_contract (sqlite d) w ≡ (ok tt, w)
  unfolding exercise_namespace_ops_contract exercise_create_namespace exercise_delete_namespace
      create_twice create_once delete_missing delete_once run_all store
  names_pass d = refl
