-- ===== src/Contracts/Passes/Blobs.antt =====
-- The tests of registered blobs, over SQLite.
use omnistash.Base.{ℕ, ◌≡◌, refl, [], ◌∷◌}
use omnistash.Errors.{ok}
use omnistash.Metastore.Tables.{Db, Digest, empty_db}
use omnistash.Metastore.Sql.{new_blob}
use omnistash.Contracts.Testing.{run_all}
use omnistash.Contracts.Metadata.Fixtures.{
  Digests, default_name, other_name, test_size, seed_namespace_blob,
}
use omnistash.Contracts.Metadata.Blobs.{
  insert_twice, insert_in_two, insert_then_get, run_query, absent, elsewhere, active_blob,
  exercise_insert_namespace_blob, exercise_namespace_blob_query, exercise_blob_ops_contract,
}
use omnistash.Contracts.Passes.Sqlite.{
  store, on, new_sqlite, sqlite, named, both_names, same_key, other_keys,
}
use omnistash.World.{World, ◌>>=◌, ◌>>◌}

abbrev with_blob : ℕ → Digest → Db
with_blob now d = record (named now) {
  namespace_blobs = ((default_name, d), new_blob now test_size) ∷ [];
}

-- The blob in both namespaces.
abbrev with_two : ℕ → Digest → Db
with_two now d = record empty_db {
  namespace = both_names now;
  namespace_blobs =
      ((default_name, d), new_blob now test_size) ∷ ((other_name, d), new_blob now test_size) ∷ [];
}

module _ (d : Digest) (w : World) where
  abbrev one : World
  one = on w (with_blob w.now d)

  abbrev two : World
  two = on w (with_two w.now d)

  seed_first : seed_namespace_blob store d (new_sqlite w) ≡ (ok tt, one)
  unfolding seed_namespace_blob store
  seed_first = refl

  seed_again : seed_namespace_blob store d one ≡ (ok tt, one)
  unfolding seed_namespace_blob store
  seed_again = rw (same_key default_name d, same_key default_name d, same_key default_name d)

  get_one : store.atomic ℕ (λ tx. tx.get_namespace_blob default_name d) one ≡ (ok test_size, one)
  unfolding store
  get_one = rw (same_key default_name d)

  insert_other :
      store.atomic
        (Unit {0})
        (λ tx. do tx.create_namespace other_name; tx.insert_namespace_blob other_name d test_size)
        one
      ≡ (ok tt, two)
  unfolding store
  insert_other = rw (other_keys d, other_keys d, other_keys d)

  get_two :
      store.atomic ℕ
        (λ tx. do tx.get_namespace_blob default_name d; tx.get_namespace_blob other_name d)
        two
      ≡ (ok test_size, two)
  unfolding store
  get_two = rw (same_key default_name d, other_keys d, same_key other_name d)

  insert_twice_passes : (insert_twice store d (new_sqlite w)).0 ≡ ok tt
  unfolding insert_twice ◌>>=◌
  insert_twice_passes = rw (seed_first, seed_again, get_one)

  insert_in_two_passes : (insert_in_two store d (new_sqlite w)).0 ≡ ok tt
  unfolding insert_in_two ◌>>=◌ store
  insert_in_two_passes = rw (seed_first, insert_other, get_two)

  insert_then_get_passes : (insert_then_get store d (new_sqlite w)).0 ≡ ok tt
  unfolding insert_then_get ◌>>=◌
  insert_then_get_passes = rw (seed_first, get_one)

  -- The three cases of a query of the size, both by `GetNamespaceBlob` and by `StatNamespaceBlob`.
  get_cases :
      ((run_query store (λ tx ns. tx.get_namespace_blob ns d) absent (new_sqlite w)).0 ≡ ok tt)
      × ((run_query store (λ tx ns. tx.get_namespace_blob ns d) (elsewhere d) (new_sqlite w)).0
          ≡ ok tt)
      × ((run_query store (λ tx ns. tx.get_namespace_blob ns d) (active_blob d) (new_sqlite w)).0
          ≡ ok tt)
  unfolding run_query seed_namespace_blob store
  get_cases = (refl, rw (other_keys d), rw (same_key default_name d))

  stat_cases :
      ((run_query store (λ tx ns. tx.stat_namespace_blob ns d) absent (new_sqlite w)).0 ≡ ok tt)
      × ((run_query store (λ tx ns. tx.stat_namespace_blob ns d) (elsewhere d) (new_sqlite w)).0
          ≡ ok tt)
      × ((run_query store (λ tx ns. tx.stat_namespace_blob ns d) (active_blob d) (new_sqlite w)).0
          ≡ ok tt)
  unfolding run_query seed_namespace_blob store
  stat_cases = (refl, rw (other_keys d), rw (same_key default_name d))

pub blobs_pass : (d : Digests) (w : World) → exercise_blob_ops_contract (sqlite d) w ≡ (ok tt, w)
unfolding exercise_blob_ops_contract exercise_insert_namespace_blob exercise_namespace_blob_query
    run_all ◌>>=◌
blobs_pass d w = rw (
  insert_twice_passes d.test w,
  insert_in_two_passes d.test w,
  insert_then_get_passes d.test w,
  (get_cases d.test w).0,
  (get_cases d.test w).1,
  (get_cases d.test w).2,
  (stat_cases d.test w).0,
  (stat_cases d.test w).1,
  (stat_cases d.test w).2,
)
