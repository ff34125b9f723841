-- ===== src/Contracts/Passes/Manifests.antt =====
-- The tests of manifests, over SQLite.
use omnistash.Base.{ℕ, ◌≡◌, refl, some, [], ◌∷◌, ==_refl, string_eq}
use omnistash.Errors.{ok, err, oci, OciError}
use omnistash.Metastore.Tables.{Db, Digest, ManifestRow, pending_deletion}
use omnistash.Metastore.Sql.{new_manifest}
use omnistash.Contracts.Testing.{run_all}
use omnistash.Contracts.Metadata.Fixtures.{Digests, default_name, test_size}
use omnistash.Contracts.Metadata.Manifests.{
  test_media_type, seed_manifest, get_manifest, delete_manifest, insert_manifest_twice,
  insert_then_get_manifest, get_missing_manifest, delete_then_get_manifest, delete_missing_manifest,
  exercise_insert_manifest, exercise_get_manifest_by_digest, exercise_delete_manifest_by_digest,
  exercise_manifest_ops_contract,
}
use omnistash.Contracts.Passes.Sqlite.{store, on, new_sqlite, sqlite, named, same_key}
use omnistash.Contracts.Passes.Names.{seed_name}
use omnistash.World.{World, ◌>>=◌}

abbrev with_manifest : ℕ → Digest → Db
with_manifest now d = record (named now) {
  manifests = ((default_name, d), new_manifest now test_media_type test_size) ∷ [];
}

abbrev with_marked : ℕ → Digest → Db
with_marked now d = record (named now) {
  manifests =
      (
        (default_name, d),
        record (new_manifest now test_media_type test_size) {
          lifecycle = pending_deletion;
          deleted_at = some now;
        },
      )
      ∷ [];
}

module _ (d : Digest) (w : World) where
  abbrev there : World
  there = on w (with_manifest w.now d)

  abbrev marked : World
  marked = on w (with_marked w.now d)

  abbrev row : ManifestRow
  row = record {
    namespace = default_name;
    digest = d;
    media_type = test_media_type;
    size = test_size;
  }

  seed_first : seed_manifest store d (new_sqlite w) ≡ (ok tt, there)
  unfolding seed_manifest store
  seed_first = refl

  seed_again : seed_manifest store d there ≡ (ok tt, there)
  unfolding seed_manifest store
  seed_again = rw (same_key default_name d)

  get_there : get_manifest store d there ≡ (ok row, there)
  unfolding store
  get_there = rw (same_key default_name d)

  delete_there : delete_manifest store d there ≡ (ok tt, marked)
  unfolding store
  delete_there = rw (same_key default_name d, same_key default_name d)

  get_marked : get_manifest store d marked ≡ (err (oci OciError.manifest_unknown ∷ []), marked)
  unfolding store
  get_marked = rw (same_key default_name d)

  twice_passes : (insert_manifest_twice store d (new_sqlite w)).0 ≡ ok tt
  unfolding insert_manifest_twice ◌>>=◌
  twice_passes = rw (seed_first, seed_again, get_there)

  insert_passes : (insert_then_get_manifest store d (new_sqlite w)).0 ≡ ok tt
  unfolding insert_then_get_manifest ◌>>=◌ string_eq
  insert_passes = rw (seed_first, get_there, ==_refl d)

  missing_passes : (get_missing_manifest store d (new_sqlite w)).0 ≡ ok tt
  unfolding get_missing_manifest store
  missing_passes = rw (seed_name w)

  delete_passes : (delete_then_get_manifest store d (new_sqlite w)).0 ≡ ok tt
  unfolding delete_then_get_manifest ◌>>=◌ store
  delete_passes = rw (seed_first, delete_there, get_marked)

  delete_missing_passes : (delete_missing_manifest store d (new_sqlite w)).0 ≡ ok tt
  unfolding delete_missing_manifest store
  delete_missing_passes = rw (seed_name w)

pub manifests_pass :
    (d : Digests) (w : World) → exercise_manifest_ops_contract (sqlite d) w ≡ (ok tt, w)
unfolding exercise_manifest_ops_contract exercise_insert_manifest exercise_get_manifest_by_digest
    exercise_delete_manifest_by_digest run_all ◌>>=◌
manifests_pass d w = rw (
  twice_passes d.manifest w,
  insert_passes d.manifest w,
  missing_passes d.manifest w,
  delete_passes d.manifest w,
  delete_missing_passes d.manifest w,
  delete_passes d.manifest w,
)
