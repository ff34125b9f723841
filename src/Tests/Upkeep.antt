-- ===== src/Tests/Upkeep.antt =====
-- The sweep of stale uploads and the migration at concrete inputs.
use omnistash.Base.{◌++◌, ◌↔◌, true, ◌≡◌, inl, refl, true, false, List, [], ◌∷◌, string_eq, pair_eq}
use omnistash.Errors.{ok}
use omnistash.Blobstore.Files.{content}
use omnistash.Blobstore.Sweep.{vacuum_staging_blobs}
use omnistash.Blobstore.Cleared.{content-vacuum_calm}
use omnistash.Base.{none}
use omnistash.Blobstore.Swept.{content-vacuum_staging_blobs}
use omnistash.Migration.{
  Kind, Object, new_table, same_name, has_relation, tables_of, exists_in, create_tables,
  required_tables, apply_sqlite_migrations,
}
use omnistash.Migration.Open.{IsOpen}
use omnistash.Migration.Applied.{IsMigrated, check-apply_iff}
use omnistash.World.{calm, ◌>>=◌}
use omnistash.Tests.Fixture.{world, fresh}

-- Every file is of the time 1, and it is 9.
content-vacuum_staging_blobs_example :
    content ("app", ("sha256", "0b")) (vacuum_staging_blobs (λ p. 1) 9 3 world).1.files
    ≡ content ("app", ("sha256", "0b")) world.files
unfolding string_eq
content-vacuum_staging_blobs_example =
    content-vacuum_staging_blobs (λ p. 1) 9 3 ("app", ("sha256", "0b")) world (inl refl)

content-vacuum_calm_example :
    ((vacuum_staging_blobs (λ p. 1) 9 3 (calm world)).0 ≡ ok tt)
    × (content ("app", (".staging", "s1")) (vacuum_staging_blobs (λ p. 1) 9 3 (calm world)).1.files
        ≡ none)
unfolding string_eq
content-vacuum_calm_example =
    content-vacuum_calm (λ p. 1) 9 3 world 0 refl ("app", (".staging", "s1"))

-- A table of the schema, and one of another name.
abbrev present : List Object
present =
    record { kind = Kind.table; name = "manifests" }
    ∷ record { kind = Kind.table; name = "notes" }
    ∷ []

abbrev migrated : List Object
migrated =
    present
    ++ (new_table "namespace"
        ∷ new_table "namespace_blobs"
        ∷ new_table "manifest_tags"
        ∷ new_table "manifest_referrers"
        ∷ [])

migrates : (apply_sqlite_migrations present (calm world)).0 ≡ ok (ok tt, migrated)
unfolding apply_sqlite_migrations create_tables same_name ◌>>=◌
migrates = refl

check-apply_iff_example :
    IsMigrated present fresh (apply_sqlite_migrations present world).0
    × (((after : List Object) × ((apply_sqlite_migrations present (calm world)).0
            ≡ ok (ok tt, after)))
        ↔ IsOpen present required_tables)
check-apply_iff_example = check-apply_iff present world fresh

-- A table whose name has other letters is not created again, and the check misses it.
abbrev shouting : List Object
shouting = record { kind = Kind.table; name = "NAMESPACE" } ∷ []

taken : has_relation "namespace" shouting ≡ true
unfolding same_name
taken = refl

missed : exists_in (tables_of shouting) "namespace" ≡ false
unfolding tables_of string_eq
missed = refl
