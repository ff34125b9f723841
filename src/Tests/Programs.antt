-- ===== src/Tests/Programs.antt =====
-- The clean-up after a failed registration, and the server's program, at concrete inputs.
use omnistash.Base.{◌≡◌, ◌⊎◌, refl, none, some, [], ◌∷◌, false, string_eq, pair_eq, nat_eq}
use omnistash.Base.Int.{pos}
use omnistash.Base.Table.{lookup, put, remove}
use omnistash.Errors.{ok, err, sys, store, local, StoreError, LocalError, SysError}
use omnistash.Regexp.{matches, derive, nullable}
use omnistash.Name.{validate_name}
use omnistash.Metastore.Sql
use omnistash.Metastore.Store.{atomic, namespace_exists}
use omnistash.Blobstore.Files.{content, inode, create, append, read, link, unlink}
use omnistash.Blobstore.Digests
use omnistash.Blobstore.Digests.{hasher_for, match_digest}
use omnistash.Blobstore.Os.{
  os_create, os_stat, os_link, os_remove, copy_body, remove_file_if_exists,
}
use omnistash.Blobstore.Os.{Body}
use omnistash.Blob.Service.{validate_namespace_digest, validate_digest, monolithic_upload, register}
use omnistash.Blob.Cleanup.{monolithic_upload_cleanup}
use omnistash.Blobstore.Writer.{
  put_blob, stat_blob, new_uuid, write_blob, write_to_staging, link_staged_file,
}
use omnistash.Programs.{Arguments, Course, given, help, refused, signal, omnistash_main}
use omnistash.Programs.Exits.{beyond, Succeeds, IsOrderly, omnistash_main_exits}
use omnistash.World.{World, calm, ◌>>=◌}
use omnistash.Tests.Fixture.{world, env, two_digest, two_files}

-- The store holds the blob, and the begin of the transaction that is to register it fails.
abbrev before : World
before = record world {
  faults = none ∷ none ∷ none ∷ none ∷ none ∷ none ∷ none ∷ none ∷ none ∷ none ∷ some 0 ∷ [];
}

abbrev body : Body
body = record { bytes = 5 ∷ []; broken = false }

abbrev checked : World
checked = record world {
  faults = none ∷ none ∷ none ∷ none ∷ none ∷ none ∷ none ∷ none ∷ none ∷ some 0 ∷ [];
}

abbrev refused_put : World
refused_put = record world {
  files = record two_files {
    contents = (0, 1 ∷ 2 ∷ 3 ∷ []) ∷ (1, 5 ∷ []) ∷ (2, 5 ∷ []) ∷ [];
    made = 3;
  };
  drawn = 1;
  faults = none ∷ some 0 ∷ [];
}

abbrev stated : World
stated = record refused_put { faults = some 0 ∷ [] }

arguments_pass : validate_namespace_digest env "app" two_digest before ≡ (ok tt, checked)
unfolding validate_namespace_digest validate_name matches derive nullable validate_digest
    namespace_exists Sql.namespace_exists lookup string_eq ◌>>=◌
arguments_pass = refl

is_committed :
    put_blob env "app" two_digest (pos 1) body checked
    ≡ (err (store StoreError.blob_committed ∷ []), refused_put)
unfolding put_blob Digests.validate_digest new_uuid write_blob hasher_for write_to_staging os_create
    inode create copy_body append read match_digest link_staged_file os_link link
    remove_file_if_exists os_remove unlink lookup put remove string_eq pair_eq nat_eq ◌>>=◌
is_committed = refl

has_size : stat_blob env "app" two_digest refused_put ≡ (ok 1, stated)
unfolding stat_blob Digests.validate_digest os_stat inode read lookup string_eq pair_eq nat_eq ◌>>=◌
has_size = refl

is_not_registered :
    register "app" two_digest 1 stated ≡ (err (sys SysError.external ∷ []), calm stated)
unfolding register atomic ◌>>=◌
is_not_registered = refl

monolithic_upload_cleanup_example :
    content
      ("app", ("sha256", "0b"))
      (monolithic_upload env "app" two_digest (pos 1) body before).1.files
    ≡ none
unfolding string_eq
monolithic_upload_cleanup_example =
    monolithic_upload_cleanup env "app" two_digest checked refused_put stated stated 1 0
      (sys SysError.external ∷ []) has_size is_not_registered (pos 1) body before arguments_pass
      is_committed refl refl

abbrev no_flags : Arguments
no_flags = record { addr = none; metastore_dsn = none; blobstore_path = none }

abbrev stopped : Course
stopped = record {
  first = signal;
  shutdown = ok tt;
  after = err (local LocalError.server_closed ∷ []);
}

omnistash_main_exits_example :
    ((((omnistash_main (given no_flags) stopped (calm world)).0 ≡ ok 0)
        × IsOrderly stopped (calm world))
      ⊎ (((omnistash_main (given no_flags) stopped (calm world)).0 ≡ ok 1)
          × ¬ IsOrderly stopped (calm world)))
    × (((omnistash_main (given no_flags) stopped (calm world)).1
          ≡ record (calm world) { faults = beyond 6 [] })
        ⊎ (¬ Succeeds 4 []))
    × (omnistash_main help stopped (calm world) ≡ (ok 0, calm world))
    × (omnistash_main refused stopped (calm world) ≡ (ok 2, calm world))
omnistash_main_exits_example = omnistash_main_exits no_flags stopped (calm world)
