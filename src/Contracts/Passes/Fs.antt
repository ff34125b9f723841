-- ===== src/Contracts/Passes/Fs.antt =====
-- The store over files as the suite sees it, what go-digest and uuid document of the fixtures, and
-- the paths that the tests compare.
use omnistash.Base.{ℕ, ap, ◌≡◌, ◌≢◌, refl, true, false, String, [], ◌∷◌, ◌==◌, ==_refl, string_eq}
use omnistash.Base.{nat_eq, pair_eq, some, ◌+◌, arith}
use omnistash.Base.Table.{lookup, put, remove}
use omnistash.Metastore.Tables.{Digest}
use omnistash.Errors.{Result}
use omnistash.Env.{Env, valid, malformed}
use omnistash.Blobstore.Files.{FilePath, Files, no_files, read, inode, create, append, link, unlink}
use omnistash.Blobstore.Os.{
  build_staging_path, os_open, os_stat, file_stat, os_create, os_link, os_remove,
  remove_file_if_exists, copy_body,
}
use omnistash.Blobstore.Digests.{validate_digest, hasher_for, match_digest}
use omnistash.Blobstore.Writer
use omnistash.Blobstore.Upload
use omnistash.Blobstore.Reader
use omnistash.Blobstore.Deleter
use omnistash.Contracts.Stores.{BlobStore, fs_store}
use omnistash.Contracts.Blobs.Fixtures.{
  Setup, default_namespace, other_namespace, test_digest, test_digest_512, zero_digest,
  empty_digest, malformed_digest, test_content,
}
use omnistash.World.{World, ◌>>=◌}

-- What go-digest documents of the digest `algorithm:hex` of a fixture.
pub record Reads (env : Env) (d : Digest) (algorithm hex : String) : Type 0 where
  pub is_valid : env.validate d ≡ valid
  pub has_algorithm : env.algorithm d ≡ algorithm
  pub has_hex : env.hex d ≡ hex

-- What go-digest and uuid document of the fixtures.
pub record Knows (env : Env) : Type 0 where
  pub reads_test :
      Reads env test_digest "sha256"
        "44136fa355b3678a1146ad16f7e8649e94fb4fc21fe77e8310c060f61caaff8a"
  pub reads_512 :
      Reads env test_digest_512 "sha512"
        "27c74670adb75075fad058d5ceaf7b20c4e7786c83bae8a32f626f9782af34c9a33c2046ef60fd2a7878d378e29fec851806bbd9a67878f3a9f1cda4830763fd"
  pub reads_zero :
      Reads env zero_digest "sha256"
        "0000000000000000000000000000000000000000000000000000000000000000"
  pub reads_empty :
      Reads env empty_digest "sha256"
        "e3b0c44298fc1c149afbf4c8996fb92427ae41e4649b934ca495991b7852b855"
  pub refuses : env.validate malformed_digest ≡ malformed
  pub has_sha256 : env.available "sha256" ≡ true
  pub has_sha512 : env.available "sha512" ≡ true
  pub sha256_test : env.new_digest "sha256" test_content ≡ test_digest
  pub sha512_test : env.new_digest "sha512" test_content ≡ test_digest_512
  pub sha256_empty : env.new_digest "sha256" [] ≡ empty_digest
  pub uuid_text : (n : ℕ) → env.uuid n ≢ ""
  pub uuid_unique : (n : ℕ) → env.uuid n ≢ env.uuid (n + 1)

-- `FilesystemBlobStore`, which opens its operations together.
unfoldable pub store : Env → BlobStore
unfolding ◌>>=◌ string_eq nat_eq lookup put remove read inode create append link unlink os_open
    os_stat file_stat os_create os_link os_remove remove_file_if_exists copy_body validate_digest
    hasher_for match_digest Writer.put_blob Writer.stat_blob Writer.new_uuid Writer.write_blob
    Writer.write_to_staging Writer.link_staged_file Upload.initiate_blob_upload
    Upload.append_blob_chunk Upload.get_blob_upload_offset Upload.verify_staging_blob
    Upload.commit_staging_blob Upload.finalize_blob_upload Upload.cancel_blob_upload Reader.get_blob
    Reader.get_blob_range Deleter.delete_blob Deleter.batch_delete_blobs Deleter.sort_digests
    Deleter.remove_batch Deleter.remove_command_paths
store env = fs_store env

-- A store in a directory of its own, with the vacuum started, while the operating system answers.
abbrev pub at : World → ℕ → Files → World
at w n fs = record w { files = fs; faults = []; drawn = n; jobs = some w.made; made = w.made + 1 }

-- `newStore`
abbrev pub new_fs : World → World
new_fs w = at w w.drawn no_files

abbrev pub fs : Env → Setup
fs env = record { store = store env; new_store = new_fs }

-- The path of a committed blob in a namespace.
abbrev pub blob_path : String → String → String → FilePath
blob_path ns algorithm hex = (ns, (algorithm, hex))

pub same_path : (p : FilePath) → (p == p) ≡ true
same_path p = ==_refl p

sha256_visible : ◌==◌ {A = String} "sha256" ".staging" ≡ false
unfolding string_eq
sha256_visible = refl

sha512_visible : ◌==◌ {A = String} "sha512" ".staging" ≡ false
unfolding string_eq
sha512_visible = refl

-- A blob's path is no staging path.
module _ (ns ns' hex id : String) where
  pub sha256_ne_staging : (blob_path ns "sha256" hex == build_staging_path ns' id) ≡ false
  sha256_ne_staging = ground (arith, sha256_visible)

  pub staging_ne_sha256 : (build_staging_path ns' id == blob_path ns "sha256" hex) ≡ false
  staging_ne_sha256 = ground (arith, sha256_visible)

  pub sha512_ne_staging : (blob_path ns "sha512" hex == build_staging_path ns' id) ≡ false
  sha512_ne_staging = ground (arith, sha512_visible)

  pub staging_ne_sha512 : (build_staging_path ns' id == blob_path ns "sha512" hex) ≡ false
  staging_ne_sha512 = ground (arith, sha512_visible)

abbrev pub test_hex : String
test_hex = "44136fa355b3678a1146ad16f7e8649e94fb4fc21fe77e8310c060f61caaff8a"

abbrev pub test_512_hex : String
test_512_hex =
    "27c74670adb75075fad058d5ceaf7b20c4e7786c83bae8a32f626f9782af34c9a33c2046ef60fd2a7878d378e29fec851806bbd9a67878f3a9f1cda4830763fd"

abbrev pub test_path : FilePath
test_path = blob_path default_namespace "sha256" test_hex

abbrev pub test_512_path : FilePath
test_512_path = blob_path default_namespace "sha512" test_512_hex

abbrev pub other_path : FilePath
other_path = blob_path other_namespace "sha256" test_hex

pub test_512_ne_test : (test_512_path == test_path) ≡ false
unfolding string_eq pair_eq
test_512_ne_test = refl

pub other_ne_test : (other_path == test_path) ≡ false
unfolding string_eq pair_eq
other_ne_test = refl

names_differ : ◌==◌ {A = String} other_namespace default_namespace ≡ false
unfolding string_eq
names_differ = refl

-- One upload has two paths in two namespaces.
pub other_staging :
    (id : String)
    → (build_staging_path other_namespace id == build_staging_path default_namespace id) ≡ false
other_staging id = ground (arith, names_differ)

pub ruleset path_laws = (
  same_path, sha256_ne_staging, staging_ne_sha256, sha512_ne_staging, staging_ne_sha512,
  test_512_ne_test, other_ne_test,
)

-- The files with the test content under a path, after it was stored in an empty store.
abbrev pub one_file : FilePath → Files
one_file p = record { names = (p, 0) ∷ []; contents = (0, test_content) ∷ []; made = 1 }

-- The world after a call, from an equation on the call.
pub world_after : {A : Type 0} {x y : Result A × World} → x ≡ y → x.1 ≡ y.1
world_after e = ap (λ r. r.1) e
