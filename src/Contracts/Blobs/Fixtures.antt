-- ===== src/Contracts/Blobs/Fixtures.antt =====
-- internal/blobstore/blobstoretest/fixtures.go
use omnistash.Base.{String, Bool, true, false, ◌&&◌, [], ◌∷◌, eqb, length}
use omnistash.Base.Int.{ℤ, pos}
use omnistash.Metastore.Tables.{Digest}
use omnistash.Blobstore.Files.{Bytes}
use omnistash.Blobstore.Os.{Body}
use omnistash.Contracts.Stores.{BlobStore}
use omnistash.Contracts.Testing.{Test, must}
use omnistash.World.{World, pure, ◌>>◌}

abbrev pub default_namespace : String
default_namespace = "library/test"

abbrev pub other_namespace : String
other_namespace = "library/other"

abbrev pub malformed_digest : Digest
malformed_digest = "notadigest"

abbrev pub fake_upload_id : String
fake_upload_id = "00000000-0000-4000-8000-000000000000"

abbrev pub zero_digest : Digest
zero_digest = "sha256:0000000000000000000000000000000000000000000000000000000000000000"

abbrev pub empty_digest : Digest
empty_digest = "sha256:e3b0c44298fc1c149afbf4c8996fb92427ae41e4649b934ca495991b7852b855"

-- The bytes of "{", "}" and "{}".
abbrev pub opening : Bytes
opening = b'{' ∷ []

abbrev pub closing : Bytes
closing = b'}' ∷ []

abbrev pub test_content : Bytes
test_content = b'{' ∷ b'}' ∷ []

abbrev pub test_digest : Digest
test_digest = "sha256:44136fa355b3678a1146ad16f7e8649e94fb4fc21fe77e8310c060f61caaff8a"

abbrev pub test_digest_512 : Digest
test_digest_512 =
    "sha512:27c74670adb75075fad058d5ceaf7b20c4e7786c83bae8a32f626f9782af34c9a33c2046ef60fd2a7878d378e29fec851806bbd9a67878f3a9f1cda4830763fd"

-- `strings.NewReader`
abbrev pub reader : Bytes → Body
reader b = record { bytes = b; broken = false }

-- `int64(len(…))`
abbrev pub size_of : Bytes → ℤ
size_of b = pos (length b)

-- `assert.Equal` on contents
abbrev pub equal_bytes : Bytes → Bytes → Bool
equal_bytes [] [] = true
equal_bytes [] (b ∷ bs) = false
equal_bytes (a ∷ as') [] = false
equal_bytes (a ∷ as') (b ∷ bs) = eqb a b && equal_bytes as' bs

-- What the suite is given: a store, and how a test sets up a new one.
pub record Setup : Type 0 where
  pub store : BlobStore
  pub new_store : World → World

module _ (s : BlobStore) where
  -- `seedBlob`
  unfoldable pub seed_blob : String → Digest → Bytes → Test
  seed_blob ns d b = do must (s.put_blob ns d (size_of b) (reader b)); pure tt

  -- `seedTestBlob`
  unfoldable pub seed_test_blob : Test
  unfolding seed_blob
  seed_test_blob = seed_blob default_namespace test_digest test_content

  -- `if tc.seed { seedTestBlob(t, s) }`
  abbrev pub seed_if : Bool → Test
  seed_if true = seed_test_blob
  seed_if false = pure tt
