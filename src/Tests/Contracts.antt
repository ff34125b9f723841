-- ===== src/Tests/Contracts.antt =====
-- The contract suites at a concrete environment, and the clean-up and the programs at concrete inputs.
use omnistash.Base.{
  ℕ, zero, suc, ◌+◌, ◌≡◌, ◌≢◌, refl, none, [], ◌∷◌, String, true, false, string_eq, pair_eq, nat_eq,
  ◌==◌, if◌then◌else◌, arith,
}
use omnistash.Errors.{ok}
use omnistash.Metastore.Tables.{Digest}
use omnistash.Env.{Env, Verdict, valid, malformed}
use omnistash.Blobstore.Files.{Bytes}
use omnistash.Contracts.Blobs.{exercise_blob_store_contract}
use omnistash.Contracts.Blobs.Fixtures.{test_digest, test_digest_512, empty_digest}
use omnistash.Contracts.Metadata.{exercise_metadata_store_contract}
use omnistash.Contracts.Metadata.Fixtures.{Digests}
use omnistash.Contracts.Passes.Sqlite.{sqlite}
use omnistash.Contracts.Passes.Metadata.{exercise_metadata_store_contract_passes}
use omnistash.Contracts.Passes.Fs.{Knows, fs, test_hex, test_512_hex}
use omnistash.Contracts.Passes.Files.{exercise_blob_store_contract_passes}
use omnistash.Tests.Fixture.{world}

abbrev digests : Digests
digests = record {
  test = "sha256:01";
  unknown = "sha256:02";
  manifest = "sha256:03";
  subject = "sha256:04";
  referrer = "sha256:05";
  referrer_2 = "sha256:06";
}

differ : (s t : String) → (s == t) ≡ false → s ≢ t
differ s t e h = ground arith

two_referrers : digests.referrer_2 ≢ digests.referrer
unfolding string_eq
two_referrers = differ "sha256:06" "sha256:05" refl

exercise_metadata_store_contract_passes_example :
    exercise_metadata_store_contract (sqlite digests) world ≡ (ok tt, world)
exercise_metadata_store_contract_passes_example =
    exercise_metadata_store_contract_passes digests world two_referrers

abbrev judge : Digest → Verdict
judge d = if d == "notadigest" then malformed else valid

abbrev empty_hex : String
empty_hex = "e3b0c44298fc1c149afbf4c8996fb92427ae41e4649b934ca495991b7852b855"

abbrev hex_of : Digest → String
hex_of d =
    if d == test_digest
    then test_hex
    else if d == test_digest_512
    then test_512_hex
    else if d == empty_digest
    then empty_hex
    else "0000000000000000000000000000000000000000000000000000000000000000"

-- The digests of the empty content and of every other.
abbrev sum : String → Bytes → Digest
sum a [] = empty_digest
sum a (b ∷ bs) = if a == "sha512" then test_digest_512 else test_digest

-- Two UUIDs by turns.
abbrev turn : ℕ → String
turn zero = "u0"
turn (suc zero) = "u1"
turn (suc (suc n)) = turn n

abbrev known : Env
known = record {
  validate = judge;
  algorithm = λ d. if d == test_digest_512 then "sha512" else "sha256";
  hex = hex_of;
  available = λ a. true;
  new_digest = sum;
  from_bytes = sum "sha256";
  uuid = turn;
  unmarshal = λ b. none;
  decode_namespace = λ b broken. none;
}

turn_text : (n : ℕ) → turn n ≢ ""
unfolding string_eq
turn_text zero = differ "u0" "" refl
turn_text (suc zero) = differ "u1" "" refl
turn_text (suc (suc n)) = turn_text n

turns : (n : ℕ) → turn n ≢ turn (suc n)
unfolding string_eq
turns zero = differ "u0" "u1" refl
turns (suc zero) = differ "u1" "u0" refl
turns (suc (suc n)) = turns n

turn_unique : (n : ℕ) → turn n ≢ turn (n + 1)
turn_unique n = let e : n + 1 ≡ suc n = omega arith in rw e (turns n)

knows : Knows known
unfolding string_eq
knows = record {
  reads_test = record { is_valid = refl; has_algorithm = refl; has_hex = refl };
  reads_512 = record { is_valid = refl; has_algorithm = refl; has_hex = refl };
  reads_zero = record { is_valid = refl; has_algorithm = refl; has_hex = refl };
  reads_empty = record { is_valid = refl; has_algorithm = refl; has_hex = refl };
  refuses = refl;
  has_sha256 = refl;
  has_sha512 = refl;
  sha256_test = refl;
  sha512_test = refl;
  sha256_empty = refl;
  uuid_text = turn_text;
  uuid_unique = turn_unique;
}

exercise_blob_store_contract_passes_example :
    exercise_blob_store_contract (fs known) world ≡ (ok tt, world)
exercise_blob_store_contract_passes_example = exercise_blob_store_contract_passes known knows world
