-- ===== src/Env.antt =====
-- What the program takes from packages outside the repository, as parameters: github.com/
-- opencontainers/go-digest, github.com/google/uuid, `json.Unmarshal` on an image manifest and a JSON
-- decoder on a namespace request.
use omnistash.Base.{ℕ, String, ◌≡◌, ◌≢◌, Bool, true, Option}
use omnistash.Metastore.Tables.{Digest, Annotations}
use omnistash.Blobstore.Files.{Bytes}

-- What `Digest.Validate` says: nil, `ErrDigestUnsupported` or another error.
pub data Verdict : Type 0 where
  valid unsupported malformed : Verdict

-- The fields of `ocispec.Manifest` that the program reads. `subject` is the digest of the subject's
-- descriptor, `none` if there is no subject.
pub record Manifest : Type 0 where
  pub media_type : String
  pub artifact_type : String
  pub config_media_type : String
  pub subject : Option Digest
  pub annotations : Annotations

pub record Env : Type 0 where
  -- `Digest.Validate`, `Digest.Algorithm`, `Digest.Hex` and `Algorithm.Available`
  pub validate : Digest → Verdict
  pub algorithm : Digest → String
  pub hex : Digest → String
  pub available : String → Bool
  -- `NewDigest(algorithm, h)` for a hash `h` that was fed the bytes
  pub new_digest : String → Bytes → Digest
  -- `digest.FromBytes`
  pub from_bytes : Bytes → Digest
  -- the UUIDs in the order in which they are drawn
  pub uuid : ℕ → String
  -- `json.Unmarshal(body, &manifest)`
  pub unmarshal : Bytes → Option Manifest
  -- `Decode` of a namespace request, whose fields must be known, from a body that gives the bytes and
  -- then ends or, if the flag is set, breaks off
  pub decode_namespace : Bytes → Bool → Option String

-- What go-digest documents of a digest that it validates: it reads `algorithm:hex`, so the two
-- parts determine it; its algorithm is available, and is no name that begins with a dot.
pub record IsLawful (env : Env) : Type 0 where
  pub valid_available :
      (d : Digest) → env.validate d ≡ Verdict.valid → env.available (env.algorithm d) ≡ true
  pub valid_unique :
      (d e : Digest)
      → env.validate d ≡ Verdict.valid
      → env.validate e ≡ Verdict.valid
      → env.algorithm d ≡ env.algorithm e
      → env.hex d ≡ env.hex e
      → d ≡ e
  pub valid_visible : (d : Digest) → env.validate d ≡ Verdict.valid → env.algorithm d ≢ ".staging"
