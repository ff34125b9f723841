-- ===== src/Blobstore/Digests.antt =====
-- internal/blobstore/digest.go
use omnistash.Base.{String, ◌==◌, string_eq, if◌then◌else◌}
use omnistash.Errors.{Result, ok, fail, store, StoreError}
use omnistash.Metastore.Tables.{Digest}
use omnistash.Env.{Env, Verdict, valid, unsupported, malformed}

-- `ValidateDigest`
abbrev pub judged : Verdict → Result (Unit {0})
judged valid = ok tt
judged unsupported = fail (store StoreError.invalid_digest)
judged malformed = fail (store StoreError.invalid_digest)

unfoldable pub validate_digest : Env → Digest → Result (Unit {0})
validate_digest env d = judged (env.validate d)

-- `HasherFor`: the algorithm of the hasher
unfoldable pub hasher_for : Env → Digest → Result String
hasher_for env d =
    if env.available (env.algorithm d)
    then ok (env.algorithm d)
    else fail (store StoreError.invalid_digest)

-- `MatchDigest`
unfoldable pub match_digest : Digest → Digest → Result (Unit {0})
match_digest expected actual =
    if expected == actual then ok tt else fail (store StoreError.digest_mismatch)
