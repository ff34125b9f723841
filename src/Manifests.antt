-- ===== src/Manifests.antt =====
-- The manifest service: internal/manifest/service.go, utils.go, validate.go and models.go.
use omnistash.Base.{ℕ, String, ◌<>◌, ◌==◌, string_eq, Bool, false, ◌&&◌, not, if◌then◌else◌}
use omnistash.Base.{Option, none, some, length, List, [], ◌∷◌, ◌||◌, eqb}
use omnistash.Base.Int.{pos}
use omnistash.Errors.{Result, ok, err, fail, is, oci, store, sys, OciError, StoreError, SysError}
use omnistash.Metastore.Tables.{Digest, ManifestRow, ReferrerRow}
use omnistash.Metastore.Tx
use omnistash.Metastore.Store
use omnistash.Metastore.Store.{atomic}
use omnistash.Env.{Env, Manifest, Verdict, valid, unsupported, malformed}
use omnistash.Name.{validate_name, codes}
use omnistash.Blobstore.Files.{Bytes}
use omnistash.Blobstore.Writer
use omnistash.Blobstore.Reader
use omnistash.Blobstore.Deleter
use omnistash.Blob.Service.{if_exists, map_is}
use omnistash.World.{Proc, pure, lift, attempt, quietly, ◌>>=◌, ◌>>◌}

-- models.go
pub record ManifestInfo : Type 0 where
  pub digest : Digest
  pub media_type : String
  pub size : ℕ

pub record PutResult : Type 0 where
  pub digest : Digest
  pub location : String
  pub subject : Option Digest

-- `convertRowToManifestInfo`
abbrev pub convert_row_to_manifest_info : ManifestRow → ManifestInfo
convert_row_to_manifest_info row = record {
  digest = row.digest;
  media_type = row.media_type;
  size = row.size;
}

-- `ocispec.MediaTypeImageManifest`
abbrev pub media_type_image_manifest : String
media_type_image_manifest = "application/vnd.oci.image.manifest.v1+json"

-- `deriveReferrerArtifactType`
unfoldable pub derive_referrer_artifact_type : Manifest → String
derive_referrer_artifact_type m =
    if not (m.artifact_type == "")
    then m.artifact_type
    else if (m.media_type == media_type_image_manifest) && not (m.config_media_type == "")
    then m.config_media_type
    else ""

-- The digest of the subject, if there is a subject and its digest is not empty.
abbrev pub named_subject : Option Digest → Option Digest
named_subject none = none
named_subject (some d) = if d == "" then none else some d

abbrev pub referrer_of : Manifest → Digest → ℕ → Option Digest → Option ReferrerRow
referrer_of m d size none = none
referrer_of m d size (some subject) = some (record {
  subject_digest = subject;
  digest = d;
  media_type = m.media_type;
  artifact_type = derive_referrer_artifact_type m;
  size = size;
  annotations = m.annotations;
})

-- `deriveReferrer`
unfoldable pub derive_referrer : Manifest → Digest → ℕ → Option ReferrerRow
derive_referrer m d size = referrer_of m d size (named_subject m.subject)

abbrev pub typed : String → Option Manifest → Result Manifest
typed content_type none = err (oci OciError.manifest_invalid ∷ sys SysError.external ∷ [])
typed content_type (some m) =
    let m' : Manifest = if content_type == "" then m else record m { media_type = content_type } in
    if m'.media_type == "" then fail (oci OciError.manifest_invalid) else ok m'

-- `parseManifestBody`
unfoldable pub parse_manifest_body : Env → String → Bytes → Result Manifest
parse_manifest_body env content_type body = typed content_type (env.unmarshal body)

abbrev pub parsed : Digest → Verdict → Result Digest
parsed d valid = ok d
parsed d unsupported = fail (oci OciError.digest_invalid)
parsed d malformed = fail (oci OciError.digest_invalid)

abbrev pub has : ℕ → List ℕ → Bool
has c [] = false
has c (x ∷ xs) = eqb x c || has c xs

-- `validateDigestReference`
unfoldable pub validate_digest_reference : Env → String → Result Digest
validate_digest_reference env ref =
    if has b':' (codes ref) then parsed ref (env.validate ref) else fail (oci OciError.unsupported)

-- `checkNamespaceExists`, which internal/referrer/validate.go has too
unfoldable pub check_namespace_exists : String → Proc (Unit {0})
check_namespace_exists name = do exists ← Store.namespace_exists name; lift (if_exists exists)

-- `validateContext`
unfoldable pub validate_context : Env → String → String → Proc Digest
validate_context env ns reference = do
  lift (validate_name ns)
  d ← lift (validate_digest_reference env reference)
  check_namespace_exists ns
  pure d

abbrev pub upsert_if : String → Option ReferrerRow → Proc (Unit {0})
upsert_if ns none = pure tt
upsert_if ns (some row) = Tx.upsert_referrer ns row

-- `storeManifest`
unfoldable pub store_manifest : String → String → Digest → ℕ → Option ReferrerRow → Proc (Unit {0})
store_manifest ns media_type d size ref =
    atomic (do Tx.insert_manifest ns d media_type size; upsert_if ns ref)

abbrev pub unless_committed : Result ℕ → Result (Unit {0})
unless_committed (ok n) = ok tt
unless_committed (err e) = if is e (store StoreError.blob_committed) then ok tt else err e

-- `PutManifest`
unfoldable pub put_manifest : Env → String → String → String → Bytes → Proc PutResult
put_manifest env ns reference content_type body = do
  lift (validate_name ns)
  ref ← lift (validate_digest_reference env reference)
  let d = env.from_bytes body
  lift (if d == ref then ok tt else fail (oci OciError.digest_invalid))
  check_namespace_exists ns
  m ← lift (parse_manifest_body env content_type body)
  let size = length body
  put ← attempt (Writer.put_blob env ns d (pos size) (record { bytes = body; broken = false }))
  lift (unless_committed put)
  store_manifest ns m.media_type d size (derive_referrer m d size)
  pure (record {
    digest = d;
    location = "/v2/" <> (ns <> ("/manifests/" <> d));
    subject = named_subject m.subject;
  })

-- `resolveManifest`
unfoldable pub resolve_manifest : Env → String → String → Proc ManifestRow
resolve_manifest env ns reference = do
  d ← validate_context env ns reference
  atomic (Tx.get_manifest_by_digest ns d)

-- `GetManifest`: the row and the bytes of the reader
unfoldable pub get_manifest : Env → String → String → Proc (ManifestInfo × Bytes)
get_manifest env ns reference = do
  row ← resolve_manifest env ns reference
  r ← attempt (Reader.get_blob env ns row.digest)
  got ← lift (map_is (store StoreError.blob_unknown) (oci OciError.manifest_unknown) r)
  pure (convert_row_to_manifest_info row, got.0)

-- `HeadManifest`
unfoldable pub head_manifest : Env → String → String → Proc ManifestInfo
head_manifest env ns reference = do
  row ← resolve_manifest env ns reference
  pure (convert_row_to_manifest_info row)

-- `DeleteManifest`
unfoldable pub delete_manifest : Env → String → String → Proc (Unit {0})
delete_manifest env ns reference = do
  d ← validate_context env ns reference
  atomic (do Tx.delete_manifest_by_digest ns d; Tx.delete_referrer ns d)
  quietly (Deleter.delete_blob env ns d)
