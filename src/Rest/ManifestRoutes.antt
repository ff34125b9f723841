-- ===== src/Rest/ManifestRoutes.antt =====
-- rest/manifest.go and rest/referrers.go.
use omnistash.Base.{
  ℕ, String, Bool, false, Option, none, some, if◌then◌else◌, List, [], ◌∷◌, length, ltb,
}
use omnistash.Errors.{Result, ok, err, fail, is, oci, sys, OciError, SysError}
use omnistash.Metastore.Tables.{Digest}
use omnistash.Env.{Env, Verdict, valid, unsupported, malformed}
use omnistash.Blobstore.Files.{Bytes}
use omnistash.Blobstore.Os.{Body}
use omnistash.Name.{codes}
use omnistash.Manifests
use omnistash.Manifests.{ManifestInfo, PutResult}
use omnistash.Referrers
use omnistash.Referrers.{ListResult}
use omnistash.Rest.Paths.{Text}
use omnistash.Rest.Decimal.{format_nat}
use omnistash.Rest.Http.{
  Request, Response, Payload, Message, bare, query_value, header_value, registry_err_to_http,
  write_oci_error, answer_with, or_http, or_no_body, if_marshalled,
}
use omnistash.World.{Proc, pure, attempt, quietly, trip, ◌>>=◌, ◌>>◌}

abbrev pub manifest_headers : ManifestInfo → List (String × Text)
manifest_headers info =
    ("Content-Type", codes info.media_type)
    ∷ ("Content-Length", format_nat info.size)
    ∷ ("Docker-Content-Digest", codes info.digest)
    ∷ []

-- `handleGetManifest`; the close of the reader is only logged.
unfoldable pub handle_get_manifest : Env → String → String → Request → Proc Response
handle_get_manifest env ns reference r = or_http (Manifests.get_manifest env ns reference) λ got. do
  quietly trip
  pure (record {
    status = 200;
    headers = manifest_headers got.0;
    payload = Payload.stream (ok got.1);
  })

-- `handleHeadManifest`
unfoldable pub handle_head_manifest : Env → String → String → Request → Proc Response
handle_head_manifest env ns reference r =
    or_no_body (Manifests.head_manifest env ns reference) λ info.
      pure (record { status = 200; headers = manifest_headers info; payload = Payload.no_body })

-- 4 MiB
abbrev pub max_manifest_size : ℕ
max_manifest_size = 4194304

-- `io.ReadAll(io.LimitReader(body, limit+1))`: an error behind the limit is not reached. Bytes more
-- than that are not read; the code looks at their number alone, so they are left in here.
abbrev pub read_limited : ℕ → Body → Result Bytes
read_limited limit body =
    if ltb limit (length body.bytes)
    then ok body.bytes
    else if body.broken
    then fail (sys SysError.external)
    else ok body.bytes

abbrev pub subject_header : Option Digest → List (String × Text)
subject_header none = []
subject_header (some d) = ("OCI-Subject", codes d) ∷ []

abbrev pub manifest_created : PutResult → Response
manifest_created result = record {
  status = 201;
  headers =
      ("Location", codes result.location)
      ∷ ("Docker-Content-Digest", codes result.digest)
      ∷ subject_header result.subject;
  payload = Payload.no_body;
}

-- `handlePutManifest`
unfoldable pub handle_put_manifest : Env → String → String → Request → Proc Response
handle_put_manifest env ns reference r =
    let content_type = header_value r "Content-Type" in
    answer_with (read_limited max_manifest_size r.body) registry_err_to_http λ bytes.
      if ltb max_manifest_size (length bytes)
      then pure (bare 413)
      else or_http (Manifests.put_manifest env ns reference content_type bytes)
          λ result. pure (manifest_created result)

-- `handleDeleteManifest`
unfoldable pub handle_delete_manifest : Env → String → String → Request → Proc Response
handle_delete_manifest env ns reference r =
    or_http (Manifests.delete_manifest env ns reference) λ done. pure (bare 202)

abbrev pub filter_header : Bool → List (String × Text)
filter_header b = if b then ("OCI-Filters-Applied", codes "artifactType") ∷ [] else []

-- The answer of `handleGetReferrers` to a result. The index is marshalled first.
abbrev pub write_index : ListResult → Proc Response
write_index result = do
  m ← attempt trip
  if_marshalled m
      (pure (record {
        status = 200;
        headers =
            ("Content-Type", codes "application/vnd.oci.image.index.v1+json")
            ∷ filter_header result.filter_applied;
        payload = Payload.index_json result.manifests;
      }))
      (write_oci_error 500 "INTERNAL_ERROR" (Message.fixed "internal server error"))

-- A namespace that does not exist has no referrers.
abbrev pub listed : Result ListResult → Proc Response
listed (ok result) = write_index result
listed (err e) =
    if is e (oci OciError.name_unknown)
    then write_index (record { manifests = []; filter_applied = false })
    else registry_err_to_http e

-- `digest.Parse` gives an error exactly if `Validate` does.
abbrev pub if_parsed : Verdict → Proc Response → Proc Response
if_parsed valid next = next
if_parsed unsupported next = registry_err_to_http (oci OciError.digest_invalid ∷ [])
if_parsed malformed next = registry_err_to_http (oci OciError.digest_invalid ∷ [])

-- `handleGetReferrers`
unfoldable pub handle_get_referrers : Env → String → String → Request → Proc Response
handle_get_referrers env ns raw r = if_parsed (env.validate raw) (do
  result ← attempt (Referrers.list_referrers ns raw (query_value r "artifactType"))
  listed result)
