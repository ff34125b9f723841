-- ===== src/Rest/Uploads.antt =====
-- rest/blob_uploader.go: mounts, uploads in one request and upload sessions.
use omnistash.Base.{
  ℕ, zero, suc, ◌-◌, String, ◌==◌, string_eq, not, Option, none, some, if◌then◌else◌, ◌++◌, [], ◌∷◌,
  ◌&&◌,
}
use omnistash.Base.Int.{ℤ, pos, negsuc, lt_int}
use omnistash.Errors.{Result, ok, err, is, local, LocalError}
use omnistash.Metastore.Tables.{Digest}
use omnistash.Env.{Env}
use omnistash.Blobstore.Os.{Body}
use omnistash.Name.{codes, validate_name}
use omnistash.Blob.Service
use omnistash.Blob.Service.{validate_digest}
use omnistash.Blob.Session
use omnistash.Rest.Paths.{Text}
use omnistash.Rest.Decimal.{format_nat, format_int, parse_int}
use omnistash.Rest.Ranges.{parse_content_range_header}
use omnistash.Rest.Http.{
  Request, Response, Payload, Message, bare, query_value, header_value, registry_err_to_http,
  write_oci_error, answer_with, or_http,
}
use omnistash.Rest.Blobs.{blob_url}
use omnistash.World.{Proc, pure, attempt, ◌>>=◌}

-- `uploadSessionURL`
abbrev pub upload_session_url : String → String → Text
upload_session_url name id = codes "/v2/" ++ (codes name ++ (codes "/blobs/uploads/" ++ codes id))

abbrev pub started : String → String → Response
started name id = record {
  status = 202;
  headers = ("Location", upload_session_url name id) ∷ [];
  payload = Payload.no_body;
}

-- `handleStartUpload`
unfoldable pub handle_start_upload : Env → String → Proc Response
handle_start_upload env name =
    or_http (Session.initiate_upload env name) λ id. pure (started name id)

abbrev pub blob_created : String → Digest → Response
blob_created name d = record {
  status = 201;
  headers = ("Location", blob_url name d) ∷ ("Docker-Content-Digest", codes d) ∷ [];
  payload = Payload.no_body;
}

abbrev pub size_invalid : Proc Response
size_invalid = write_oci_error 400 "SIZE_INVALID" (Message.fixed "invalid Content-Length")

-- What `handleMonolithicUpload` does with the length that the request announces.
abbrev pub upload_sized : Env → String → Digest → Option ℤ → Body → Proc Response
upload_sized env name d none body = size_invalid
upload_sized env name d (some (negsuc n)) body = size_invalid
upload_sized env name d (some (pos n)) body =
    or_http (Service.monolithic_upload env name d (pos n) body) λ done. pure (blob_created name d)

-- `handleMonolithicUpload`
unfoldable pub handle_monolithic_upload : Env → String → Digest → Request → Proc Response
handle_monolithic_upload env name d r =
    answer_with (validate_name name) registry_err_to_http λ named.
      answer_with (validate_digest env d) registry_err_to_http λ valid.
        upload_sized env name d (parse_int (codes (header_value r "Content-Length"))) r.body

abbrev pub mounted : Env → String → Digest → Result (Unit {0}) → Proc Response
mounted env name d (ok done) = pure (blob_created name d)
mounted env name d (err e) =
    if is e (local LocalError.mount_failed)
    then handle_start_upload env name
    else registry_err_to_http e

-- `handleMountBlob`
unfoldable pub handle_mount_blob : Env → String → String → Digest → Proc Response
handle_mount_blob env target source d = do
  r ← attempt (Service.mount_blob env source target d)
  mounted env target d r

-- `handlePostBlobUploads` behind the test of the algorithm.
abbrev pub post_upload : Env → String → Request → Proc Response
post_upload env name r =
    let mount = query_value r "mount" in
    let digest = query_value r "digest" in
    if not (mount == "")
    then handle_mount_blob env name (query_value r "from") mount
    else if not (digest == "")
    then handle_monolithic_upload env name digest r
    else handle_start_upload env name

-- `handlePostBlobUploads`
unfoldable pub handle_post_blob_uploads : Env → String → Request → Proc Response
handle_post_blob_uploads env name r =
    let alg = query_value r "digest-algorithm" in
    if not (alg == "") && not (env.available alg)
    then write_oci_error 400 "UNSUPPORTED" (Message.fixed "unsupported digest algorithm")
    else post_upload env name r

-- `max(0, offset-1)` is the subtraction of ℕ.
abbrev pub status_range : ℕ → Text
status_range offset = codes "0-" ++ format_nat (offset - 1)

-- `handleGetBlobUpload`
unfoldable pub handle_get_blob_upload : Env → String → String → Request → Proc Response
handle_get_blob_upload env name id r = or_http (Session.get_upload_status name id) λ offset.
    pure (record {
      status = 204;
      headers = ("Range", status_range offset) ∷ ("Location", upload_session_url name id) ∷ [];
      payload = Payload.no_body;
    })

-- `offset - 1` of an offset that is not negative
abbrev pub pred_int : ℕ → ℤ
pred_int zero = negsuc 0
pred_int (suc n) = pos n

abbrev pub appended_range : ℕ → Text
appended_range offset = codes "0-" ++ format_int (pred_int offset)

abbrev pub appended : String → String → ℕ → Response
appended name id offset = record {
  status = 202;
  headers = ("Location", upload_session_url name id) ∷ ("Range", appended_range offset) ∷ [];
  payload = Payload.no_body;
}

abbrev pub append_at : String → String → Body → ℕ → Proc Response
append_at name id body offset =
    or_http (Session.append_chunk name id (pos offset) body) λ new. pure (appended name id new)

-- `handlePatchBlobUpload`
unfoldable pub handle_patch_blob_upload : Env → String → String → Request → Proc Response
handle_patch_blob_upload env name id r =
    answer_with (validate_name name) registry_err_to_http λ named.
      let range = header_value r "Content-Range" in
      if range == ""
      then append_at name id r.body 0
      else answer_with (parse_content_range_header (codes range)) registry_err_to_http
          λ given. append_at name id r.body given.0

-- The body is a final chunk if the request announces a length above 0.
abbrev pub chunk_of_length : Option ℤ → Body → Option Body
chunk_of_length none body = none
chunk_of_length (some n) body = if lt_int (pos 0) n then some body else none

-- `ParseInt` refuses an empty header too.
abbrev pub final_chunk : Request → Option Body
final_chunk r = chunk_of_length (parse_int (codes (header_value r "Content-Length"))) r.body

abbrev pub commit_as : Env → String → String → Digest → Request → Proc Response
commit_as env name id d r = answer_with (validate_digest env d) registry_err_to_http λ valid.
    or_http (Session.commit_upload env name id d (final_chunk r)) λ done. pure (blob_created name d)

-- `handlePutBlobUpload`
unfoldable pub handle_put_blob_upload : Env → String → String → Request → Proc Response
handle_put_blob_upload env name id r =
    answer_with (validate_name name) registry_err_to_http λ named.
      let d = query_value r "digest" in
      if d == ""
      then write_oci_error 400 "DIGEST_INVALID" (Message.fixed "digest query parameter required")
      else commit_as env name id d r

-- `handleDeleteBlobUpload`
unfoldable pub handle_delete_blob_upload : Env → String → String → Request → Proc Response
handle_delete_blob_upload env name id r =
    or_http (Session.cancel_upload name id) λ done. pure (bare 204)
