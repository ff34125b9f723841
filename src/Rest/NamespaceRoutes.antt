-- ===== src/Rest/NamespaceRoutes.antt =====
-- rest/handler.go, rest/models.go and internal/health/health.go.
use omnistash.Base.{ℕ, String, true, Option, none, some, if◌then◌else◌, length, ltb, take}
use omnistash.Env.{Env}
use omnistash.Metastore.Tables.{NamespaceRow}
use omnistash.Blobstore.Os.{Body}
use omnistash.Namespaces
use omnistash.Rest.Http.{
  Request, Response, Payload, Message, Health, bare, json_headers, write_oci_error, or_http,
  if_marshalled,
}
use omnistash.World.{Proc, pure, attempt, trip, ◌>>=◌}

-- `HandleBaseCheck`
unfoldable pub handle_base_check : Proc Response
handle_base_check =
    pure (record { status = 200; headers = json_headers; payload = Payload.empty_json })

-- `Checker.Check`
abbrev pub check : String → String → String → Health
check version commit date = record {
  status = "ok";
  version = version;
  commit = commit;
  date = date;
}

-- `HandleHealth`
unfoldable pub handle_health : Health → Proc Response
handle_health status = do
  m ← attempt trip
  if_marshalled m
      (pure (record { status = 200; headers = json_headers; payload = Payload.health_json status }))
      (pure (bare 500))

abbrev pub max_namespace_request_bytes : ℕ
max_namespace_request_bytes = 4096

-- `http.MaxBytesReader`: behind the limit reading ends by an error.
abbrev pub max_bytes_reader : ℕ → Body → Body
max_bytes_reader limit body =
    if ltb limit (length body.bytes)
    then record { bytes = take limit body.bytes; broken = true }
    else body

-- What both handlers write of a row.
abbrev pub write_namespace : ℕ → NamespaceRow → Proc Response
write_namespace status row = do
  m ← attempt trip
  if_marshalled m
      (pure
        (record { status = status; headers = json_headers; payload = Payload.namespace_json row }))
      (write_oci_error 500 "INTERNAL_ERROR" (Message.fixed "internal server error"))

abbrev pub create_decoded : Option String → Proc Response
create_decoded none = write_oci_error 400 "NAME_INVALID" (Message.fixed "invalid request body")
create_decoded (some name) = or_http (Namespaces.create_namespace name) (write_namespace 201)

-- `HandleCreateNamespace`
unfoldable pub handle_create_namespace : Env → Request → Proc Response
handle_create_namespace env r =
    let body = max_bytes_reader max_namespace_request_bytes r.body in
    create_decoded (env.decode_namespace body.bytes body.broken)

-- `HandleDeleteNamespace`
unfoldable pub handle_delete_namespace : String → Proc Response
handle_delete_namespace name = or_http (Namespaces.delete_namespace name) (write_namespace 200)
