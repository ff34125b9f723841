-- ===== src/Rest/Http.antt =====
-- Requests and responses of `net/http` as far as rest/ reads and sets them, and the error responses
-- of rest/errors.go.
--
-- A header's name is in its canonical form, and a key of the query has its first value. What
-- `ResponseWriter` is told in the end is one value: the status, the headers set before it, and what
-- is written as the body; that the body of an answer to HEAD is not sent is left out. An error of a
-- write of the body is only logged. Marshalling draws an answer, since the code has a branch for its
-- failure.
use omnistash.Base.{ℕ, String, Option, none, some, List, [], ◌∷◌, leb, if◌then◌else◌, string_eq}
use omnistash.Base.Table.{lookup}
use omnistash.Errors.{Error, Result, ok, err}
use omnistash.Metastore.Tables.{NamespaceRow}
use omnistash.Blobstore.Files.{Bytes}
use omnistash.Blobstore.Os.{Body}
use omnistash.Name.{codes}
use omnistash.Referrers.{Descriptor}
use omnistash.Rest.Paths.{Text}
use omnistash.Rest.Status.{err_to_status_code}
use omnistash.World.{Proc, pure, attempt, trip, ◌>>=◌}

pub record Request : Type 0 where
  pub method : String
  pub path : String
  pub query : List (String × String)
  pub headers : List (String × String)
  pub body : Body

-- `Query().Get(key)` and `Header.Get(key)`: the empty text where there is none
abbrev pub or_empty : Option String → String
or_empty none = ""
or_empty (some v) = v

unfoldable pub query_value : Request → String → String
unfolding lookup
query_value r key = or_empty (lookup key r.query)

unfoldable pub header_value : Request → String → String
unfolding lookup
header_value r key = or_empty (lookup key r.headers)

-- internal/health
pub record Health : Type 0 where
  pub status : String
  pub version : String
  pub commit : String
  pub date : String

-- The message of an error entry: a fixed text, or `err.Error()`.
pub data Message : Type 0 where
  fixed : String → Message
  of_error : Error → Message

-- What the handlers write as a body. A stream is copied from a reader, which may end by an error.
pub data Payload : Type 0 where
  no_body empty_json : Payload
  plain : String → Payload
  stream : Result Bytes → Payload
  error_json : String → Message → Payload
  namespace_json : NamespaceRow → Payload
  index_json : List Descriptor → Payload
  health_json : Health → Payload

pub record Response : Type 0 where
  pub status : ℕ
  pub headers : List (String × Text)
  pub payload : Payload

abbrev pub bare : ℕ → Response
bare status = record { status = status; headers = []; payload = Payload.no_body }

abbrev pub json_headers : List (String × Text)
json_headers = ("Content-Type", codes "application/json") ∷ []

-- By the answer of `json.Marshal`.
abbrev pub if_marshalled : Result (Unit {0}) → Proc Response → Proc Response → Proc Response
if_marshalled (ok done) written failed = written
if_marshalled (err e) written failed = failed

-- `writeOCIError`
unfoldable pub write_oci_error : ℕ → String → Message → Proc Response
write_oci_error status code message = do
  m ← attempt trip
  if_marshalled m
      (pure (record {
        status = status;
        headers = json_headers;
        payload = Payload.error_json code message;
      }))
      (pure (bare 500))

abbrev pub client_message : ℕ → Error → Message
client_message status e =
    if leb 500 status then Message.fixed "internal server error" else Message.of_error e

-- `registryErrToHTTP`
unfoldable pub registry_err_to_http : Error → Proc Response
registry_err_to_http e =
    let (status, code) = err_to_status_code e in
    write_oci_error status code (client_message status e)

-- `registryErrToHTTPNoBody`
unfoldable pub registry_err_to_http_no_body : Error → Proc Response
registry_err_to_http_no_body e = pure (bare (err_to_status_code e).0)

-- `if err != nil { …; return }` behind a call.
module _ {A : Type 0} where
  abbrev pub answer_with : Result A → (Error → Proc Response) → (A → Proc Response) → Proc Response
  answer_with (ok a) failed next = next a
  answer_with (err e) failed next = failed e

  abbrev pub or_http : Proc A → (A → Proc Response) → Proc Response
  or_http m next = do r ← attempt m; answer_with r registry_err_to_http next

  abbrev pub or_no_body : Proc A → (A → Proc Response) → Proc Response
  or_no_body m next = do r ← attempt m; answer_with r registry_err_to_http_no_body next
