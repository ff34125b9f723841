-- ===== src/Tests/Http.antt =====
-- The HTTP layer at concrete inputs.
use omnistash.Base.{
  some, ◌≡◌, refl, [], ◌∷◌, string_eq, pair_eq, nat_eq, arith, String, false, none, ◌≢◌, inr,
}
use omnistash.Base.Table.{lookup}
use omnistash.Errors.{ok, fail, local, LocalError}
use omnistash.Regexp.{matches, derive, nullable}
use omnistash.Metastore.Sql
use omnistash.Metastore.Tables.{active}
use omnistash.Name.{codes, validate_name}
use omnistash.Blobstore.Files.{inode, read, content}
use omnistash.Rest.Decimal.{parse_int, saturated}
use omnistash.Rest.Ranges.{
  parse_range_header, parse_content_range_header, range_groups, content_range_groups, span_digits,
}
use omnistash.Rest.Uploads.{appended_range, status_range, handle_put_blob_upload}
use omnistash.Rest.Progress.{progress-parsed}
use omnistash.Rest.Http.{Request, bare, query_value, header_value}
use omnistash.Rest.Blobs.{handle_get_blob}
use omnistash.Rest.Transfers.{get-put, created_at, delivered}
use omnistash.Rest.RangedGets.{handle_get_blob-range, range_answer}
use omnistash.Rest.Router.{Server, serve}
use omnistash.Rest.Answers.{IsAnswer}
use omnistash.Rest.Served.{serve-IsAnswer}
use omnistash.World.{World, calm}
use omnistash.Tests.Fixture.{
  unregistered, world, fresh, env, env-IsLawful, one_digest, two_digest, app_exists, one_db,
}

app_named : validate_name "app" ≡ ok tt
unfolding validate_name matches derive nullable string_eq
app_named = refl

abbrev server : Server
server = record {
  health = record { status = "ok"; version = "v"; commit = "c"; date = "d" };
  clean = λ path. path;
  redirect = λ path. bare 307;
}

abbrev put_request : Request
put_request = record {
  method = "PUT";
  path = "/v2/app/blobs/uploads/s1";
  query = ("digest", one_digest) ∷ [];
  headers = [];
  body = record { bytes = []; broken = false };
}

abbrev get_request : Request
get_request = record put_request { method = "GET"; path = "/v2/app/blobs/sha256:0a"; query = [] }

-- The database fails.
serve-IsAnswer_example : IsAnswer (serve env server put_request fresh).0
serve-IsAnswer_example =
    serve-IsAnswer server
      (λ p. record { least = omega arith; most = omega arith; discreet = inr tt }) env put_request
      fresh

one_named : ◌≢◌ {A = String} one_digest ""
unfolding string_eq
one_named h = cc

-- The last two of five bytes come with the commit.
abbrev commit_request : Request
commit_request = record put_request {
  headers = ("Content-Length", "2") ∷ [];
  body = record { bytes = 4 ∷ 5 ∷ []; broken = false };
}

get-put_example :
    ((handle_put_blob_upload env "app" "s1" commit_request (calm unregistered)).0
      ≡ ok (created_at "app" one_digest))
    × ((handle_get_blob env "app" one_digest get_request
          (handle_put_blob_upload env "app" "s1" commit_request (calm unregistered)).1).0
        ≡ ok (delivered one_digest (1 ∷ 2 ∷ 3 ∷ 4 ∷ 5 ∷ []) 5))
unfolding inode read lookup string_eq pair_eq nat_eq query_value header_value parse_int
get-put_example =
    get-put env env-IsLawful "app" "s1" one_digest 0 unregistered app_named refl app_exists refl
      (some (4 ∷ 5 ∷ [])) refl refl commit_request get_request refl one_named refl refl

-- The committed blob is registered.
abbrev stocked : World
stocked = record world {
  db = record one_db {
    namespace_blobs =
        (
          ("app", two_digest),
          record { size = 1; lifecycle = active; created_at = 1; deleted_at = none },
        )
        ∷ [];
  };
}

abbrev range_request : Request
range_request = record get_request { headers = ("Range", "bytes=0-0") ∷ [] }

first_byte : parse_range_header (codes (header_value range_request "Range")) ≡ ok (0, 0)
unfolding parse_range_header range_groups content_range_groups span_digits header_value lookup
    string_eq saturated
first_byte = refl

handle_get_blob-range_example :
    (handle_get_blob env "app" two_digest range_request (calm stocked)).0
    ≡ ok (range_answer two_digest 0 0 (5 ∷ []))
unfolding inode read content lookup string_eq pair_eq nat_eq header_value
    Sql.get_namespace_blob_size
handle_get_blob-range_example =
    handle_get_blob-range env "app" two_digest 0 0 (5 ∷ []) stocked app_named refl app_exists refl
      refl range_request (λ h. cc) first_byte

progress-parsed_example :
    (appended_range 3 ≡ status_range 3)
    × (parse_content_range_header (appended_range 3) ≡ ok (0, 2))
    × (parse_content_range_header (appended_range 0)
        ≡ fail (local LocalError.content_range_header_invalid))
    × (status_range 0 ≡ status_range 1)
progress-parsed_example = progress-parsed 3 (omega arith) (omega arith)
