-- ===== src/Tests/Pushes.antt =====
-- Manifests and routes at concrete inputs.
use omnistash.Base.{◌≡◌, refl, some, none, false, [], ◌∷◌, string_eq, pair_eq, nat_eq, arith}
use omnistash.Base.Table.{lookup}
use omnistash.Errors.{ok}
use omnistash.Env.{Env, IsLawful, Manifest}
use omnistash.Regexp.{matches, derive, nullable}
use omnistash.Name.{validate_name}
use omnistash.Blobstore.Files.{inode}
use omnistash.Blobstore.Put.{IsFree}
use omnistash.Manifests.{parse_manifest_body}
use omnistash.Rest.Http.{Request, header_value, bare}
use omnistash.Rest.Mux.{segments, split_slashes}
use omnistash.Rest.ManifestRoutes.{handle_put_manifest, handle_get_manifest}
use omnistash.Rest.PushedManifests.{accepted, manifest_delivered, get_manifest-put_manifest}
use omnistash.Rest.NamespaceRoutes.{handle_delete_namespace}
use omnistash.Rest.Router.{Server, serve, with_namespace}
use omnistash.Rest.Shadowed.{serve-delete}
use omnistash.World.{calm}
use omnistash.Tests.Fixture

-- Every body is a manifest with a subject.
abbrev pub manifest : Manifest
manifest = record {
  media_type = "m";
  artifact_type = "a";
  config_media_type = "";
  subject = some Fixture.two_digest;
  annotations = none;
}

abbrev pub reading : Env
reading = record Fixture.env { unmarshal = λ b. some manifest }

pub reading-IsLawful : IsLawful reading
reading-IsLawful = record {
  valid_available = Fixture.env-IsLawful.valid_available;
  valid_unique = Fixture.env-IsLawful.valid_unique;
  valid_visible = Fixture.env-IsLawful.valid_visible;
}

pub app_named : validate_name "app" ≡ ok tt
unfolding validate_name matches derive nullable string_eq
app_named = refl

pub reading_free : IsFree reading "app" Fixture.world
unfolding inode lookup string_eq pair_eq
reading_free = refl

abbrev pub push_request : Request
push_request = record {
  method = "PUT";
  path = "/v2/app/manifests/sha256:0a";
  query = [];
  headers = [];
  body = record { bytes = 1 ∷ 2 ∷ []; broken = false };
}

abbrev pub pull_request : Request
pull_request = record push_request { method = "GET" }

get_manifest-put_manifest_example :
    ((handle_put_manifest reading "app" Fixture.one_digest push_request (calm Fixture.world)).0
      ≡ ok (accepted "app" Fixture.one_digest (some Fixture.two_digest)))
    × ((handle_get_manifest reading "app" Fixture.one_digest pull_request
          (handle_put_manifest reading "app" Fixture.one_digest push_request
            (calm Fixture.world)).1).0
        ≡ ok (manifest_delivered Fixture.one_digest "m" (1 ∷ 2 ∷ [])))
unfolding inode lookup string_eq pair_eq nat_eq header_value parse_manifest_body
get_manifest-put_manifest_example =
    get_manifest-put_manifest reading reading-IsLawful "app" Fixture.one_digest "" (1 ∷ 2 ∷ [])
      manifest Fixture.world reading_free app_named refl refl refl refl Fixture.app_exists refl refl
      refl Fixture.files-IsSound push_request pull_request refl refl (omega arith)

abbrev server : Server
server = record {
  health = record { status = "ok"; version = "v"; commit = "c"; date = "d" };
  clean = λ path. path;
  redirect = λ path. bare 307;
}

-- A manifest of the repository namespaces/foo.
abbrev delete_request : Request
delete_request = record push_request {
  method = "DELETE";
  path = "/v2/namespaces/foo/manifests/sha256:0a";
}

below : segments delete_request.path ≡ "v2" ∷ "namespaces" ∷ "foo" ∷ "manifests" ∷ "sha256:0a" ∷ []
unfolding segments split_slashes
below = refl

serve-delete_example :
    (serve reading server delete_request Fixture.world
      ≡ handle_delete_namespace "foo/manifests/sha256:0a" Fixture.world)
    × (serve reading server (record delete_request { method = "GET" }) Fixture.world
        ≡ with_namespace reading server (record delete_request { method = "GET" }) Fixture.world)
serve-delete_example =
    serve-delete reading server delete_request "foo" ("manifests" ∷ "sha256:0a" ∷ []) refl below
      (record delete_request { method = "GET" }) refl refl refl Fixture.world
