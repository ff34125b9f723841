-- ===== src/Rest/Router.antt =====
-- rest/routes.go, rest/middleware.go, rest/context.go and the handler of rest/server.go. The name that
-- the context of a request carries is an argument of the handlers.
use omnistash.Base.{ℕ, String, ◌==◌, string_eq, ◌<>◌, Option, none, some, [], ◌∷◌, if◌then◌else◌}
use omnistash.Env.{Env}
use omnistash.Name.{codes}
use omnistash.Rest.Paths.{split_namespaced_path}
use omnistash.Rest.Http.{Request, Response, Payload, Health}
use omnistash.Rest.Mux.{
  literal, wildcard, multi, end, segments, Registered, Match, find_handler, wants_slash, any_method,
}
use omnistash.Rest.Blobs.{handle_get_blob, handle_head_blob}
use omnistash.Rest.Uploads.{
  handle_post_blob_uploads, handle_get_blob_upload, handle_patch_blob_upload,
  handle_put_blob_upload, handle_delete_blob_upload,
}
use omnistash.Rest.ManifestRoutes.{
  handle_get_manifest, handle_head_manifest, handle_put_manifest, handle_delete_manifest,
  handle_get_referrers,
}
use omnistash.Rest.NamespaceRoutes.{
  handle_base_check, handle_health, handle_create_namespace, handle_delete_namespace,
}
use omnistash.World.{Proc, pure}

-- A registered handler, by the value of the pattern's wildcard.
abbrev pub Handler : Type 0
Handler = String → Request → Proc Response

-- `http.Error`
abbrev pub plain_error : ℕ → String → Response
plain_error status text = record {
  status = status;
  headers =
      ("Content-Type", codes "text/plain; charset=utf-8")
      ∷ ("X-Content-Type-Options", codes "nosniff")
      ∷ [];
  payload = Payload.plain text;
}

-- `http.NotFound`
abbrev pub not_found : Response
not_found = plain_error 404 "404 page not found"

-- What the registered handlers do not decide: the status that is served, the clean form that the mux
-- gives a path (`cleanPath` of `net/http`), and what a redirect of the mux to a path answers.
pub record Server : Type 0 where
  pub health : Health
  pub clean : String → String
  pub redirect : String → Response

-- What a mux does with a request. The `Allow` header of a 405 is left out.
module _ (server : Server) (rows : Registered Handler) where
  abbrev pub run_match : Request → Option (Match Handler) → Proc Response
  run_match r (some (ps, (h, v))) = h v r
  run_match r none =
      if any_method (segments r.path) rows
      then pure (plain_error 405 "Method Not Allowed")
      else pure not_found

  unfoldable pub serve_mux : Request → Proc Response
  unfolding find_handler wants_slash any_method segments
  serve_mux r =
      let clean = server.clean r.path in
      let path = segments clean in
      if wants_slash r.method path rows
      then pure (server.redirect (clean <> "/"))
      else if clean == r.path
      then run_match r (find_handler r.method path rows)
      else pure (server.redirect clean)

-- `buildOCIRouter` for a repository name
abbrev pub build_oci_router : Env → String → Registered Handler
build_oci_router env name =
    let blob = literal "blobs" ∷ wildcard ∷ [] in
    let upload = literal "blobs" ∷ literal "uploads" ∷ wildcard ∷ [] in
    let manifest = literal "manifests" ∷ wildcard ∷ [] in
    ("GET", (blob, handle_get_blob env name))
    ∷ ("HEAD", (blob, λ d r. handle_head_blob env name d))
    ∷ (
      "POST",
      (
        literal "blobs" ∷ literal "uploads" ∷ multi ∷ [],
        λ v r. handle_post_blob_uploads env name r,
      ),
    )
    ∷ ("GET", (upload, handle_get_blob_upload env name))
    ∷ ("PATCH", (upload, handle_patch_blob_upload env name))
    ∷ ("PUT", (upload, handle_put_blob_upload env name))
    ∷ ("DELETE", (upload, handle_delete_blob_upload env name))
    ∷ ("GET", (manifest, handle_get_manifest env name))
    ∷ ("HEAD", (manifest, handle_head_manifest env name))
    ∷ ("PUT", (manifest, handle_put_manifest env name))
    ∷ ("DELETE", (manifest, handle_delete_manifest env name))
    ∷ ("GET", (literal "referrers" ∷ wildcard ∷ [], handle_get_referrers env name))
    ∷ []

module _ (env : Env) (server : Server) where
  abbrev pub serve_split : Request → Option (String × String) → Proc Response
  serve_split r none = pure not_found
  serve_split r (some (name, tail)) =
      serve_mux server (build_oci_router env name) (record r { path = tail })

  -- `withNamespace`
  unfoldable pub with_namespace : Request → Proc Response
  with_namespace r = serve_split r (split_namespaced_path r.path)

  -- `setupRoutes`
  abbrev pub setup_routes : Registered Handler
  setup_routes =
      ("GET", (literal "health" ∷ [], λ v r. handle_health server.health))
      ∷ ("POST", (literal "v2" ∷ literal "namespaces" ∷ [], λ v r. handle_create_namespace env r))
      ∷ (
        "DELETE",
        (literal "v2" ∷ literal "namespaces" ∷ multi ∷ [], λ v r. handle_delete_namespace v),
      )
      ∷ ("GET", (literal "v2" ∷ end ∷ [], λ v r. handle_base_check))
      ∷ ("", (literal "v2" ∷ multi ∷ [], λ v r. with_namespace r))
      ∷ []

  -- The server of `NewServer`.
  unfoldable pub serve : Request → Proc Response
  unfolding with_namespace
  serve = serve_mux server setup_routes
