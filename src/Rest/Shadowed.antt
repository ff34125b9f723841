-- ===== src/Rest/Shadowed.antt =====
-- Which requests `HandleDeleteNamespace` gets.
use omnistash.Base.{suc, ◌≡◌, ◌∙◌, String, string_eq, ==_refl, List, [], ◌∷◌, ◌++◌, length, arith}
use omnistash.Base.{length-append}
use omnistash.Env.{Env}
use omnistash.Rest.Http.{Request}
use omnistash.Rest.Mux.{
  join_slashes, segments, match_segments, find_method, find_handler, wants_slash,
}
use omnistash.Rest.Router.{Server, serve, serve_mux, with_namespace}
use omnistash.Rest.NamespaceRoutes.{handle_delete_namespace}
use omnistash.World.{World}

module _ (env : Env) (server : Server) (r : Request) (s : String) (ss : List String)
    (clean : server.clean r.path ≡ r.path)
    (under : segments r.path ≡ "v2" ∷ "namespaces" ∷ s ∷ ss) where
  longer : length (ss ++ ("" ∷ [])) ≡ suc (length ss)
  longer = length-append ss ("" ∷ []) ∙ omega arith

  -- Every DELETE of a path that the mux leaves as it is, with the segments v2, namespaces and at least
  -- one more, is answered by HandleDeleteNamespace with the rest of the path for the name, also if
  -- that rest is the path of a manifest or an upload, while a GET of the same path is handed to
  -- withNamespace.
  pub serve-delete :
      (g : Request)
      → r.method ≡ "DELETE"
      → g.method ≡ "GET"
      → g.path ≡ r.path
      → (w : World)
      → (serve env server r w ≡ handle_delete_namespace (join_slashes (s ∷ ss)) w)
        × (serve env server g w ≡ with_namespace env server g w)
  unfolding serve serve_mux find_handler find_method match_segments wants_slash string_eq
  serve-delete g deletes gets same w = (
    rw (deletes, clean, under, longer, ==_refl r.path) (ground arith),
    rw (gets, same, clean, under, longer, ==_refl r.path) (ground arith),
  )
