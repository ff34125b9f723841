-- ===== src/Rest/Served.antt =====
-- What the server answers, whichever handler a request is routed to.
use omnistash.Base.{
  String, ◌==◌, string_eq, Bool, true, false, Option, none, some, List, [], ◌∷◌, arith,
}
use omnistash.Base.{if◌then◌else◌}
use omnistash.Env.{Env}
use omnistash.World.{World}
use omnistash.Rest.Paths.{split_namespaced_path}
use omnistash.Rest.Http.{Request}
use omnistash.Rest.Mux.{Segment, Registered, Match, found, first_match, find_method, find_handler}
use omnistash.Rest.Router.{
  Handler, Server, run_match, serve_mux, build_oci_router, serve_split, with_namespace,
  setup_routes, serve,
}
use omnistash.Rest.Answers.{Answers, IsAnswer, IsProper, Answers-pure, Answers-if, Answers-written}
use omnistash.Rest.Handled

abbrev AllAnswer : Registered Handler → Type 0
AllAnswer [] = Unit
AllAnswer ((m, (ps, h)) ∷ rows) = ((v : String) (r : Request) → Answers (h v r)) × AllAnswer rows

module _ {A B : Type 0} where
  infixr 3 ◌and◌
  abbrev ◌and◌ : A → B → A × B
  a and b = (a, b)

abbrev MatchAnswers : Option (Match Handler) → Type 0
MatchAnswers none = Unit
MatchAnswers (some (ps, (h, v))) = (r : Request) → Answers (h v r)

either_match :
    (m n : Option (Match Handler))
    → MatchAnswers m
    → MatchAnswers n
    → MatchAnswers (first_match m n)
either_match none n h k = k
either_match (some m) n h k = h

found_match :
    (ps : List Segment) (h : Handler) (o : Option String)
    → ((v : String) (r : Request) → Answers (h v r))
    → MatchAnswers (found ps h o)
found_match ps h none k = tt
found_match ps h (some v) k = k v

if_match :
    (b : Bool) (m n : Option (Match Handler))
    → MatchAnswers m
    → MatchAnswers n
    → MatchAnswers (if b then m else n)
if_match true m n h k = h
if_match false m n h k = k

method_match :
    (method : String) (path : List String) (rows : Registered Handler)
    → AllAnswer rows
    → MatchAnswers (find_method method path rows)
unfolding find_method
method_match method path [] all = tt
method_match method path ((m, (ps, h)) ∷ rows) all =
    let rest = method_match method path rows all.1 in
    if_match (m == method) _ _ (either_match _ _ (found_match ps h _ all.0) rest) rest

handler_match :
    (method : String) (path : List String) (rows : Registered Handler)
    → AllAnswer rows
    → MatchAnswers (find_handler method path rows)
unfolding find_handler
handler_match method path rows all =
    let exact = method_match method path rows all in
    let any = method_match "" path rows all in
    if_match (method == "HEAD") _ _
      (either_match _ _ exact (either_match _ _ (method_match "GET" path rows all) any))
      (either_match _ _ exact any)

module _ (server : Server) (redirects : (p : String) → IsProper (server.redirect p)) where
  Answers-run_match :
      (rows : Registered Handler) (r : Request) (m : Option (Match Handler))
      → MatchAnswers m
      → Answers (run_match server rows r m)
  Answers-run_match rows r (some (ps, (h, v))) k = k r
  Answers-run_match rows r none k =
      Answers-if _ _ _ (Answers-written _ (omega arith) (omega arith))
        (Answers-written _ (omega arith) (omega arith))

  Answers-serve_mux :
      (rows : Registered Handler) (r : Request) → AllAnswer rows → Answers (serve_mux server rows r)
  unfolding serve_mux
  Answers-serve_mux rows r all = Answers-if _ _ _ (Answers-pure _ (redirects _)) (
      Answers-if _ _ _ (Answers-run_match rows r _ (handler_match _ _ rows all))
        (Answers-pure _ (redirects _)))

  module _ (env : Env) where
    oci_router : (name : String) → AllAnswer (build_oci_router env name)
    oci_router name =
        Handled.Answers-handle_get_blob env name
        and (λ d r. Handled.Answers-handle_head_blob env name d)
        and (λ v r. Handled.Answers-handle_post_blob_uploads env name r)
        and Handled.Answers-handle_get_blob_upload env name
        and Handled.Answers-handle_patch_blob_upload env name
        and Handled.Answers-handle_put_blob_upload env name
        and Handled.Answers-handle_delete_blob_upload env name
        and Handled.Answers-handle_get_manifest env name
        and Handled.Answers-handle_head_manifest env name
        and Handled.Answers-handle_put_manifest env name
        and Handled.Answers-handle_delete_manifest env name
        and Handled.Answers-handle_get_referrers env name
        and tt

    split-Answers :
        (r : Request) (o : Option (String × String)) → Answers (serve_split env server r o)
    split-Answers r none = Answers-written _ (omega arith) (omega arith)
    split-Answers r (some (name, tail)) = Answers-serve_mux _ _ (oci_router name)

    routes_all : AllAnswer (setup_routes env server)
    unfolding with_namespace
    routes_all =
        (λ v r. Handled.Answers-handle_health server.health)
        and (λ v r. Handled.Answers-handle_create_namespace env r)
        and (λ v r. Handled.Answers-handle_delete_namespace v)
        and (λ v r. Handled.Answers-handle_base_check)
        and (λ v r. split-Answers r (split_namespaced_path r.path))
        and tt

    -- If the mux redirects properly, the server answers every request in every world, whatever fails
    -- in it, by a response with a status from 200 to 500; and unless the status is below 500 the
    -- response has no body or says only "internal server error".
    pub serve-IsAnswer : (r : Request) (w : World) → IsAnswer (serve env server r w).0
    unfolding serve
    serve-IsAnswer r w = (Answers-serve_mux (setup_routes env server) r routes_all).answer w
