-- ===== src/Server/Routes.antt =====
-- Handler of internal/server/server.go: the route table of the cache API. To a HEAD request net/http
-- sends the answer without its body.
use nx_remote_cache.Base.{List, Text, [], bytes, some, ◌∷◌}
use nx_remote_cache.Primitives.{Primitives}
use nx_remote_cache.World.{World}
use nx_remote_cache.Admin.{get, put}
use nx_remote_cache.Routing.{
  Request, Segment, lit, wild, Route, found, add_slash, wrong_method, nowhere, routed, path_value,
}
use nx_remote_cache.Server
use nx_remote_cache.Server.{
  Response, http_error, status_only, handle_health, handle_get, handle_put,
}

pub data Handler : Type 0 where
  health get_artifact put_artifact : Handler

abbrev artifact_path : List Segment
artifact_path = lit (bytes "v1") ∷ lit (bytes "cache") ∷ wild ∷ []

unfoldable pub data_routes : List (Route Handler)
data_routes =
    record { method = some get; path = lit (bytes "health") ∷ []; handler = health }
    ∷ record { method = some get; path = artifact_path; handler = get_artifact }
    ∷ record { method = some put; path = artifact_path; handler = put_artifact }
    ∷ []

-- The request that the two handlers see.
abbrev pub artifact_request : Text → Request → Server.Request
artifact_request hash r = record {
  hash = hash;
  authorization = r.authorization;
  content_length = r.content_length;
  body = r.body;
}

module _ (p : Primitives) {S : Type 0} (r : Request) where
  unfoldable pub handle : Handler → List Text → World S → Response × World S
  handle health values w = (handle_health, w)
  handle get_artifact values w = handle_get p (artifact_request (path_value values) r) w
  handle put_artifact values w = handle_put p (artifact_request (path_value values) r) w

  -- None of the patterns has a trailing slash, so no path gets one.
  unfoldable pub serve : World S → Response × World S
  unfolding handle
  serve w = elim (routed data_routes r.method r.path) [
    | found h values ↦ handle h values w
    | add_slash ↦ (http_error "Moved Permanently" 301, w)
    | wrong_method ↦ (http_error "Method Not Allowed" 405, w)
    | nowhere ↦ (http_error "404 page not found" 404, w)
  ]
