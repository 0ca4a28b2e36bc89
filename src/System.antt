-- ===== src/System.antt =====
-- The servers of cmd/server/main.go at work: the route table of its mux, and the events that change
-- the shared state once run has come to listen.
pub mod Closed
pub mod Invariants
pub mod Revocation
pub mod Still
pub mod Persistence
pub mod RoundTrip
use nx_remote_cache.Base.{List, [], bytes, none, pos, some, ℕ, ℤ, ◌*◌, ◌++◌, ◌∷◌}
use nx_remote_cache.World.{World}
use nx_remote_cache.Janitor
use nx_remote_cache.Janitor.{sweep_once}
use nx_remote_cache.Server.{run_pending}
use nx_remote_cache.Server.Routes as DataRoutes
use nx_remote_cache.Admin.{get}
use nx_remote_cache.Admin.Routes as AdminRoutes
use nx_remote_cache.Admin.Routes.{Server, State, Draws, Reply, page, redirect}
use nx_remote_cache.Routing.{
  Request, lit, last, rest, Route, Routed, found, add_slash, wrong_method, nowhere, routed,
}
use nx_remote_cache.Server.{Response, http_error}

pub data Part : Type 0 where
  root data_server admin_server : Part

unfoldable pub main_routes : List (Route Part)
main_routes =
    record { method = some get; path = last ∷ []; handler = root }
    ∷ record { method = none; path = lit (bytes "v1") ∷ rest ∷ []; handler = data_server }
    ∷ record { method = none; path = lit (bytes "health") ∷ []; handler = data_server }
    ∷ record { method = none; path = lit (bytes "admin") ∷ rest ∷ []; handler = admin_server }
    ∷ []

module _ {S L : Type 0} (s : Server S L) (d : Draws) (r : Request) where
  unfoldable pub dispatch : Part → State S L → Reply × State S L
  dispatch root st = (redirect 302 (bytes "admin" ∷ [] ∷ []), st)
  dispatch data_server st =
      let (answer, w) = DataRoutes.serve s.primitives r st.world in
      (page answer, record st { world = w })
  dispatch admin_server st = AdminRoutes.serve s d r st

  -- The answer to a request that the program gets.
  unfoldable pub serve : State S L → Reply × State S L
  unfolding dispatch
  serve st = elim (routed main_routes r.method r.path) [
    | found part values ↦ dispatch part st
    | add_slash ↦ (redirect 301 (r.path ++ [] ∷ []), st)
    | wrong_method ↦ (page (http_error "Method Not Allowed" 405), st)
    | nowhere ↦ (page (http_error "404 page not found" 404), st)
  ]

-- janitorMaxAge and janitorUnreadAfter: 30 and 14 days, in nanoseconds.
unfoldable pub janitor_config : Janitor.Config
janitor_config = record {
  max_age = pos (30 * 24 * 3600 * 1000000000);
  unread_after = pos (14 * 24 * 3600 * 1000000000);
}

-- A request, a goroutine that records a read, or a sweep of the janitor at a time. The mutexes and
-- the database make each of them one step here; the interleaving of uploads is in
-- Storage/Local/Steps.antt and Storage/S3/Race.antt.
pub data Event : Type 0 where
  requested : Draws → Request → Event
  recorded : ℕ → Event
  swept : ℤ → Event

module _ {S L : Type 0} (s : Server S L) (cfg : Janitor.Config) where
  unfoldable pub step : Event → State S L → State S L
  unfolding serve
  step (requested d r) st = (serve s d r st).1
  step (recorded n) st = record st { world = run_pending n st.world }
  step (swept time) st = record st { world = sweep_once s.fuel cfg time st.world }

  unfoldable pub run : List Event → State S L → State S L
  unfolding step
  run [] st = st
  run (e ∷ es) st = run es (step e st)
