-- ===== src/Admin/Routes.antt =====
-- Server and Handler of internal/adminapi/adminapi.go: the route table, which handler runs behind
-- `protected`, and what each handler takes from the request. encoding/json, strconv, net and what
-- the handlers draw (time, salt, random bytes, nonces) are parameters.
pub mod Refusal
use nx_remote_cache.Base.{Bool, List, Option, Text, [], bytes, none, some, ℕ, ℤ, ◌++◌, ◌∷◌}
use nx_remote_cache.Primitives.{Primitives}
use nx_remote_cache.Store.{User}
use nx_remote_cache.Settings.Crypto.{Cipher}
use nx_remote_cache.Settings.Manager.{Builders}
use nx_remote_cache.Storage.{Reader}
use nx_remote_cache.World.{World}
use nx_remote_cache.Server.{Response, http_error}
use nx_remote_cache.Routing.{
  Request, path_value, Segment, lit, wild, rest, Route, Routed, found, add_slash, wrong_method,
  nowhere, routed,
}
use nx_remote_cache.Admin.{
  Answer, Body, Method, get, post, put, delete, Credentials, json, protected,
}
use nx_remote_cache.Admin.Login.{
  RateLimiter, LoginRequest, UserResponse, client_ip, handle_login, handle_logout, handle_me,
}
use nx_remote_cache.Admin.Users.{
  CreateUserRequest, ChangePasswordRequest, handle_list_users, handle_create_user,
  handle_delete_user, handle_change_password,
}
use nx_remote_cache.Admin.Tokens.{
  TokenResponse, CreateTokenRequest, CreateTokenResponse, handle_list_tokens, handle_create_token,
  handle_revoke_token,
}
use nx_remote_cache.Admin.Cache.{
  ListCacheResponse, handle_list_cache, handle_delete_cache_entry, handle_bulk_delete, handle_prune,
}
use nx_remote_cache.Admin.Config.{
  SettingsResponse, UpdateSettingsRequest, handle_get_settings, handle_update_settings,
}
use nx_remote_cache.Admin.Spa.{Assets, spa_handler}

-- The handlers that need an admin.
pub data Action : Type 0 where
  logout me : Action
  list_users create_user delete_user change_password : Action
  list_tokens create_token revoke_token : Action
  list_cache delete_cache_entry bulk_delete prune : Action
  get_settings update_settings : Action

-- The handlers of the table: s.handleLogin, s.protected(…) and s.spaHandler().
pub data Handler : Type 0 where
  login : Handler
  protect : Action → Handler
  spa : Assets → Handler

-- A route below /admin/api/.
abbrev api : Method → List Segment → Handler → Route Handler
api m path h = record {
  method = some m;
  path = lit (bytes "admin") ∷ lit (bytes "api") ∷ path;
  handler = h;
}

-- The app is served unless uiFS is nil.
abbrev spa_routes : Option Assets → List (Route Handler)
spa_routes none = []
spa_routes (some files) =
    record { method = some get; path = lit (bytes "admin") ∷ rest ∷ []; handler = spa files } ∷ []

abbrev api_routes : List (Route Handler)
api_routes =
    api post (lit (bytes "auth") ∷ lit (bytes "login") ∷ []) login
    ∷ api post (lit (bytes "auth") ∷ lit (bytes "logout") ∷ []) (protect logout)
    ∷ api get (lit (bytes "auth") ∷ lit (bytes "me") ∷ []) (protect me)
    ∷ api get (lit (bytes "users") ∷ []) (protect list_users)
    ∷ api post (lit (bytes "users") ∷ []) (protect create_user)
    ∷ api delete (lit (bytes "users") ∷ wild ∷ []) (protect delete_user)
    ∷ api post (lit (bytes "account") ∷ lit (bytes "password") ∷ []) (protect change_password)
    ∷ api get (lit (bytes "tokens") ∷ []) (protect list_tokens)
    ∷ api post (lit (bytes "tokens") ∷ []) (protect create_token)
    ∷ api delete (lit (bytes "tokens") ∷ wild ∷ []) (protect revoke_token)
    ∷ api get (lit (bytes "cache") ∷ []) (protect list_cache)
    ∷ api delete (lit (bytes "cache") ∷ wild ∷ []) (protect delete_cache_entry)
    ∷ api post (lit (bytes "cache") ∷ lit (bytes "bulk-delete") ∷ []) (protect bulk_delete)
    ∷ api post (lit (bytes "cache") ∷ lit (bytes "prune") ∷ []) (protect prune)
    ∷ api get (lit (bytes "settings") ∷ []) (protect get_settings)
    ∷ api put (lit (bytes "settings") ∷ []) (protect update_settings)
    ∷ []

unfoldable pub admin_routes : Option Assets → List (Route Handler)
admin_routes ui = api_routes ++ spa_routes ui

-- What the JSON of an answer holds.
pub data Payload : Type 0 where
  status : Payload
  user : UserResponse → Payload
  users : List UserResponse → Payload
  tokens : List TokenResponse → Payload
  created : CreateTokenResponse → Payload
  cache_page : ListCacheResponse → Payload
  deleted : ℕ → Payload
  settings : SettingsResponse → Payload

abbrev map_body : {A B : Type 0} → (A → B) → Body A → Body B
map_body f Body.empty = Body.empty
map_body f (Body.error message) = Body.error message
map_body f (json v) = json (f v)

abbrev pub map_answer : {A B : Type 0} → (A → B) → Answer A → Answer B
map_answer f a = record { status = a.status; body = map_body f a.body; cookie = a.cookie }

-- An API answer, a page, or a redirect with its status to a path.
pub data Reply : Type 0 where
  api_answer : Answer Payload → Reply
  page : Response → Reply
  redirect : ℕ → List Text → Reply

-- decodeJSON for each kind of request: none if it fails.
pub record Decoders : Type 0 where
  pub login : Reader → Option LoginRequest
  pub create_user : Reader → Option CreateUserRequest
  pub change_password : Reader → Option ChangePasswordRequest
  pub create_token : Reader → Option CreateTokenRequest
  pub bulk_delete : Reader → Option (List Text)
  pub prune : Reader → Option ℤ
  pub update_settings : Reader → Option UpdateSettingsRequest

-- The fields of Server that do not change, and the packages that it stands on. `assets` is none
-- for a nil uiFS, and `fuel` bounds the pages that a prune reads.
pub record Server (S L : Type 0) : Type 0 where
  pub primitives : Primitives
  pub cookie_secure : Bool
  pub rate : RateLimiter L
  pub split_host_port : Text → Option Text
  pub decode : Decoders
  pub parse_int : Text → Option ℤ
  pub cipher : Cipher
  pub builders : Builders S
  pub assets : Option Assets
  pub fuel : ℕ

-- What a handler may draw.
pub record Draws : Type 0 where
  pub time : ℤ
  pub salt : ℕ
  pub random : Option (List ℕ)
  pub nonce : ℕ → Option Text

abbrev pub credentials_of : Request → Credentials
credentials_of r = record { method = r.method; csrf = r.csrf; session = r.session }

abbrev pub query_limit : (Text → Option ℤ) → Text → Option ℤ
query_limit parse [] = none
query_limit parse (c ∷ cs) = parse (c ∷ cs)

-- The path as text.
unfoldable pub join_path : List Text → Text
join_path [] = []
join_path (x ∷ xs) = bytes "/" ++ x ++ join_path xs

-- A prune that the fuel does not suffice for has no answer: its status is 0.
abbrev finished : Option (Answer ℕ) → Answer ℕ
finished none = record { status = 0; body = Body.empty; cookie = none }
finished (some a) = a

-- What the admin server changes: its own limiters, and the shared state.
pub record State (S L : Type 0) : Type 0 where
  pub limiters : List (Text × L)
  pub world : World S

module _ {S : Type 0} where
  unfoldable pub encoded :
      {A : Type 0}
      → (A → Payload)
      → (User → World S → Answer A × World S)
      → User
      → World S
      → Answer Payload × World S
  encoded f next u w = let (answer, w') = next u w in (map_answer f answer, w')

module _ {S L : Type 0} (s : Server S L) (d : Draws) (r : Request) where
  unfoldable pub pruned : User → World S → Answer ℕ × World S
  pruned u w =
      let (answer, w') = handle_prune s.fuel d.time (s.decode.prune r.body) u w in
      (finished answer, w')

  -- What runs behind `protected`, on the values of the path's wildcards.
  unfoldable pub act : Action → List Text → User → World S → Answer Payload × World S
  unfolding encoded pruned
  act logout values =
      encoded (λ _. status) (handle_logout s.primitives s.cookie_secure (credentials_of r))
  act me values = encoded user (handle_me s.primitives s.cookie_secure)
  act list_users values = encoded users (handle_list_users s.primitives)
  act create_user values =
      encoded user (handle_create_user s.primitives d.salt (s.decode.create_user r.body))
  act delete_user values =
      encoded (λ _. status) (handle_delete_user s.primitives (s.parse_int (path_value values)))
  act change_password values =
      encoded (λ _. status)
        (handle_change_password s.primitives d.salt (s.decode.change_password r.body))
  act list_tokens values = encoded tokens (handle_list_tokens s.primitives)
  act create_token values =
      encoded created (handle_create_token s.primitives d.random (s.decode.create_token r.body))
  act revoke_token values =
      encoded (λ _. status) (handle_revoke_token s.primitives (s.parse_int (path_value values)))
  act list_cache values =
      let limit = query_limit s.parse_int (r.query (bytes "limit")) in
      encoded cache_page (handle_list_cache (r.query (bytes "cursor")) limit)
  act delete_cache_entry values =
      encoded (λ _. status) (handle_delete_cache_entry (path_value values))
  act bulk_delete values = encoded deleted (handle_bulk_delete (s.decode.bulk_delete r.body))
  act prune values = encoded deleted pruned
  act get_settings values = encoded settings handle_get_settings
  act update_settings values =
      let req = s.decode.update_settings r.body in
      encoded settings (handle_update_settings s.cipher s.builders d.nonce d.time req)

  unfoldable pub logged_in : State S L → Reply × State S L
  logged_in st =
      let ip = client_ip s.split_host_port r.remote_addr in
      let (answer, ls, w) =
        handle_login s.primitives s.cookie_secure s.rate ip (s.decode.login r.body) d.random d.time
          st.limiters st.world in
      (api_answer (map_answer (λ _. status) answer), record { limiters = ls; world = w })

  unfoldable pub handle : Handler → List Text → State S L → Reply × State S L
  unfolding act logged_in
  handle login values st = logged_in st
  handle (protect action) values st =
      let (answer, w) = protected s.primitives (act action values) (credentials_of r) st.world in
      (api_answer answer, record st { world = w })
  handle (spa files) values st = (page (spa_handler files (join_path r.path)), st)

  -- The answer to a request, by the route table.
  unfoldable pub serve : State S L → Reply × State S L
  unfolding handle
  serve st = elim (routed (admin_routes s.assets) r.method r.path) [
    | found h values ↦ handle h values st
    | add_slash ↦ (redirect 301 (r.path ++ [] ∷ []), st)
    | wrong_method ↦ (page (http_error "Method Not Allowed" 405), st)
    | nowhere ↦ (page (http_error "404 page not found" 404), st)
  ]
