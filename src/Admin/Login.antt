-- ===== src/Admin/Login.antt =====
-- internal/adminapi/auth_handlers.go, and the login limiter of middleware.go. The rate limiter of
-- golang.org/x/time/rate is a parameter.
use nx_remote_cache.Base.{
  Bool, List, Option, Text, [], err, if◌then◌else◌, negsuc, none, ok, pos, some, sub_ℕ, suc,
  text_eq, ℕ, ℤ, ◌/◌, ◌∷◌,
}
use nx_remote_cache.Primitives.{Primitives}
use nx_remote_cache.Store.{User, Db}
use nx_remote_cache.Session.{login, logout, invalid_credentials}
use nx_remote_cache.World.{World}
use nx_remote_cache.Admin.{Answer, Cookie, Credentials, write_json, write_error, internal_error}

-- A limiter of 5 attempts that regains one every 12 seconds; `allow` is told the time.
pub record RateLimiter (L : Type 0) : Type 0 where
  pub fresh : L
  pub allow : ℤ → L → Bool × L

module _ {L : Type 0} (rate : RateLimiter L) where
  unfoldable pub limiter_of : Text → List (Text × L) → L
  limiter_of key [] = rate.fresh
  limiter_of key ((k, lim) ∷ ls) = if text_eq k key then lim else limiter_of key ls

  unfoldable pub set_limiter : Text → L → List (Text × L) → List (Text × L)
  set_limiter key lim [] = (key, lim) ∷ []
  set_limiter key lim ((k, old) ∷ ls) =
      let rest = set_limiter key lim ls in if text_eq k key then (k, lim) ∷ ls else (k, old) ∷ rest

  -- loginLimiter.allow: a key that is new gets a limiter of its own.
  unfoldable pub allow : Text → ℤ → List (Text × L) → Bool × List (Text × L)
  unfolding limiter_of set_limiter
  allow key time ls =
      let (allowed, lim) = rate.allow time (limiter_of key ls) in (allowed, set_limiter key lim ls)

-- clientIP, over net.SplitHostPort.
unfoldable pub client_ip : (Text → Option Text) → Text → Text
client_ip split_host_port remote_addr = elim (split_host_port remote_addr) [
  | none ↦ remote_addr
  | some host ↦ host
]

pub record LoginRequest : Type 0 where
  pub email : Text
  pub password : Text

pub record UserResponse : Type 0 where
  pub id : ℤ
  pub email : Text
  pub created_at : ℤ

abbrev pub user_dto : User → UserResponse
user_dto u = record { id = u.id; email = u.email; created_at = u.created_at }

-- {"status": "ok"}
abbrev pub status_ok : Answer (Unit {0})
status_ok = write_json 200 tt

-- time.Duration.Seconds, cut to an int.
abbrev pub in_seconds : ℤ → ℤ
in_seconds (pos n) = pos (n / 1000000000)
in_seconds (negsuc n) = sub_ℕ 0 (suc n / 1000000000)

abbrev pub session_cookie : Bool → Text → ℤ → Cookie
session_cookie secure raw ttl = record { value = raw; max_age = in_seconds ttl; secure = secure }

abbrev pub cleared_cookie : Bool → Cookie
cleared_cookie secure = record { value = []; max_age = negsuc 0; secure = secure }

module _ (p : Primitives) (cookie_secure : Bool) {S : Type 0} where
  -- The rest of handleLogin once the attempt is allowed.
  unfoldable pub try_login :
      Option LoginRequest → Option (List ℕ) → ℤ → World S → Answer (Unit {0}) × World S
  try_login none random time w = (write_error 400 "invalid request body", w)
  try_login (some req) random time w =
      let (res, db') = login p req.email req.password random time w.session_ttl w.db in
      let w' = record w { db = db' } in
      elim res [
        | ok raw ↦ (
          record status_ok { cookie = some (session_cookie cookie_secure raw w.session_ttl) },
          w',
        )
        | err invalid_credentials ↦ (write_error 401 "invalid email or password", w')
        | err _ ↦ (internal_error, w')
      ]

  unfoldable pub handle_login :
      {L : Type 0}
      → RateLimiter L
      → Text
      → Option LoginRequest
      → Option (List ℕ)
      → ℤ
      → List (Text × L)
      → World S
      → Answer (Unit {0}) × List (Text × L) × World S
  unfolding allow try_login
  handle_login rate ip req random time ls w =
      let (allowed, ls') = allow rate ip time ls in
      let (answer, w') = try_login req random time w in
      if allowed
      then (answer, ls', w')
      else (write_error 429 "too many login attempts, try again shortly", ls', w)

  unfoldable pub handle_logout : Credentials → User → World S → Answer (Unit {0}) × World S
  handle_logout c user w =
      let db' : Db = elim c.session [ none ↦ w.db | some raw ↦ (logout p raw w.db).1 ] in
      (record status_ok { cookie = some (cleared_cookie cookie_secure) }, record w { db = db' })

  unfoldable pub handle_me : User → World S → Answer UserResponse × World S
  handle_me user w = (write_json 200 (user_dto user), w)
