-- ===== src/Admin.antt =====
-- internal/adminapi: answers, middleware.go and json.go. A request's JSON body is the value that
-- decodeJSON gives, or none if it fails.
pub mod Login
pub mod Users
pub mod Tokens
pub mod Cache
pub mod Protected
pub mod Config
pub mod Spa
pub mod Routes
use nx_remote_cache.Base.{
  Bool, Option, String, Text, [], bytes, err, false, if◌then◌else◌, none, ok, some, text_eq, true,
  ℕ, ℤ, ◌&&◌,
}
use nx_remote_cache.Primitives.{Primitives}
use nx_remote_cache.Store.{User}
use nx_remote_cache.Session.{current_user}
use nx_remote_cache.World.{World}

pub data Body (A : Type 0) : Type 0 where
  empty : Body A
  error : Text → Body A
  json : A → Body A

-- What setSessionCookie and clearSessionCookie vary: the rest of the cookie is fixed.
pub record Cookie : Type 0 where
  pub value : Text
  pub max_age : ℤ
  pub secure : Bool

pub record Answer (A : Type 0) : Type 0 where
  pub status : ℕ
  pub body : Body A
  pub cookie : Option Cookie

module _ {A : Type 0} where
  abbrev pub write_json : ℕ → A → Answer A
  write_json status v = record { status = status; body = json v; cookie = none }

  abbrev pub write_error : ℕ → String → Answer A
  write_error status message = record {
    status = status;
    body = error (bytes message);
    cookie = none;
  }

  -- WriteHeader alone.
  abbrev pub no_content : Answer A
  no_content = record { status = 204; body = empty; cookie = none }

  abbrev pub internal_error : Answer A
  internal_error = write_error 500 "internal error"

pub data Method : Type 0 where
  get head post put delete : Method

-- A request's method, its X-Nxcache-Admin header, and its session cookie.
pub record Credentials : Type 0 where
  pub method : Method
  pub csrf : Text
  pub session : Option Text

abbrev pub is_mutating : Method → Bool
is_mutating get = false
is_mutating head = false
is_mutating _ = true

abbrev pub cookie_value : Option Text → Text
cookie_value none = []
cookie_value (some raw) = raw

module _ (p : Primitives) {S A : Type 0} where
  unfoldable pub protected :
      (User → World S → Answer A × World S) → Credentials → World S → Answer A × World S
  protected next c w =
      let (found, db') = current_user p (cookie_value c.session) w.db in
      let w' = record w { db = db' } in
      if is_mutating c.method && text_eq c.csrf []
      then (write_error 403 "missing required header", w)
      else elim found [ err _ ↦ (write_error 401 "not authenticated", w') | ok user ↦ next user w' ]
