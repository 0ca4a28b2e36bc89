-- ===== src/Server.antt =====
-- internal/server/server.go: the cache API.
pub mod Put
pub mod Get
pub mod RoundTrip
pub mod Progress
pub mod Routes
use nx_remote_cache.Base.{
  List, Option, String, Text, [], bytes, err, if◌then◌else◌, leb_ℤ, ltb, ltb_ℤ, none, not, ok, pick,
  pos, some, ℕ, ℤ, ◌++◌, ◌∷◌,
}
use nx_remote_cache.Primitives.{Primitives}
use nx_remote_cache.Storage
use nx_remote_cache.Storage.{Reader, Backend, valid_hash}
use nx_remote_cache.Auth.{Scope, scope_read, scope_write, authorize, extract_bearer}
use nx_remote_cache.Store
use nx_remote_cache.Store.Reads.{record_cache_read}
use nx_remote_cache.World.{World, active}

-- `authorization` is empty if the header is missing; `content_length` is -1 if it is unknown.
pub record Request : Type 0 where
  pub hash : Text
  pub authorization : Text
  pub content_length : ℤ
  pub body : Reader

pub record Response : Type 0 where
  pub status : ℕ
  pub content_type : Text
  pub content_length : Option ℕ
  pub body : List ℕ

-- http.Error.
abbrev pub http_error : String → ℕ → Response
http_error message status = record {
  status = status;
  content_type = bytes "text/plain; charset=utf-8";
  content_length = none;
  body = bytes message ++ 10 ∷ [];
}

-- A status with no body.
abbrev pub status_only : ℕ → Response
status_only status = record { status = status; content_type = []; content_length = none; body = [] }

unfoldable pub handle_health : Response
handle_health = record (status_only 200) { body = bytes "ok" }

abbrev pub internal_error : Response
internal_error = http_error "internal error" 500

-- The body, with a Content-Length if the size is known.
abbrev pub artifact_response : List ℕ → ℕ → Response
artifact_response bs size = record {
  status = 200;
  content_type = bytes "application/octet-stream";
  content_length = if ltb 0 size then some size else none;
  body = bs;
}

module _ (p : Primitives) {S : Type 0} where
  -- The checks on the token that both handlers make, before `go` serves the request.
  unfoldable pub with_token :
      Scope → Text → (World S → Response × World S) → World S → Response × World S
  with_token scope header go w =
      let (auth, db') = authorize p (extract_bearer header) scope w.db in
      let w' = record w { db = db' } in
      elim auth [
        | err _ ↦ (internal_error, w')
        | ok (valid, allowed) ↦
            if not valid
            then (http_error "Missing or invalid authentication token" 401, w')
            else if not allowed
            then (http_error "Access forbidden" 403, w')
            else go w'
      ]

  -- The read is recorded later, by a goroutine.
  unfoldable pub serve_artifact : Text → World S → Response × World S
  serve_artifact hash w =
      let (got, storage') = (active w).get hash w.storage in
      let w' = record w { storage = storage' } in
      elim got [
        | err Storage.Error.not_found ↦ (http_error "not found" 404, w')
        | err _ ↦ (internal_error, w')
        | ok (bs, size) ↦
            (artifact_response bs size, record w' { pending = w.pending ++ hash ∷ [] })
      ]

  unfoldable pub handle_get : Request → World S → Response × World S
  unfolding with_token serve_artifact
  handle_get r w =
      if not (valid_hash r.hash)
      then (http_error "invalid hash" 400, w)
      else with_token scope_read r.authorization (serve_artifact r.hash) w

  unfoldable pub store_artifact : Request → World S → Response × World S
  store_artifact r w =
      let (stored, storage') = (active w).put r.hash r.body r.content_length w.storage in
      let w' = record w { storage = storage' } in
      elim stored [
        | ok _ ↦ (status_only 200, w')
        | err Storage.Error.already_exists ↦ (http_error "artifact already exists" 409, w')
        | err _ ↦ (internal_error, w')
      ]

  unfoldable pub check_length : Request → World S → Response × World S
  check_length r w =
      if leb_ℤ r.content_length (pos 0)
      then (http_error "Content-Length header is required" 411, w)
      else if ltb_ℤ w.max_entry_bytes r.content_length
      then (http_error "artifact exceeds maximum allowed size" 413, w)
      else store_artifact r w

  unfoldable pub handle_put : Request → World S → Response × World S
  unfolding with_token check_length store_artifact
  handle_put r w =
      if not (valid_hash r.hash)
      then (http_error "invalid hash" 400, w)
      else with_token scope_write r.authorization (check_length r) w

-- SetMaxEntryBytes.
unfoldable pub set_max_entry_bytes : {S : Type 0} → ℤ → World S → World S
set_max_entry_bytes n w = record w { max_entry_bytes = n }

module _ {S : Type 0} where
  -- The goroutine of handleGet for any one of the reads that wait; its error is only logged.
  unfoldable pub run_pending : ℕ → World S → World S
  run_pending n w = elim (pick n w.pending) [
    | none ↦ w
    | some (hash, others) ↦ record w { db = (record_cache_read hash w.db).1; pending = others }
  ]
