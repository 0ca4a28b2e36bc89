-- ===== src/Admin/Spa.antt =====
-- internal/adminapi/spa.go. The embedded files and http.FileServerFS are parameters.
use nx_remote_cache.Base.{
  Bool, List, Option, Text, [], bytes, false, if◌then◌else◌, none, refl, some, text_eq, trim_prefix,
  ℕ, ◌≡◌,
}
use nx_remote_cache.Server.{Response, http_error}

-- fs.Stat and fs.ReadFile, and what the file server behind http.StripPrefix answers to a path.
pub record Assets : Type 0 where
  pub is_there : Text → Bool
  pub read_file : Text → Option (List ℕ)
  pub file_server : Text → Response

-- The path of the file that a URL's path asks for.
unfoldable pub asset_path : Text → Text
asset_path path =
    let rest = trim_prefix (trim_prefix path (bytes "/admin")) (bytes "/") in
    if text_eq rest [] then bytes "index.html" else rest

unfoldable pub serve_index : Assets → Response
serve_index assets = elim (assets.read_file (bytes "index.html")) [
  | none ↦ http_error "internal error" 500
  | some page ↦ record {
    status = 200;
    content_type = bytes "text/html; charset=utf-8";
    content_length = none;
    body = page;
  }
]

unfoldable pub spa_handler : Assets → Text → Response
unfolding serve_index
spa_handler assets path =
    if assets.is_there (asset_path path) then assets.file_server path else serve_index assets

-- Every route of the app that names no file gets the same page as its index.
pub spa_handler-route :
    (assets : Assets) (path other : Text)
    → assets.is_there (asset_path path) ≡ false
    → assets.is_there (asset_path other) ≡ false
    → spa_handler assets path ≡ spa_handler assets other
unfolding spa_handler
spa_handler-route assets path other e f = rw (e, f) refl
