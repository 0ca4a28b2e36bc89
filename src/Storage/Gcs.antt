-- ===== src/Storage/Gcs.antt =====
-- internal/storage/gcs.go. The client of the GCS SDK for one bucket is a parameter.
pub mod Client
pub mod Ops
pub mod Cache
pub mod Truncation
use nx_remote_cache.Base.{
  Bool, List, Option, Result, Text, err, false, if◌then◌else◌, map, none, ok, some, true, ℕ, ℤ,
  ◌==◌,
}
use nx_remote_cache.Storage.{
  Error, not_found, already_exists, failure, Entry, ListPage, Reader, Backend,
}
use nx_remote_cache.Storage.Contract.{upload}
use nx_remote_cache.Storage.Disk.{copy_fails}
use nx_remote_cache.Storage.Keys.{key, list_prefix, unkey}
use nx_remote_cache.Storage.Local.{effective_limit}
use nx_remote_cache.Storage.S3.{given}

-- storage.ErrObjectNotExist, a googleapi.Error with its code, and any other error.
pub data GcsError : Type 0 where
  object_not_exist : GcsError
  api : ℕ → GcsError
  other : GcsError

pub record ObjectAttrs : Type 0 where
  pub name : Text
  pub size : ℕ
  pub updated : ℤ

-- `W` is storage.Writer. `new_writer` gets the name and the condition DoesNotExist; `new_reader`
-- gives the body and Attrs.Size; `next_page` gets the query's Prefix, the page size and the token,
-- and gives the next token.
pub record GcsClient (S W : Type 0) : Type 0 where
  pub attrs : Text → S → Result GcsError (Unit {0}) × S
  pub new_writer : Text → Bool → W
  pub write : List ℕ → W → S → Result GcsError (Unit {0}) × W × S
  pub close : W → S → Result GcsError (Unit {0}) × S
  pub new_reader : Text → S → Result GcsError (List ℕ × ℕ) × S
  pub delete : Text → S → Result GcsError (Unit {0}) × S
  pub next_page : Text → ℕ → Text → S → Result GcsError (List ObjectAttrs × Text) × S

abbrev pub is_not_exist : GcsError → Bool
is_not_exist object_not_exist = true
is_not_exist (api _) = false
is_not_exist other = false

abbrev pub is_precondition_failed : GcsError → Bool
is_precondition_failed object_not_exist = false
is_precondition_failed (api code) = code == 412
is_precondition_failed other = false

abbrev pub entry_of : Text → ObjectAttrs → Entry
entry_of prefix obj = record {
  hash = unkey prefix obj.name;
  size = obj.size;
  mod_time = obj.updated;
}

module _ {S W : Type 0} (client : GcsClient S W) where
  -- io.Copy from io.LimitReader(r, size): what it writes chunk by chunk is one write here.
  unfoldable pub copy_in : Reader → ℤ → W → S → Result GcsError (Unit {0}) × W × S
  copy_in r size w s =
      let (written, w', s') = client.write (upload r size) w s in
      (if copy_fails r size then err other else written, w', s')

  -- Close after the whole copy.
  unfoldable pub finalize : W → S → Result Error (Unit {0}) × S
  finalize w s =
      let (closed, s') = client.close w s in
      elim closed [
        | ok _ ↦ (ok tt, s')
        | err e ↦ if is_precondition_failed e then (err already_exists, s') else (err failure, s')
      ]

module _ {S W : Type 0} (client : GcsClient S W) (prefix : Text) where
  unfoldable pub exists : Text → S → Result Error Bool × S
  exists hash s =
      let (found, s') = client.attrs (key prefix hash) s in
      elim found [
        | ok _ ↦ (ok true, s')
        | err e ↦ if is_not_exist e then (ok false, s') else (err failure, s')
      ]

  unfoldable pub put : Text → Reader → ℤ → S → Result Error (Unit {0}) × S
  unfolding copy_in finalize
  put hash r size s =
      let (copied, w, s') = copy_in client r size (client.new_writer (key prefix hash) true) s in
      elim copied [ err _ ↦ (err failure, (client.close w s').1) | ok _ ↦ finalize client w s' ]

  unfoldable pub get : Text → S → Result Error (List ℕ × ℕ) × S
  get hash s =
      let (got, s') = client.new_reader (key prefix hash) s in
      elim got [
        | ok found ↦ (ok found, s')
        | err e ↦ if is_not_exist e then (err not_found, s') else (err failure, s')
      ]

  unfoldable pub delete : Text → S → Result Error (Unit {0}) × S
  delete hash s =
      let (deleted, s') = client.delete (key prefix hash) s in
      elim deleted [
        | ok _ ↦ (ok tt, s')
        | err e ↦ if is_not_exist e then (err not_found, s') else (err failure, s')
      ]

  unfoldable pub list : Text → ℤ → S → Result Error ListPage × S
  list cursor limit s =
      let (paged, s') = client.next_page (list_prefix prefix) (effective_limit limit) cursor s in
      elim paged [
        | err _ ↦ (err failure, s')
        | ok (objs, token) ↦
            (ok (record { entries = map (entry_of prefix) objs; next_cursor = token }), s')
      ]

  abbrev pub gcs : Backend S
  gcs = record { exists = exists; put = put; get = get; delete = delete; list = list }

-- NewGCS, with the options that it takes. NewClient, with the service account key if one is given,
-- is the parameter `connect`, which is none for an error.
unfoldable pub new_gcs :
    {S W : Type 0}
    → (Option Text → Text → S → Option (GcsClient S W) × S)
    → Text
    → Text
    → Option Text
    → S
    → Option (Backend S) × S
new_gcs connect bucket prefix credentials_json s =
    let key : Option Text = elim credentials_json [ none ↦ none | some json ↦ given json ] in
    let (client, s') = connect key bucket s in
    elim client [ none ↦ (none, s') | some c ↦ (some (gcs c prefix), s') ]
