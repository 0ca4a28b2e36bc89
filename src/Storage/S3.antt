-- ===== src/Storage/S3.antt =====
-- internal/storage/s3.go. The client of the AWS SDK for one bucket is a parameter.
pub mod Client
pub mod Ops
pub mod Listing
pub mod Cache
pub mod Race
use nx_remote_cache.Base.{
  Bool, List, Option, Result, Text, [], bytes, err, false, if◌then◌else◌, negsuc, none, ok, pos,
  some, text_eq, true, wrap32, ℕ, ℤ, ◌||◌, ◌∷◌,
}
use nx_remote_cache.Storage.{
  Error, not_found, already_exists, failure, Entry, ListPage, Reader, Backend,
}
use nx_remote_cache.Storage.Keys.{key, list_prefix, unkey}
use nx_remote_cache.Storage.Local.{effective_limit}

-- A smithy.APIError with its code, and any other error.
pub data S3Error : Type 0 where
  api : Text → S3Error
  other : S3Error

-- types.Object; the pointers of the SDK may be nil.
pub record Object : Type 0 where
  pub key : Option Text
  pub size : Option ℕ
  pub last_modified : Option ℤ

pub record ObjectPage : Type 0 where
  pub contents : List Object
  pub next_continuation_token : Option Text

-- `put_object` gets the reader that LimitReader cuts, and the ContentLength; `get_object` gives the
-- body and the ContentLength; `list_objects` gets MaxKeys, the Prefix and the ContinuationToken.
pub record S3Client (S : Type 0) : Type 0 where
  pub head_object : Text → S → Result S3Error (Unit {0}) × S
  pub put_object : Text → Reader → ℤ → S → Result S3Error (Unit {0}) × S
  pub get_object : Text → S → Result S3Error (List ℕ × Option ℕ) × S
  pub delete_object : Text → S → Result S3Error (Unit {0}) × S
  pub list_objects : ℤ → Option Text → Option Text → S → Result S3Error ObjectPage × S

abbrev pub is_not_found : S3Error → Bool
is_not_found (api code) = text_eq code (bytes "NotFound") || text_eq code (bytes "NoSuchKey")
is_not_found other = false

-- The zero time.Time, of the year 1.
abbrev pub zero_time : ℤ
zero_time = negsuc 62135596799999999999

abbrev pub or_zero {ℓ} : {A : Type ℓ} → A → Option A → A
or_zero zero_value none = zero_value
or_zero zero_value (some a) = a

-- An empty text for a pointer that stays nil.
abbrev pub given : Text → Option Text
given [] = none
given (c ∷ s) = some (c ∷ s)

-- Objects without a key are left out.
unfoldable pub add_object : Text → Object → List Entry → List Entry
add_object prefix obj rest = elim obj.key [
  | none ↦ rest
  | some k ↦
      record {
        hash = unkey prefix k;
        size = or_zero 0 obj.size;
        mod_time = or_zero zero_time obj.last_modified;
      }
      ∷ rest
]

unfoldable pub entries_of : Text → List Object → List Entry
unfolding add_object
entries_of prefix [] = []
entries_of prefix (obj ∷ objs) = add_object prefix obj (entries_of prefix objs)

-- The limit as the int32 that MaxKeys is.
abbrev pub max_keys : ℤ → ℤ
max_keys limit = wrap32 (pos (effective_limit limit))

module _ {S : Type 0} (client : S3Client S) (prefix : Text) where
  unfoldable pub exists : Text → S → Result Error Bool × S
  exists hash s =
      let (head, s') = client.head_object (key prefix hash) s in
      elim head [
        | ok _ ↦ (ok true, s')
        | err e ↦ if is_not_found e then (ok false, s') else (err failure, s')
      ]

  -- PutObject, once nothing was found under the key.
  unfoldable pub upload_object : Text → Reader → ℤ → S → Result Error (Unit {0}) × S
  upload_object hash r size s =
      let (stored, s') = client.put_object (key prefix hash) r size s in
      elim stored [ ok _ ↦ (ok tt, s') | err _ ↦ (err failure, s') ]

  unfoldable pub put : Text → Reader → ℤ → S → Result Error (Unit {0}) × S
  unfolding exists upload_object
  put hash r size s =
      let (found, s') = exists hash s in
      elim found [
        | err _ ↦ (err failure, s')
        | ok there ↦ if there then (err already_exists, s') else upload_object hash r size s'
      ]

  unfoldable pub get : Text → S → Result Error (List ℕ × ℕ) × S
  get hash s =
      let (got, s') = client.get_object (key prefix hash) s in
      elim got [
        | ok (body, size) ↦ (ok (body, or_zero 0 size), s')
        | err e ↦ if is_not_found e then (err not_found, s') else (err failure, s')
      ]

  delete_object : Text → S → Result Error (Unit {0}) × S
  delete_object hash s =
      let (deleted, s') = client.delete_object (key prefix hash) s in
      elim deleted [ ok _ ↦ (ok tt, s') | err _ ↦ (err failure, s') ]

  unfoldable pub delete : Text → S → Result Error (Unit {0}) × S
  unfolding exists delete_object
  delete hash s =
      let (found, s') = exists hash s in
      elim found [
        | err _ ↦ (err failure, s')
        | ok there ↦ if there then delete_object hash s' else (err not_found, s')
      ]

  unfoldable pub list : Text → ℤ → S → Result Error ListPage × S
  unfolding entries_of
  list cursor limit s =
      let (listed, s') =
        client.list_objects (max_keys limit) (given (list_prefix prefix)) (given cursor) s in
      elim listed [
        | err _ ↦ (err failure, s')
        | ok out ↦ (
          ok (record {
            entries = entries_of prefix out.contents;
            next_cursor = or_zero [] out.next_continuation_token;
          }),
          s',
        )
      ]

  abbrev pub s3 : Backend S
  s3 = record { exists = exists; put = put; get = get; delete = delete; list = list }

-- What NewS3 sets in the configuration of the client.
pub record S3Config : Type 0 where
  pub region : Option Text
  pub static_credentials : Option (Text × Text)
  pub base_endpoint : Option Text
  pub use_path_style : Bool

abbrev pub both : Text → Text → Option (Text × Text)
both [] _ = none
both (_ ∷ _) [] = none
both (c ∷ s) (d ∷ t) = some (c ∷ s, d ∷ t)

-- NewS3, with the options that it takes. LoadDefaultConfig and NewFromConfig are the parameter
-- `connect`, which is none for an error.
unfoldable pub new_s3 :
    {S : Type 0}
    → (S3Config → Text → S → Option (S3Client S) × S)
    → Text
    → Text
    → Text
    → Text
    → Bool
    → Text
    → Text
    → S
    → Option (Backend S) × S
new_s3 connect bucket region prefix endpoint path_style id secret s =
    let config : S3Config = record {
      region = given region;
      static_credentials = both id secret;
      base_endpoint = given endpoint;
      use_path_style = path_style;
    } in
    let (client, s') = connect config bucket s in
    elim client [ none ↦ (none, s') | some c ↦ (some (s3 c prefix), s') ]
