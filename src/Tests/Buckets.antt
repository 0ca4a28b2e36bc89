-- ===== src/Tests/Buckets.antt =====
-- The S3 and GCS backends over clients that keep a bucket in memory.
use nx_remote_cache.Base.{
  All, Bool, Bool-cases, List, Option, Option-cases, Text, [], ap, arith, bytes, eq_ℤ, eq_ℤ_iff,
  err, false, has_prefix, if◌then◌else◌, inl, inr, is_some, length, none, not, ok, pos, refl, some,
  some_inj, sym, text_eq, text_eq_iff, text_eq_refl, trim_prefix, true, ℕ, ℤ, ◌&&◌, ◌++◌, ◌∙◌, ◌∷◌,
  ◌≡◌,
}
use nx_remote_cache.Storage.{failure, Reader, valid_hash}
use nx_remote_cache.Storage.Contract.{Artifact, content_of, upload, IsStore, IsCache}
use nx_remote_cache.Storage.Path.{clean, join}
use nx_remote_cache.Storage.Keys.{key, list_prefix, unkey}
use nx_remote_cache.Storage.Keys.Prefix.{IsClean, IsPlain, key-trailing_slash}
use nx_remote_cache.Storage.Keys.Names.{held, names, IsTidy}
use nx_remote_cache.Storage.S3
use nx_remote_cache.Storage.S3.{S3Error, Object, S3Client, or_zero, s3, upload_object}
use nx_remote_cache.Storage.S3.Cache.{s3-IsCache}
use nx_remote_cache.Storage.S3.Race.{put_step, checking, put_step-overwrites}
use nx_remote_cache.Storage.Gcs
use nx_remote_cache.Storage.Gcs.{GcsError, GcsClient, ObjectAttrs, gcs, copy_in, finalize}
use nx_remote_cache.Storage.Gcs.Client.{Writing}
use nx_remote_cache.Storage.Gcs.Cache.{gcs-IsStore}
use nx_remote_cache.Storage.Gcs.Truncation.{put-stores_part}

abbrev prefix : Text
prefix = bytes "p"

-- A bucket that refuses keys that path.Join would change.
abbrev Bucket : Type 0
Bucket = Text → Option Artifact

abbrev is_tidy : Text → Bool
is_tidy k = text_eq (key prefix (unkey prefix k)) k

abbrev objects : Bucket → Text → Option Artifact
objects s k = if is_tidy k then s k else none

abbrev store_at : Text → Option Artifact → Bucket → Bucket
store_at k a s j = if text_eq k j then a else s j

abbrev artifact : List ℕ → Option Artifact
artifact bs = some (record { content = bs; mod_time = pos 7 })

abbrev known : Text
known = bytes "p/aa"

abbrev known_object : Option Artifact → List Object
known_object none = []
known_object (some a) =
    record { key = some known; size = some (length a.content); last_modified = some a.mod_time }
    ∷ []

abbrev s3_client : S3Client Bucket
s3_client = record {
  head_object =
      λ k s. (if is_some (objects s k) then ok tt else err (S3Error.api (bytes "NotFound")), s);
  put_object = λ k r size s.
      if is_tidy k && eq_ℤ (pos (length (upload r size))) size
      then (ok tt, store_at k (artifact (upload r size)) s)
      else (err S3Error.other, s);
  get_object = λ k s. (
    elim (objects s k) [
      | none ↦ err (S3Error.api (bytes "NoSuchKey"))
      | some a ↦ ok (a.content, some (length a.content))
    ],
    s,
  );
  delete_object = λ k s. (ok tt, store_at k none s);
  list_objects = λ n under token s. (
    ok (record {
      contents = if has_prefix known (or_zero [] under) then known_object (objects s known) else [];
      next_continuation_token = none;
    }),
    s,
  );
}

objects-store_at :
    (k : Text) (o : Option Artifact) (s : Bucket)
    → objects (store_at k o s) k ≡ (if is_tidy k then o else none)
objects-store_at k o s = ground (arith, text_eq_refl k)

known-IsListed :
    (s : Bucket) (o : Option Artifact) (under : Option Text)
    → objects s known ≡ o
    → has_prefix known (or_zero [] under) ≡ true
    → All (S3.Client.IsListed (objects s) under) (known_object o)
known-IsListed s none under e h = tt
known-IsListed s (some a) under e h = (
  λ k q.
      let same = some_inj q in
      (
        ap (λ x. has_prefix x (or_zero [] under)) (sym same) ∙ h,
        a,
        ap (objects s) (sym same) ∙ e,
        refl,
      ),
  tt,
)

s3_client-IsBucket : S3.Client.IsBucket s3_client objects
s3_client-IsBucket = record {
  head_keeps = λ k s j. refl;
  head_ok = λ k s e. ground arith;
  head_missing = λ k s x e missing. ground arith;
  put_ok = λ k r size s e. put-whole k r size s (ground arith);
  put_atomic = λ k r size s.
      elim (Bool-cases (is_tidy k && eq_ℤ (pos (length (upload r size))) size)) [
        | inl goes ↦ inr (put-whole k r size s goes)
        | inr stays ↦ inl (ground arith)
      ];
  put_others = λ k r size s j apart. ground arith;
  get_keeps = λ k s j. refl;
  get_ok = λ k s bs n e. ground arith;
  get_missing = λ k s x e missing. ground arith;
  delete_ok = λ k s e. ground (arith, objects-store_at k none s);
  delete_others = λ k s j apart. ground arith;
  list_keeps = λ n under token s j. refl;
  list_ok = λ n under token s page e. listed n under token s page e;
}
  where
    put-whole :
        (k : Text) (r : Reader) (size : ℤ) (s : Bucket)
        → (is_tidy k && eq_ℤ (pos (length (upload r size))) size) ≡ true
        → S3.Client.IsWhole (objects (s3_client.put_object k r size s).1 k) r size
    put-whole k r size s goes =
        let tidy : is_tidy k ≡ true = ground arith in
        let whole : eq_ℤ (pos (length (upload r size))) size ≡ true = ground arith in
        (
          rw goes (ap content_of (objects-store_at k (artifact (upload r size)) s) ∙ rw tidy refl),
          (eq_ℤ_iff (pos (length (upload r size))) size).0 whole,
        )

    listed :
        (n : ℤ) (under token : Option Text) (s : Bucket) (page : S3.ObjectPage)
        → (s3_client.list_objects n under token s).0 ≡ ok page
        → All (S3.Client.IsListed (objects s) under) page.contents
    listed n under token s page e = elim (Bool-cases (has_prefix known (or_zero [] under))) [
      | inr out ↦ let same : page.contents ≡ [] = ground arith in rw same tt
      | inl in_ ↦
          let same : page.contents ≡ known_object (objects s known) = ground arith in
          rw same (known-IsListed s (objects s known) under refl in_)
    ]

prefix-IsClean : IsClean prefix
unfolding clean text_eq
prefix-IsClean = record {
  clean_again = refl;
  ne_root = λ e. ground arith;
  ne_dot = λ e. ground arith;
}

prefix-IsPlain : IsPlain prefix
prefix-IsPlain = inr prefix-IsClean

objects-IsTidy : IsTidy objects prefix
objects-IsTidy s k e under = elim (Bool-cases (is_tidy k)) [
  | inl tidy ↦ (text_eq_iff (key prefix (unkey prefix k)) k).0 tidy
  | inr bad ↦ absurd (ground arith)
]

s3-IsCache_example : IsCache (s3 s3_client prefix) (held objects prefix) (names prefix)
s3-IsCache_example =
    s3-IsCache s3_client objects s3_client-IsBucket prefix prefix-IsPlain objects-IsTidy

abbrev empty_bucket : Bucket
empty_bucket k = none

abbrev reader : List ℕ → Reader
reader bs = record { content = bs; broken = false }

abbrev aa : Text
aa = bytes "aa"

-- What runs of the backends go through.
program : Unit {0}
unfolding put_step S3.exists S3.put S3.get S3.list S3.delete Gcs.put Gcs.get upload_object key unkey
    list_prefix clean text_eq trim_prefix has_prefix valid_hash copy_in finalize join
program = tt

s3_runs :
    ((S3.put s3_client prefix aa (reader (1 ∷ 2 ∷ [])) (pos 2) empty_bucket).0 ≡ ok tt)
    × ((S3.get s3_client prefix aa
          (S3.put s3_client prefix aa (reader (1 ∷ 2 ∷ [])) (pos 2) empty_bucket).1).0
        ≡ ok (1 ∷ 2 ∷ [], 2))
    × ((S3.put s3_client prefix aa (reader (1 ∷ 2 ∷ [])) (pos 3) empty_bucket).0 ≡ err failure)
unfolding program
s3_runs = (refl, refl, refl)

put_step-overwrites_example :
    let a₁ = put_step s3_client prefix aa (reader (1 ∷ [])) (pos 1) checking empty_bucket in
    let b₁ = put_step s3_client prefix aa (reader (2 ∷ [])) (pos 1) checking a₁.1 in
    let a₂ = put_step s3_client prefix aa (reader (1 ∷ [])) (pos 1) a₁.0 b₁.1 in
    let b₂ = put_step s3_client prefix aa (reader (2 ∷ [])) (pos 1) b₁.0 a₂.1 in
    (objects empty_bucket (key prefix aa) ≡ none)
    × (content_of (objects a₂.1 (key prefix aa)) ≡ some (1 ∷ []))
    × (content_of (objects b₂.1 (key prefix aa)) ≡ some (2 ∷ []))
unfolding program
put_step-overwrites_example =
    put_step-overwrites s3_client objects s3_client-IsBucket prefix aa (reader (1 ∷ []))
      (reader (2 ∷ [])) (pos 1) (pos 1) empty_bucket refl refl

-- A writer of the client is what it is for.
abbrev gcs_client : GcsClient Bucket Writing
gcs_client = record {
  attrs = λ k s. (if is_some (objects s k) then ok tt else err GcsError.object_not_exist, s);
  new_writer = λ k fresh. record { target = k; does_not_exist = fresh; written = [] };
  write = λ bs w s. (ok tt, record w { written = w.written ++ bs }, s);
  close = λ w s.
      if not (is_tidy w.target)
      then (err GcsError.other, s)
      else if w.does_not_exist && is_some (objects s w.target)
      then (err (GcsError.api 412), s)
      else (ok tt, store_at w.target (artifact w.written) s);
  new_reader = λ k s. (
    elim (objects s k) [
      | none ↦ err GcsError.object_not_exist
      | some a ↦ ok (a.content, length a.content)
    ],
    s,
  );
  delete = λ k s.
      if is_some (objects s k)
      then (ok tt, store_at k none s)
      else (err GcsError.object_not_exist, s);
  next_page = λ under n token s. (
    ok (
      elim (objects s known) [
        | none ↦ []
        | some a ↦
            if has_prefix known under
            then record { name = known; size = length a.content; updated = a.mod_time } ∷ []
            else []
      ],
      [],
    ),
    s,
  );
}

gcs_client-IsBucket : Gcs.Client.IsBucket gcs_client (λ w. w) objects
gcs_client-IsBucket = record {
  attrs_keeps = λ k s j. refl;
  attrs_ok = λ k s e. ground arith;
  attrs_missing = λ k s x e missing. ground arith;
  new_writer_state = λ k fresh. refl;
  write_keeps = λ bs w s j. refl;
  write_target = λ bs w s. refl;
  write_condition = λ bs w s. refl;
  write_ok = λ bs w s e. refl;
  close_ok = λ w s e. ground (arith, objects-store_at w.target (artifact w.written) s);
  close_free = λ w s new e. ground arith;
  close_keeps = λ w s a new e. ground arith;
  close_failed = λ w s x new e failed. ground arith;
  close_others = λ w s j apart. ground arith;
  read_keeps = λ k s j. refl;
  read_ok = λ k s bs n e. ground arith;
  read_missing = λ k s x e missing. ground arith;
  delete_ok = λ k s e. ground (arith, objects-store_at k none s);
  delete_missing = λ k s x e missing. ground arith;
  delete_others = λ k s j apart. ground arith;
  page_keeps = λ under n token s j. refl;
  page_ok = λ under n token s objs next e. listed under n token s objs next e;
}
  where
    listed :
        (under : Text) (n : ℕ) (token : Text) (s : Bucket) (objs : List ObjectAttrs) (next : Text)
        → (gcs_client.next_page under n token s).0 ≡ ok (objs, next)
        → All (Gcs.Client.IsListed (objects s) under) objs
    listed under n token s objs next e = elim (Option-cases (objects s known)) [
      | inl missing ↦ let same : objs ≡ [] = ground arith in rw same tt
      | inr (a, there) ↦ elim (Bool-cases (has_prefix known under)) [
        | inr out ↦ let same : objs ≡ [] = ground arith in rw same tt
        | inl in_ ↦
            let same : objs
                ≡ record { name = known; size = length a.content; updated = a.mod_time } ∷ [] =
              ground arith in
            rw same ((in_, a, there, refl), tt)
      ]
    ]

gcs-IsStore_example : IsStore (gcs gcs_client prefix) (held objects prefix) (names prefix)
gcs-IsStore_example =
    gcs-IsStore gcs_client (λ w. w) objects gcs_client-IsBucket prefix prefix-IsPlain objects-IsTidy

put-stores_part_example :
    ((Gcs.put gcs_client prefix aa
        (record { content = 1 ∷ []; broken = true })
        (pos 3)
        empty_bucket).0
      ≡ err failure)
    × (held objects prefix empty_bucket aa ≡ none)
    × (content_of (
          held objects prefix
            (Gcs.put gcs_client prefix aa
              (record { content = 1 ∷ []; broken = true })
              (pos 3)
              empty_bucket).1
            aa)
        ≡ some (1 ∷ []))
unfolding program
put-stores_part_example =
    put-stores_part gcs_client prefix aa (record { content = 1 ∷ []; broken = true }) (pos 3)
      empty_bucket refl refl (λ w. w) objects gcs_client-IsBucket refl refl refl

key-trailing_slash_example : has_prefix (key (bytes "p/") aa) (bytes "p//") ≡ false
unfolding program
key-trailing_slash_example = key-trailing_slash prefix aa prefix-IsClean refl
