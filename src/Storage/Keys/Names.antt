-- ===== src/Storage/Keys/Names.antt =====
-- Names and the keys under which a bucket holds their artifacts.
use nx_remote_cache.Base.{
  Bool, Bool-cases, Option, Text, ap, arith, false, has_prefix, if◌then◌else◌, inl, inr, is_some,
  none, not, refl, some, text_eq, text_eq_iff, true, ◌||◌, ◌∙◌, ◌≡◌,
}
use nx_remote_cache.Storage.{Entry, valid_hash}
use nx_remote_cache.Storage.Contract.{Artifact, Describes}
use nx_remote_cache.Storage.Keys.{key, list_prefix, unkey}
use nx_remote_cache.Storage.Keys.Prefix.{IsPlain, key-apart, unkey-key}

pub is_some-none : (o : Option Artifact) → is_some o ≡ false → o ≡ none
is_some-none none e = refl
is_some-none (some a) e = absurd (ground arith)

-- The artifact under a hash is the object under its key.
abbrev pub held : {S : Type 0} → (S → Text → Option Artifact) → Text → S → Text → Option Artifact
held objects prefix s h = if valid_hash h then objects s (key prefix h) else none

-- The names whose keys are no other hash's key.
abbrev pub names : Text → Text → Bool
names prefix h = valid_hash h || not (valid_hash (unkey prefix (key prefix h)))

-- No key under the prefix has a component that path.Join would take out.
abbrev pub IsTidy : {S : Type 0} → (S → Text → Option Artifact) → Text → Type 0
IsTidy {S} objects prefix =
    (s : S) (k : Text)
    → is_some (objects s k) ≡ true
    → has_prefix k (list_prefix prefix) ≡ true
    → key prefix (unkey prefix k) ≡ k

pub names-apart :
    (prefix h j : Text)
    → IsPlain prefix
    → names prefix h ≡ true
    → valid_hash j ≡ true
    → text_eq h j ≡ false
    → text_eq (key prefix h) (key prefix j) ≡ false
names-apart prefix h j plain named jv apart = elim (Bool-cases (valid_hash h)) [
  | inl hv ↦ key-apart prefix h j hv jv apart
  | inr bad ↦ elim (Bool-cases (text_eq (key prefix h) (key prefix j))) [
    | inr e ↦ e
    | inl same ↦
        let e : unkey prefix (key prefix h) ≡ j =
          ap (unkey prefix) ((text_eq_iff (key prefix h) (key prefix j)).0 same)
          ∙ unkey-key prefix j plain jv in
        let v : valid_hash (unkey prefix (key prefix h)) ≡ true = ap valid_hash e ∙ jv in
        ground arith
  ]
]

pub names-unkey :
    (prefix k : Text) → key prefix (unkey prefix k) ≡ k → names prefix (unkey prefix k) ≡ true
names-unkey prefix k e = elim (Bool-cases (valid_hash (unkey prefix k))) [
  | inl v ↦ ground arith
  | inr bad ↦
      let same : valid_hash (unkey prefix (key prefix (unkey prefix k))) ≡ false =
        ap (λ x. valid_hash (unkey prefix x)) e ∙ bad in
      ground arith
]

-- What List gives: a name that Delete tells apart, with the time of what is stored under it.
abbrev pub IsEntry : {S : Type 0} → (S → Text → Option Artifact) → Text → S → Entry → Type 0
IsEntry objects prefix s e = (names prefix e.hash ≡ true) × Describes (held objects prefix s) e

module _ {S : Type 0} (objects : S → Text → Option Artifact) (prefix : Text) where
  pub held-change :
      (s s' : S) (j : Text)
      → (valid_hash j ≡ true → objects s' (key prefix j) ≡ objects s (key prefix j))
      → held objects prefix s' j ≡ held objects prefix s j
  held-change s s' j same = elim (Bool-cases (valid_hash j)) [
    | inl v ↦ rw v (same v)
    | inr bad ↦ rw bad refl
  ]

  -- An object under the prefix makes an entry.
  pub unkey-IsEntry :
      (s : S) (k : Text) (a : Artifact) (e : Entry)
      → IsTidy objects prefix
      → has_prefix k (list_prefix prefix) ≡ true
      → objects s k ≡ some a
      → e.hash ≡ unkey prefix k
      → e.mod_time ≡ a.mod_time
      → IsEntry objects prefix s e
  unkey-IsEntry s k a e tidy under found named timed =
      let same = tidy s k (ap is_some found) under in
      rw (named, timed) (names-unkey prefix k same, λ v. rw (v, same, found) refl)
