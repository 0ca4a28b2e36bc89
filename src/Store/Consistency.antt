-- ===== src/Store/Consistency.antt =====
-- What the schema of internal/db/migrations says of the tables at any time: primary keys, UNIQUE,
-- CHECK and REFERENCES. The lemmas are those on rows that come, go and change.
pub mod Rows
pub mod Statements
use nx_remote_cache.Base.{
  AreApart, Bool, Bool-cases, List, Option, Text, [], all, any, arith, eq_ℤ, eq_ℤ_iff, false, inl,
  inr, is_some, keep, ltb_ℤ, map, none, not, pos, refl, some, text_eq, text_eq_iff, true, ℕ, ℤ,
  ◌++◌, ◌+◌, ◌∙◌, ◌∷◌, ◌≡◌,
}
use nx_remote_cache.Store.{User, Session, Token, TokenRow, ReadRow, SettingsRow, Db, bump}
use nx_remote_cache.Store.Users.{find_id, forget, forget_token, set_password}
use nx_remote_cache.Store.AppSettings.{is_known, fits_int4}

abbrev pub same_email : User → User → Bool
same_email u v = text_eq u.email v.email

abbrev pub same_user : User → User → Bool
same_user u v = eq_ℤ u.id v.id

abbrev pub same_session : Session → Session → Bool
same_session s t = text_eq s.id_hash t.id_hash

abbrev pub same_hash : TokenRow → TokenRow → Bool
same_hash s t = text_eq s.token_hash t.token_hash

abbrev pub same_token : TokenRow → TokenRow → Bool
same_token s t = eq_ℤ s.token.id t.token.id

abbrev pub same_read : ReadRow → ReadRow → Bool
same_read r s = text_eq r.hash s.hash

-- A reference that may be NULL.
abbrev pub names : Option ℤ → List User → Bool
names none us = true
names (some id) us = is_some (find_id id us)

abbrev pub owned : List User → Session → Bool
owned us s = is_some (find_id s.user_id us)

abbrev pub credited : List User → TokenRow → Bool
credited us t = names t.token.created_by us

abbrev pub user_below : ℕ → User → Bool
user_below n u = ltb_ℤ u.id (pos n)

abbrev pub token_below : ℕ → TokenRow → Bool
token_below n t = ltb_ℤ t.token.id (pos n)

-- A table meets the schema, and its sequence is ahead of the keys drawn from it.
pub record MeetUsers (us : List User) (next : ℕ) : Type 0 where
  pub emails : AreApart same_email us
  pub ids : AreApart same_user us
  pub drawn : all (user_below next) us ≡ true

pub record MeetSessions (us : List User) (ss : List Session) : Type 0 where
  pub keys : AreApart same_session ss
  pub owners : all (owned us) ss ≡ true

pub record MeetTokens (us : List User) (ts : List TokenRow) (next : ℕ) : Type 0 where
  pub hashes : AreApart same_hash ts
  pub ids : AreApart same_token ts
  pub drawn : all (token_below next) ts ≡ true
  pub creators : all (credited us) ts ≡ true

pub record MeetSettings (us : List User) (row : SettingsRow) : Type 0 where
  pub backend : is_known row.storage_backend ≡ true
  pub ttl : fits_int4 row.session_ttl_seconds ≡ true
  pub updater : names row.updated_by us ≡ true

pub record IsConsistent (d : Db) : Type 0 where
  pub users : MeetUsers d.users d.next_user
  pub sessions : MeetSessions d.users d.sessions
  pub tokens : MeetTokens d.users d.tokens d.next_token
  pub reads : AreApart same_read d.reads
  pub settings : MeetSettings d.users d.settings

text_eq_swap : (s t : Text) → text_eq s t ≡ text_eq t s
text_eq_swap s t = ground (arith, text_eq_iff s t, text_eq_iff t s)

eq_ℤ_swap : (a b : ℤ) → eq_ℤ a b ≡ eq_ℤ b a
eq_ℤ_swap a b = ground (arith, eq_ℤ_iff a b, eq_ℤ_iff b a)

-- Keys below the sequence differ from the one that it gives next.
fresh_user :
    (n : ℕ) (us : List User) (u : User)
    → u.id ≡ pos n
    → all (user_below n) us ≡ true
    → any (λ v. same_user v u) us ≡ false
fresh_user n [] u e h = refl
fresh_user n (v ∷ vs) u e h = ground (arith, fresh_user n vs u e, eq_ℤ_iff v.id u.id)

fresh_token :
    (n : ℕ) (ts : List TokenRow) (t : TokenRow)
    → t.token.id ≡ pos n
    → all (token_below n) ts ≡ true
    → any (λ s. same_token s t) ts ≡ false
fresh_token n [] t e h = refl
fresh_token n (s ∷ ss) t e h = ground (arith, fresh_token n ss t e, eq_ℤ_iff s.token.id t.token.id)

user_below_suc : (n : ℕ) (u : User) → user_below n u ≡ true → user_below (n + 1) u ≡ true
user_below_suc n u h = ground arith

token_below_suc : (n : ℕ) (t : TokenRow) → token_below n t ≡ true → token_below (n + 1) t ≡ true
token_below_suc n t h = ground arith

-- A user that comes leaves the others where they are.
find_id-snoc :
    (id : ℤ) (us : List User) (u : User)
    → is_some (find_id id us) ≡ true
    → is_some (find_id id (us ++ u ∷ [])) ≡ true
find_id-snoc id [] u h = absurd (ground arith)
find_id-snoc id (v ∷ vs) u h = ground (arith, find_id-snoc id vs u)

-- So does one that goes.
find_id-keep :
    (id gone : ℤ) (us : List User)
    → eq_ℤ id gone ≡ false
    → is_some (find_id id us) ≡ true
    → is_some (find_id id (keep (λ u. not (eq_ℤ u.id gone)) us)) ≡ true
find_id-keep id gone [] apart h = h
find_id-keep id gone (u ∷ us) apart h =
    ground
      (arith, find_id-keep id gone us apart, eq_ℤ_iff u.id id, eq_ℤ_iff u.id gone, eq_ℤ_iff id gone)

find_id-set_password :
    (id who : ℤ) (hash : Text) (us : List User)
    → is_some (find_id id (map (set_password who hash) us)) ≡ is_some (find_id id us)
find_id-set_password id who hash [] = refl
find_id-set_password id who hash (u ∷ us) = ground (arith, find_id-set_password id who hash us)

names-snoc :
    (by : Option ℤ) (us : List User) (u : User)
    → names by us ≡ true
    → names by (us ++ u ∷ []) ≡ true
names-snoc none us u h = refl
names-snoc (some id) us u h = find_id-snoc id us u h

names-forget :
    (by : Option ℤ) (gone : ℤ) (us : List User)
    → names by us ≡ true
    → names (forget gone by) (keep (λ u. not (eq_ℤ u.id gone)) us) ≡ true
names-forget none gone us h = refl
names-forget (some id) gone us h = elim (Bool-cases (eq_ℤ id gone)) [
  | inl same ↦ rw same refl
  | inr apart ↦ rw apart (find_id-keep id gone us apart h)
]

names-set_password :
    (by : Option ℤ) (who : ℤ) (hash : Text) (us : List User)
    → names by us ≡ true
    → names by (map (set_password who hash) us) ≡ true
names-set_password none who hash us h = refl
names-set_password (some id) who hash us h = find_id-set_password id who hash us ∙ h
