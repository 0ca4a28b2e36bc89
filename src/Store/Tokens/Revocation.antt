-- ===== src/Store/Tokens/Revocation.antt =====
-- A revoked token through later statements.
use nx_remote_cache.Base.{
  Bool, Bool-cases, List, Result, Text, [], any, ap, arith, eq_ℤ, eq_ℤ_iff, false, find,
  if◌then◌else◌, inl, inr, is_some, map, none, ok, refl, some, sym, text_eq, text_eq_iff, true, ℤ,
  ◌++◌, ◌∙◌, ◌∷◌, ◌≡◌,
}
use mathlib.Core.Path.{subst}
use nx_remote_cache.Store
use nx_remote_cache.Store.{TokenRow, TokenScope, Token, Db, exec, exec_ind, exec-ok, bump, now}
use nx_remote_cache.Store.Users.{
  find_id, forget_token, create_user, delete_user, get_user_by_email, get_user_by_id, list_users,
  count_users, update_password,
}
use nx_remote_cache.Store.Sessions.{
  create_session, get_session, delete_session, delete_expired_sessions,
}
use nx_remote_cache.Store.Reads.{
  record_cache_read, delete_cache_read_stats, get_cache_read_stats_batch, list_all_cache_read_stats,
}
use nx_remote_cache.Store.AppSettings.{get_settings, update_settings}
use nx_remote_cache.Store.Tokens.{
  is_active, revoke_row, stamp_row, insert_token, create_token, list_tokens, revoke_token,
  authenticate,
}
use nx_remote_cache.Store.Queries.{Query, run, run_all}

-- Every row with this hash is revoked, and there is one.
pub record IsDead (h : Text) (ts : List TokenRow) : Type 0 where
  pub present : any (λ r. text_eq r.token_hash h) ts ≡ true
  pub inactive : find (is_active h) ts ≡ none

-- UNIQUE (token_hash).
abbrev pub AreDistinct : List TokenRow → Type 0
AreDistinct [] = Unit
AreDistinct (r ∷ rs) = (any (λ s. text_eq s.token_hash r.token_hash) rs ≡ false) × AreDistinct rs

-- A change of one row that keeps its hash and never makes it active again.
pub record IsTame (f : TokenRow → TokenRow) : Type 0 where
  pub same_hash : (r : TokenRow) → (f r).token_hash ≡ r.token_hash
  pub stays :
      (r : TokenRow) → is_some r.token.revoked_at ≡ true → is_some (f r).token.revoked_at ≡ true

module _ (f : TokenRow → TokenRow) (tame : IsTame f) (h : Text) where
  any-map_tame :
      (ts : List TokenRow)
      → any (λ r. text_eq r.token_hash h) (map f ts) ≡ any (λ r. text_eq r.token_hash h) ts
  any-map_tame [] = refl
  any-map_tame (r ∷ rs) = rw (tame.same_hash r, any-map_tame rs) refl

  find-map_tame :
      (ts : List TokenRow) → find (is_active h) ts ≡ none → find (is_active h) (map f ts) ≡ none
  find-map_tame [] e = refl
  find-map_tame (r ∷ rs) e = ground (arith, tame.same_hash r, tame.stays r, find-map_tame rs)

  IsDead-map : {ts : List TokenRow} → IsDead h ts → IsDead h (map f ts)
  IsDead-map {ts} dead = record {
    present = any-map_tame ts ∙ dead.present;
    inactive = find-map_tame ts dead.inactive;
  }

IsTame-revoke : (id time : ℤ) → IsTame (revoke_row id time)
IsTame-revoke id time = record { same_hash = λ r. ground arith; stays = λ r e. ground arith }

IsTame-stamp : (h : Text) (time : ℤ) → IsTame (stamp_row h time)
IsTame-stamp h time = record { same_hash = λ r. ground arith; stays = λ r e. ground arith }

IsTame-forget : (id : ℤ) → IsTame (forget_token id)
IsTame-forget id = record { same_hash = λ r. refl; stays = λ r e. e }

any-concat :
    (p : TokenRow → Bool) (ts : List TokenRow) (r : TokenRow)
    → any p ts ≡ true
    → any p (ts ++ r ∷ []) ≡ true
any-concat p [] r h = cc
any-concat p (t ∷ ts) r h = ground (arith, any-concat p ts r)

find-concat :
    (p : TokenRow → Bool) (ts : List TokenRow) (r : TokenRow)
    → find p ts ≡ none
    → p r ≡ false
    → find p (ts ++ r ∷ []) ≡ none
find-concat p [] r h e = rw e
find-concat p (t ∷ ts) r h e = ground (arith, find-concat p ts r)

module _ (h : Text) (d : Db) (dead : IsDead h d.tokens) where
  abbrev IsDeadIn : Db → Type 0
  IsDeadIn d' = IsDead h d'.tokens

  other_hash :
      (hash : Text) → any (λ r. text_eq r.token_hash hash) d.tokens ≡ false → text_eq hash h ≡ false
  other_hash hash free = elim (Bool-cases (text_eq hash h)) [
    | inl same ↦
        let e : h ≡ hash = sym ((text_eq_iff hash h).0 same) in
        let bad = subst (λ x. any (λ r. text_eq r.token_hash x) d.tokens ≡ true) e dead.present in
        cc
    | inr apart ↦ apart
  ]

  IsDead-concat : (r : TokenRow) → text_eq r.token_hash h ≡ false → IsDead h (d.tokens ++ r ∷ [])
  IsDead-concat r e = record {
    present = any-concat _ d.tokens r dead.present;
    inactive = find-concat _ d.tokens r dead.inactive (rw e);
  }

  -- The hash is taken, so a new token has another one.
  insert_token-IsDead :
      (name : Text) (scope : TokenScope) (hash : Text) (by : ℤ)
      → IsDeadIn (insert_token name scope hash by d).1
  unfolding insert_token
  insert_token-IsDead name scope hash by =
      elim (Bool-cases (any (λ r. text_eq r.token_hash hash) d.tokens)) [
        | inl taken ↦ rw taken dead
        | inr free ↦ rw free (elim (Bool-cases (is_some (find_id by d.users))) [
          | inl known ↦ rw known (IsDead-concat _ (other_hash hash free))
          | inr gone ↦ rw gone dead
        ])
      ]

  -- A statement that leaves `tokens` alone, or runs with an effect that keeps the hash dead.
  IsDead-exec :
      {A : Type 0} (done : Result Store.Error A × Db)
      → IsDeadIn done.1
      → IsDeadIn (exec {A = A} d done).1
  IsDead-exec done k = exec_ind IsDeadIn d done dead k

  IsDead-if :
      {A : Type 0} (b : Bool) (x y : Result Store.Error A × Db)
      → IsDeadIn x.1
      → IsDeadIn y.1
      → IsDeadIn (if b then x else y).1
  IsDead-if true x y p q = p
  IsDead-if false x y p q = q

  -- A revoked token stays revoked, whatever statement runs next.
  pub run-IsDead : (q : Query) → IsDeadIn (run q d)
  unfolding run
  run-IsDead (Query.creating_user email hash) =
      unfold create_user in IsDead-exec _ (IsDead-if _ _ _ dead dead)
  run-IsDead (Query.getting_user_by_email email) = unfold get_user_by_email in IsDead-exec _ dead
  run-IsDead (Query.getting_user_by_id id) = unfold get_user_by_id in IsDead-exec _ dead
  run-IsDead Query.listing_users = unfold list_users in IsDead-exec _ dead
  run-IsDead (Query.deleting_user id) =
      unfold delete_user in
      IsDead-exec _ (IsDead-if _ _ _ (IsDead-map (forget_token id) (IsTame-forget id) h dead) dead)
  run-IsDead Query.counting_users = unfold count_users in IsDead-exec _ dead
  run-IsDead (Query.updating_password id hash) =
      unfold update_password in IsDead-exec _ (IsDead-if _ _ _ dead dead)
  run-IsDead (Query.creating_session id_hash user_id expires_at) =
      unfold create_session in IsDead-exec _ (IsDead-if _ _ _ dead dead)
  run-IsDead (Query.getting_session id_hash) = unfold get_session in IsDead-exec _ dead
  run-IsDead (Query.deleting_session id_hash) = unfold delete_session in IsDead-exec _ dead
  run-IsDead Query.deleting_expired_sessions = unfold delete_expired_sessions in IsDead-exec _ dead
  run-IsDead (Query.creating_token name scope hash by) =
      unfold create_token in IsDead-exec _ (insert_token-IsDead name scope hash by)
  run-IsDead Query.listing_tokens = unfold list_tokens in IsDead-exec _ dead
  run-IsDead (Query.revoking_token id) =
      unfold revoke_token in
      IsDead-exec _ (
        IsDead-if _ _ _ (IsDead-map (revoke_row id (now d)) (IsTame-revoke id (now d)) h dead) dead)
  run-IsDead (Query.authenticating hash) =
      unfold authenticate in
      IsDead-exec _ (IsDead-map (stamp_row hash (now d)) (IsTame-stamp hash (now d)) h dead)
  run-IsDead (Query.recording_cache_read hash) = unfold record_cache_read in IsDead-exec _ dead
  run-IsDead (Query.deleting_cache_read_stats hash) =
      unfold delete_cache_read_stats in IsDead-exec _ dead
  run-IsDead (Query.getting_cache_read_stats_batch []) = unfold get_cache_read_stats_batch in dead
  run-IsDead (Query.getting_cache_read_stats_batch (x ∷ xs)) =
      unfold get_cache_read_stats_batch in IsDead-exec _ dead
  run-IsDead Query.listing_all_cache_read_stats =
      unfold list_all_cache_read_stats in IsDead-exec _ dead
  run-IsDead Query.getting_settings = unfold get_settings in IsDead-exec _ dead
  run-IsDead (Query.updating_settings row by) =
      unfold update_settings in IsDead-exec _ (IsDead-if _ _ _ dead dead)

run_all-IsDead :
    (h : Text) (qs : List Query) (d : Db) → IsDead h d.tokens → IsDead h (run_all qs d).tokens
unfolding run_all
run_all-IsDead h [] d dead = dead
run_all-IsDead h (q ∷ qs) d dead = run_all-IsDead h qs (run q d) (run-IsDead h d dead q)

-- After RevokeToken no row of that id is active.
none_active :
    (id time : ℤ) (h : Text) (ts : List TokenRow)
    → any (λ r. text_eq r.token_hash h) ts ≡ false
    → find (is_active h) (map (revoke_row id time) ts) ≡ none
none_active id time h [] e = refl
none_active id time h (r ∷ rs) e = ground (arith, none_active id time h rs)

-- The row with a hash that is UNIQUE is the only one that could be active.
pub revoked_row :
    (id time : ℤ) (h : Text) (ts : List TokenRow) (r : TokenRow)
    → AreDistinct ts
    → find (λ s. text_eq s.token_hash h) ts ≡ some r
    → r.token.id ≡ id
    → IsDead h (map (revoke_row id time) ts)
revoked_row id time h [] r dis e same = cc
revoked_row id time h (s ∷ ss) r dis e same = elim (Bool-cases (text_eq s.token_hash h)) [
  | inl here ↦
      let free : any (λ y. text_eq y.token_hash h) ss ≡ false =
        subst (λ x. any (λ y. text_eq y.token_hash x) ss ≡ false)
          ((text_eq_iff s.token_hash h).0 here) dis.0 in
      let row : s ≡ r = ground arith in
      let known : eq_ℤ s.token.id id ≡ true =
        (eq_ℤ_iff s.token.id id).1 (ap (λ x. x.token.id) row ∙ same) in
      record { present = ground arith; inactive = ground (arith, none_active id time h ss free) }
  | inr later ↦
      let ih = revoked_row id time h ss r dis.1 (ground arith) same in
      record { present = ground (arith, ih.present); inactive = ground (arith, ih.inactive) }
]

pub tokens-revoke_token :
    (id : ℤ) (d : Db)
    → (revoke_token id d).0 ≡ ok tt
    → (revoke_token id d).1.tokens ≡ map (revoke_row id (now d)) d.tokens
unfolding revoke_token
tokens-revoke_token id d done = ground arith

-- In a table of tokens with distinct hashes, RevokeToken that reports success has revoked the
-- token of that id, and for good: its hash has no active row after any later statements, whatever
-- becomes of them.
pub revoke_token-IsDead :
    (id : ℤ) (h : Text) (r : TokenRow) (d : Db) (qs : List Query)
    → AreDistinct d.tokens
    → find (λ s. text_eq s.token_hash h) d.tokens ≡ some r
    → r.token.id ≡ id
    → (revoke_token id d).0 ≡ ok tt
    → find (is_active h) (run_all qs (revoke_token id d).1).tokens ≡ none
revoke_token-IsDead id h r d qs dis e same done =
    let dead =
      subst (IsDead h) (sym (tokens-revoke_token id d done))
        (revoked_row id (now d) h d.tokens r dis e same) in
    (run_all-IsDead h qs (revoke_token id d).1 dead).inactive
