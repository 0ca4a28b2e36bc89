-- ===== src/System/Revocation.antt =====
-- A token that is revoked over HTTP, through everything that follows.
use mathlib.Core.Path.{subst}
use nx_remote_cache.Base.{
  AreApart, Bool, Bool-cases, List, Option, Result-cases, Text, [], ap, arith, bytes, false, find,
  inl, inr, none, ok, refl, some, sym, text_eq, true, ℕ, ℤ, ◌&&◌, ◌∙◌, ◌∷◌, ◌≡◌, ◌≢◌, ◌⊎◌,
}
use nx_remote_cache.Primitives.{Primitives}
use nx_remote_cache.Store.{Db, TokenRow, now}
use nx_remote_cache.Store.Tokens.{is_active, revoke_token}
use nx_remote_cache.Store.Tokens.Revocation.{
  IsDead, AreDistinct, run-IsDead, tokens-revoke_token, revoked_row,
}
use nx_remote_cache.Store.Consistency.{IsConsistent, same_hash}
use nx_remote_cache.Session.{current_user}
use nx_remote_cache.Auth.{Scope, scope_read, scope_write, authorize, hash_token, extract_bearer}
use nx_remote_cache.Auth.Laws.{authorize_sound}
use nx_remote_cache.Storage.{valid_hash}
use nx_remote_cache.World.{World}
use nx_remote_cache.Janitor
use nx_remote_cache.Server
use nx_remote_cache.Server.{Response, with_token, handle_get, handle_put}
use nx_remote_cache.Routing.{Request, found, routed, find_route, match_path}
use nx_remote_cache.Admin.{cookie_value, protected, delete, is_mutating}
use nx_remote_cache.Admin.Tokens.{handle_revoke_token}
use nx_remote_cache.Admin.Routes as AdminRoutes
use nx_remote_cache.Admin.Routes.{
  Server, State, Draws, Reply, api_answer, protect, act, encoded, admin_routes,
}
use nx_remote_cache.Admin.Routes.Refusal.{SameTables-current_user}
use nx_remote_cache.System
use nx_remote_cache.System.{Event, main_routes, dispatch, serve, admin_server}
use nx_remote_cache.Admin.Spa.{Assets}
use nx_remote_cache.System.Closed.Routes.{keep-run}

abbrev pub reply_status : Reply → ℕ
reply_status (api_answer a) = a.status
reply_status _ = 0

abbrev pub revocation_path : Text → List Text
revocation_path id = bytes "admin" ∷ bytes "api" ∷ bytes "tokens" ∷ id ∷ []

main-revocation :
    (id : Text) → routed main_routes delete (revocation_path id) ≡ found admin_server []
unfolding main_routes routed find_route match_path text_eq
main-revocation id = refl

admin-revocation :
    (ui : Option Assets) (c : ℕ) (cs : Text)
    → routed (admin_routes ui) delete (revocation_path (c ∷ cs))
      ≡ found (protect AdminRoutes.revoke_token) ((c ∷ cs) ∷ [])
unfolding admin_routes routed find_route match_path text_eq
admin-revocation none c cs = refl
admin-revocation (some files) c cs = refl

AreDistinct-AreApart : (ts : List TokenRow) → AreApart same_hash ts → AreDistinct ts
AreDistinct-AreApart [] h = tt
AreDistinct-AreApart (t ∷ ts) h = (h.0, AreDistinct-AreApart ts h.1)

abbrev pub IsTurnedAway : ℕ → Type 0
IsTurnedAway status = (status ≡ 401) ⊎ (status ≡ 500)

-- A token without an active row gets no further than the check of the token.
module _ (p : Primitives) {S : Type 0} (q : Server.Request) (w : World S) where
  abbrev header : Text
  header = extract_bearer q.authorization

  module _ (inactive : find (is_active (hash_token p header)) w.db.tokens ≡ none)
      (fine : valid_hash q.hash ≡ true) where
    invalid :
        (scope : Scope) (allowed : Bool) → (authorize p header scope w.db).0 ≢ ok (true, allowed)
    invalid scope allowed e =
        let (t, there, _) = authorize_sound p header scope w.db allowed e in
        ground (arith, inactive, there)

    handle_get-turns_away : IsTurnedAway (handle_get p q w).0.status
    unfolding handle_get
    handle_get-turns_away = elim (Result-cases (authorize p header scope_read w.db).0) [
      | inl ((true, allowed), e) ↦ absurd (invalid scope_read allowed e)
      | inl ((false, allowed), e) ↦ ground arith
      | inr (x, e) ↦ ground arith
    ]

    handle_put-turns_away : IsTurnedAway (handle_put p q w).0.status
    unfolding handle_put
    handle_put-turns_away = elim (Result-cases (authorize p header scope_write w.db).0) [
      | inl ((true, allowed), e) ↦ absurd (invalid scope_write allowed e)
      | inl ((false, allowed), e) ↦ ground arith
      | inr (x, e) ↦ ground arith
    ]

module _ {S L : Type 0} (s : Server S L) (d : Draws) (r : Request) (st : State S L) where
  serve-revocation :
      (c : ℕ) (cs : Text)
      → r.method ≡ delete
      → r.path ≡ revocation_path (c ∷ cs)
      → serve s d r st
        ≡ AdminRoutes.handle s d r (protect AdminRoutes.revoke_token) ((c ∷ cs) ∷ []) st
  unfolding serve dispatch AdminRoutes.serve
  serve-revocation c cs m path =
      let outer : routed main_routes r.method r.path ≡ found admin_server [] =
        rw (m, path) (main-revocation (c ∷ cs)) in
      let inner : routed (admin_routes s.assets) r.method r.path
          ≡ found (protect AdminRoutes.revoke_token) ((c ∷ cs) ∷ []) =
        rw (m, path) (admin-revocation s.assets c cs) in
      let first : serve s d r st ≡ AdminRoutes.serve s d r st = rw (outer, serve) refl in
      first ∙ rw (inner, AdminRoutes.serve) refl

  abbrev revoked : List Text → Reply × State S L
  revoked values = AdminRoutes.handle s d r (protect AdminRoutes.revoke_token) values st

  abbrev seen : Db
  seen = (current_user s.primitives (cookie_value r.session) st.world.db).1

  -- An answer of 204 shows that the statement has run.
  revoked-ok :
      (text : Text) (id : ℤ)
      → s.parse_int text ≡ some id
      → reply_status (revoked (text ∷ [])).0 ≡ 204
      → ((revoke_token id seen).0 ≡ ok tt)
        × ((revoked (text ∷ [])).1.world.db ≡ (revoke_token id seen).1)
  unfolding AdminRoutes.handle act encoded handle_revoke_token protected
  revoked-ok text id parsed done =
      let u = current_user s.primitives (cookie_value r.session) st.world.db in
      elim (Bool-cases (is_mutating r.method && text_eq r.csrf [])) [
        | inl bad ↦ absurd (ground arith)
        | inr fine ↦ elim (Result-cases u.0) [
          | inl (user, e) ↦ ground arith
          | inr (x, e) ↦ absurd (ground arith)
        ]
      ]

  seen-IsDead :
      (h : Text) (row : TokenRow)
      → IsConsistent st.world.db
      → find (λ t. text_eq t.token_hash h) st.world.db.tokens ≡ some row
      → (revoke_token row.token.id seen).0 ≡ ok tt
      → IsDead h (revoke_token row.token.id seen).1.tokens
  seen-IsDead h row k there done =
      let same =
        (SameTables-current_user s.primitives (cookie_value r.session) st.world.db).tokens in
      let apart : AreDistinct seen.tokens =
        subst AreDistinct (sym same) (AreDistinct-AreApart _ k.tokens.hashes) in
      let found : find (λ t. text_eq t.token_hash h) seen.tokens ≡ some row = rw same there in
      subst (IsDead h) (sym (tokens-revoke_token row.token.id seen done))
        (revoked_row row.token.id (now seen) h seen.tokens row apart found refl)

  -- Once DELETE /admin/api/tokens/{id} is answered 204, the token of that id is refused for good:
  -- after any requests, recorded reads and sweeps, whatever becomes of the statements that they
  -- send, a GET or PUT with that token and a valid hash is answered 401 or 500. The tables meet the
  -- schema before the request.
  pub revocation-turns_away :
      (cfg : Janitor.Config) (es : List Event) (c : ℕ) (cs : Text) (row : TokenRow)
      (q : Server.Request)
      → IsConsistent st.world.db
      → r.method ≡ delete
      → r.path ≡ revocation_path (c ∷ cs)
      → s.parse_int (c ∷ cs) ≡ some row.token.id
      → find
          (λ t. text_eq t.token_hash (hash_token s.primitives (extract_bearer q.authorization)))
          st.world.db.tokens
        ≡ some row
      → reply_status (serve s d r st).0 ≡ 204
      → valid_hash q.hash ≡ true
      → let w = (System.run s cfg es (serve s d r st).1).world in
        IsTurnedAway (handle_get s.primitives q w).0.status
        × IsTurnedAway (handle_put s.primitives q w).0.status
  revocation-turns_away cfg es c cs row q k m path parsed there done fine =
      let h = hash_token s.primitives (extract_bearer q.authorization) in
      let e = serve-revocation c cs m path in
      let (ran, db) =
        revoked-ok (c ∷ cs) row.token.id parsed (ap (λ x. reply_status x.0) (sym e) ∙ done) in
      let start : IsDead h (serve s d r st).1.world.db.tokens =
        subst (λ x. IsDead h x.tokens) (sym (ap (λ x. x.1.world.db) e ∙ db))
          (seen-IsDead h row k there ran) in
      let dead =
        keep-run (λ x. IsDead h x.tokens) (λ query x dead'. run-IsDead h x dead' query) s cfg es
          (serve s d r st).1 start in
      (
        handle_get-turns_away s.primitives q _ dead.inactive fine,
        handle_put-turns_away s.primitives q _ dead.inactive fine,
      )
