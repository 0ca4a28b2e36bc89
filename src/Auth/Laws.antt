-- ===== src/Auth/Laws.antt =====
-- Authorize: what a valid token shows.
use nx_remote_cache.Base.{
  Bool, Bool-cases, List, Option-cases, Result-cases, Text, [], arith, find, inl, inr, map, ok,
  some, true, ℤ, ◌∷◌, ◌≡◌,
}
use nx_remote_cache.Primitives.{Primitives}
use nx_remote_cache.Store.{TokenRow, Token, Db, now}
use nx_remote_cache.Store.Tokens.{is_active, stamp_row, authenticate}
use nx_remote_cache.Auth.{Scope, allows, hash_token, authorize}

-- An active row of this hash that has the scope, or has not.
abbrev pub Grants : Text → Scope → Bool → List TokenRow → Type 0
Grants h scope allowed ts =
    (r : TokenRow) × (find (is_active h) ts ≡ some r) × (allowed ≡ allows scope r.token)

find-stamp :
    (h : Text) (time : ℤ) (ts : List TokenRow) (r : TokenRow)
    → find (is_active h) (map (stamp_row h time) ts) ≡ some r
    → (s : TokenRow) × (find (is_active h) ts ≡ some s) × (s.token.scope ≡ r.token.scope)
find-stamp h time [] r e = cc
find-stamp h time (t ∷ ts) r e = elim (Bool-cases (is_active h t)) [
  | inl here ↦ (t, ground arith, ground arith)
  | inr later ↦
      let (s, found, same) = find-stamp h time ts r (ground arith) in (s, ground arith, same)
]

module _ (h : Text) (d : Db) where
  authenticate-ok :
      {t : Token}
      → (authenticate h d).0 ≡ ok t
      → (s : TokenRow) × (find (is_active h) d.tokens ≡ some s) × (s.token.scope ≡ t.scope)
  unfolding authenticate
  authenticate-ok {t} e =
      elim (Option-cases (find (is_active h) (map (stamp_row h (now d)) d.tokens))) [
        | inl gone ↦ absurd (ground arith)
        | inr (r, found) ↦
            let (s, old, same) = find-stamp h (now d) d.tokens r found in (s, old, ground arith)
      ]

module _ (p : Primitives) where
  -- Authorize calls a token valid only if a row of its hash is active, and calls it allowed exactly
  -- if that row has the scope: any for reading, "write" for writing.
  pub authorize_sound :
      (token : Text) (scope : Scope) (d : Db) (allowed : Bool)
      → (authorize p token scope d).0 ≡ ok (true, allowed)
      → Grants (hash_token p token) scope allowed d.tokens
  unfolding authorize
  authorize_sound [] scope d allowed e = absurd (ground arith)
  authorize_sound (c ∷ cs) scope d allowed e =
      elim (Result-cases (authenticate (hash_token p (c ∷ cs)) d).0) [
        | inl (t, q) ↦
            let (s, found, same) = authenticate-ok (hash_token p (c ∷ cs)) d q in
            (s, found, ground arith)
        | inr (x, q) ↦ absurd (ground arith)
      ]
