-- ===== src/Start/Bootstrap.antt =====
-- bootstrapAdmin: who is in the table of admins after it.
use nx_remote_cache.Base.{
  Bool-cases, List, Option-cases, Result-cases, Text, [], ap, arith, false, inl, inr, length, ltb,
  ok, refl, some, sym, text_eq, true, ℕ, ◌<◌, ◌∙◌, ◌∷◌, ◌≡◌, ◌⊎◌,
}
use nx_remote_cache.Primitives.{Primitives}
use nx_remote_cache.Store.{User, Db}
use nx_remote_cache.Store.Users.{count_users, create_user}
use nx_remote_cache.Session.{hash_password}
use nx_remote_cache.Start.{bootstrap_admin}

create_first :
    (email hash : Text) (d : Db) {u : User}
    → (create_user email hash d).0 ≡ ok u
    → d.users ≡ []
    → (u.email ≡ email) × (u.password_hash ≡ hash) × ((create_user email hash d).1.users ≡ u ∷ [])
unfolding create_user
create_first email hash d e empty = ground arith

users-count_users : (d : Db) → (count_users d).1.users ≡ d.users
unfolding count_users
users-count_users d = ground arith

count_users-ok : (d : Db) {n : ℕ} → (count_users d).0 ≡ ok n → n ≡ length d.users
unfolding count_users
count_users-ok d e = ground arith

empty_of_length : (us : List User) → length us ≡ 0 → us ≡ []
empty_of_length [] e = refl
empty_of_length (u ∷ us) e = absurd (ground arith)

module _ (p : Primitives) where
  -- If bootstrapAdmin returns no error and both variables are set, there is an admin: the table is
  -- as it was, if it was not empty, and else it has one row, with the given email and a hash made
  -- from the given password.
  pub bootstrap_admin-ok :
      (salt : ℕ) (email password : Text) (d : Db)
      → text_eq email [] ≡ false
      → text_eq password [] ≡ false
      → (bootstrap_admin p salt email password d).0 ≡ true
      → ((0 < length d.users) × ((bootstrap_admin p salt email password d).1.users ≡ d.users))
        ⊎ ((d.users ≡ [])
            × (u : User) × (u.email ≡ email)
            × (hash_password p salt password ≡ some u.password_hash)
            × ((bootstrap_admin p salt email password d).1.users ≡ u ∷ []))
  unfolding bootstrap_admin
  bootstrap_admin-ok salt email password d named secret done =
      elim (Result-cases (count_users d).0) [
        | inr (x, e) ↦ absurd (ground arith)
        | inl (n, e) ↦ elim (Bool-cases (ltb 0 n)) [
          | inl many ↦ inl (ground (arith, count_users-ok d e), ground (arith, users-count_users d))
          | inr none_yet ↦
              let empty = empty_of_length d.users (ground (arith, count_users-ok d e)) in
              let d' = (count_users d).1 in
              elim (Option-cases (hash_password p salt password)) [
                | inl gone ↦ absurd (ground arith)
                | inr (hash, made) ↦ elim (Result-cases (create_user email hash d').0) [
                  | inr (x, q) ↦ absurd (ground arith)
                  | inl (u, q) ↦
                      let (same, hashed, row) =
                        create_first email hash d' q (users-count_users d ∙ empty) in
                      inr (empty, u, same, made ∙ ap some (sym hashed), ground (arith, row))
                ]
              ]
        ]
      ]
