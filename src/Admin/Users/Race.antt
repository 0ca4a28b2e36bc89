-- ===== src/Admin/Users/Race.antt =====
-- Two calls of handleDeleteUser of internal/adminapi/users_handlers.go whose statements interleave.
use nx_remote_cache.Base.{
  Result-cases, [], ap, arith, eq_ℤ, eq_ℤ_iff, err, false, if◌then◌else◌, inl, inr, is_some, leb,
  length, ok, refl, some, true, ℕ, ℤ, ◌∙◌, ◌∷◌, ◌≡◌, ◌≢◌,
}
use nx_remote_cache.Primitives.{Primitives}
use nx_remote_cache.Store.{Db, User, delivered, bump}
use nx_remote_cache.Store.Users.{count_users, delete_user, find_id, without_user}
use nx_remote_cache.World.{World}
use nx_remote_cache.Admin.{Answer, write_error, no_content, internal_error}
use nx_remote_cache.Admin.Users.{delete_counted, handle_delete_user}

-- A deletion before CountUsers, before DeleteUser, and after its end.
pub data DeleteState : Type 0 where
  counting deleting : DeleteState
  answered : Answer (Unit {0}) → DeleteState

count_users-delivered :
    (d : Db) → d.fate d.tick ≡ delivered → count_users d ≡ (ok (length d.users), bump d)
unfolding count_users
count_users-delivered d up = rw (up, count_users) refl

delete_user-delivered :
    (id : ℤ) (d : Db)
    → d.fate d.tick ≡ delivered
    → is_some (find_id id d.users) ≡ true
    → delete_user id d ≡ (ok tt, without_user id (bump d))
unfolding delete_user
delete_user-delivered id d up there = rw (up, there, delete_user) refl

module _ (p : Primitives) {S : Type 0} (id : ℤ) (current : User) where
  -- The next statement of a deletion.
  unfoldable pub delete_step : DeleteState → World S → DeleteState × World S
  delete_step counting w =
      let (count, db') = count_users w.db in
      let w' = record w { db = db' } in
      if eq_ℤ id current.id
      then (answered (write_error 400 "cannot delete your own account"), w)
      else elim count [
        | err _ ↦ (answered internal_error, w')
        | ok n ↦
            if leb n 1
            then (answered (write_error 400 "cannot delete the last remaining admin"), w')
            else (deleting, w')
      ]
  delete_step deleting w = let (answer, w') = delete_counted p id w in (answered answer, w')
  delete_step (answered answer) w = (answered answer, w)

  -- A deletion whose two statements nothing separates is the handler.
  pub delete_step_twice :
      (w : World S)
      → (let (q, w') = delete_step counting w in delete_step q w')
        ≡ (let (answer, w') = handle_delete_user p (some id) current w in (answered answer, w'))
  unfolding delete_step handle_delete_user
  delete_step_twice w = elim (Result-cases (count_users w.db).0) [
    | inl (n, e) ↦ ground arith
    | inr (x, e) ↦ ground arith
  ]

  counting-passes :
      (w : World S)
      → w.db.fate w.db.tick ≡ delivered
      → eq_ℤ id current.id ≡ false
      → leb (length w.db.users) 1 ≡ false
      → delete_step counting w ≡ (deleting, record w { db = bump w.db })
  unfolding delete_step
  counting-passes w up other many =
      let e = count_users-delivered w.db up in
      rw (ap (λ x. x.0) e, ap (λ x. x.1) e, other, many, delete_step) refl

  deleting-passes :
      (w : World S)
      → w.db.fate w.db.tick ≡ delivered
      → is_some (find_id id w.db.users) ≡ true
      → delete_step deleting w
        ≡ (answered no_content, record w { db = without_user id (bump w.db) })
  unfolding delete_step delete_counted
  deleting-passes w up there =
      let e = delete_user-delivered id w.db up there in
      rw (ap (λ x. x.0) e, ap (λ x. x.1) e, delete_step, delete_counted) refl

module _ (p : Primitives) {S : Type 0} (u v : User) (w : World S) where
  abbrev count_u : DeleteState × World S
  count_u = delete_step p v.id u counting w

  abbrev count_v : DeleteState × World S
  count_v = delete_step p u.id v counting count_u.1

  abbrev delete_v : DeleteState × World S
  delete_v = delete_step p v.id u count_u.0 count_v.1

  abbrev delete_u : DeleteState × World S
  delete_u = delete_step p u.id v count_v.0 delete_v.1

  -- When the last two admins delete each other, and both count the users before either deletes, both
  -- are answered 204 and no user is left; as long as every statement runs.
  pub delete_step-leaves_none :
      w.db.users ≡ u ∷ v ∷ []
      → u.id ≢ v.id
      → ((n : ℕ) → w.db.fate n ≡ delivered)
      → (delete_v.0 ≡ answered no_content)
        × (delete_u.0 ≡ answered no_content)
        × (delete_u.1.db.users ≡ [])
  delete_step-leaves_none users apart up =
      let uv : eq_ℤ u.id v.id ≡ false = ground (arith, eq_ℤ_iff u.id v.id) in
      let vu : eq_ℤ v.id u.id ≡ false = ground (arith, eq_ℤ_iff v.id u.id) in
      let uu : eq_ℤ u.id u.id ≡ true = (eq_ℤ_iff u.id u.id).1 refl in
      let vv : eq_ℤ v.id v.id ≡ true = (eq_ℤ_iff v.id v.id).1 refl in
      let w₁ = record w { db = bump w.db } in
      let w₂ = record w { db = bump w₁.db } in
      let w₃ = record w { db = without_user v.id (bump w₂.db) } in
      let e₁ : count_u ≡ (deleting, w₁) =
        counting-passes p v.id u w (up w.db.tick) vu (rw users refl) in
      let e₂ : delete_step p u.id v counting w₁ ≡ (deleting, w₂) =
        counting-passes p u.id v w₁ (up _) uv (rw users refl) in
      let e₃ : delete_step p v.id u deleting w₂ ≡ (answered no_content, w₃) =
        deleting-passes p v.id u w₂ (up _) (rw (users, uv, vv) refl) in
      let e₄ = deleting-passes p u.id v w₃ (up _) (rw (users, uv, vv, uu) refl) in
      let counted : count_v ≡ (deleting, w₂) =
        ap (λ x. delete_step p u.id v counting x.1) e₁ ∙ e₂ in
      let first : delete_v ≡ (answered no_content, w₃) =
        ap (λ x. delete_step p v.id u x.0 count_v.1) e₁
        ∙ ap (λ x. delete_step p v.id u deleting x.1) counted
        ∙ e₃ in
      let second =
        ap (λ x. delete_step p u.id v x.0 delete_v.1) counted
        ∙ ap (λ x. delete_step p u.id v deleting x.1) first
        ∙ e₄ in
      (
        ap (λ x. x.0) first,
        ap (λ x. x.0) second,
        ap (λ x. x.1.db.users) second ∙ rw (users, uv, vv, uu) refl,
      )
