-- ===== src/Settings/Apply.antt =====
-- Apply of internal/settings/settings.go: what it changes when it fails and when it succeeds.
use nx_remote_cache.Base.{
  Bool-cases, Option, Option-cases, Result-cases, Text, [], ap, arith, err, inl, inr, ok, pos, some,
  sym, true, ℕ, ℤ, ◌∙◌, ◌≡◌,
}
use nx_remote_cache.Storage.{Backend}
use nx_remote_cache.Store.AppSettings.{update_settings}
use nx_remote_cache.Settings.{Settings}
use nx_remote_cache.Settings.Crypto.{Cipher}
use nx_remote_cache.Settings.Storage.{encrypt_for_storage}
use nx_remote_cache.Settings.Manager.{
  ApplyError, ApplyInput, invalid_settings, failure, merge, validate, Builders, build_backend,
  install, persist, try_backend, apply, current,
}
use nx_remote_cache.World.{World}

-- What the requests see of the settings is the same.
pub record SameInstalled {S : Type 0} (v w : World S) : Type 0 where
  pub backend : v.backend ≡ w.backend
  pub session_ttl : v.session_ttl ≡ w.session_ttl
  pub max_entry_bytes : v.max_entry_bytes ≡ w.max_entry_bytes
  pub settings : v.settings ≡ w.settings

-- The backend `b` and the settings `next` are in force, and `s` is what Current shows of them.
pub record InForce {S : Type 0} (b : Backend S) (next s : Settings) (w : World S) : Type 0 where
  pub backend : w.backend ≡ b
  pub session_ttl : w.session_ttl ≡ next.session_ttl
  pub max_entry_bytes : w.max_entry_bytes ≡ next.max_cache_entry_bytes
  pub shown : current w ≡ s

module _ (c : Cipher) {S : Type 0} (builders : Builders S) (nonce : ℕ → Option Text) (time : ℤ)
    (i : ApplyInput) where
  persist-err :
      (next : Settings) (b : Backend S) (w : World S) (e : ApplyError)
      → (persist c builders nonce time i next b w).0 ≡ err e
      → SameInstalled (persist c builders nonce time i next b w).1 w × (e ≡ failure)
  unfolding persist
  persist-err next b w e h = elim (Option-cases (encrypt_for_storage c nonce next)) [
    | inl gone ↦ ground arith
    | inr (row, made) ↦ ground arith
  ]

  try_backend-err :
      (next : Settings) (b : Backend S) (w : World S) (e : ApplyError)
      → (try_backend c builders nonce time i next b w).0 ≡ err e
      → SameInstalled (try_backend c builders nonce time i next b w).1 w
        × (e ≡ invalid_settings → (try_backend c builders nonce time i next b w).1.db ≡ w.db)
  unfolding try_backend
  try_backend-err next b w e h = elim (Result-cases (b.list [] (pos 1) w.storage).0) [
    | inr (x, failed) ↦ ground arith
    | inl (page, listed) ↦
        let w' = record w { storage = (b.list [] (pos 1) w.storage).1 } in
        let runs : try_backend c builders nonce time i next b w
            ≡ persist c builders nonce time i next b w' =
          ground arith in
        let (same, why) = persist-err next b w' e (ap (λ x. x.0) (sym runs) ∙ h) in
        rw runs (
          record {
            backend = same.backend;
            session_ttl = same.session_ttl;
            max_entry_bytes = same.max_entry_bytes;
            settings = same.settings;
          },
          λ bad. absurd (ground arith),
        )
  ]

  -- If Apply fails, the backend, the session lifetime, the size limit and the settings in memory
  -- stay as they were; and if it fails because the settings are invalid or the backend cannot be
  -- reached, the database stays as it was too.
  pub apply-err :
      (w : World S) (e : ApplyError)
      → (apply c builders nonce time i w).0 ≡ err e
      → SameInstalled (apply c builders nonce time i w).1 w
        × (e ≡ invalid_settings → (apply c builders nonce time i w).1.db ≡ w.db)
  unfolding apply
  apply-err w e h =
      let next = merge w.settings i in
      elim (Bool-cases (validate next)) [
        | inr bad ↦ ground arith
        | inl fine ↦ elim (Option-cases (build_backend c builders next w.storage).0) [
          | inl gone ↦ ground arith
          | inr (b, built) ↦
              let w' = record w { storage = (build_backend c builders next w.storage).1 } in
              let runs : apply c builders nonce time i w
                  ≡ try_backend c builders nonce time i next b w' =
                ground arith in
              let (same, why) = try_backend-err next b w' e (ap (λ x. x.0) (sym runs) ∙ h) in
              rw runs (
                record {
                  backend = same.backend;
                  session_ttl = same.session_ttl;
                  max_entry_bytes = same.max_entry_bytes;
                  settings = same.settings;
                },
                why,
              )
        ]
      ]

  persist-ok :
      (next : Settings) (b : Backend S) (w : World S) (s : Settings)
      → (persist c builders nonce time i next b w).0 ≡ ok s
      → InForce b next s (persist c builders nonce time i next b w).1
  unfolding persist install current
  persist-ok next b w s h = elim (Option-cases (encrypt_for_storage c nonce next)) [
    | inl gone ↦ absurd (ground arith)
    | inr (row, made) ↦ elim (Result-cases (update_settings row i.updated_by w.db).0) [
      | inr (x, failed) ↦ absurd (ground arith)
      | inl (x, stored) ↦ record {
        backend = ground arith;
        session_ttl = ground arith;
        max_entry_bytes = ground arith;
        shown = ground arith;
      }
    ]
  ]

  try_backend-ok :
      (next : Settings) (b : Backend S) (w : World S) (s : Settings)
      → (try_backend c builders nonce time i next b w).0 ≡ ok s
      → InForce b next s (try_backend c builders nonce time i next b w).1
  unfolding try_backend
  try_backend-ok next b w s h = elim (Result-cases (b.list [] (pos 1) w.storage).0) [
    | inr (x, failed) ↦ absurd (ground arith)
    | inl (page, listed) ↦
        let w' = record w { storage = (b.list [] (pos 1) w.storage).1 } in
        let runs : try_backend c builders nonce time i next b w
            ≡ persist c builders nonce time i next b w' =
          ground arith in
        rw runs (persist-ok next b w' s (ap (λ x. x.0) (sym runs) ∙ h))
  ]

  -- If Apply succeeds, the settings that it goes for are valid, the backend that they describe is
  -- current, and their session lifetime and size limit are in force; what it returns is what
  -- Current then gives.
  pub apply-ok :
      (w : World S) (s : Settings)
      → (apply c builders nonce time i w).0 ≡ ok s
      → (validate (merge w.settings i) ≡ true)
        × ((b : Backend S) × ((build_backend c builders (merge w.settings i) w.storage).0 ≡ some b)
            × InForce b (merge w.settings i) s (apply c builders nonce time i w).1)
  unfolding apply
  apply-ok w s h =
      let next = merge w.settings i in
      elim (Bool-cases (validate next)) [
        | inr bad ↦ absurd (ground arith)
        | inl fine ↦ elim (Option-cases (build_backend c builders next w.storage).0) [
          | inl gone ↦ absurd (ground arith)
          | inr (b, built) ↦
              let w' = record w { storage = (build_backend c builders next w.storage).1 } in
              let runs : apply c builders nonce time i w
                  ≡ try_backend c builders nonce time i next b w' =
                ground arith in
              rw runs (fine, (b, built, try_backend-ok next b w' s (ap (λ x. x.0) (sym runs) ∙ h)))
        ]
      ]
