-- ===== src/Settings/RoundTrip.antt =====
-- What Apply stores, against what Load reads back.
use nx_remote_cache.Base.{
  Bool, Option, Option-cases, Text, [], arith, false, inl, inr, length, none, not, pos, refl, some,
  text_eq, text_eq_refl, wrap64, ℕ, ◌*ℤ◌, ◌*◌, ◌/◌, ◌<◌, ◌^◌, ◌∷◌, ◌≡◌,
}
use nx_remote_cache.Store.{SettingsRow}
use nx_remote_cache.Settings.{Settings}
use nx_remote_cache.Settings.Crypto.{Cipher, IsCipher, encrypt, decrypt-encrypt}
use nx_remote_cache.Settings.Storage.{
  second, to_seconds, from_seconds, encrypt_secret, decrypt_secret, row_of, encrypt_for_storage,
  decrypt_row,
}

-- A secret is set exactly if it is not empty.
abbrev pub IsFlagged : Text → Bool → Type 0
IsFlagged s flag = flag ≡ not (text_eq s [])

-- Settings whose session lifetime is whole seconds below 2^31, and whose flags are true.
pub record IsStorable (s : Settings) : Type 0 where
  pub seconds : ℕ
  pub whole : s.session_ttl ≡ pos (seconds * second)
  pub small : seconds < 2 ^ 31
  pub id : IsFlagged s.s3_access_key_id s.s3_access_key_id_set
  pub secret : IsFlagged s.s3_secret_access_key s.s3_secret_access_key_set
  pub json : IsFlagged s.gcs_credentials_json s.gcs_credentials_json_set

-- The settings without the columns that UpdateSettings sets itself.
abbrev pub unstamped : Settings → Settings
unstamped s = record s { updated_at = pos 0; updated_by = none }

from_seconds-to_seconds :
    (n : ℕ) → n < 2 ^ 31 → from_seconds (to_seconds (pos (n * second))) ≡ pos (n * second)
unfolding from_seconds wrap64 ◌*ℤ◌
from_seconds-to_seconds n h =
    let whole : n * second / second ≡ n = omega arith in rw whole (ground arith)

not_empty : (x : ℕ) (xs : Text) → text_eq (x ∷ xs) [] ≡ false
unfolding text_eq
not_empty x xs = refl

module _ (c : Cipher) (law : IsCipher c) where
  secret_again :
      (nonce : Text) (s : Text) (flag : Bool) (blob : Option Text)
      → length nonce ≡ c.nonce_size
      → IsFlagged s flag
      → encrypt_secret c (some nonce) s ≡ some blob
      → decrypt_secret c blob ≡ some (s, flag)
  unfolding encrypt_secret decrypt_secret
  secret_again nonce [] flag blob sized f e = ground (arith, text_eq_refl [])
  secret_again nonce (x ∷ xs) flag blob sized f e =
      elim (Option-cases (encrypt c (some nonce) (x ∷ xs))) [
        | inl gone ↦ absurd (ground arith)
        | inr (b, made) ↦
            let same : some b ≡ blob = ground arith in
            rw (← same)
              (ground (arith, decrypt-encrypt c law nonce (x ∷ xs) b sized made, not_empty x xs))
      ]

  row_again :
      (s : Settings) (id secret json : Option Text)
      → IsStorable s
      → decrypt_secret c id ≡ some (s.s3_access_key_id, s.s3_access_key_id_set)
      → decrypt_secret c secret ≡ some (s.s3_secret_access_key, s.s3_secret_access_key_set)
      → decrypt_secret c json ≡ some (s.gcs_credentials_json, s.gcs_credentials_json_set)
      → decrypt_row c (row_of c s id secret json) ≡ some (unstamped s)
  unfolding decrypt_row
  row_again s id secret json ok_s d0 d1 d2 =
      let ttl : from_seconds (to_seconds s.session_ttl) ≡ s.session_ttl =
        rw ok_s.whole (from_seconds-to_seconds ok_s.seconds ok_s.small) in
      rw (d0, d1, d2, ttl) refl

  -- The row that Apply makes of settings, whose session lifetime is whole seconds below 2^31 and
  -- whose flags are true, decrypts to the same settings, but for the two columns that
  -- UpdateSettings sets itself.
  pub decrypt_row-encrypt_for_storage :
      (nonces : ℕ → Text) (s : Settings) (row : SettingsRow)
      → ((n : ℕ) → length (nonces n) ≡ c.nonce_size)
      → IsStorable s
      → encrypt_for_storage c (λ n. some (nonces n)) s ≡ some row
      → decrypt_row c row ≡ some (unstamped s)
  unfolding encrypt_for_storage
  decrypt_row-encrypt_for_storage nonces s row sized ok_s e =
      elim (Option-cases (encrypt_secret c (some (nonces 0)) s.s3_access_key_id)) [
        | inl gone ↦ absurd (ground arith)
        | inr (id, e0) ↦
            elim (Option-cases (encrypt_secret c (some (nonces 1)) s.s3_secret_access_key)) [
              | inl gone ↦ absurd (ground arith)
              | inr (secret, e1) ↦
                  elim (Option-cases (encrypt_secret c (some (nonces 2)) s.gcs_credentials_json)) [
                    | inl gone ↦ absurd (ground arith)
                    | inr (json, e2) ↦
                        let same : row_of c s id secret json ≡ row = ground arith in
                        rw (← same) (
                          row_again s id secret json ok_s
                            (secret_again (nonces 0) s.s3_access_key_id s.s3_access_key_id_set id
                              (sized 0) ok_s.id e0)
                            (secret_again (nonces 1) s.s3_secret_access_key
                              s.s3_secret_access_key_set secret (sized 1) ok_s.secret e1)
                            (secret_again (nonces 2) s.gcs_credentials_json
                              s.gcs_credentials_json_set json (sized 2) ok_s.json e2))
                  ]
            ]
      ]
