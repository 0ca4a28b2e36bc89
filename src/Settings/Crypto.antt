-- ===== src/Settings/Crypto.antt =====
-- internal/settings/crypto.go. AES-256-GCM under one key and base64 are parameters.
use nx_remote_cache.Base.{
  Option, Text, [], ap, arith, drop, if◌then◌else◌, length, length-append, ltb, none, refl, some,
  some_inj, take, ℕ, ◌++◌, ◌==◌, ◌∷◌, ◌≡◌,
}

-- `open` is none where GCM rejects the ciphertext, `decode` where the text is no base64.
pub record Cipher : Type 0 where
  pub nonce_size : ℕ
  pub seal : Text → Text → Text
  pub open_sealed : Text → Text → Option Text
  pub encode : Text → Text
  pub decode : Text → Option Text

-- The documented behaviour of both: what is sealed opens under its nonce, what is encoded decodes.
pub record IsCipher (c : Cipher) : Type 0 where
  pub opens :
      (nonce plaintext : Text) → c.open_sealed nonce (c.seal nonce plaintext) ≡ some plaintext
  pub decodes : (x : Text) → c.decode (c.encode x) ≡ some x

-- The key of NewEncryptor, if it decodes to 32 bytes.
unfoldable pub encryptor_key : (Text → Option Text) → Text → Option Text
encryptor_key decode base64_key = elim (decode base64_key) [
  | none ↦ none
  | some key ↦ if length key == 32 then some key else none
]

module _ (c : Cipher) where
  -- The nonce is none if it cannot be drawn.
  unfoldable pub encrypt : Option Text → Text → Option Text
  encrypt none plaintext = none
  encrypt (some nonce) plaintext = some (c.encode (nonce ++ c.seal nonce plaintext))

  open_data : Text → Option Text
  open_data blob =
      if ltb (length blob) c.nonce_size
      then none
      else c.open_sealed (take c.nonce_size blob) (drop c.nonce_size blob)

  unfoldable pub decrypt : Text → Option Text
  unfolding open_data
  decrypt blob = elim (c.decode blob) [ none ↦ none | some bs ↦ open_data bs ]

  take-append : (xs ys : Text) → take (length xs) (xs ++ ys) ≡ xs
  take-append [] ys = refl
  take-append (x ∷ xs) ys = ap (λ l. x ∷ l) (take-append xs ys)

  drop-append : (xs ys : Text) → drop (length xs) (xs ++ ys) ≡ ys
  drop-append [] ys = refl
  drop-append (x ∷ xs) ys = drop-append xs ys

  open_data-append :
      (law : IsCipher c) (nonce plaintext : Text)
      → length nonce ≡ c.nonce_size
      → open_data (nonce ++ c.seal nonce plaintext) ≡ some plaintext
  unfolding open_data
  open_data-append law nonce plaintext sized = rw (← sized) (
      ground (
        arith,
        length-append nonce (c.seal nonce plaintext),
        take-append nonce (c.seal nonce plaintext),
        drop-append nonce (c.seal nonce plaintext),
        law.opens nonce plaintext,
      ))

  -- What is encrypted under a nonce of the cipher's size is decrypted again, for a cipher that
  -- opens what it seals.
  pub decrypt-encrypt :
      (law : IsCipher c) (nonce plaintext blob : Text)
      → length nonce ≡ c.nonce_size
      → encrypt (some nonce) plaintext ≡ some blob
      → decrypt blob ≡ some plaintext
  unfolding encrypt decrypt
  decrypt-encrypt law nonce plaintext blob sized e =
      let same = some_inj e in
      rw (← same, law.decodes (nonce ++ c.seal nonce plaintext), decrypt)
        (open_data-append law nonce plaintext sized)
