-- ===== src/Auth/Password/Verify.antt =====
-- A password verifies against its own hash; the hash of a locked account verifies no password.
use feedla.Prelude.{
  ℕ, String, string_discrete, true, false, none, some, List, [], ◌∷◌, ◌==◌, ◌≡◌, refl, sym,
  if◌then◌else◌, length, arith, ap, ◌∙◌,
}
use feedla.Auth.Password.{
  PhcParams, PasswordOps, argon, argon_key_len, append, split_dollar, bytes_equal, parse_phc,
  verify_phc, verify_password, hash_password, needs_rehash, outdated,
}
use feedla.Store.Accounts.{setup_sentinel_hash}
use Prim.Native.Char.{code}

-- A text without a dollar sign.
abbrev pub IsPlain : String → Type 0
IsPlain String.[] = Unit
IsPlain (String.◌∷◌ c s) = ((code c == 36) ≡ false) × IsPlain s

-- What the standard library and argon2 promise.
pub record IsCodec (ops : PasswordOps) : Type 0 where
  pub version : ops.scan_version "v=19" ≡ true
  pub params : ops.scan_params "m=65536,t=3,p=2" ≡ some argon
  pub decode_encode : (b : List ℕ) → ops.b64_decode (ops.b64_encode b) ≡ some b
  pub plain : (b : List ℕ) → IsPlain (ops.b64_encode b)
  pub key_length :
      (text : String) (salt : List ℕ) (p : PhcParams) (n : ℕ)
      → length (ops.id_key text salt p n) ≡ n

split_dollar-plain : (s : String) → IsPlain s → split_dollar s ≡ s ∷ []
unfolding split_dollar
split_dollar-plain String.[] h = refl
split_dollar-plain (String.◌∷◌ c s) (e, h) = rw (e, if◌then◌else◌, split_dollar-plain s h) refl

split_dollar-append :
    (s t : String) → IsPlain s → split_dollar (append s (append "$" t)) ≡ s ∷ split_dollar t
unfolding split_dollar
split_dollar-append String.[] t h = refl
split_dollar-append (String.◌∷◌ c s) t (e, h) =
    rw (e, if◌then◌else◌, split_dollar-append s t h) refl

bytes_equal_refl : (b : List ℕ) → bytes_equal b b ≡ true
bytes_equal_refl [] = refl
bytes_equal_refl (x ∷ b) = ground (arith, bytes_equal_refl b)

parse_phc-hash :
    (ops : PasswordOps) (salt key : List ℕ)
    → IsCodec ops
    → parse_phc ops (
        append "$argon2id$v=19$m=65536,t=3,p=2$"
          (append (ops.b64_encode salt) (append "$" (ops.b64_encode key))))
      ≡ some (record { params = argon; salt = salt; key = key })
unfolding parse_phc split_dollar string_discrete
parse_phc-hash ops salt key c =
    rw
      (
        split_dollar-append (ops.b64_encode salt) (ops.b64_encode key) (c.plain salt),
        split_dollar-plain (ops.b64_encode key) (c.plain key),
        c.version,
        c.params,
        c.decode_encode salt,
        c.decode_encode key,
      )
      refl

-- The hash of a password, where there is a salt, verifies that password and needs no rehash.
pub verify_password-hash_password :
    (ops : PasswordOps) (plain : String) (salt : List ℕ) (hash : String)
    → IsCodec ops
    → hash_password ops plain (some salt) ≡ some hash
    → (verify_password ops hash plain ≡ some true) × (needs_rehash ops hash ≡ false)
unfolding verify_password needs_rehash hash_password parse_phc
verify_password-hash_password ops plain salt hash c h =
    let key = ops.id_key plain salt argon argon_key_len in
    let e : parse_phc ops hash ≡ some (record { params = argon; salt = salt; key = key }) =
      ap (parse_phc ops) (sym (some_eq h)) ∙ parse_phc-hash ops salt key c in
    (
      ap (verify_phc ops plain) e
          ∙ rw (c.key_length plain salt argon argon_key_len) (ap some (bytes_equal_refl key)),
      ap (outdated ops) e,
    )
  where
    some_eq : {a b : String} → some a ≡ some b → a ≡ b
    some_eq e = cc e

-- The hash of an account that awaits its setup verifies no password.
pub locked_refused :
    (ops : PasswordOps) (plain : String) → verify_password ops setup_sentinel_hash plain ≡ none
unfolding verify_password split_dollar
locked_refused ops plain = refl
