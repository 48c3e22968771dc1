-- ===== src/Auth/Password.antt =====
-- internal/auth/password.go and token.go: password hashes in the PHC format, and tokens. Bytes are
-- lists of numbers. The semaphore that bounds concurrent hashing does not change a result.
pub mod Verify
use feedla.Prelude.{
  ℕ, ◌*◌, String, string_discrete, Bool, true, false, not, ◌&&◌, ◌||◌, Option, none, some, List, [],
  ◌∷◌, ◌==◌, if◌then◌else◌, ite, length,
}
use Prim.Native.Char.{Char, code}

pub record PhcParams : Type 0 where
  pub memory : ℕ
  pub time : ℕ
  pub threads : ℕ

-- `fmt.Sscanf` of the version and of the parameters, base64 without padding, argon2id, SHA-256.
pub record PasswordOps : Type 0 where
  pub scan_version : String → Bool
  pub scan_params : String → Option PhcParams
  pub b64_encode : List ℕ → String
  pub b64_decode : String → Option (List ℕ)
  pub url_encode : List ℕ → String
  pub id_key : String → List ℕ → PhcParams → ℕ → List ℕ
  pub sha256 : String → String

abbrev pub argon : PhcParams
argon = record { memory = 64 * 1024; time = 3; threads = 2 }

abbrev pub argon_key_len : ℕ
argon_key_len = 32

abbrev pub append : String → String → String
append String.[] t = t
append (String.◌∷◌ c s) t = String.◌∷◌ c (append s t)

abbrev pub cons_first : Char → List String → List String
cons_first c [] = String.◌∷◌ c "" ∷ []
cons_first c (s ∷ parts) = String.◌∷◌ c s ∷ parts

-- `strings.Split(hash, "$")`
unfoldable pub split_dollar : String → List String
split_dollar String.[] = "" ∷ []
split_dollar (String.◌∷◌ c s) =
    let rest = split_dollar s in if code c == 36 then "" ∷ rest else cons_first c rest

pub record Phc : Type 0 where
  pub params : PhcParams
  pub salt : List ℕ
  pub key : List ℕ

abbrev pub is_text : String → String → Bool
is_text a b = ite (string_discrete a b) true false

-- `subtle.ConstantTimeCompare(got, want) == 1`
abbrev pub bytes_equal : List ℕ → List ℕ → Bool
bytes_equal [] [] = true
bytes_equal [] (b ∷ want) = false
bytes_equal (a ∷ got) [] = false
bytes_equal (a ∷ got) (b ∷ want) = a == b && bytes_equal got want

module _ (ops : PasswordOps) where
  abbrev pub with_key : PhcParams → List ℕ → Option (List ℕ) → Option Phc
  with_key p salt none = none
  with_key p salt (some key) = some (record { params = p; salt = salt; key = key })

  abbrev pub with_salt : PhcParams → String → Option (List ℕ) → Option Phc
  with_salt p key none = none
  with_salt p key (some salt) = with_key p salt (ops.b64_decode key)

  abbrev pub with_params : String → String → Option PhcParams → Option Phc
  with_params salt key none = none
  with_params salt key (some p) = with_salt p key (ops.b64_decode salt)

  abbrev pub parse_parts : List String → Option Phc
  parse_parts (first ∷ name ∷ version ∷ params ∷ salt ∷ key ∷ []) =
      if not (is_text first "") || not (is_text name "argon2id") || not (ops.scan_version version)
      then none
      else with_params salt key (ops.scan_params params)
  parse_parts _ = none

  unfoldable pub parse_phc : String → Option Phc
  unfolding split_dollar string_discrete
  parse_phc hash = parse_parts (split_dollar hash)

  abbrev pub verify_phc : String → Option Phc → Option Bool
  verify_phc plain none = none
  verify_phc plain (some phc) =
      some (bytes_equal (ops.id_key plain phc.salt phc.params (length phc.key)) phc.key)

  -- None for ErrInvalidHash.
  unfoldable pub verify_password : String → String → Option Bool
  unfolding parse_phc
  verify_password hash plain = verify_phc plain (parse_phc hash)

  abbrev pub outdated : Option Phc → Bool
  outdated none = false
  outdated (some phc) =
      not (phc.params.memory == argon.memory)
      || not (phc.params.time == argon.time)
      || not (phc.params.threads == argon.threads)

  unfoldable pub needs_rehash : String → Bool
  unfolding parse_phc
  needs_rehash hash = outdated (parse_phc hash)

  -- The argument is the random salt, none where `rand.Read` fails.
  unfoldable pub hash_password : String → Option (List ℕ) → Option String
  hash_password plain none = none
  hash_password plain (some salt) = some (
      append "$argon2id$v=19$m=65536,t=3,p=2$" (
        append (ops.b64_encode salt)
          (append "$" (ops.b64_encode (ops.id_key plain salt argon argon_key_len)))))

  unfoldable pub hash_token : String → String
  hash_token raw = ops.sha256 raw

  -- The raw token with its hash; the argument is the random bytes, none where `rand.Read` fails.
  unfoldable pub generate_token : Option (List ℕ) → Option (String × String)
  unfolding hash_token
  generate_token none = none
  generate_token (some b) = some (ops.url_encode b, hash_token (ops.url_encode b))
