-- ===== src/Tests/Codec.antt =====
-- Operations for password hashes that the tests run on: a byte is written in unary, and a key
-- repeats the length of the password.
use feedla.Prelude.{
  ℕ, zero, suc, ◌+◌, ◌≡◌, refl, String, string_discrete, none, some, List, [], ◌∷◌, ◌==◌,
  if◌then◌else◌, arith, length, ap, ◌∙◌,
}
use feedla.Auth.Password.{PasswordOps, argon, is_text}
use feedla.Auth.Password.Verify.{IsCodec, IsPlain}
use Prim.Native.String.{len}
use Prim.Native.Char.{code}

abbrev pub unary : ℕ → String → String
unary zero s = String.◌∷◌ "b" s
unary (suc n) s = String.◌∷◌ "a" (unary n s)

abbrev pub write_bytes : List ℕ → String
write_bytes [] = ""
write_bytes (n ∷ bytes) = unary n (write_bytes bytes)

abbrev pub read_bytes : ℕ → String → List ℕ
read_bytes n String.[] = []
read_bytes n (String.◌∷◌ c s) =
    let more = read_bytes (suc n) s in
    let next = read_bytes 0 s in if code c == 97 then more else n ∷ next

abbrev pub repeated : ℕ → ℕ → List ℕ
repeated x zero = []
repeated x (suc n) = x ∷ repeated x n

unfoldable pub test_ops : PasswordOps
unfolding string_discrete
test_ops = record {
  scan_version = λ s. is_text s "v=19";
  scan_params = λ s. if is_text s "m=65536,t=3,p=2" then some argon else none;
  b64_encode = write_bytes;
  b64_decode = λ s. some (read_bytes 0 s);
  url_encode = write_bytes;
  id_key = λ text salt p n. repeated (len text) n;
  sha256 = λ s. s;
}

read_bytes-unary : (k n : ℕ) (s : String) → read_bytes k (unary n s) ≡ (k + n) ∷ read_bytes 0 s
read_bytes-unary k zero s = ap (λ x. x ∷ read_bytes 0 s) (omega arith)
read_bytes-unary k (suc n) s =
    read_bytes-unary (suc k) n s ∙ ap (λ x. x ∷ read_bytes 0 s) (omega arith)

read_bytes-write_bytes : (b : List ℕ) → read_bytes 0 (write_bytes b) ≡ b
read_bytes-write_bytes [] = refl
read_bytes-write_bytes (n ∷ b) =
    read_bytes-unary 0 n (write_bytes b)
    ∙ ap (λ x. x ∷ read_bytes 0 (write_bytes b)) (omega arith)
    ∙ ap (λ x. n ∷ x) (read_bytes-write_bytes b)

unary-IsPlain : (n : ℕ) (s : String) → IsPlain s → IsPlain (unary n s)
unary-IsPlain zero s h = (refl, h)
unary-IsPlain (suc n) s h = (refl, unary-IsPlain n s h)

write_bytes-IsPlain : (b : List ℕ) → IsPlain (write_bytes b)
write_bytes-IsPlain [] = tt
write_bytes-IsPlain (n ∷ b) = unary-IsPlain n (write_bytes b) (write_bytes-IsPlain b)

length-repeated : (x n : ℕ) → length (repeated x n) ≡ n
length-repeated x zero = refl
length-repeated x (suc n) = omega (arith, length-repeated x n)

pub test_ops-IsCodec : IsCodec test_ops
unfolding test_ops
test_ops-IsCodec = record {
  version = refl;
  params = refl;
  decode_encode = λ b. ap some (read_bytes-write_bytes b);
  plain = write_bytes-IsPlain;
  key_length = λ text salt p n. length-repeated (len text) n;
}
