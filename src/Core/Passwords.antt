-- ===== src/Core/Passwords.antt =====
-- app/core/security.py: `assert_password_strong`, on the text's characters and on its UTF-8 bytes.
use Prim.Native.Char.{code}
use prompt_studio_backend.Prelude.{
  ℕ, suc, ◌+◌, ◌/◌, ◌%◌, String, Bool, false, not, ◌&&◌, ◌||◌, List, [], ◌∷◌, ◌++◌, ltb, leb,
  if◌then◌else◌, length, any_where,
}
use prompt_studio_backend.Core.Errors.{validation_error}
use prompt_studio_backend.Core.Text.{digit_zeros}
use prompt_studio_backend.Store.Action.{Action, ◌>>◌, raise_if}
use prompt_studio_backend.Core.ErrorMessage

abbrev pub bcrypt_max_bytes : ℕ
bcrypt_max_bytes = 72

abbrev pub min_password_length : ℕ
min_password_length = 8

-- The UTF-8 bytes of a character, and of a text.
abbrev pub encode_char : ℕ → List ℕ
encode_char k =
    if ltb k 128
    then k ∷ []
    else if ltb k 2048
    then (192 + k / 64) ∷ (128 + k % 64) ∷ []
    else if ltb k 65536
    then (224 + k / 4096) ∷ (128 + k / 64 % 64) ∷ (128 + k % 64) ∷ []
    else (240 + k / 262144) ∷ (128 + k / 4096 % 64) ∷ (128 + k / 64 % 64) ∷ (128 + k % 64) ∷ []

-- `text.encode()`
unfoldable pub encode : String → List ℕ
encode String.[] = []
encode (String.◌∷◌ c s) = encode_char (code c) ++ encode s

-- `len(text)`
unfoldable pub text_length : String → ℕ
text_length String.[] = 0
text_length (String.◌∷◌ c s) = suc (text_length s)

-- `[A-Za-z]`
abbrev pub is_letter : ℕ → Bool
is_letter k = leb b'A' k && leb k b'Z' || leb b'a' k && leb k b'z'

-- `\d`, which matches the decimal digits of any script
unfoldable pub is_digit : ℕ → Bool
is_digit k = any_where (λ zero_at. leb zero_at k && ltb k (zero_at + 10)) digit_zeros

-- `pattern.search(text)` of a character class
unfoldable pub has_char : (ℕ → Bool) → String → Bool
has_char p String.[] = false
has_char p (String.◌∷◌ c s) = p (code c) || has_char p s

unfoldable pub assert_password_strong : String → Action (Unit {0})
unfolding is_digit
assert_password_strong password = do
  raise_if (ltb (text_length password) min_password_length)
      (validation_error ErrorMessage.password_too_weak)
  raise_if (ltb bcrypt_max_bytes (length (encode password)))
      (validation_error "Password must be at most 72 bytes (about 72 characters)")
  raise_if (not (has_char is_letter password) || not (has_char is_digit password))
      (validation_error ErrorMessage.password_too_weak)
