-- ===== src/Auth/Tokens.antt =====
-- What the jwt, hashing and password libraries do for app/core/security.py, as an interface: the
-- services are given it as an argument.
use prompt_studio_backend.Prelude.{ℕ, String, Bool, Option}
use prompt_studio_backend.Core.Roles.{TokenType}
use prompt_studio_backend.Store.{User}

-- The claims of a decoded token; a `jti` that is missing is the empty text.
pub record Payload : Type 0 where
  pub type : Option TokenType
  pub user_id : Option ℕ
  pub email : Option String
  pub jti : String
  pub iat : Option ℕ
  pub exp : Option ℕ

-- `decode_token` refuses a token that is forged or expired. A minted token depends on the moment
-- and on a fresh number, which stands for its random `jti`; a hash
-- on a fresh number, which stands for its salt.
pub record TokenLibrary : Type 0 where
  pub decode_token : String → ℕ → Option Payload
  pub fingerprint : String → String
  pub verify_password : String → String → Bool
  pub create_refresh_token : ℕ → ℕ → ℕ → String
  pub create_access_token : User → ℕ → ℕ → String
  pub create_reset_token : ℕ → ℕ → ℕ → String
  pub create_verify_token : ℕ → String → ℕ → ℕ → String
  pub hash_password : String → ℕ → String

-- `Token` of app/modules/auth/schemas.py
pub record Token : Type 0 where
  pub access_token : String
  pub refresh_token : String
  pub expires_in : ℕ
