-- ===== src/Users.antt =====
-- app/modules/users/service.py: making an account. The address's normal form is in Core/Text, its
-- lookup in Projects/Members.
use prompt_studio_backend.Prelude.{
  ℕ, zero, suc, ◌+◌, ◌%◌, String, Bool, false, none, some, List, [], ◌∷◌, if◌then◌else◌, is_some,
  length,
}
use prompt_studio_backend.Auth.Tokens.{TokenLibrary}
use prompt_studio_backend.Core.Errors.{not_found_error, conflict_error}
use prompt_studio_backend.Core.Passwords.{encode, assert_password_strong}
use prompt_studio_backend.Core.Roles.{GlobalRole}
use prompt_studio_backend.Core.Text.{strip, normalise_email}
use prompt_studio_backend.Projects.Members.{get_by_email}
use prompt_studio_backend.Store.{User, UserCredentials}
use prompt_studio_backend.Store.Action.{
  Action, pure, gets, or_raise, ◌>>=◌, ◌>>◌, modify, raise_if, new_id,
}
use prompt_studio_backend.Store.Rows.{get_user, update_user, add_user, add_credentials}
use prompt_studio_backend.Core.ErrorMessage

abbrev pub accent_colors : List String
accent_colors =
    "#4f46e5" ∷ "#0ea5e9" ∷ "#10b981" ∷ "#f59e0b" ∷ "#ef4444" ∷ "#8b5cf6" ∷ "#ec4899" ∷ "#14b8a6"
    ∷ []

-- `sum(…)`, and indexing a tuple of which the first colour is known to be there
abbrev pub sum : List ℕ → ℕ
sum [] = 0
sum (n ∷ ns) = n + sum ns

abbrev pub colour_at : List String → ℕ → String
colour_at [] i = ""
colour_at (c ∷ cs) zero = c
colour_at (c ∷ cs) (suc i) = colour_at cs i

-- Stable for an address.
unfoldable pub pick_accent : String → String
pick_accent email = colour_at accent_colors (sum (encode email) % length accent_colors)

-- The keyword arguments of `create_user`.
pub record NewAccount : Type 0 where
  pub email : String
  pub password : String
  pub full_name : String
  pub role : GlobalRole
  pub is_active : Bool
  pub is_superuser : Bool
  pub must_change_password : Bool
  pub email_verified : Bool

abbrev pub account_row : ℕ → ℕ → NewAccount → User
account_row key now a = record {
  id = key;
  email = normalise_email a.email;
  full_name = strip a.full_name;
  accent_color = pick_accent (normalise_email a.email);
  role = a.role;
  is_active = a.is_active;
  is_superuser = a.is_superuser;
  email_verified_at = if a.email_verified then some now else none;
  last_login_at = none;
  last_seen_at = none;
  failed_login_count = 0;
  locked_until = none;
  is_deleted = false;
  deleted_at = none;
}

abbrev pub credentials_row : ℕ → ℕ → String → Bool → UserCredentials
credentials_row key now hashed must_change_password = record {
  user_id = key;
  hashed_password = hashed;
  must_change_password = must_change_password;
  password_changed_at = some now;
}

-- `require_by_id`
unfoldable pub require_by_id : ℕ → Action User
require_by_id uid = do
  found ← gets (get_user uid)
  user ← or_raise found (not_found_error ErrorMessage.user_not_found_or_inactive)
  raise_if user.is_deleted (not_found_error ErrorMessage.user_not_found_or_inactive)
  pure user

-- `touch_last_seen`
abbrev pub touch_last_seen : User → Action (Unit {0})
touch_last_seen user =
    modify λ w. update_user user.id (λ u. record u { last_seen_at = some w.now }) w

module _ (library : TokenLibrary) where
  -- The rows of a new account.
  unfoldable pub write_account : NewAccount → Action User
  write_account a = do
    key ← new_id
    salt ← new_id
    now ← gets (λ w. w.now)
    modify (add_user (account_row key now a))
    modify (
        add_credentials
          (credentials_row key now (library.hash_password a.password salt) a.must_change_password))
    pure (account_row key now a)

  -- Not committed: the caller decides the transaction.
  unfoldable pub create_user : NewAccount → Action User
  create_user a = do
    existing ← gets (get_by_email (normalise_email a.email))
    raise_if (is_some existing) (conflict_error ErrorMessage.email_already_exists [])
    assert_password_strong a.password
    write_account a
