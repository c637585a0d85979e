-- ===== src/Admin/Routes.antt =====
-- app/modules/admin/router.py: the routes that change something, each behind the guard of its role.
pub mod Table
use prompt_studio_backend.Prelude.{ℕ, String}
use prompt_studio_backend.Admin.{delete_user}
use prompt_studio_backend.Admin.Accounts.{
  AdminUserUpdate, AdminUserCreate, PasswordIssued, update_account, create_account,
}
use prompt_studio_backend.Admin.Projects.{delete_any_project}
use prompt_studio_backend.Auth.Guards.{get_current_admin, get_current_superadmin}
use prompt_studio_backend.Auth.Tokens.{TokenLibrary}
use prompt_studio_backend.Store.{User}
use prompt_studio_backend.Store.Action.{Action, pure, ◌>>=◌, ◌>>◌, request}

pub data AdminCall : Type 0 where
  create_user_call : AdminUserCreate → AdminCall
  update_user_call : ℕ → AdminUserUpdate → AdminCall
  delete_user_call : ℕ → AdminCall
  delete_project_call : ℕ → AdminCall

-- The body of a response.
pub data AdminResponse : Type 0 where
  password_issued : PasswordIssued → AdminResponse
  no_body : AdminResponse

module _ (library : TokenLibrary) (generated : String) where
  -- Each handler, with the guard that its parameter's type is: `CurrentAdmin` or
  -- `CurrentSuperadmin`.
  unfoldable pub create_user_route : AdminUserCreate → User → Action AdminResponse
  create_user_route request user = do
    actor ← get_current_admin user
    result ← create_account library actor request generated
    pure (password_issued result)

  unfoldable pub update_user_route : ℕ → AdminUserUpdate → User → Action AdminResponse
  update_user_route user_id change user = do
    actor ← get_current_admin user
    result ← update_account library actor user_id change generated
    pure (password_issued result)

  unfoldable pub delete_user_route : ℕ → User → Action AdminResponse
  delete_user_route user_id user = do
    actor ← get_current_superadmin user
    delete_user actor user_id
    pure no_body

  unfoldable pub delete_any_project_route : ℕ → User → Action AdminResponse
  delete_any_project_route project_id user = do
    actor ← get_current_superadmin user
    delete_any_project actor project_id
    pure no_body

  unfoldable pub admin_route : AdminCall → User → Action AdminResponse
  admin_route (create_user_call request) user = create_user_route request user
  admin_route (update_user_call user_id change) user = update_user_route user_id change user
  admin_route (delete_user_call user_id) user = delete_user_route user_id user
  admin_route (delete_project_call project_id) user = delete_any_project_route project_id user
