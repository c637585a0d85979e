-- ===== src/Admin/Routes/Table.antt =====
-- The guards of app/modules/admin/router.py beside the table of app/modules/rbac/permissions.py.
use prompt_studio_backend.Prelude.{
  ℕ, String, ◌≡◌, refl, sym, ap, ◌∙◌, ◌⊎◌, inl, inr, Bool, true, false, not, ◌&&◌, ◌||◌, Option,
  none, some, [], arith, if◌then◌else◌, ◌!=◌, ◌==◌, nat_eq, Bool-cases, any_where,
}
use prompt_studio_backend.Admin.{is_superadmin, is_privileged, assert_may_manage, delete_user}
use prompt_studio_backend.Admin.Accounts.{
  AdminUserUpdate, AdminUserCreate, assert_may_set_role, change_role, update_account,
  create_account,
}
use prompt_studio_backend.Admin.Guards.{load_user-cases}
use prompt_studio_backend.Admin.Projects.{delete_any_project}
use prompt_studio_backend.Admin.Routes.{
  AdminCall, create_user_call, update_user_call, delete_user_call, delete_project_call,
  AdminResponse, password_issued, no_body, create_user_route, update_user_route, delete_user_route,
  delete_any_project_route, admin_route,
}
use prompt_studio_backend.Auth.Guards.{get_current_admin, get_current_superadmin}
use prompt_studio_backend.Auth.Tokens.{TokenLibrary}
use prompt_studio_backend.Core.Errors.{
  AppError, authorization_error, conflict_error, validation_error,
}
use prompt_studio_backend.Core.Roles.{GlobalRole, global_role_eq}
use prompt_studio_backend.Rbac.{role_has}
use prompt_studio_backend.Rbac.Permission.{
  users_create, users_update, users_delete, users_impersonate_role, projects_delete_any,
}
use prompt_studio_backend.Store.{User, World}
use prompt_studio_backend.Store.Action.{Action, pure, ◌>>=◌, ◌>>◌, err}
use prompt_studio_backend.Store.Rows.{get_user}
use prompt_studio_backend.Core.ErrorMessage

-- The permission that the table names for what a route does.
abbrev pub permission_of : AdminCall → String
permission_of (create_user_call body) = users_create
permission_of (update_user_call user_id change) = users_update
permission_of (delete_user_call user_id) = users_delete
permission_of (delete_project_call project_id) = projects_delete_any

-- Another role than the account has.
abbrev pub is_other : Option GlobalRole → Option User → Bool
is_other none found = false
is_other (some role) none = false
is_other (some role) (some user) = role != user.role

-- Whether a call changes what role someone holds: a new account is a member's unless it says
-- otherwise.
abbrev pub sets_role : AdminCall → World → Bool
sets_role (create_user_call body) w = body.role != GlobalRole.member
sets_role (update_user_call user_id change) w = is_other change.role (get_user user_id w)
sets_role (delete_user_call user_id) w = false
sets_role (delete_project_call project_id) w = false

-- Whether the table grants the caller all that the call needs, `users.set_role` included.
abbrev pub is_permitted : AdminCall → User → World → Bool
is_permitted call user w =
    role_has user.role (permission_of call) user.is_superuser
    && (not (sets_role call w) || role_has user.role users_impersonate_role user.is_superuser)

-- The service that a route calls, on its own.
abbrev pub served_by : TokenLibrary → String → AdminCall → User → Action AdminResponse
served_by library generated (create_user_call body) user = do
  result ← create_account library user body generated
  pure (password_issued result)
served_by library generated (update_user_call user_id change) user = do
  result ← update_account library user user_id change generated
  pure (password_issued result)
served_by library generated (delete_user_call user_id) user = do
  delete_user user user_id
  pure no_body
served_by library generated (delete_project_call project_id) user = do
  delete_any_project user project_id
  pure no_body

-- What the table grants, by role and break-glass flag.
admin_grants :
    (role : GlobalRole) (flag : Bool)
    → (role_has role users_create flag
        ≡ (flag || role == GlobalRole.superadmin || role == GlobalRole.admin))
      × (role_has role users_update flag
          ≡ (flag || role == GlobalRole.superadmin || role == GlobalRole.admin))
unfolding role_has any_where
admin_grants role true = (refl, refl)
admin_grants GlobalRole.superadmin false = (refl, refl)
admin_grants GlobalRole.admin false = (refl, refl)
admin_grants GlobalRole.member false = (refl, refl)

superadmin_grants :
    (role : GlobalRole) (flag : Bool)
    → (role_has role users_delete flag ≡ (flag || role == GlobalRole.superadmin))
      × (role_has role projects_delete_any flag ≡ (flag || role == GlobalRole.superadmin))
      × (role_has role users_impersonate_role flag ≡ (flag || role == GlobalRole.superadmin))
unfolding role_has any_where
superadmin_grants role true = (refl, refl, refl)
superadmin_grants GlobalRole.superadmin false = (refl, refl, refl)
superadmin_grants GlobalRole.admin false = (refl, refl, refl)
superadmin_grants GlobalRole.member false = (refl, refl, refl)

abbrev not_allowed : AppError
not_allowed = authorization_error ErrorMessage.not_enough_permissions

-- An action that raises and changes nothing.
abbrev pub Refuses : {A : Type 0} → Action A → World → Type 0
Refuses m w = (e : AppError) × (m w ≡ (err e, w))

-- A role above a member's is given by nobody below a superadmin.
assert_may_set_role-Refuses :
    (actor : User) (role : GlobalRole) (w : World)
    → is_superadmin actor ≡ false
    → (role != GlobalRole.member) ≡ true
    → Refuses (assert_may_set_role actor role) w
unfolding assert_may_set_role
assert_may_set_role-Refuses actor GlobalRole.superadmin w low above =
    (validation_error "Only a superadmin can grant admin roles", rw low refl)
assert_may_set_role-Refuses actor GlobalRole.admin w low above =
    (validation_error "Only a superadmin can grant admin roles", rw low refl)
assert_may_set_role-Refuses actor GlobalRole.member w low above = cc

own_needed :
    (role held : GlobalRole) (flag own ranked : Bool)
    → ((role == GlobalRole.admin || role == GlobalRole.superadmin) && not ranked) ≡ false
    → (not own && (flag || held == GlobalRole.superadmin || held == GlobalRole.admin) && not ranked)
      ≡ false
    → ranked ≡ false
    → (role == held) ≡ false
    → own ≡ true
own_needed role held flag own ranked grant may low other = ground arith

-- An administrator's role is taken by nobody below a superadmin, their own included.
change_role-Refuses :
    (actor user : User) (role : GlobalRole) (w : World)
    → is_superadmin actor ≡ false
    → (not (user.id == actor.id) && is_privileged user && not (is_superadmin actor)) ≡ false
    → (role != user.role) ≡ true
    → Refuses (change_role actor user (some role)) w
unfolding change_role assert_may_set_role
change_role-Refuses actor user role w low may other =
    let differs : (role == user.role) ≡ false = ground arith in
    elim (Bool-cases
      ((role == GlobalRole.admin || role == GlobalRole.superadmin) && not (is_superadmin actor))) [
        | inl grant ↦ (
          validation_error "Only a superadmin can grant admin roles",
          rw (differs, if◌then◌else◌, grant) refl,
        )
        | inr grant ↦
            let own =
              own_needed role user.role user.is_superuser (user.id == actor.id)
                (is_superadmin actor) grant may low differs in
            (
              conflict_error "You cannot change your own role" [],
              rw (differs, if◌then◌else◌, grant, own) refl,
            )
      ]

changed_role-Refuses :
    (actor user : User) (role : Option GlobalRole) (w : World)
    → is_superadmin actor ≡ false
    → (not (user.id == actor.id) && is_privileged user && not (is_superadmin actor)) ≡ false
    → is_other role (some user) ≡ true
    → Refuses (change_role actor user role) w
changed_role-Refuses actor user none w low may other = cc
changed_role-Refuses actor user (some role) w low may other =
    change_role-Refuses actor user role w low may other

create_account-Refuses :
    (library : TokenLibrary) (generated : String) (actor : User) (body : AdminUserCreate)
    (w : World)
    → is_superadmin actor ≡ false
    → (body.role != GlobalRole.member) ≡ true
    → Refuses (create_account library actor body generated) w
unfolding create_account
create_account-Refuses library generated actor body w low above =
    let (e, refused) = assert_may_set_role-Refuses actor body.role w low above in
    (e, rw refused refl)

update_account-Refuses :
    (library : TokenLibrary) (generated : String) (actor : User) (user_id : ℕ)
    (change : AdminUserUpdate) (w : World)
    → is_superadmin actor ≡ false
    → is_other change.role (get_user user_id w) ≡ true
    → Refuses (update_account library actor user_id change generated) w
unfolding update_account assert_may_manage
update_account-Refuses library generated actor user_id change w low other =
    elim (load_user-cases user_id w) [
      | inr (e, absent) ↦ (e, rw absent refl)
      | inl (user, found, key, live, is) ↦
          elim (Bool-cases
            (not (user.id == actor.id) && is_privileged user && not (is_superadmin actor))) [
              | inl may ↦ (
                authorization_error "Only a superadmin can manage another admin account",
                rw (is, may) refl,
              )
              | inr may ↦
                  let (e, refused) =
                    changed_role-Refuses actor user change.role w low may
                      (ap (is_other change.role) (sym found) ∙ other) in
                  (e, rw (is, may, refused) refl)
            ]
    ]

-- The guard of a route, and the rank that some calls need besides.
admin_route-as :
    (library : TokenLibrary) (generated : String) (call : AdminCall) (user : User) (w : World)
    → role_has user.role (permission_of call) user.is_superuser ≡ true
    → admin_route library generated call user w ≡ served_by library generated call user w
unfolding admin_route create_user_route update_user_route delete_user_route delete_any_project_route
    get_current_admin get_current_superadmin
admin_route-as library generated (create_user_call body) user w e =
    rw (sym (admin_grants user.role user.is_superuser).0 ∙ e) refl
admin_route-as library generated (update_user_call user_id change) user w e =
    rw (sym (admin_grants user.role user.is_superuser).1 ∙ e) refl
admin_route-as library generated (delete_user_call user_id) user w e =
    rw (sym (superadmin_grants user.role user.is_superuser).0 ∙ e) refl
admin_route-as library generated (delete_project_call project_id) user w e =
    rw (sym (superadmin_grants user.role user.is_superuser).1 ∙ e) refl

admin_route-closed :
    (library : TokenLibrary) (generated : String) (call : AdminCall) (user : User) (w : World)
    → role_has user.role (permission_of call) user.is_superuser ≡ false
    → Refuses (admin_route library generated call user) w
unfolding admin_route create_user_route update_user_route delete_user_route delete_any_project_route
    get_current_admin get_current_superadmin
admin_route-closed library generated (create_user_call body) user w e =
    (not_allowed, rw (sym (admin_grants user.role user.is_superuser).0 ∙ e) refl)
admin_route-closed library generated (update_user_call user_id change) user w e =
    (not_allowed, rw (sym (admin_grants user.role user.is_superuser).1 ∙ e) refl)
admin_route-closed library generated (delete_user_call user_id) user w e =
    (not_allowed, rw (sym (superadmin_grants user.role user.is_superuser).0 ∙ e) refl)
admin_route-closed library generated (delete_project_call project_id) user w e =
    (not_allowed, rw (sym (superadmin_grants user.role user.is_superuser).1 ∙ e) refl)

served_by-Refuses :
    (library : TokenLibrary) (generated : String) (call : AdminCall) (user : User) (w : World)
    → role_has user.role users_impersonate_role user.is_superuser ≡ false
    → sets_role call w ≡ true
    → Refuses (served_by library generated call user) w
served_by-Refuses library generated (create_user_call body) user w e sets =
    let (x, refused) =
      create_account-Refuses library generated user body w
        (sym (superadmin_grants user.role user.is_superuser).2 ∙ e) sets in
    (x, rw refused refl)
served_by-Refuses library generated (update_user_call user_id change) user w e sets =
    let (x, refused) =
      update_account-Refuses library generated user user_id change w
        (sym (superadmin_grants user.role user.is_superuser).2 ∙ e) sets in
    (x, rw refused refl)
served_by-Refuses library generated (delete_user_call user_id) user w e sets = cc
served_by-Refuses library generated (delete_project_call project_id) user w e sets = cc

-- The guards, which look at roles, follow the permission table: a route that changes accounts or
-- projects runs its service for whoever the table grants all that the call needs, and refuses anyone
-- else and changes nothing. A call that changes what role somebody holds, or makes an account with a
-- role above a member's, needs `users.set_role` besides.
pub admin_route_follows_table :
    (library : TokenLibrary) (generated : String) (call : AdminCall) (user : User) (w : World)
    → ((is_permitted call user w ≡ true)
        × (admin_route library generated call user w ≡ served_by library generated call user w))
      ⊎ ((is_permitted call user w ≡ false) × Refuses (admin_route library generated call user) w)
admin_route_follows_table library generated call user w =
    elim (Bool-cases (role_has user.role (permission_of call) user.is_superuser)) [
      | inr shut ↦ inr (rw shut refl, admin_route-closed library generated call user w shut)
      | inl open_to ↦
          let runs = admin_route-as library generated call user w open_to in
          elim (Bool-cases (role_has user.role users_impersonate_role user.is_superuser)) [
            | inl may ↦ inl (rw (open_to, may) (ground arith), runs)
            | inr may_not ↦ elim (Bool-cases (sets_role call w)) [
              | inl sets ↦
                  let (e, refused) = served_by-Refuses library generated call user w may_not sets in
                  inr (rw (open_to, may_not, sets) refl, (e, runs ∙ refused))
              | inr keeps ↦ inl (rw (open_to, keeps) refl, runs)
            ]
          ]
    ]
