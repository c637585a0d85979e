-- ===== src/Tests/Admin.antt =====
-- A superadmin deletes the editor's account.
use prompt_studio_backend.Prelude.{
  ℕ, ◌≤◌, ◌≡◌, refl, ◌≢◌, ◌⊎◌, true, false, none, some, [], ◌∷◌, arith, ◌==◌, nat_eq, first_where,
  count_where, any_where,
}
use prompt_studio_backend.Admin.{
  load_user, is_superadmin, is_privileged, assert_may_manage, is_usable_superadmin,
  assert_another_superadmin_remains, close_all_sockets, finish_deletion, delete_user,
}
use prompt_studio_backend.Admin.Accounts.{AdminUserUpdate, update_account}
use prompt_studio_backend.Admin.Accounts.Ranks.{ranks, update_account_keeps_ranks}
use prompt_studio_backend.Admin.Routes.{AdminCall, admin_route, update_user_call}
use prompt_studio_backend.Admin.Routes.Table.{
  is_permitted, served_by, Refuses, admin_route_follows_table,
}
use prompt_studio_backend.Admin.Superadmins.{delete_user_keeps_superadmin, delete_user_needs_rank}
use prompt_studio_backend.Auth.Sessions.{revoke_all_sessions, logout_everywhere}
use prompt_studio_backend.Auth.Tokens.{Payload, TokenLibrary}
use prompt_studio_backend.Core.Roles.{GlobalRole, TokenType}
use prompt_studio_backend.Projects.Feed.{record_audit}
use prompt_studio_backend.Rbac.{role_has}
use prompt_studio_backend.Store.{User, World}
use prompt_studio_backend.Store.Action.{ok}
use prompt_studio_backend.Store.Rows.{get_user}
use prompt_studio_backend.Tests.Accounts.{payload_of, plain_library}
use prompt_studio_backend.Tests.Samples.{owner, editor, some_world}

abbrev chief : User
chief = record owner { role = GlobalRole.superadmin; is_active = true }

abbrev chief_world : World
chief_world = record some_world {
  db = record some_world.db { users = chief ∷ record editor { role = GlobalRole.admin } ∷ [] };
}

chief_world_unique : (key : ℕ) → count_where (λ (u : User). u.id == key) chief_world.users ≤ 1
unfolding count_where
chief_world_unique key = ground arith

chief_is_there : 1 ≤ count_where is_usable_superadmin chief_world.users
unfolding count_where
chief_is_there = omega arith

delete_user_keeps_superadmin_example :
    1 ≤ count_where is_usable_superadmin (delete_user chief 2 chief_world).1.users
delete_user_keeps_superadmin_example =
    delete_user_keeps_superadmin chief 2 chief_world chief_world_unique chief_is_there

chief_deletes : (delete_user chief 2 chief_world).0 ≡ ok tt
unfolding delete_user load_user assert_may_manage assert_another_superadmin_remains finish_deletion
    close_all_sockets record_audit logout_everywhere revoke_all_sessions first_where count_where
chief_deletes = refl

chief_ranks :
    (user : User) × (get_user 2 chief_world ≡ some user)
    × (user.id ≢ chief.id)
    × (is_privileged user ≡ true → is_superadmin chief ≡ true)
chief_ranks = delete_user_needs_rank chief 2 chief_world chief_deletes

-- The editor's access token.
abbrev editor_payload : Payload
editor_payload = record payload_of { type = some TokenType.access; user_id = some 2 }

abbrev editor_library : TokenLibrary
editor_library = record plain_library { decode_token = λ token now. some editor_payload }

abbrev after_deletion : World
after_deletion = (delete_user chief 2 chief_world).1

-- An administrator below a superadmin asks for a promotion of the superadmin's account.
abbrev deputy : User
deputy = record editor { role = GlobalRole.admin }

abbrev promotion : AdminUserUpdate
promotion = record {
  full_name = none;
  role = some GlobalRole.superadmin;
  is_active = some false;
  reset_password = true;
}

update_account_keeps_ranks_example :
    ranks (update_account plain_library deputy 1 promotion "drawn" chief_world).1
    ≡ ranks chief_world
update_account_keeps_ranks_example =
    update_account_keeps_ranks plain_library deputy 1 promotion "drawn" chief_world refl
      chief_world_unique

-- The deputy may change accounts, but not what role someone holds.
abbrev promoting : AdminCall
promoting = update_user_call 2 promotion

admin_route_follows_table_example :
    ((is_permitted promoting deputy chief_world ≡ true)
      × (admin_route plain_library "drawn" promoting deputy chief_world
          ≡ served_by plain_library "drawn" promoting deputy chief_world))
    ⊎ ((is_permitted promoting deputy chief_world ≡ false)
        × Refuses (admin_route plain_library "drawn" promoting deputy) chief_world)
admin_route_follows_table_example =
    admin_route_follows_table plain_library "drawn" promoting deputy chief_world

promotion_is_not_permitted : is_permitted promoting deputy chief_world ≡ false
unfolding role_has any_where first_where
promotion_is_not_permitted = refl
