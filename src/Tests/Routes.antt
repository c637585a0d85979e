-- ===== src/Tests/Routes.antt =====
-- A route that demands more than the caller has, and the trash of a project that one was invited to.
use prompt_studio_backend.Prelude.{
  ℕ, String, ◌≡◌, refl, true, false, none, some, List, [], ◌∷◌, map, ◌==◌, nat_eq, first_where,
  update_where, any_where,
}
use prompt_studio_backend.Core.Errors.{not_found_error}
use prompt_studio_backend.Core.Roles.{ProjectRole, MemberStatus}
use prompt_studio_backend.Projects.Access.{
  membership_match, load_project, bind_member, find_membership, resolve_access,
}
use prompt_studio_backend.Projects.Access.Decision.{granted_role}
use prompt_studio_backend.Projects.Feed.{add_activity}
use prompt_studio_backend.Projects.Handlers.{Response, restore_route}
use prompt_studio_backend.Projects.Lifecycle.{ProjectUpdate, restore_project}
use prompt_studio_backend.Projects.Listing.{visible_projects}
use prompt_studio_backend.Projects.Listing.Visible.{is_granted, visible_projects_agree}
use prompt_studio_backend.Projects.Members.{member_by_email}
use prompt_studio_backend.Projects.Routes.{Call, minimum_of, route}
use prompt_studio_backend.Store.{Project, ProjectMember, World}
use prompt_studio_backend.Store.Action.{Result, err}
use prompt_studio_backend.Tests.Samples.{editor, newcomer, board, newcomer_row, some_db, some_world}
use prompt_studio_backend.Core.ErrorMessage

abbrev plain_invite : ℕ → String → String
plain_invite pid email = "invite"

abbrev plain_time : ℕ → String
plain_time at = "noon"

abbrev in_order : List ProjectMember → List ProjectMember
in_order rows = rows

-- A viewer of the board, who sends a change of its name.
abbrev viewer_world : World
viewer_world = record some_world {
  db = record some_db {
    members = record newcomer_row { user_id = some 2; role = ProjectRole.viewer } ∷ [];
  };
}

abbrev renaming : ProjectUpdate
renaming = record { name = some "Mine"; description = none; is_archived = none }

abbrev renamed : Result Response × World
renamed =
    route plain_invite "token" plain_time in_order 10 (Call.update_project renaming) editor
      viewer_world

-- An invitation to own the project, whose address somebody registered without confirming it.
abbrev seat : ProjectMember
seat = newcomer_row

abbrev trashed_world : World
trashed_world = record some_world {
  db = record some_db {
    projects = record board { is_deleted = true; deleted_at = some 9 } ∷ [];
    members =
        record seat { user_id = none; role = ProjectRole.owner; status = MemberStatus.invited }
        ∷ [];
  };
}

abbrev restored_world : World
restored_world = (restore_route 10 newcomer trashed_world).1

-- The route takes the project out of the trash for them …
unconfirmed_restores : map (λ (p : Project). p.is_deleted) restored_world.projects ≡ false ∷ []
unfolding restore_route restore_project member_by_email add_activity first_where update_where
unconfirmed_restores = refl

-- … though every other route, asked by the same caller, knows of no such project.
unconfirmed_is_refused :
    (route plain_invite "token" plain_time in_order 10 Call.read_project newcomer restored_world).0
    ≡ err (not_found_error ErrorMessage.project_not_found)
unfolding restore_route restore_project member_by_email add_activity first_where update_where route
    minimum_of resolve_access load_project find_membership bind_member membership_match
unconfirmed_is_refused = refl

visible_projects_agree_example :
    any_where (λ (p : Project). p.id == 10) (visible_projects newcomer some_world)
    ≡ is_granted (granted_role (resolve_access 10 newcomer ProjectRole.viewer some_world).0)
visible_projects_agree_example = visible_projects_agree 10 newcomer some_world
