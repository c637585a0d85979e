-- ===== src/Tests/Lifecycle.antt =====
-- The sample project shared, commented on, archived and moved to the trash.
use prompt_studio_backend.Prelude.{
  String, ◌≡◌, refl, ap, ◌==◌, string_eq, ◌≢◌, true, false, none, some, [], ◌∷◌, arith, first_where,
  update_where, count_where,
}
use prompt_studio_backend.Core.Errors.{not_found_error}
use prompt_studio_backend.Core.Json.{empty}
use prompt_studio_backend.Core.Roles.{ProjectRole}
use prompt_studio_backend.Core.Text.{strip}
use prompt_studio_backend.Projects.Access.{resolve_access}
use prompt_studio_backend.Projects.Access.Decision.{granted_role}
use prompt_studio_backend.Projects.Comments.{update_comment, delete_comment}
use prompt_studio_backend.Projects.Comments.Authors.{
  words, update_comment_keeps_words, delete_comment_keeps_others,
}
use prompt_studio_backend.Projects.Documents.{reload}
use prompt_studio_backend.Projects.Feed.{add_activity}
use prompt_studio_backend.Projects.Lifecycle.{create_project, delete_project}
use prompt_studio_backend.Projects.Lifecycle.Birth.{create_project_has_owner}
use prompt_studio_backend.Projects.Lifecycle.Trash.{delete_project_hides}
use prompt_studio_backend.Projects.Links.{
  change_link, rotate_public_link, disable_public_link, project_by_public_token,
}
use prompt_studio_backend.Projects.Links.Served.{
  IsServed, served_is_shared, rotate_public_link_revokes, disable_public_link_revokes,
}
use prompt_studio_backend.Projects.Members.Owners.{IsOwned}
use prompt_studio_backend.Store.{Project, ProjectComment, World}
use prompt_studio_backend.Store.Action.{err}
use prompt_studio_backend.Store.Rows.{get_comment}
use prompt_studio_backend.Tests.Members.{some_world-IsSound}
use prompt_studio_backend.Tests.Samples.{owner, editor, board, some_db, some_world, editor_access}
use prompt_studio_backend.Core.ErrorMessage

abbrev shared_board : Project
shared_board = record board { public_token = some "old" }

abbrev shared_world : World
shared_world = record some_world { db = record some_db { projects = shared_board ∷ [] } }

served_is_shared_example :
    (shared_board.public_token ≡ some "old")
    × (shared_board.is_deleted ≡ false)
    × (shared_board.is_archived ≡ false)
    × (strip "old" ≢ "")
unfolding project_by_public_token strip first_where
served_is_shared_example = served_is_shared "old" shared_board shared_world refl

-- The link is replaced, and the new one serves the project.
abbrev rotated_board : Project
rotated_board = record board {
  public_token = some "new";
  public_enabled_at = some 1000;
  public_enabled_by_id = some 1;
  last_activity_at = some 1000;
}

rotated_serves :
    IsServed "new" rotated_board (rotate_public_link "new" shared_board owner shared_world).1
unfolding project_by_public_token rotate_public_link change_link add_activity reload strip
    first_where update_where
rotated_serves = refl

rotate_public_link_revokes_example :
    IsServed "new" rotated_board (rotate_public_link "new" shared_board owner shared_world).1
    × ¬ IsServed "old" shared_board (rotate_public_link "new" shared_board owner shared_world).1
unfolding strip first_where
rotate_public_link_revokes_example =
    rotate_public_link_revokes "new" "old" shared_board shared_board shared_board owner shared_world
      refl refl refl (λ e. cc) (refl, tt)
      (λ e. let k : true ≡ false = ap (λ (s : String). s == "old") e in cc) refl

-- Another project keeps its link when this one's is taken down.
abbrev other_board : Project
other_board = record board { id = 11; public_token = some "other" }

abbrev two_links : World
two_links = record some_world { db = record some_db { projects = shared_board ∷ other_board ∷ [] } }

other_serves : IsServed "other" other_board (disable_public_link shared_board owner two_links).1
unfolding project_by_public_token disable_public_link change_link add_activity reload strip
    first_where update_where
other_serves = refl

other_link-survives : other_board.id ≢ shared_board.id
unfolding count_where first_where
other_link-survives =
    disable_public_link_revokes "other" shared_board other_board owner two_links (omega arith) refl
      other_serves

delete_project_hides_example :
    granted_role
      (resolve_access 10 owner ProjectRole.viewer (delete_project board owner some_world).1).0
    ≡ err (not_found_error ErrorMessage.project_not_found)
delete_project_hides_example = delete_project_hides board owner owner ProjectRole.viewer some_world

create_project_has_owner_example :
    IsOwned 100
      (create_project
        (λ pid email. "token")
        owner
        (record {
          name = "Plan";
          description = "";
          doc = empty;
          schema_version = 1;
          member_emails = "a@x.com" ∷ "A@x.com" ∷ [];
        })
        some_world).1
create_project_has_owner_example =
    create_project_has_owner (λ pid email. "token") owner
      (record {
        name = "Plan";
        description = "";
        doc = empty;
        schema_version = 1;
        member_emails = "a@x.com" ∷ "A@x.com" ∷ [];
      })
      some_world some_world-IsSound

abbrev note : ProjectComment
note = record {
  id = 60;
  project_id = 10;
  author_id = some 1;
  author_email = "owner@x.com";
  target_kind = "screen";
  target_key = "";
  body = "Wider";
  resolved_at = none;
  resolved_by = none;
  is_deleted = false;
  deleted_at = none;
  created_by = some 1;
  updated_by = none;
  created_at = 900;
}

abbrev noted_world : World
noted_world = record some_world { db = record some_db { comments = note ∷ [] } }

update_comment_keeps_words_example :
    words 60
      (update_comment editor_access editor 60
        (record { body = none; resolved = some true })
        noted_world).1
    ≡ some "Wider"
unfolding first_where
update_comment_keeps_words_example =
    update_comment_keeps_words editor_access editor 60 60
      (record { body = none; resolved = some true }) noted_world refl (λ e. ground arith)

delete_comment_keeps_others_example :
    get_comment 60 (delete_comment editor_access editor 60 noted_world).1 ≡ some note
unfolding first_where
delete_comment_keeps_others_example =
    delete_comment_keeps_others editor_access editor 60 60 noted_world refl (λ e. ground arith)
      (λ e. cc)
