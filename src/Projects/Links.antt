-- ===== src/Projects/Links.antt =====
-- app/modules/projects/service.py: the public read-only link. The token that `secrets` draws is an
-- argument.
pub mod Served
use prompt_studio_backend.Prelude.{
  ℕ, String, Bool, not, ◌&&◌, ◌||◌, none, some, [], ◌∷◌, if◌then◌else◌, ◌==◌, string_eq, holds,
  first_where,
}
use prompt_studio_backend.Core.Errors.{not_found_error}
use prompt_studio_backend.Core.Roles.{ActivityType}
use prompt_studio_backend.Core.Text.{strip, format}
use prompt_studio_backend.Projects.Documents.{reload, is_given}
use prompt_studio_backend.Projects.Feed.{add_activity}
use prompt_studio_backend.Store.{User, Project}
use prompt_studio_backend.Store.Action.{
  Action, pure, gets, or_raise, ◌>>=◌, ◌>>◌, modify, raise_if, commit,
}
use prompt_studio_backend.Store.Rows.{update_project}
use prompt_studio_backend.Core.ErrorMessage

-- What the owner's click writes to the row.
abbrev pub shared : String → User → ℕ → Project → Project
shared token user now p = record p {
  public_token = some token;
  public_enabled_at = some now;
  public_enabled_by_id = some user.id;
}

abbrev pub unshared : Project → Project
unshared p = record p { public_token = none; public_enabled_at = none; public_enabled_by_id = none }

-- The row is written, the feed told, and the whole committed.
unfoldable pub change_link :
    (Project → Project) → ActivityType → String → Project → User → Action Project
change_link f kind summary project user = do
  modify (update_project project.id f)
  add_activity project (some user) kind (format (user.email ∷ summary ∷ [])) []
  commit
  gets (reload project)

pub enable_public_link : String → Project → User → Action Project
enable_public_link token project user = do
  now ← gets (λ w. w.now)
  if is_given project.public_token
      then pure project
      else change_link (shared token user now) ActivityType.public_link_enabled
          " made this project readable by anyone with the link" project user

unfoldable pub rotate_public_link : String → Project → User → Action Project
rotate_public_link token project user = do
  now ← gets (λ w. w.now)
  if is_given project.public_token
      then change_link (shared token user now) ActivityType.public_link_rotated
          " replaced the public link — the previous one no longer works" project user
      else enable_public_link token project user

unfoldable pub disable_public_link : Project → User → Action Project
disable_public_link project user =
    if is_given project.public_token
    then change_link unshared ActivityType.public_link_disabled " turned off the public link"
        project user
    else pure project

-- The row that the anonymous read selects.
abbrev pub is_served : String → Project → Bool
is_served token p = holds p.public_token token && not p.is_deleted && not p.is_archived

unfoldable pub project_by_public_token : String → Action Project
project_by_public_token token = do
  raise_if (token == "" || strip token == "") (not_found_error ErrorMessage.public_link_not_found)
  found ← gets (λ w. first_where (is_served token) w.projects)
  or_raise found (not_found_error ErrorMessage.public_link_not_found)
