-- ===== src/Admin/Projects.antt =====
-- app/modules/admin/service.py: `delete_project`, the one platform power that reaches inside a
-- project.
use prompt_studio_backend.Prelude.{ℕ, true, some, [], ◌∷◌, ◌==◌, nat_eq, select_where}
use prompt_studio_backend.Core.Errors.{not_found_error}
use prompt_studio_backend.Core.Text.{format}
use prompt_studio_backend.Projects.Feed.{record_audit}
use prompt_studio_backend.Projects.Lifecycle.{evict_members}
use prompt_studio_backend.Store.{User, Project}
use prompt_studio_backend.Store.Action.{
  Action, gets, or_raise, ◌>>=◌, ◌>>◌, modify, raise_if, commit,
}
use prompt_studio_backend.Store.Rows.{get_project, update_project}
use prompt_studio_backend.Core.ErrorMessage

abbrev removed : ℕ → Project → Project
removed now p = record p { is_deleted = true; deleted_at = some now }

-- `delete_project` of the administration: the row and the audit log, committed; then, who was on it.
unfoldable pub delete_any_project : User → ℕ → Action (Unit {0})
delete_any_project actor project_id = do
  found ← gets (get_project project_id)
  project ← or_raise found (not_found_error ErrorMessage.project_not_found)
  raise_if project.is_deleted (not_found_error ErrorMessage.project_not_found)
  members ← gets (λ w. select_where (λ row. row.project_id == project.id) w.members)
  now ← gets (λ w. w.now)
  modify (update_project project.id (removed now))
  record_audit "admin.project_deleted" "project" project.id
      (format (actor.email ∷ " deleted project " ∷ project.name ∷ []))
  commit
  evict_members project.id members
