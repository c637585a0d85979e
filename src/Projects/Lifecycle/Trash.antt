-- ===== src/Projects/Lifecycle/Trash.antt =====
-- What is in the trash, over HTTP and under the public link (app/modules/projects).
use prompt_studio_backend.Prelude.{
  ℕ, ◌≡◌, refl, ap, ◌∙◌, false, not, ◌&&◌, Option, none, some, List, [], ◌∷◌, arith, ◌==◌, nat_eq,
  select_where, first_where, update_where, first_where-overwritten,
}
use prompt_studio_backend.Collab.Hub.{disconnect_user}
use prompt_studio_backend.Core.Errors.{not_found_error}
use prompt_studio_backend.Core.Roles.{ProjectRole}
use prompt_studio_backend.Projects.Access.{resolve_access}
use prompt_studio_backend.Projects.Access.Decision.{
  decision, granted_role, visible_project, membership_row, resolve_access_decides,
}
use prompt_studio_backend.Projects.Feed.{record_audit}
use prompt_studio_backend.Projects.Lifecycle.{deleted, evict_members, trash, delete_project}
use prompt_studio_backend.Projects.Members.{evict_open_sockets}
use prompt_studio_backend.Store.{User, Project, ProjectMember, World}
use prompt_studio_backend.Store.Action.{Action, ◌>>◌, err}
use prompt_studio_backend.Core.ErrorMessage

projects-evict :
    (pid : ℕ) (uid : Option ℕ) (k : Action (Unit {0})) (w : World)
    → ((v : World) → (k v).1.projects ≡ v.projects)
    → ((evict_open_sockets pid uid >> k) w).1.projects ≡ w.projects
unfolding evict_open_sockets
projects-evict pid none k w h = h w
projects-evict pid (some uid) k w h =
    h (record w { hub = (disconnect_user w.now pid uid false w.hub).1 })

projects-evict_members :
    (pid : ℕ) (members : List ProjectMember) (w : World)
    → (evict_members pid members w).1.projects ≡ w.projects
unfolding evict_members
projects-evict_members pid [] w = refl
projects-evict_members pid (member ∷ members) w =
    projects-evict pid member.user_id (evict_members pid members) w
      (projects-evict_members pid members)

-- The rows after `delete_project`.
projects-delete_project :
    (project : Project) (user : User) (w : World)
    → (delete_project project user w).1.projects
      ≡ update_where (λ p. p.id == project.id) (deleted user w.now) w.projects
unfolding delete_project trash record_audit
projects-delete_project project user w =
    projects-evict_members project.id (select_where (λ row. row.project_id == project.id) w.members)
      (trash project user w).1

-- After `delete_project`, whoever asks for the project, with whatever role in mind, is told that it
-- does not exist.
pub delete_project_hides :
    (project : Project) (user someone : User) (minimum : ProjectRole) (w : World)
    → granted_role (resolve_access project.id someone minimum (delete_project project user w).1).0
      ≡ err (not_found_error ErrorMessage.project_not_found)
delete_project_hides project user someone minimum w =
    resolve_access_decides project.id someone minimum (delete_project project user w).1
    ∙ ap
        (λ found.
          decision found (membership_row project.id someone (delete_project project user w).1)
            minimum)
        hidden
  where
    hidden : visible_project project.id (delete_project project user w).1 ≡ none
    hidden =
        ap (first_where (λ p. p.id == project.id && not p.is_deleted))
          (projects-delete_project project user w)
        ∙ first_where-overwritten (λ p. p.id == project.id && not p.is_deleted)
            (λ p. p.id == project.id) (deleted user w.now) w.projects (λ p h. ground arith)
            (λ p h. ground arith)
