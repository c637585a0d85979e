-- ===== src/Projects/Routes/Refused.antt =====
-- Whom the rows refuse which role, and what is left of a refused request (app/modules/projects/access.py).
use prompt_studio_backend.Prelude.{
  ℕ, ◌≡◌, refl, ap, ◌⊎◌, inl, inr, false, Option, none, some, if◌then◌else◌, Bool-cases,
}
use prompt_studio_backend.Core.Errors.{AppError, not_found_error, authorization_error}
use prompt_studio_backend.Core.Roles.{ProjectRole, rank, at_least}
use prompt_studio_backend.Core.Text.{lower}
use prompt_studio_backend.Projects.Access.{ProjectAccess}
use prompt_studio_backend.Projects.Access.Decision.{
  decision, granted_role, visible_project, membership_row,
}
use prompt_studio_backend.Projects.Handlers.{Response}
use prompt_studio_backend.Store.{User, Project, ProjectMember, World}
use prompt_studio_backend.Store.Action.{Result, Action, continue, ok, err}
use prompt_studio_backend.Core.ErrorMessage

-- The project's row and the caller's live membership row grant this role.
abbrev pub Holds : ProjectRole → ℕ → User → World → Type 0
Holds minimum pid user w =
    (role : ProjectRole) × (decision (visible_project pid w) (membership_row pid user w) minimum
      ≡ ok role)

pub decision-cases :
    (minimum : ProjectRole) (pid : ℕ) (user : User) (w : World)
    → Holds minimum pid user w
      ⊎ ((e : AppError) × (decision (visible_project pid w) (membership_row pid user w) minimum
            ≡ err e))
decision-cases minimum pid user w =
    by_result (decision (visible_project pid w) (membership_row pid user w) minimum) refl
  where
    by_result :
        (r : Result ProjectRole)
        → decision (visible_project pid w) (membership_row pid user w) minimum ≡ r
        → Holds minimum pid user w
          ⊎ ((e : AppError) × (decision (visible_project pid w) (membership_row pid user w) minimum
                ≡ err e))
    by_result (ok role) h = inl (role, h)
    by_result (err e) h = inr (e, h)

at_least-owner_editor :
    (role : ProjectRole)
    → at_least role ProjectRole.editor ≡ false
    → at_least role ProjectRole.owner ≡ false
unfolding at_least rank
at_least-owner_editor ProjectRole.owner low = cc
at_least-owner_editor ProjectRole.editor low = cc
at_least-owner_editor ProjectRole.commenter low = refl
at_least-owner_editor ProjectRole.viewer low = refl

at_least-editor_commenter :
    (role : ProjectRole)
    → at_least role ProjectRole.commenter ≡ false
    → at_least role ProjectRole.editor ≡ false
unfolding at_least rank
at_least-editor_commenter ProjectRole.owner low = cc
at_least-editor_commenter ProjectRole.editor low = cc
at_least-editor_commenter ProjectRole.commenter low = cc
at_least-editor_commenter ProjectRole.viewer low = refl

refused_above :
    (lower higher : ProjectRole)
    → ((role : ProjectRole) → at_least role lower ≡ false → at_least role higher ≡ false)
    → (project : Option Project) (row : Option ProjectMember) {e : AppError}
    → decision project row lower ≡ err e
    → (x : AppError) × (decision project row higher ≡ err x)
refused_above lower higher above none row low =
    (not_found_error ErrorMessage.project_not_found, refl)
refused_above lower higher above (some project) none low =
    (not_found_error ErrorMessage.project_not_found, refl)
refused_above lower higher above (some project) (some row) low =
    elim (Bool-cases (at_least row.role lower)) [
      | inl high ↦
          let granted : decision (some project) (some row) lower ≡ ok row.role = rw high refl in cc
      | inr under ↦
          (authorization_error ErrorMessage.project_role_too_low, rw (above row.role under) refl)
    ]

-- Whom the rows refuse an editor's role, they refuse an owner's.
pub refused_owner :
    (project : Option Project) (row : Option ProjectMember) {e : AppError}
    → decision project row ProjectRole.editor ≡ err e
    → (x : AppError) × (decision project row ProjectRole.owner ≡ err x)
refused_owner project row low =
    refused_above ProjectRole.editor ProjectRole.owner at_least-owner_editor project row low

-- Whom the rows refuse a commenter's role, they refuse an editor's.
pub refused_editor :
    (project : Option Project) (row : Option ProjectMember) {e : AppError}
    → decision project row ProjectRole.commenter ≡ err e
    → (x : AppError) × (decision project row ProjectRole.editor ≡ err x)
refused_editor project row low =
    refused_above ProjectRole.commenter ProjectRole.editor at_least-editor_commenter project row low

-- Whom the rows refuse a viewer's role, they refuse every role alike.
pub refused_viewer :
    (project : Option Project) (row : Option ProjectMember) (minimum : ProjectRole) {e : AppError}
    → decision project row ProjectRole.viewer ≡ err e
    → decision project row minimum ≡ err e
unfolding at_least rank
refused_viewer none row minimum shut = shut
refused_viewer (some project) none minimum shut = shut
refused_viewer (some project) (some row) minimum {e} shut = by_role row.role shut
  where
    by_role :
        (role : ProjectRole)
        → (if at_least role ProjectRole.viewer
            then ok role
            else err (authorization_error ErrorMessage.project_role_too_low))
          ≡ err e
        → (if at_least role minimum
            then ok role
            else err (authorization_error ErrorMessage.project_role_too_low))
          ≡ err e
    by_role ProjectRole.owner h = cc
    by_role ProjectRole.editor h = cc
    by_role ProjectRole.commenter h = cc
    by_role ProjectRole.viewer h = cc

-- A refused question is all that there is to a request.
pub continue-refused :
    {e : AppError} (r : Result ProjectAccess × World) (k : ProjectAccess → Action Response)
    → granted_role r.0 ≡ err e
    → ((continue r k).0 ≡ err e) × ((continue r k).1 ≡ r.1)
continue-refused (ok access, w) k h = cc
continue-refused {e} (err x, w) k h = (ap refuse h, refl)
  where
    refuse : Result ProjectRole → Result Response
    refuse (err y) = err y
    refuse (ok role) = err e
