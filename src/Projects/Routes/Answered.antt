-- ===== src/Projects/Routes/Answered.antt =====
-- A request to one project: the question to the rows, then the handler (app/modules/projects/router.py).
use prompt_studio_backend.Prelude.{ℕ, String, ◌≡◌, ◌∙◌, List}
use prompt_studio_backend.Core.Errors.{AppError}
use prompt_studio_backend.Projects.Access.{ProjectAccess, resolve_access}
use prompt_studio_backend.Projects.Access.Decision.{
  decision, visible_project, membership_row, resolve_access_decides,
}
use prompt_studio_backend.Projects.Access.Frame.{after_binding, resolve_access-then}
use prompt_studio_backend.Projects.Handlers.{Response}
use prompt_studio_backend.Projects.Routes.{Call, minimum_of, perform, route}
use prompt_studio_backend.Projects.Routes.Refused.{continue-refused}
use prompt_studio_backend.Store.{User, ProjectMember, World}
use prompt_studio_backend.Store.Action.{Result, err}
use prompt_studio_backend.Store.Frames.{continue-then}

module _ (create_invite_token : ℕ → String → String) (token_urlsafe : String)
    (strftime : ℕ → String) (order_members : List ProjectMember → List ProjectMember) (pid : ℕ)
    (user : User) where
  abbrev answered : Call → World → Result Response × World
  answered call w = route create_invite_token token_urlsafe strftime order_members pid call user w

  pub answered-refused :
      (call : Call) (w : World) {e : AppError}
      → decision (visible_project pid w) (membership_row pid user w) (minimum_of call) ≡ err e
      → ((answered call w).0 ≡ err e)
        × ((answered call w).1 ≡ (resolve_access pid user (minimum_of call) w).1)
  unfolding route
  answered-refused call w closed =
      continue-refused (resolve_access pid user (minimum_of call) w) _
        (resolve_access_decides pid user (minimum_of call) w ∙ closed)

  -- What binding a membership row to its account keeps, the guard keeps.
  module _ (P : World → Type 0)
      (binding : (user : User) (row : ProjectMember) (w : World)
        → P w
        → P (after_binding user row w)) where
    pub closed-keeps :
        (call : Call) (w : World) {e : AppError}
        → decision (visible_project pid w) (membership_row pid user w) (minimum_of call) ≡ err e
        → P w
        → P (answered call w).1
    closed-keeps call w closed p =
        rw (answered-refused call w closed).1
          (resolve_access-then P binding (λ r. P r.1) pid user (minimum_of call) w (λ r v q. q) p)

    pub open-keeps :
        (call : Call) (w : World)
        → ((access : ProjectAccess) (v : World)
            → P v
            → P
                (perform create_invite_token token_urlsafe strftime order_members call access user
                  v).1)
        → P w
        → P (answered call w).1
    unfolding route
    open-keeps call w keeps p =
        continue-then P (λ r. P r.1) (λ r v q. q) (resolve_access pid user (minimum_of call) w)
          (λ access.
            perform create_invite_token token_urlsafe strftime order_members call access user)
          (resolve_access-then P binding (λ r. P r.1) pid user (minimum_of call) w (λ r v q. q) p)
          keeps
