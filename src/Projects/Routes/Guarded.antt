-- ===== src/Projects/Routes/Guarded.antt =====
-- The routes below one project, by the role of their caller (app/modules/projects/router.py and
-- access.py).
use prompt_studio_backend.Prelude.{ℕ, String, List}
use prompt_studio_backend.Projects.Handlers.{Response}
use prompt_studio_backend.Projects.Routes.{Call, route}
use prompt_studio_backend.Store.{User, ProjectMember, World}
use prompt_studio_backend.Store.Action.{Result}

module _ (create_invite_token : ℕ → String → String) (token_urlsafe : String)
    (strftime : ℕ → String) (order_members : List ProjectMember → List ProjectMember) (pid : ℕ)
    (user : User) where
  abbrev answered : Call → World → Result Response × World
  answered call w = route create_invite_token token_urlsafe strftime order_members pid call user w
