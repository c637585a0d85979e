-- ===== src/Projects/Lifecycle/Archive.antt =====
-- Who takes a project off the air (`update_project` and `delete_project` of
-- app/modules/projects/service.py).
use mathlib.Core.Option
use prompt_studio_backend.Prelude.{ℕ, String, Bool, Option, nat_eq}
use prompt_studio_backend.Core.Roles.{project_role_eq}
use prompt_studio_backend.Store.{Project, World}
use prompt_studio_backend.Store.Rows.{get_project}

-- The columns that decide whether a public link serves the project.
abbrev pub on_air : ℕ → World → Option (Bool × Bool × Option String)
on_air pid w =
    Option.map (λ (p : Project). (p.is_archived, p.is_deleted, p.public_token)) (get_project pid w)
