-- ===== src/Projects/Feed/Frame.antt =====
-- What the feed leaves alone (app/modules/projects/service.py).
use prompt_studio_backend.Prelude.{ℕ, ◌≡◌, Option, none, some}
use prompt_studio_backend.Collab.Hub.{Hub}
use prompt_studio_backend.Projects.Feed.{add_activity, open_session, continue_edit, record_edit}
use prompt_studio_backend.Store.{User, Project, ProjectActivity, World}

-- The hub is as it was.
abbrev pub HubIs : Hub → World → Type 0
HubIs h w = w.hub ≡ h

pub record_edit-HubIs :
    (h : Hub) (project : Project) (user : User) (to_version : ℕ) (w : World)
    → HubIs h w
    → HubIs h (record_edit project user to_version w).1
unfolding record_edit continue_edit add_activity
record_edit-HubIs h project user to_version w p = by_session (open_session project user w)
  where
    by_session :
        (row : Option ProjectActivity)
        → HubIs h (continue_edit project user to_version w.now row w).1
    by_session none = p
    by_session (some row) = p
