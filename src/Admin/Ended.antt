-- ===== src/Admin/Ended.antt =====
-- The tokens of a deleted account (`delete_user` of app/modules/admin/service.py).
use prompt_studio_backend.Prelude.{ℕ, ◌≡◌, true, some, [], ◌∷◌, nat_eq, All}
use prompt_studio_backend.Auth.Sessions.{is_unexpired, load_active_user}
use prompt_studio_backend.Auth.Sessions.Ended.{is_ended}
use prompt_studio_backend.Core.Errors.{authentication_error}
use prompt_studio_backend.Core.Roles.{token_type_eq}
use prompt_studio_backend.Core.Text.{format}
use prompt_studio_backend.Projects.Feed.{record_audit}
use prompt_studio_backend.Store.{User, World}
use prompt_studio_backend.Store.Action.{commit, err}
use prompt_studio_backend.Store.Rows.{get_user}
use prompt_studio_backend.Core.ErrorMessage

-- A refresh token or a link of the account is refused, and its unexpired sessions are ended.
abbrev pub IsLockedOut : ℕ → World → Type 0
IsLockedOut uid w =
    (load_active_user (some uid) w
      ≡ (err (authentication_error ErrorMessage.user_not_found_or_inactive), w))
    × All (λ s. is_unexpired uid w.now s ≡ true → is_ended w.now w.revoked_tokens s ≡ true)
        w.sessions

-- Two worlds that differ in the hub only.
abbrev SameRows : World → World → Type 0
SameRows w w' = (w.db ≡ w'.db) × (w.now ≡ w'.now) × (w.committed ≡ w'.committed)

-- After the audit row and the commit.
abbrev audited : User → User → World → World
audited actor user w =
    (commit
      (record_audit "admin.user_deleted" "user" user.id
        (format (actor.email ∷ " deleted " ∷ user.email ∷ [])) w).1).1

-- The deleted account's row, as the session has it and as it is committed.
abbrev IsGone : ℕ → World → Type 0
IsGone uid w = (u : User) × (get_user uid w ≡ some u) × (u.is_deleted ≡ true)
