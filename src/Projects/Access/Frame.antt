-- ===== src/Projects/Access/Frame.antt =====
-- What deciding on access leaves alone (app/modules/projects/access.py).
use prompt_studio_backend.Prelude.{ℕ, inl, inr, not, Option, none, some, is_none, Bool-cases}
use prompt_studio_backend.Core.Errors.{not_found_error, authorization_error}
use prompt_studio_backend.Core.Roles.{ProjectRole, at_least}
use prompt_studio_backend.Projects.Access.{
  ProjectAccess, load_project, bound, bind_member, find_membership, grant_access, resolve_access,
}
use prompt_studio_backend.Projects.Access.Decision.{visible_project, membership_row}
use prompt_studio_backend.Store.{User, ProjectMember, World}
use prompt_studio_backend.Store.Action.{Result, or_raise, raise_if, when}
use prompt_studio_backend.Store.Frames.{continue-then, or_raise-holds}
use prompt_studio_backend.Store.Rows.{update_member}
use prompt_studio_backend.Core.ErrorMessage

-- The world after the row is bound.
abbrev pub after_binding : User → ProjectMember → World → World
after_binding user row w =
    let written = update_member row.id (bound user w.now) w in
    record written { committed = written.db }

module _ (P : World → Type 0)
    (binding : (user : User) (row : ProjectMember) (w : World)
      → P w
      → P (after_binding user row w)) where
  bind_member-holds :
      (user : User) (found : Option ProjectMember) (w : World)
      → P w
      → P (bind_member user found w).1
  unfolding bind_member
  bind_member-holds user none w p = p
  bind_member-holds user (some row) w p = elim (Bool-cases (is_none row.user_id)) [
    | inl e ↦ rw (e, when) (binding user row w p)
    | inr e ↦ rw (e, when) p
  ]

  pub resolve_access-then :
      (Q : Result ProjectAccess × World → Type 0) (pid : ℕ) (user : User) (minimum : ProjectRole)
      (w : World)
      → ((r : Result ProjectAccess) (w' : World) → P w' → Q (r, w'))
      → P w
      → Q (resolve_access pid user minimum w)
  unfolding resolve_access load_project find_membership grant_access
  resolve_access-then Q pid user minimum w ends p =
      continue-then P Q ends
        (or_raise (visible_project pid w) (not_found_error ErrorMessage.project_not_found) w) _
        (or_raise-holds P (visible_project pid w) (not_found_error ErrorMessage.project_not_found) w
          p)
        λ project w1 p1.
          continue-then P Q ends (bind_member user (membership_row pid user w1) w1) _
            (bind_member-holds user (membership_row pid user w1) w1 p1)
            λ found w2 p2.
              continue-then P Q ends
                (or_raise found (not_found_error ErrorMessage.project_not_found) w2) _
                (or_raise-holds P found (not_found_error ErrorMessage.project_not_found) w2 p2)
                (λ row w3 p3.
                  continue-then P Q ends
                    (raise_if (not (at_least row.role minimum))
                      (authorization_error ErrorMessage.project_role_too_low) w3)
                    _ p3 (λ _ w4 p4. ends _ _ p4))
