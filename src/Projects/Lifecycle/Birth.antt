-- ===== src/Projects/Lifecycle/Birth.antt =====
-- Whom a new project belongs to (`create_project` of app/modules/projects/service.py).
use prompt_studio_backend.Prelude.{
  ℕ, ◌+◌, String, refl, inl, inr, Bool, true, false, not, List, [], ◌∷◌, arith, if◌then◌else◌, ◌==◌,
  nat_eq, string_eq, Bool-cases, count_where, any_where,
}
use prompt_studio_backend.Core.Roles.{ProjectRole}
use prompt_studio_backend.Core.Text.{normalise_email}
use prompt_studio_backend.Projects.Documents.{reload}
use prompt_studio_backend.Projects.Feed.{record_audit, add_activity}
use prompt_studio_backend.Projects.Lifecycle.{
  ProjectCreate, new_project, creator_row, skip_conflict, invite_or_skip, invite_all, start_project,
  create_project,
}
use prompt_studio_backend.Projects.Members.{invite_member}
use prompt_studio_backend.Projects.Members.Claims.{KeepsOwners-trans}
use prompt_studio_backend.Projects.Members.Invites.{invite_member-KeepsOwners}
use prompt_studio_backend.Projects.Members.Owners.{IsOwned, KeepsOwners}
use prompt_studio_backend.Projects.Members.Sound.{IsSound, IsSound-beside, IsSound-add_member}
use prompt_studio_backend.Projects.Members.Steps.{refused-KeepsOwners}
use prompt_studio_backend.Store.{User, Project, ProjectMember, World}
use prompt_studio_backend.Store.Action.{Result, Action, gets, continue, ◌>>◌, when, ok, err}
use prompt_studio_backend.Store.Rows.{add_member}

-- An invitation that is skipped over, and the rest of the loop.
skip_conflict-KeepsOwners :
    (r : Result ProjectMember × World) (k : Action (Unit {0})) (w : World)
    → KeepsOwners w r.1
    → ((v : World) → IsSound v → KeepsOwners v (k v).1)
    → KeepsOwners w (continue (skip_conflict r) (λ _. k)).1
skip_conflict-KeepsOwners (ok row, v) k w h rest = KeepsOwners-trans w v (k v).1 h (rest v h.0)
skip_conflict-KeepsOwners (err e, v) k w h rest = elim (Bool-cases (e.status_code == 409)) [
  | inl c ↦ rw (c, if◌then◌else◌) (KeepsOwners-trans w v (k v).1 h (rest v h.0))
  | inr c ↦ rw (c, if◌then◌else◌) h
]

invited-KeepsOwners :
    (b : Bool) (create_invite_token : ℕ → String → String) (project : Project) (user : User)
    (address : String) (k : Action (Unit {0})) (w : World)
    → IsSound w
    → ((v : World) → IsSound v → KeepsOwners v (k v).1)
    → KeepsOwners w ((when b (invite_or_skip create_invite_token project user address) >> k) w).1
invited-KeepsOwners true create_invite_token project user address k w sound rest =
    skip_conflict-KeepsOwners
      (invite_member create_invite_token project user address ProjectRole.editor w) k w
      (invite_member-KeepsOwners create_invite_token project user address ProjectRole.editor w
        sound)
      rest
invited-KeepsOwners false create_invite_token project user address k w sound rest = rest w sound

invite_all-KeepsOwners :
    (create_invite_token : ℕ → String → String) (project : Project) (user : User)
    (emails seen : List String) (w : World)
    → IsSound w
    → KeepsOwners w (invite_all create_invite_token project user seen emails w).1
unfolding invite_all
invite_all-KeepsOwners create_invite_token project user [] seen w sound =
    refused-KeepsOwners w sound
invite_all-KeepsOwners create_invite_token project user (email ∷ emails) seen w sound =
    invited-KeepsOwners (not (any_where (λ s. s == normalise_email email) seen)) create_invite_token
      project user (normalise_email email)
      (invite_all create_invite_token project user (normalise_email email ∷ seen) emails) w sound
      (invite_all-KeepsOwners create_invite_token project user emails
        (normalise_email email ∷ seen))

-- The world after the project is committed, before the first invitation.
start_project-IsSound :
    (user : User) (body : ProjectCreate) (w : World)
    → IsSound w
    → IsSound (start_project user body w).1
unfolding start_project add_activity record_audit
start_project-IsSound user body w sound =
    let w' = record w { next_id = w.next_id + 1 } in
    let row = creator_row w'.next_id w.next_id user w.now in
    IsSound-beside (add_member row (record w' { next_id = w'.next_id + 1 }))
      (start_project user body w).1 (refl, omega arith)
      (IsSound-add_member row w' refl (IsSound-beside w w' (refl, omega arith) sound))

start_project-IsOwned :
    (user : User) (body : ProjectCreate) (w : World)
    → IsOwned w.next_id (start_project user body w).1
unfolding start_project add_activity record_audit count_where
start_project-IsOwned user body w = ground arith

after-gets :
    {A : Type 0} (pid : ℕ) (f : World → A) (r : Result (Unit {0}) × World)
    → IsOwned pid r.1
    → IsOwned pid (continue r (λ _. gets f)).1
after-gets pid f (ok a, w) h = h
after-gets pid f (err e, w) h = h

-- Once `create_project` is done, the new project has an owner whose row an account holds, whatever
-- addresses it was shared with on the way, and whatever came of those invitations.
pub create_project_has_owner :
    (create_invite_token : ℕ → String → String) (user : User) (body : ProjectCreate) (w : World)
    → IsSound w
    → IsOwned w.next_id (create_project create_invite_token user body w).1
unfolding create_project start_project add_activity record_audit
create_project_has_owner create_invite_token user body w sound =
    let started = start_project user body w in
    let project = new_project w.next_id user body w.now in
    after-gets w.next_id (reload project)
      (invite_all create_invite_token project user (user.email ∷ []) body.member_emails started.1)
      ((invite_all-KeepsOwners create_invite_token project user body.member_emails (user.email ∷ [])
          started.1 (start_project-IsSound user body w sound)).1
        w.next_id (start_project-IsOwned user body w))
