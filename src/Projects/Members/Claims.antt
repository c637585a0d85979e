-- ===== src/Projects/Members/Claims.antt =====
-- Opening a project, and claiming an address's invitations, under the invariant on owners
-- (`mark_opened` and `claim_invites` of app/modules/projects/service.py).
use prompt_studio_backend.Prelude.{
  ℕ, ◌≡◌, refl, true, Option, none, some, List, [], ◌∷◌, arith, ◌==◌, nat_eq, length, select_where,
  count_where-grows,
}
use prompt_studio_backend.Core.Roles.{ActivityType}
use prompt_studio_backend.Core.Text.{format}
use prompt_studio_backend.Projects.Access.{ProjectAccess}
use prompt_studio_backend.Projects.Feed.{add_activity}
use prompt_studio_backend.Projects.Members.{
  is_usable_owner, claimed_by, is_pending, note_joined, claim_rows, claim_invites, mark_opened,
}
use prompt_studio_backend.Projects.Members.Owners.{KeepsOwners, KeepsOwners-beside}
use prompt_studio_backend.Projects.Members.Sound.{IsSound, IsSound-update_member}
use prompt_studio_backend.Projects.Members.Steps.{refused-KeepsOwners}
use prompt_studio_backend.Store.{User, Project, ProjectMember, World}
use prompt_studio_backend.Store.Action.{Result, Action, pure, continue, ◌>>◌, ok, err}
use prompt_studio_backend.Store.Rows.{update_member}

-- A write after which every usable owner is one still.
pub KeepsOwners-grows :
    (key : ℕ) (f : ProjectMember → ProjectMember) (w : World)
    → ((r : ProjectMember) → (f r).id ≡ r.id)
    → ((pid : ℕ) (r : ProjectMember)
        → is_usable_owner pid r ≡ true
        → is_usable_owner pid (f r) ≡ true)
    → IsSound w
    → KeepsOwners w (update_member key f w)
KeepsOwners-grows key f w same usable sound = (
  IsSound-update_member key f w same sound,
  λ pid h. omega (
    arith,
    h,
    count_where-grows (is_usable_owner pid) (λ r. r.id == key) f w.members (usable pid),
  ),
)

pub KeepsOwners-trans :
    (w w' w'' : World) → KeepsOwners w w' → KeepsOwners w' w'' → KeepsOwners w w''
KeepsOwners-trans w w' w'' a b = (b.0, λ pid h. b.1 pid (a.1 pid h))

pub mark_opened-KeepsOwners :
    (access : ProjectAccess) (w : World) → IsSound w → KeepsOwners w (mark_opened access w).1
unfolding mark_opened
mark_opened-KeepsOwners access w sound =
    KeepsOwners-grows access.member.id (λ r. record r { last_opened_at = some w.now }) w (λ r. refl)
      (λ pid r h. h) sound

-- One round of the claiming loop.
note_joined-KeepsOwners :
    (user : User) (project : Option Project) (k : Action (Unit {0})) (w w' : World)
    → KeepsOwners w w'
    → ((v : World) → IsSound v → KeepsOwners v (k v).1)
    → KeepsOwners w ((note_joined user project >> k) w').1
unfolding note_joined add_activity
note_joined-KeepsOwners user none k w w' h rest = KeepsOwners-trans w w' (k w').1 h (rest w' h.0)
note_joined-KeepsOwners user (some project) k w w' h rest =
    let after =
      (add_activity project (some user) ActivityType.member_joined
        (format (user.email ∷ " joined the project" ∷ [])) [] w').1 in
    let beside = KeepsOwners-beside w w' after (refl, omega arith) h in
    KeepsOwners-trans w after (k after).1 beside (rest after beside.0)

claim_rows-KeepsOwners :
    (user : User) (pending : List ProjectMember) (w : World)
    → IsSound w
    → KeepsOwners w (claim_rows user pending w).1
unfolding claim_rows
claim_rows-KeepsOwners user [] w sound = refused-KeepsOwners w sound
claim_rows-KeepsOwners user (row ∷ pending) w sound =
    note_joined-KeepsOwners user _ (claim_rows user pending) w
      (update_member row.id (claimed_by user w.now) w)
      (KeepsOwners-grows row.id (claimed_by user w.now) w (λ r. refl) (λ pid r h. ground arith)
        sound)
      (claim_rows-KeepsOwners user pending)

pub claim_invites-KeepsOwners :
    (user : User) (w : World) → IsSound w → KeepsOwners w (claim_invites user w).1
unfolding claim_invites
claim_invites-KeepsOwners user w sound =
    after-pure _ (length (select_where (is_pending user) w.members)) w
      (claim_rows-KeepsOwners user (select_where (is_pending user) w.members) w sound)
  where
    after-pure :
        {A B : Type 0} (r : Result A × World) (b : B) (w : World)
        → KeepsOwners w r.1
        → KeepsOwners w (continue r (λ _. pure b)).1
    after-pure (ok a, w') b w h = h
    after-pure (err e, w') b w h = h
