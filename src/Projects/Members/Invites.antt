-- ===== src/Projects/Members/Invites.antt =====
-- What an invitation writes (`invite_member` of app/modules/projects/service.py).
use prompt_studio_backend.Prelude.{
  ℕ, ◌+◌, String, ◌≡◌, refl, ap, ◌∙◌, false, Option, none, some, arith, ◌==◌, nat_eq, first_where,
  count_where, All-map, first_where-only, count_where-le-update_where, count_where-spared,
  first_where-by_key,
}
use prompt_studio_backend.Core.Roles.{ProjectRole}
use prompt_studio_backend.Core.Text.{normalise_email}
use prompt_studio_backend.Projects.Feed.{record_audit, add_activity}
use prompt_studio_backend.Projects.Members.{
  get_by_email, at_address, member_by_email, is_live, is_on_it, claimed, invited, new_member,
  write_invite, announce_invite, invite_member, is_usable_owner,
}
use prompt_studio_backend.Projects.Members.Owners.{KeepsOwners, KeepsOwners-beside}
use prompt_studio_backend.Projects.Members.Sound.{
  IsSound, IsBeside, IsSound-update_member, IsSound-add_member,
}
use prompt_studio_backend.Projects.Members.Steps.{refused-KeepsOwners, Kept}
use prompt_studio_backend.Store.{User, Project, ProjectMember, World}
use prompt_studio_backend.Store.Action.{Action, ◌>>=◌, raise_if-then}
use prompt_studio_backend.Store.Rows.{update_member, add_member}

-- The row of a revoked member is no owner's, so that writing it again costs none.
KeepsOwners-revoked :
    (pid : ℕ) (email : String) (f : ProjectMember → ProjectMember) (w : World) {row : ProjectMember}
    → ((r : ProjectMember) → (f r).id ≡ r.id)
    → first_where (at_address pid email) w.members ≡ some row
    → is_live row ≡ false
    → IsSound w
    → KeepsOwners w (update_member row.id f w)
KeepsOwners-revoked pid email f w {row} same found revoked sound = (
  IsSound-update_member row.id f w same sound,
  λ p h. omega (
    arith,
    h,
    count_where-le-update_where (is_usable_owner p) (λ (r : ProjectMember). r.id == row.id) f
        w.members,
    count_where-spared (is_usable_owner p) (λ (r : ProjectMember). r.id == row.id) w.members
        (All-map _ _ w.members (λ r only k. ap (is_usable_owner p) (only k) ∙ ground arith)
          (first_where-only (λ (r : ProjectMember). r.id == row.id) w.members (sound.0 row.id)
            (first_where-by_key (at_address pid email) (λ (r : ProjectMember). r.id) w.members
              (sound.0 row.id) found))),
  ),
)

KeepsOwners-add_member :
    (row : ProjectMember) (w : World)
    → row.id ≡ w.next_id
    → IsSound w
    → KeepsOwners w (add_member row (record w { next_id = w.next_id + 1 }))
unfolding count_where
KeepsOwners-add_member row w e sound = (IsSound-add_member row w e sound, λ pid h. ground arith)

-- An invitation's row is written, and what follows is beside the table.
module _ {A : Type 0} where
  write_invite-KeepsOwners :
      (existing : Option ProjectMember) (pid : ℕ) (email : String)
      (f : ProjectMember → ProjectMember) (k : ProjectMember → Action A) (w : World)
      → first_where (at_address pid email) w.members ≡ existing
      → is_on_it existing ≡ false
      → ((r : ProjectMember) → (f r).id ≡ r.id)
      → ((r : ProjectMember) (v : World) → IsBeside v (k r v).1)
      → IsSound w
      → KeepsOwners w ((write_invite existing pid email f >>= k) w).1
  unfolding write_invite
  write_invite-KeepsOwners none pid email f k w found off same beside sound =
      let row = f (new_member w.next_id pid email) in
      let w' = add_member row (record w { next_id = w.next_id + 1 }) in
      KeepsOwners-beside w w' (k row w').1 (beside row w')
        (KeepsOwners-add_member row w (same (new_member w.next_id pid email)) sound)
  write_invite-KeepsOwners (some row) pid email f k w found off same beside sound =
      let w' = update_member row.id f w in
      KeepsOwners-beside w w' (k (f row) w').1 (beside (f row) w')
        (KeepsOwners-revoked pid email f w same found off sound)

pub invite_member-KeepsOwners :
    (create_invite_token : ℕ → String → String) (project : Project) (actor : User) (email : String)
    (role : ProjectRole) (w : World)
    → IsSound w
    → KeepsOwners w (invite_member create_invite_token project actor email role w).1
unfolding invite_member announce_invite add_activity record_audit member_by_email
invite_member-KeepsOwners create_invite_token project actor email role w sound =
    let address = normalise_email email in
    let account = get_by_email address w in
    raise_if-then (Kept w) (is_on_it (member_by_email project.id address w)) _ _ w
      (refused-KeepsOwners w sound)
      λ off.
        write_invite-KeepsOwners (member_by_email project.id address w) project.id address
          (invited role actor w.now (claimed account)) _ w refl off (λ r. refl)
          (λ r v. (refl, omega arith)) sound
