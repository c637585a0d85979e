-- ===== src/Projects/Members/Owners.antt =====
-- The owners of a project under the operations on its members (app/modules/projects/service.py).
use mathlib.Core.Path.{subst}
use prompt_studio_backend.Prelude.{
  ℕ, ◌≤◌, String, ◌≡◌, refl, ap, ◌∙◌, ◌≢◌, inl, inr, Bool, true, false, not, Option, none, some,
  List, arith, ◌==◌, nat_eq, Bool-cases, first_where, count_where, All-map,
  count_where-delete_where, first_where-only, count_where-le-update_where, count_where-spared,
  count_where-grows,
}
use prompt_studio_backend.Core.Roles.{
  ProjectRole, ActivityType, at_least, project_role_number_iff, project_role_eq,
}
use prompt_studio_backend.Projects.Feed.{record_audit, add_activity}
use prompt_studio_backend.Projects.Members.{
  evict_open_sockets, is_usable_owner, is_another_owner, with_role, finish_role, finish_removal,
  finish_leaving,
}
use prompt_studio_backend.Projects.Members.Sound.{
  IsSound, IsBeside, IsSound-beside, IsSound-delete_member, IsSound-update_member,
}
use prompt_studio_backend.Store.{User, Project, ProjectMember, World}
use prompt_studio_backend.Store.Action.{Result, pure, continue, when, ok, err}
use prompt_studio_backend.Store.Rows.{get_member, update_member, delete_member}

abbrev pub IsOwned : ℕ → World → Type 0
IsOwned pid w = 1 ≤ count_where (is_usable_owner pid) w.members

-- What a membership operation keeps.
abbrev pub KeepsOwners : World → World → Type 0
KeepsOwners w w' = IsSound w' × ((pid : ℕ) → IsOwned pid w → IsOwned pid w')

-- An operation's end that is beside the membership table.
pub KeepsOwners-beside : (w w' w'' : World) → IsBeside w' w'' → KeepsOwners w w' → KeepsOwners w w''
KeepsOwners-beside w w' w'' beside (sound, kept) =
    (IsSound-beside w' w'' beside sound, λ pid h. rw beside.0 (kept pid h))

-- If the row that is found is not the only usable owner, another one is there.
another_owner :
    (pid key : ℕ) (rows : List ProjectMember) {row : ProjectMember}
    → count_where (λ r. r.id == key) rows ≤ 1
    → first_where (λ r. r.id == key) rows ≡ some row
    → (is_usable_owner pid row ≡ true → 1 ≤ count_where (is_another_owner pid key) rows)
    → 1 ≤ count_where (is_usable_owner pid) rows
    → 1 ≤ count_where (is_another_owner pid key) rows
another_owner pid key rows {row} unique found h owned =
    elim (Bool-cases (is_usable_owner pid row)) [
      | inl e ↦ h e
      | inr e ↦ omega (
        arith,
        count_where-spared (is_usable_owner pid) (λ r. r.id == key) rows
            (All-map _ _ rows (λ r only k. ap (is_usable_owner pid) (only k) ∙ e)
              (first_where-only (λ r. r.id == key) rows unique found)),
      )
    ]

pub KeepsOwners-delete_member :
    (key : ℕ) (w : World) {row : ProjectMember}
    → get_member key w ≡ some row
    → (row.role ≡ ProjectRole.owner
        → 1 ≤ count_where (is_another_owner row.project_id key) w.members)
    → IsSound w
    → KeepsOwners w (delete_member key w)
KeepsOwners-delete_member key w {row} found enough sound = (
  IsSound-delete_member key w sound,
  λ pid owned. rw (count_where-delete_where (is_usable_owner pid) (λ r. r.id == key) w.members) (
      another_owner pid key w.members (sound.0 key) found
        (λ e.
          subst (λ p. 1 ≤ count_where (is_another_owner p key) w.members) (ground arith)
            (enough (ground (arith, project_role_number_iff row.role ProjectRole.owner))))
        owned),
)

-- A role is changed, and an owner's is taken away only with another one there.
pub KeepsOwners-with_role :
    (key : ℕ) (role : ProjectRole) (w : World) {row : ProjectMember}
    → get_member key w ≡ some row
    → (row.role ≡ ProjectRole.owner
        → role ≢ ProjectRole.owner
        → 1 ≤ count_where (is_another_owner row.project_id key) w.members)
    → IsSound w
    → KeepsOwners w (update_member key (with_role role) w)
KeepsOwners-with_role key role w {row} found enough sound = (
  IsSound-update_member key (with_role role) w (λ r. refl) sound,
  λ pid owned. elim (Bool-cases (role == ProjectRole.owner)) [
    | inl e ↦ omega (
      arith,
      owned,
      count_where-grows (is_usable_owner pid) (λ r. r.id == key) (with_role role) w.members
          (λ r h. ground arith),
    )
    | inr e ↦
        let other =
          another_owner pid key w.members (sound.0 key) found
            (λ k.
              subst (λ p. 1 ≤ count_where (is_another_owner p key) w.members) (ground arith)
                (enough (ground (arith, project_role_number_iff row.role ProjectRole.owner))
                  (λ o. ground (arith, project_role_number_iff role ProjectRole.owner))))
            owned in
        omega (
          arith,
          other,
          count_where-le-update_where (is_usable_owner pid) (λ r. r.id == key) (with_role role)
              w.members,
        )
  ],
)

pub add_activity-IsBeside :
    (project : Project) (actor : Option User) (kind : ActivityType) (summary : String)
    (meta : List (String × ℕ)) (w : World)
    → IsBeside w (add_activity project actor kind summary meta w).1
unfolding add_activity
add_activity-IsBeside project actor kind summary meta w = (refl, omega arith)

pub evict-IsBeside :
    (pid : ℕ) (uid : Option ℕ) (w w' : World)
    → IsBeside w w'
    → IsBeside w (evict_open_sockets pid uid w').1
unfolding evict_open_sockets
evict-IsBeside pid none w w' h = h
evict-IsBeside pid (some uid) w w' h = h

pub finish_removal-IsBeside :
    (project : Project) (actor : User) (member : ProjectMember) (w : World)
    → IsBeside w (finish_removal project actor member w).1
unfolding finish_removal add_activity record_audit
finish_removal-IsBeside project actor member w =
    evict-IsBeside project.id member.user_id w _ (refl, omega arith)

when-evict-IsBeside :
    (b : Bool) (pid : ℕ) (uid : Option ℕ) (w w' : World)
    → IsBeside w w'
    → IsBeside w (when b (evict_open_sockets pid uid) w').1
when-evict-IsBeside true pid uid w w' h = evict-IsBeside pid uid w w' h
when-evict-IsBeside false pid uid w w' h = h

then-pure-IsBeside :
    {A B : Type 0} (w : World) (r : Result A × World) (b : B)
    → IsBeside w r.1
    → IsBeside w (continue r (λ _. pure b)).1
then-pure-IsBeside w (ok a, w') b h = h
then-pure-IsBeside w (err e, w') b h = h

pub finish_role-IsBeside :
    (project : Project) (actor : User) (member : ProjectMember) (role : ProjectRole) (w : World)
    → IsBeside w (finish_role project actor member role w).1
unfolding finish_role add_activity
finish_role-IsBeside project actor member role w = then-pure-IsBeside w _ (with_role role member) (
    when-evict-IsBeside (not (at_least role member.role)) project.id member.user_id w _
      (refl, omega arith))

pub finish_leaving-IsBeside :
    (project : Project) (user : User) (w : World) → IsBeside w (finish_leaving project user w).1
unfolding finish_leaving add_activity
finish_leaving-IsBeside project user w =
    evict-IsBeside project.id (some user.id) w _ (refl, omega arith)
