-- ===== src/Projects/Members/Eviction.antt =====
-- The sockets of whoever loses a membership or is demoted (app/modules/projects/service.py, with
-- the hub of app/modules/collab/hub.py).
use mathlib.Core.Path.{subst}
use prompt_studio_backend.Prelude.{
  ℕ, ◌≡◌, sym, ap, ◌∙◌, ◌≢◌, false, not, ◌&&◌, none, some, ◌!=◌, ◌==◌, nat_beq_iff, nat_eq, holds,
  some-injective, All, first_where-holds, first_where-delete_where,
}
use prompt_studio_backend.Collab.Hub.{Hub}
use prompt_studio_backend.Collab.Hub.Eviction.{IsPlaced, disconnect_user_evicts}
use prompt_studio_backend.Collab.Rooms.{room_of}
use prompt_studio_backend.Collab.Rooms.Laws.{IsDict}
use prompt_studio_backend.Core.Roles.{ProjectRole, at_least, project_role_eq}
use prompt_studio_backend.Projects.Access.{ProjectAccess}
use prompt_studio_backend.Projects.Feed.{record_audit, add_activity}
use prompt_studio_backend.Projects.Members.{
  evict_open_sockets, with_role, finish_role, update_member_role, finish_removal, remove_member,
  finish_leaving, leave_project,
}
use prompt_studio_backend.Projects.Members.Guards.{
  member_of-then, assert_another_owner_remains-then,
}
use prompt_studio_backend.Store.{User, Project, ProjectMember, World}
use prompt_studio_backend.Store.Action.{Result, when, raise_if-then, ok, err}
use prompt_studio_backend.Store.Rows.{get_member, update_member, delete_member}

-- The rooms are a dict, and each socket is in its project's room.
abbrev pub IsPlacedHub : Hub → Type 0
IsPlacedHub h = IsDict h.rooms × ((pid : ℕ) → All (IsPlaced pid) (room_of pid h.rooms))

-- Unless the call was refused, no socket of the person is left in the project's room.
abbrev pub Evicted : {A : Type 0} → ℕ → ℕ → Result A × World → Type 0
Evicted pid uid (ok a, w) = All (λ c. c.user_id ≢ uid) (room_of pid w.hub.rooms)
Evicted pid uid (err e, w) = Unit {0}

-- And the row is not in the table any more.
abbrev pub Removed : ℕ → ℕ → ℕ → Result (Unit {0}) × World → Type 0
Removed pid uid key (ok a, w) =
    (get_member key w ≡ none) × All (λ c. c.user_id ≢ uid) (room_of pid w.hub.rooms)
Removed pid uid key (err e, w) = Unit {0}

finish_removal-Removed :
    (project : Project) (actor : User) (member : ProjectMember) (uid key : ℕ) (w : World)
    → member.user_id ≡ some uid
    → get_member key w ≡ none
    → IsPlacedHub w.hub
    → Removed project.id uid key (finish_removal project actor member w)
unfolding finish_removal add_activity record_audit evict_open_sockets
finish_removal-Removed project actor member uid key w holder gone placed =
    rw (holder, evict_open_sockets)
      (gone, disconnect_user_evicts w.now project.id uid false w.hub placed.0 (placed.1 project.id))

finish_role-Evicted :
    (project : Project) (actor : User) (member : ProjectMember) (role : ProjectRole) (uid : ℕ)
    (w : World)
    → member.user_id ≡ some uid
    → at_least role member.role ≡ false
    → IsPlacedHub w.hub
    → Evicted project.id uid (finish_role project actor member role w)
unfolding finish_role add_activity evict_open_sockets
finish_role-Evicted project actor member role uid w holder less placed =
    rw (holder, less, not, when)
      (disconnect_user_evicts w.now project.id uid false w.hub placed.0 (placed.1 project.id))

-- After `remove_member` of a row that an account holds, unless it was refused, the row is not in the
-- table and no socket of that account is left in the project's room. The rooms of the hub form a
-- dict, and its sockets stand in their projects' rooms.
pub remove_member_evicts :
    (project : Project) (actor : User) (member_id uid : ℕ) (w : World) {row : ProjectMember}
    → get_member member_id w ≡ some row
    → row.user_id ≡ some uid
    → IsPlacedHub w.hub
    → Removed project.id uid member_id (remove_member project actor member_id w)
unfolding remove_member
remove_member_evicts project actor member_id uid w {row} found holder placed =
    member_of-then (Removed project.id uid member_id) project.id member_id _ w (λ e. tt)
      λ it there _ here.
        let same : it ≡ row = some-injective (sym there ∙ found) in
        assert_another_owner_remains-then (Removed project.id uid member_id)
          (it.role == ProjectRole.owner) project.id it.id _ w (λ e. tt)
          λ enough.
            finish_removal-Removed project actor it uid member_id (delete_member it.id w)
              (ap (λ (r : ProjectMember). r.user_id) same ∙ holder)
              (subst (λ key. get_member member_id (delete_member key w) ≡ none)
                (sym (
                  (nat_beq_iff it.id member_id).0
                    (first_where-holds (λ (r : ProjectMember). r.id == member_id) w.members there)))
                (first_where-delete_where (λ (r : ProjectMember). r.id == member_id) w.members))
              placed

-- After `update_member_role` takes rank from a row that an account holds, unless it was refused, no
-- socket of that account is left in the project's room, so none goes on with the old role.
pub demotion_evicts :
    (project : Project) (actor : User) (member_id uid : ℕ) (role : ProjectRole) (w : World)
    {row : ProjectMember}
    → get_member member_id w ≡ some row
    → row.user_id ≡ some uid
    → at_least role row.role ≡ false
    → IsPlacedHub w.hub
    → Evicted project.id uid (update_member_role project actor member_id role w)
unfolding update_member_role
demotion_evicts project actor member_id uid role w {row} found holder less placed =
    member_of-then (Evicted project.id uid) project.id member_id _ w (λ e. tt)
      λ it there _ here.
        let same : it ≡ row = some-injective (sym there ∙ found) in
        raise_if-then (Evicted project.id uid) (holds it.user_id actor.id) _ _ w tt λ _.
          assert_another_owner_remains-then (Evicted project.id uid)
            (it.role == ProjectRole.owner && role != ProjectRole.owner) project.id it.id _ w
            (λ e. tt)
            λ enough.
              finish_role-Evicted project actor it role uid (update_member it.id (with_role role) w)
                (ap (λ (r : ProjectMember). r.user_id) same ∙ holder)
                (ap (λ (r : ProjectMember). at_least role r.role) same ∙ less) placed

-- After `leave_project`, unless it was refused, no socket of the person who left is in its room.
pub leave_project_evicts :
    (access : ProjectAccess) (user : User) (w : World)
    → IsPlacedHub w.hub
    → Evicted access.project.id user.id (leave_project access user w)
unfolding leave_project finish_leaving add_activity evict_open_sockets
leave_project_evicts access user w placed =
    assert_another_owner_remains-then (Evicted access.project.id user.id)
      (access.role == ProjectRole.owner) access.project.id access.member.id _ w (λ e. tt)
      λ enough.
        disconnect_user_evicts w.now access.project.id user.id false w.hub placed.0
          (placed.1 access.project.id)
