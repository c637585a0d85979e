-- ===== src/Tests/Members.antt =====
-- The sample project's members: a removal, a demotion and a departure.
use prompt_studio_backend.Prelude.{
  ℕ, ◌≡◌, refl, inl, inr, arith, if◌then◌else◌, ◌==◌, nat_beq_iff, nat_eq, Bool-cases, first_where,
  count_where, All,
}
use prompt_studio_backend.Collab.Hub.Eviction.{IsPlaced}
use prompt_studio_backend.Collab.Rooms.{room_of}
use prompt_studio_backend.Core.Roles.{ProjectRole, at_least}
use prompt_studio_backend.Projects.Members.{update_member_role, remove_member, leave_project}
use prompt_studio_backend.Projects.Members.Eviction.{
  IsPlacedHub, Evicted, Removed, remove_member_evicts, demotion_evicts, leave_project_evicts,
}
use prompt_studio_backend.Projects.Members.Owners.{KeepsOwners}
use prompt_studio_backend.Projects.Members.Reach.{
  MemberStep, MemberSteps, MemberSteps-KeepsOwners, step,
}
use prompt_studio_backend.Projects.Members.Sound.{IsSound}
use prompt_studio_backend.Store.{World}
use prompt_studio_backend.Tests.Samples.{owner, editor, board, some_hub, some_world, editor_access}

pub some_world-IsSound : IsSound some_world
unfolding count_where
some_world-IsSound = (λ key. ground arith, (omega arith, (omega arith, (omega arith, tt))))

-- The owner removes the editor, and then tries to remove the last owner.
after_removal : World
after_removal = (remove_member board owner 21 some_world).1

after_both : World
after_both = (remove_member board owner 20 after_removal).1

MemberSteps-KeepsOwners_example : KeepsOwners some_world after_both
unfolding after_removal after_both
MemberSteps-KeepsOwners_example =
    MemberSteps-KeepsOwners some_world after_both
      (MemberSteps.step some_world after_removal after_both
        (MemberStep.removes board owner 21 some_world)
        (step after_removal after_both after_both (MemberStep.removes board owner 20 after_removal)
          (MemberSteps.done after_both)))
      some_world-IsSound

some_hub-IsPlacedHub : IsPlacedHub some_hub
unfolding room_of
some_hub-IsPlacedHub = ((λ e. cc, tt, tt), λ pid. placed pid)
  where
    placed : (pid : ℕ) → All (IsPlaced pid) (room_of pid some_hub.rooms)
    placed pid = elim (Bool-cases (10 == pid)) [
      | inl e ↦
          let same : 10 ≡ pid = (nat_beq_iff 10 pid).0 e in
          rw (e, if◌then◌else◌) (same, (same, (same, tt)))
      | inr e ↦ rw (e, if◌then◌else◌) tt
    ]

remove_member_evicts_example : Removed 10 2 21 (remove_member board owner 21 some_world)
unfolding first_where
remove_member_evicts_example =
    remove_member_evicts board owner 21 2 some_world refl refl some_hub-IsPlacedHub

demotion_evicts_example :
    Evicted 10 2 (update_member_role board owner 21 ProjectRole.viewer some_world)
unfolding first_where at_least
demotion_evicts_example =
    demotion_evicts board owner 21 2 ProjectRole.viewer some_world refl refl refl
      some_hub-IsPlacedHub

leaving_owner-evicts : Evicted 10 2 (leave_project editor_access editor some_world)
leaving_owner-evicts = leave_project_evicts editor_access editor some_world some_hub-IsPlacedHub
