-- ===== src/Projects/Members/Guards.antt =====
-- The checks that come before a membership row is changed (app/modules/projects/service.py).
use mathlib.Core.Path.{subst}
use prompt_studio_backend.Prelude.{
  ℕ, ◌≤◌, ◌≡◌, refl, sym, ◌⊎◌, inl, inr, Bool, true, false, some, [], arith, ◌==◌, nat_beq_iff,
  nat_eq, Bool-cases, Option-cases, count_where, first_where-holds,
}
use prompt_studio_backend.Core.Errors.{AppError, not_found_error, conflict_error}
use prompt_studio_backend.Projects.Members.{
  is_another_owner, assert_another_owner_remains, member_of,
}
use prompt_studio_backend.Store.{ProjectMember, World}
use prompt_studio_backend.Store.Action.{
  Result, Action, ◌>>=◌, ◌>>◌, bind-from, then-from, when, ok, err,
}
use prompt_studio_backend.Store.Rows.{get_member}
use prompt_studio_backend.Core.ErrorMessage

-- A row of the project, found by its id; or a refusal.
pub member_of-cases :
    (pid member_id : ℕ) (w : World)
    → ((row : ProjectMember) × (get_member member_id w ≡ some row)
        × (get_member row.id w ≡ some row)
        × (row.project_id ≡ pid)
        × (member_of pid member_id w ≡ (ok row, w)))
      ⊎ ((e : AppError) × (member_of pid member_id w ≡ (err e, w)))
unfolding member_of
member_of-cases pid member_id w = elim (Option-cases (get_member member_id w)) [
  | inl absent ↦ inr (not_found_error ErrorMessage.member_not_found, rw absent refl)
  | inr (row, found) ↦ elim (Bool-cases (row.project_id == pid)) [
    | inl e ↦ inl (
      row,
      found,
      subst (λ key. get_member key w ≡ some row)
          (sym (
            (nat_beq_iff row.id member_id).0
              (first_where-holds (λ (r : ProjectMember). r.id == member_id) w.members found)))
          found,
      (nat_beq_iff row.project_id pid).0 e,
      rw (found, e) refl,
    )
    | inr e ↦ inr (not_found_error ErrorMessage.member_not_found, rw (found, e) refl)
  ]
]

-- The check for another owner, when it is made.
pub assert_another_owner_remains-cases :
    (b : Bool) (pid excluding : ℕ) (w : World)
    → ((b ≡ true → 1 ≤ count_where (is_another_owner pid excluding) w.members)
        × (when b (assert_another_owner_remains pid excluding) w ≡ (ok tt, w)))
      ⊎ ((e : AppError) × (when b (assert_another_owner_remains pid excluding) w ≡ (err e, w)))
unfolding assert_another_owner_remains
assert_another_owner_remains-cases false pid excluding w = inl (λ k. cc, refl)
assert_another_owner_remains-cases true pid excluding w =
    elim (Bool-cases (count_where (is_another_owner pid excluding) w.members == 0)) [
      | inl e ↦ inr (conflict_error ErrorMessage.cannot_remove_last_owner [], rw e refl)
      | inr e ↦ inl (λ _. ground arith, rw e refl)
    ]

-- What an operation that begins with a check satisfies: its refusals do, and what is after them.
module _ {A : Type 0} (P : Result A × World → Type 0) where
  pub member_of-then :
      (pid member_id : ℕ) (k : ProjectMember → Action A) (w : World)
      → ((e : AppError) → P (err e, w))
      → ((row : ProjectMember)
          → get_member member_id w ≡ some row
          → get_member row.id w ≡ some row
          → row.project_id ≡ pid
          → P (k row w))
      → P ((member_of pid member_id >>= k) w)
  member_of-then pid member_id k w refused h = elim (member_of-cases pid member_id w) [
    | inr (e, absent) ↦ bind-from P (member_of pid member_id) k w absent (refused e)
    | inl (row, there, found, here, is) ↦
        bind-from P (member_of pid member_id) k w is (h row there found here)
  ]

  pub assert_another_owner_remains-then :
      (b : Bool) (pid excluding : ℕ) (k : Action A) (w : World)
      → ((e : AppError) → P (err e, w))
      → ((b ≡ true → 1 ≤ count_where (is_another_owner pid excluding) w.members) → P (k w))
      → P ((when b (assert_another_owner_remains pid excluding) >> k) w)
  assert_another_owner_remains-then b pid excluding k w refused h =
      let check = when b (assert_another_owner_remains pid excluding) in
      elim (assert_another_owner_remains-cases b pid excluding w) [
        | inr (e, raised) ↦ then-from P check k w raised (refused e)
        | inl (enough, passed) ↦ then-from P check k w passed (h enough)
      ]
