-- ===== src/Admin/Guards.antt =====
-- The checks that come before an account is deleted.
use prompt_studio_backend.Prelude.{
  ℕ, ◌≤◌, ◌≡◌, refl, ◌≢◌, ◌⊎◌, inl, inr, Bool, true, false, not, ◌&&◌, ◌||◌, some, [], arith, ◌==◌,
  nat_beq_iff, nat_eq, Bool-cases, Option-cases, count_where, first_where-holds,
}
use prompt_studio_backend.Admin.{
  load_user, is_superadmin, is_privileged, assert_may_manage, is_another_superadmin,
  assert_another_superadmin_remains, deleted_user, finish_deletion, delete_user,
}
use prompt_studio_backend.Core.Errors.{AppError, not_found_error, conflict_error}
use prompt_studio_backend.Core.Roles.{GlobalRole, global_role_eq}
use prompt_studio_backend.Store.{User, World}
use prompt_studio_backend.Store.Action.{Result, bind-from, then-from, when, raise_if-then, ok, err}
use prompt_studio_backend.Store.Rows.{get_user, update_user}
use prompt_studio_backend.Core.ErrorMessage

-- A live account, found by its id; or a refusal.
pub load_user-cases :
    (user_id : ℕ) (w : World)
    → ((user : User) × (get_user user_id w ≡ some user)
        × (user.id ≡ user_id)
        × (user.is_deleted ≡ false)
        × (load_user user_id w ≡ (ok user, w)))
      ⊎ ((e : AppError) × (load_user user_id w ≡ (err e, w)))
unfolding load_user
load_user-cases user_id w = elim (Option-cases (get_user user_id w)) [
  | inl absent ↦ inr (not_found_error ErrorMessage.user_not_found_or_inactive, rw absent refl)
  | inr (user, found) ↦ elim (Bool-cases user.is_deleted) [
    | inl e ↦ inr (not_found_error ErrorMessage.user_not_found_or_inactive, rw (found, e) refl)
    | inr e ↦ inl (
      user,
      found,
      (nat_beq_iff user.id user_id).0
          (first_where-holds (λ (r : User). r.id == user_id) w.users found),
      e,
      rw (found, e) refl,
    )
  ]
]

-- The check for another superadmin, when it is made.
pub assert_another_superadmin_remains-cases :
    (b : Bool) (excluding : ℕ) (w : World)
    → ((b ≡ true → 1 ≤ count_where (is_another_superadmin excluding) w.users)
        × (when b (assert_another_superadmin_remains excluding) w ≡ (ok tt, w)))
      ⊎ ((e : AppError) × (when b (assert_another_superadmin_remains excluding) w ≡ (err e, w)))
unfolding assert_another_superadmin_remains
assert_another_superadmin_remains-cases false excluding w = inl (λ k. cc, refl)
assert_another_superadmin_remains-cases true excluding w =
    elim (Bool-cases (count_where (is_another_superadmin excluding) w.users == 0)) [
      | inl e ↦ inr (conflict_error ErrorMessage.cannot_demote_last_superadmin [], rw e refl)
      | inr e ↦ inl (λ _. ground arith, rw e refl)
    ]

other_ids : (a b : ℕ) → (a == b) ≡ false → a ≢ b
other_ids a b e same = ground (arith, (nat_beq_iff a b).1 same)

rank_needed :
    (self privileged ranked : Bool)
    → (not self && privileged && not ranked) ≡ false
    → self ≡ false
    → privileged ≡ true
    → ranked ≡ true
rank_needed self privileged ranked h e p = ground arith

or-swap : (a b : Bool) → (a || b) ≡ true → (b || a) ≡ true
or-swap a b h = ground arith

-- What the deletion satisfies: its refusals do, and what is after all its checks.
module _ (P : Result (Unit {0}) × World → Type 0) where
  pub delete_user-then :
      (actor : User) (user_id : ℕ) (w : World)
      → ((e : AppError) → P (err e, w))
      → ((user : User)
          → get_user user_id w ≡ some user
          → user.id ≡ user_id
          → user.id ≢ actor.id
          → (is_privileged user ≡ true → is_superadmin actor ≡ true)
          → (is_superadmin user ≡ true → 1 ≤ count_where (is_another_superadmin user.id) w.users)
          → P (finish_deletion actor user (update_user user.id (deleted_user w.now) w)))
      → P (delete_user actor user_id w)
  unfolding delete_user assert_may_manage
  delete_user-then actor user_id w refused h = elim (load_user-cases user_id w) [
    | inr (e, absent) ↦ bind-from P (load_user user_id) _ w absent (refused e)
    | inl (user, found, key, live, is) ↦ bind-from P (load_user user_id) _ w is (
        raise_if-then P _ _ _ w (refused _) (λ may. raise_if-then P _ _ _ w (refused _) (λ other.
          let b = user.role == GlobalRole.superadmin || user.is_superuser in
          let check = when b (assert_another_superadmin_remains user.id) in
          elim (assert_another_superadmin_remains-cases b user.id w) [
            | inr (e, raised) ↦ then-from P check _ w raised (refused e)
            | inl (enough, passed) ↦ then-from P check _ w passed (
                h user found key (other_ids user.id actor.id other)
                  (rank_needed (user.id == actor.id) (is_privileged user) (is_superadmin actor) may
                    other)
                  (λ s. enough (or-swap user.is_superuser (user.role == GlobalRole.superadmin) s)))
          ])))
  ]
