-- ===== src/Admin/Superadmins.antt =====
-- How many superadmins the platform keeps, and who deletes an administrator (`delete_user` of
-- app/modules/admin/service.py).
use mathlib.Core.Path.{subst}
use prompt_studio_backend.Prelude.{
  ℕ, ◌≤◌, ◌≡◌, refl, sym, ap, ◌∙◌, ◌≢◌, inl, inr, true, some, List, [], ◌∷◌, arith, ◌==◌, nat_eq,
  Bool-cases, first_where, count_where, All-map, first_where-only, count_where-le-update_where,
  count_where-spared,
}
use prompt_studio_backend.Admin.{
  is_superadmin, is_privileged, is_usable_superadmin, is_another_superadmin, disconnect_all,
  close_all_sockets, deleted_user, finish_deletion, delete_user,
}
use prompt_studio_backend.Admin.Guards.{delete_user-then}
use prompt_studio_backend.Auth.Sessions.{revoke_all_sessions, logout_everywhere}
use prompt_studio_backend.Projects.Feed.{record_audit}
use prompt_studio_backend.Store.{User, World}
use prompt_studio_backend.Store.Action.{ok}
use prompt_studio_backend.Store.Rows.{get_user, update_user}

pub disconnect_all-users :
    (projects : List ℕ) (uid : ℕ) (w : World) → (disconnect_all projects uid w).users ≡ w.users
unfolding disconnect_all
disconnect_all-users [] uid w = refl
disconnect_all-users (pid ∷ projects) uid w = disconnect_all-users projects uid _

pub finish_deletion-users :
    (actor user : User) (w : World) → (finish_deletion actor user w).1.users ≡ w.users
unfolding finish_deletion record_audit logout_everywhere revoke_all_sessions close_all_sockets
finish_deletion-users actor user w = disconnect_all-users _ user.id _

another_superadmin :
    (user : User) (users : List User)
    → count_where (λ u. u.id == user.id) users ≤ 1
    → first_where (λ u. u.id == user.id) users ≡ some user
    → (is_superadmin user ≡ true → 1 ≤ count_where (is_another_superadmin user.id) users)
    → 1 ≤ count_where is_usable_superadmin users
    → 1 ≤ count_where (is_another_superadmin user.id) users
another_superadmin user users unique found enough there =
    elim (Bool-cases (is_usable_superadmin user)) [
      | inl e ↦ enough (ground arith)
      | inr e ↦ omega (
        arith,
        count_where-spared is_usable_superadmin (λ u. u.id == user.id) users
            (All-map _ _ users (λ u only k. ap is_usable_superadmin (only k) ∙ e)
              (first_where-only (λ u. u.id == user.id) users unique found)),
      )
    ]

-- Whether it is refused or carried out, deleting an account leaves a superadmin that can sign in, if
-- there was one; no two accounts share an id.
pub delete_user_keeps_superadmin :
    (actor : User) (user_id : ℕ) (w : World)
    → ((key : ℕ) → count_where (λ u. u.id == key) w.users ≤ 1)
    → 1 ≤ count_where is_usable_superadmin w.users
    → 1 ≤ count_where is_usable_superadmin (delete_user actor user_id w).1.users
delete_user_keeps_superadmin actor user_id w unique there =
    delete_user-then (λ r. 1 ≤ count_where is_usable_superadmin r.1.users) actor user_id w
      (λ e. there)
      (λ user found key other may enough.
        let left =
          another_superadmin user w.users (unique user.id)
            (subst (λ k. get_user k w ≡ some user) (sym key) found) enough there in
        rw (finish_deletion-users actor user (update_user user.id (deleted_user w.now) w)) (
          omega (
            arith,
            left,
            count_where-le-update_where is_usable_superadmin (λ u. u.id == user.id)
                (deleted_user w.now) w.users,
          )))

-- An account that is deleted is in the table and is not the actor's own, and if it is an
-- administrator's, then the actor is a superadmin.
pub delete_user_needs_rank :
    (actor : User) (user_id : ℕ) (w : World)
    → (delete_user actor user_id w).0 ≡ ok tt
    → (user : User) × (get_user user_id w ≡ some user)
      × (user.id ≢ actor.id)
      × (is_privileged user ≡ true → is_superadmin actor ≡ true)
delete_user_needs_rank actor user_id w =
    delete_user-then
      (λ r.
        r.0 ≡ ok tt
        → (user : User) × (get_user user_id w ≡ some user)
          × (user.id ≢ actor.id)
          × (is_privileged user ≡ true → is_superadmin actor ≡ true))
      actor user_id w (λ e raised. cc)
      (λ user found key other may enough done. (user, found, other, may))
