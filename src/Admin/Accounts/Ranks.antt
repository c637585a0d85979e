-- ===== src/Admin/Accounts/Ranks.antt =====
-- What an administrator below a superadmin can change (`update_user` of
-- app/modules/admin/service.py).
use mathlib.Core.Path.{subst}
use prompt_studio_backend.Prelude.{
  ℕ, ◌≤◌, String, ◌≡◌, refl, sym, ap, ◌∙◌, inl, inr, Bool, true, false, not, ◌&&◌, ◌||◌, Option,
  none, some, List, map, arith, ◌!=◌, ◌==◌, nat_eq, string_eq, is_none, Bool-cases, count_where,
  All-map, first_where-only, map-update_where, map-update_kept,
}
use prompt_studio_backend.Admin.{is_superadmin, is_privileged, assert_may_manage, close_all_sockets}
use prompt_studio_backend.Admin.Accounts.{
  AdminUserUpdate, assert_may_set_role, granted, change_role, named, change_name, activated,
  is_as_before, change_activation, end_sessions_if, welcome_if, ends_sessions, finish_update,
  reissue, update_account,
}
use prompt_studio_backend.Admin.Guards.{load_user-cases, assert_another_superadmin_remains-cases}
use prompt_studio_backend.Admin.Superadmins.{disconnect_all-users}
use prompt_studio_backend.Auth.Sessions.{revoke_all_sessions, logout_everywhere}
use prompt_studio_backend.Auth.Tokens.{TokenLibrary}
use prompt_studio_backend.Core.Roles.{GlobalRole, global_role_eq}
use prompt_studio_backend.Projects.Feed.{record_audit}
use prompt_studio_backend.Store.{User, World}
use prompt_studio_backend.Store.Action.{Result, raise_if-then}
use prompt_studio_backend.Store.Frames.{continue-then}
use prompt_studio_backend.Store.Rows.{get_user, get_credentials}

-- Who is an administrator, account by account.
abbrev pub ranks : World → List Bool
ranks w = map is_privileged w.users

abbrev RanksAre : List Bool → World → Type 0
RanksAre rs w = ranks w ≡ rs

abbrev KeepsRanks : {A : Type 0} → List Bool → Result A × World → Type 0
KeepsRanks rs (r, w) = ranks w ≡ rs

end_sessions_if-users :
    (b : Bool) (user : User) (w : World) → (end_sessions_if b user w).1.users ≡ w.users
unfolding end_sessions_if logout_everywhere revoke_all_sessions close_all_sockets
end_sessions_if-users false user w = refl
end_sessions_if-users true user w = disconnect_all-users _ user.id _

welcome_if-users :
    (password : Option String) (user : User) (w : World)
    → (welcome_if password user w).1.users ≡ w.users
unfolding welcome_if
welcome_if-users none user w = refl
welcome_if-users (some password) user w = elim (Bool-cases (password != "")) [
  | inl e ↦ rw e refl
  | inr e ↦ rw e refl
]

-- What a grant below a superadmin comes to.
granted-is_privileged :
    (role : GlobalRole) (u : User)
    → is_privileged u ≡ false
    → (role == GlobalRole.admin || role == GlobalRole.superadmin) ≡ false
    → is_privileged (granted role u) ≡ is_privileged u
granted-is_privileged role u plain low = ground arith

not_privileged :
    (own privileged ranked : Bool)
    → (not own && privileged && not ranked) ≡ false
    → own ≡ false
    → ranked ≡ false
    → privileged ≡ false
not_privileged own privileged ranked may apart low = ground arith

below : (high ranked : Bool) → (high && not ranked) ≡ false → ranked ≡ false → high ≡ false
below high ranked grant low = ground arith

change_role-ranks :
    (actor user : User) (role : Option GlobalRole) (w : World)
    → is_superadmin actor ≡ false
    → count_where (λ u. u.id == user.id) w.users ≤ 1
    → get_user user.id w ≡ some user
    → (not (user.id == actor.id) && is_privileged user && not (is_superadmin actor)) ≡ false
    → ranks (change_role actor user role w).1 ≡ ranks w
unfolding change_role assert_may_set_role record_audit
change_role-ranks actor user none w low unique found may = refl
change_role-ranks actor user (some role) w low unique found may =
    elim (Bool-cases (role == user.role)) [
      | inl same ↦ rw same refl
      | inr other ↦
          elim (Bool-cases (
            (role == GlobalRole.admin || role == GlobalRole.superadmin)
            && not (is_superadmin actor))) [
              | inl grant ↦ rw (other, grant) refl
              | inr grant ↦ elim (Bool-cases (user.id == actor.id)) [
                | inl own ↦ rw (other, grant, own) refl
                | inr own ↦
                    elim (assert_another_superadmin_remains-cases
                      (user.role == GlobalRole.superadmin) user.id w) [
                        | inr (e, raised) ↦ rw (other, grant, own, raised) refl
                        | inl (enough, passed) ↦
                            rw (other, grant, own, passed)
                              (map-update_where is_privileged (λ u. u.id == user.id) (granted role)
                                w.users
                                (All-map _ _ w.users
                                  (λ u only e.
                                    granted-is_privileged role u
                                      (ap is_privileged (only e)
                                        ∙ not_privileged (user.id == actor.id) (is_privileged user)
                                            (is_superadmin actor) may own low)
                                      (below
                                        (role == GlobalRole.admin || role == GlobalRole.superadmin)
                                        (is_superadmin actor) grant low))
                                  (first_where-only (λ u. u.id == user.id) w.users unique found)))
                      ]
              ]
            ]
    ]

change_name-ranks :
    (user : User) (name : Option String) (w : World) → ranks (change_name user name w).1 ≡ ranks w
unfolding change_name
change_name-ranks user none w = refl
change_name-ranks user (some name) w =
    map-update_kept is_privileged (λ u. u.id == user.id) (named name) w.users (λ u. refl)

change_activation-ranks :
    (actor user : User) (active : Option Bool) (w : World)
    → ranks (change_activation actor user active w).1 ≡ ranks w
unfolding change_activation record_audit
change_activation-ranks actor user none w = refl
change_activation-ranks actor user (some active) w = elim (Bool-cases (is_as_before active user)) [
  | inl same ↦ rw same refl
  | inr other ↦ elim (Bool-cases (user.id == actor.id)) [
    | inl own ↦ rw (other, own) refl
    | inr own ↦
        elim (assert_another_superadmin_remains-cases
          (not active && user.role == GlobalRole.superadmin) user.id w) [
            | inr (e, raised) ↦ rw (other, own, raised) refl
            | inl (enough, passed) ↦
                rw (other, own, passed)
                  (map-update_kept is_privileged (λ u. u.id == user.id) (activated active) w.users
                    (λ u. refl))
          ]
  ]
]

reissue-ranks :
    (library : TokenLibrary) (actor user : User) (generated : String) (reset : Bool) (w : World)
    → ranks (reissue library actor user generated reset w).1 ≡ ranks w
unfolding reissue record_audit
reissue-ranks library actor user generated false w = refl
reissue-ranks library actor user generated true w =
    elim (Bool-cases (is_none (get_credentials user.id w))) [
      | inl e ↦ rw e refl
      | inr e ↦ rw e refl
    ]

finish_update-ranks :
    (rs : List Bool) (change : AdminUserUpdate) (user : User) (password : Option String) (w : World)
    → RanksAre rs w
    → KeepsRanks rs (finish_update change user password w)
unfolding finish_update
finish_update-ranks rs change user password w are =
    let start = record w { committed = w.db } in
    let ended = end_sessions_if (ends_sessions change) user start in
    continue-then (RanksAre rs) (KeepsRanks rs) (λ r v p. p) ended _
      (ap (map is_privileged) (end_sessions_if-users (ends_sessions change) user start) ∙ are)
      λ _ v these.
        continue-then (RanksAre rs) (KeepsRanks rs) (λ r v' p. p) (welcome_if password user v) _
          (ap (map is_privileged) (welcome_if-users password user v) ∙ these) λ _ v' p. p

-- Below a superadmin, changing an account makes nobody an administrator and takes no administrator's
-- rank, whatever is asked for, whether it is refused or carried out; no two accounts share an id.
pub update_account_keeps_ranks :
    (library : TokenLibrary) (actor : User) (user_id : ℕ) (change : AdminUserUpdate)
    (generated : String) (w : World)
    → is_superadmin actor ≡ false
    → ((key : ℕ) → count_where (λ u. u.id == key) w.users ≤ 1)
    → ranks (update_account library actor user_id change generated w).1 ≡ ranks w
unfolding update_account assert_may_manage
update_account_keeps_ranks library actor user_id change generated w low unique =
    elim (load_user-cases user_id w) [
      | inr (e, absent) ↦ rw absent refl
      | inl (user, found, key, live, is) ↦ rw is (
          raise_if-then Keeps
            (not (user.id == actor.id) && is_privileged user && not (is_superadmin actor)) _ _ w
            refl
            λ may.
              continue-then Are Keeps (λ r v p. p) (change_role actor user change.role w) _
                (change_role-ranks actor user change.role w low (unique user.id)
                  (subst (λ k. get_user k w ≡ some user) (sym key) found) may)
                λ user1 w1 p1.
                  continue-then Are Keeps (λ r v p. p) (change_name user1 change.full_name w1) _
                    (change_name-ranks user1 change.full_name w1 ∙ p1)
                    λ user2 w2 p2.
                      continue-then Are Keeps (λ r v p. p)
                        (change_activation actor user2 change.is_active w2) _
                        (change_activation-ranks actor user2 change.is_active w2 ∙ p2)
                        λ user3 w3 p3.
                          continue-then Are Keeps (λ r v p. p)
                            (reissue library actor user3 generated change.reset_password w3) _
                            (reissue-ranks library actor user3 generated change.reset_password w3
                              ∙ p3)
                            (finish_update-ranks (ranks w) change user3))
    ]
  where
    Are : World → Type 0
    Are v = ranks v ≡ ranks w

    Keeps : {A : Type 0} → Result A × World → Type 0
    Keeps (r, v) = ranks v ≡ ranks w
