-- ===== src/Auth/Guards/Entry.antt =====
-- Whom the guards of app/modules/auth/dependencies.py let through, stated of the rows and not of
-- the checks' order.
use mathlib.Core.Path.{subst}
use prompt_studio_backend.Prelude.{
  String, ◌≡◌, refl, sym, ap, ◌∙◌, ◌⊎◌, inl, inr, true, false, not, ◌||◌, some, arith, ◌==◌,
  nat_beq_iff, nat_eq, Bool-cases, Option-cases, first_where-holds,
}
use prompt_studio_backend.Auth.Guards.{is_password_route, is_issued, resolve_user, get_current_user}
use prompt_studio_backend.Auth.Sessions.{is_token_revoked}
use prompt_studio_backend.Auth.Tokens.{Payload, TokenLibrary}
use prompt_studio_backend.Core.Errors.{AppError, authentication_error}
use prompt_studio_backend.Core.Roles.{TokenType, token_type_eq}
use prompt_studio_backend.Store.{User, World}
use prompt_studio_backend.Store.Action.{ok, err}
use prompt_studio_backend.Store.Rows.{get_user, get_credentials}
use prompt_studio_backend.Core.ErrorMessage

-- What must hold of a token's claims and of the account that they name.
abbrev pub IsResolved : Payload → User → World → Type 0
IsResolved payload user w =
    (payload.user_id ≡ some user.id)
    × (is_token_revoked payload.jti w ≡ false)
    × (get_user user.id w ≡ some user)
    × (user.is_active ≡ true)
    × (user.is_deleted ≡ false)

pub resolve_user-cases :
    (payload : Payload) (w : World)
    → ((user : User) × IsResolved payload user w × (resolve_user payload w ≡ (ok user, w)))
      ⊎ ((e : AppError) × (resolve_user payload w ≡ (err e, w)))
unfolding resolve_user
resolve_user-cases payload w = elim (Option-cases payload.user_id) [
  | inl absent ↦
      inr (authentication_error ErrorMessage.could_not_validate_credentials, rw absent refl)
  | inr (uid, named) ↦ elim (Bool-cases (is_token_revoked payload.jti w)) [
    | inl e ↦ inr (authentication_error ErrorMessage.token_revoked, rw (named, e) refl)
    | inr e ↦ elim (Option-cases (get_user uid w)) [
      | inl gone ↦
          inr
            (authentication_error ErrorMessage.user_not_found_or_inactive, rw (named, e, gone) refl)
      | inr (user, found) ↦ elim (Bool-cases (not user.is_active || user.is_deleted)) [
        | inl out ↦ inr (
          authentication_error ErrorMessage.user_not_found_or_inactive,
          rw (named, e, found, out) refl,
        )
        | inr live ↦
            let key : uid ≡ user.id = sym (
              (nat_beq_iff user.id uid).0
                (first_where-holds (λ (u : User). u.id == uid) w.users found)) in
            inl (
              user,
              (
                named ∙ ap some key,
                e,
                subst (λ k. get_user k w ≡ some user) key found,
                ground arith,
                ground arith,
              ),
              rw (named, e, found, live) refl,
            )
      ]
    ]
  ]
]

-- The claims of a live access token, an account that may go on, and a password that it has chosen,
-- unless the route is one of the three for those who have not.
module _ (library : TokenLibrary) where
  abbrev pub IsEntitled : String → String → User → World → Type 0
  IsEntitled path token user w =
      (payload : Payload) × (library.decode_token token w.now ≡ some payload)
      × (payload.type ≡ some TokenType.access)
      × IsResolved payload user w
      × ((is_issued (get_credentials user.id w) ≡ false) ⊎ (is_password_route path ≡ true))

  -- Who a request is let through as, with the account that the audit log will name.
  abbrev pub EnteredAs : String → String → User → World → Type 0
  EnteredAs path token user w =
      get_current_user library path token w
      ≡ (ok user, record w { audit_actor = some (user.id, user.email) })
