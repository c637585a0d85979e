-- ===== src/Auth/Passwords/Window.antt =====
-- The window in which a reset link works (`reset_password` of app/modules/auth/service.py).
use mathlib.Core.Option
use mathlib.Core.Path.{subst}
use prompt_studio_backend.Prelude.{
  ℕ, ◌/◌, ◌<◌, String, ◌≡◌, refl, sym, ap, ◌∙◌, ◌⊎◌, inl, inr, true, not, ◌||◌, Option, some, ltb,
  ◌==◌, nat_eq, holds, lt→ltb, Bool-cases, Option-cases, some-injective, length, first_where,
  first_where-holds, first_where-written,
}
use prompt_studio_backend.Auth.Passwords.{
  chosen, is_outdated, apply_chosen_password, decode_typed, finish_reset, reset_password,
}
use prompt_studio_backend.Auth.Sessions.{is_token_revoked, revoke_all_sessions}
use prompt_studio_backend.Auth.Sessions.Once.{load_active_user-then}
use prompt_studio_backend.Auth.Tokens.{Payload, TokenLibrary}
use prompt_studio_backend.Core.Errors.{AppError, authentication_error, validation_error}
use prompt_studio_backend.Core.Passwords.{
  bcrypt_max_bytes, min_password_length, encode, text_length, is_letter, is_digit, has_char,
  assert_password_strong,
}
use prompt_studio_backend.Core.Roles.{TokenType, token_type_eq}
use prompt_studio_backend.Projects.Feed.{record_audit}
use prompt_studio_backend.Store.{User, UserCredentials, World}
use prompt_studio_backend.Store.Action.{
  Result, Action, ◌>>=◌, rollback, raise_if-then, or_raise-then, ok, err,
}
use prompt_studio_backend.Store.Rows.{get_credentials, update_credentials}
use prompt_studio_backend.Core.ErrorMessage

pub assert_password_strong-cases :
    (password : String) (w : World)
    → (assert_password_strong password w ≡ (ok tt, w))
      ⊎ ((e : AppError) × (assert_password_strong password w ≡ (err e, w)))
unfolding assert_password_strong
assert_password_strong-cases password w =
    elim (Bool-cases (ltb (text_length password) min_password_length)) [
      | inl e ↦ inr (weak, rw e refl)
      | inr e ↦ elim (Bool-cases (ltb bcrypt_max_bytes (length (encode password)))) [
        | inl e' ↦ inr (long, rw (e, e') refl)
        | inr e' ↦
            elim (Bool-cases
              (not (has_char is_letter password) || not (has_char is_digit password))) [
                | inl e'' ↦ inr (weak, rw (e, e', e'') refl)
                | inr e'' ↦ inl (rw (e, e', e'') refl)
              ]
      ]
    ]
  where
    weak : AppError
    weak = validation_error ErrorMessage.password_too_weak

    long : AppError
    long = validation_error "Password must be at most 72 bytes (about 72 characters)"

-- When the account's password was last changed.
abbrev pub changed_at : ℕ → World → Option ℕ
changed_at uid w =
    Option.bind (get_credentials uid w) (λ (c : UserCredentials). c.password_changed_at)

-- Unless it was refused, the account's committed password dates from `now`.
abbrev Dated : ℕ → ℕ → Result (Unit {0}) × World → Type 0
Dated uid now (ok x, w) = changed_at uid (rollback w) ≡ some now
Dated uid now (err e, w) = Unit {0}

changed_at-chosen :
    (uid now : ℕ) (hashed : String) (w : World) {c : UserCredentials}
    → get_credentials uid w ≡ some c
    → changed_at uid (update_credentials uid (chosen hashed now) w) ≡ some now
unfolding Option.bind
changed_at-chosen uid now hashed w {c} found =
    rw
      (first_where-written (λ (row : UserCredentials). row.user_id == uid)
        (λ row. row.user_id == uid) (chosen hashed now) w.credentials (λ y. refl) found
        (first_where-holds _ w.credentials found))
      refl

module _ (library : TokenLibrary) where
  finish_reset-Dated :
      (payload : Payload) (user : User) (password : String) (w : World) {c : UserCredentials}
      → get_credentials user.id w ≡ some c
      → Dated user.id w.now (finish_reset library payload user password w)
  unfolding finish_reset apply_chosen_password revoke_all_sessions record_audit
  finish_reset-Dated payload user password w found =
      elim (assert_password_strong-cases password w) [
        | inr (e, refused) ↦ rw refused tt
        | inl accepted ↦ rw accepted (changed_at-chosen user.id w.now _ w found)
      ]

  decode_typed-then :
      {A : Type 0} (P : Result A × World → Type 0) (token : String) (expected : TokenType)
      (message : String) (k : Payload → Action A) (w : World)
      → ((e : AppError) → P (err e, w))
      → ((payload : Payload) → library.decode_token token w.now ≡ some payload → P (k payload w))
      → P ((decode_typed library token expected message >>= k) w)
  unfolding decode_typed
  decode_typed-then P token expected message k w refused h =
      elim (Option-cases (library.decode_token token w.now)) [
        | inl e ↦ rw e (refused (authentication_error message))
        | inr (payload, e) ↦ elim (Bool-cases (holds payload.type expected)) [
          | inl typed ↦ rw (e, typed) (h payload e)
          | inr typed ↦
              rw (e, typed) (refused (authentication_error ErrorMessage.invalid_token_type))
        ]
      ]

  reset_password-Dated :
      (token password : String) (w : World) {payload : Payload} {uid : ℕ}
      → library.decode_token token w.now ≡ some payload
      → payload.user_id ≡ some uid
      → Dated uid w.now (reset_password library token password w)
  unfolding reset_password
  reset_password-Dated token password w {payload} {uid} decoded named =
      decode_typed-then (Dated uid w.now) token TokenType.reset _ _ w (λ _. tt)
        λ p same. raise_if-then (Dated uid w.now) (is_token_revoked p.jti w) _ _ w tt λ _.
          load_active_user-then (Dated uid w.now) p.user_id _ w (λ _. tt)
            λ user its.
              or_raise-then (Dated uid w.now) (get_credentials user.id w) _ _ w tt λ c found.
                raise_if-then (Dated uid w.now) (is_outdated p.iat c.password_changed_at) _ _ w tt
                  λ _.
                    let it : p ≡ payload = some-injective (sym same ∙ decoded) in
                    let own : user.id ≡ uid =
                      some-injective (sym its ∙ ap (λ (q : Payload). q.user_id) it ∙ named) in
                    subst (λ i. Dated i w.now (finish_reset library p user password w)) own
                      (finish_reset-Dated p user password w found)

  Dated-changed :
      (uid now : ℕ) (r : Result (Unit {0}) × World)
      → Dated uid now r
      → r.0 ≡ ok tt
      → changed_at uid (rollback r.1) ≡ some now
  Dated-changed uid now (ok x, w) dated e = dated
  Dated-changed uid now (err x, w) dated e = cc

  -- Once a reset has gone through, every reset link of the same account that was issued in an earlier
  -- second is refused and changes nothing, whichever password it is presented with, at whatever later
  -- moment, as long as the credentials are those that the reset committed.
  pub reset_closes_window :
      (token other password later : String) (w v : World) {payload old : Payload} {uid issued : ℕ}
      → library.decode_token token w.now ≡ some payload
      → payload.user_id ≡ some uid
      → (reset_password library token password w).0 ≡ ok tt
      → v.credentials ≡ (reset_password library token password w).1.committed.credentials
      → library.decode_token other v.now ≡ some old
      → old.user_id ≡ some uid
      → old.iat ≡ some issued
      → issued / 1_000_000 < w.now / 1_000_000
      → (e : AppError) × (reset_password library other later v ≡ (err e, v))
  unfolding reset_password Option.bind
  reset_closes_window token other password later w v {payload} {old} {uid} {issued} decoded named
        went stored again whose dated early =
      decode_typed-then Refused other TokenType.reset _ _ v (λ e. (e, refl))
        λ p same.
          raise_if-then Refused (is_token_revoked p.jti v) _ _ v (_, refl)
            λ _.
              load_active_user-then Refused p.user_id _ v (λ e. (e, refl))
                λ user its.
                  or_raise-then Refused (get_credentials user.id v) _ _ v (_, refl)
                    λ c found.
                      raise_if-then Refused (is_outdated p.iat c.password_changed_at) _ _ v
                        (_, refl)
                        λ current.
                          let it : p ≡ old = some-injective (sym same ∙ again) in
                          let own : user.id ≡ uid =
                            some-injective (sym its ∙ ap (λ (q : Payload). q.user_id) it ∙ whose) in
                          let changed : c.password_changed_at ≡ some w.now =
                            sym (known user.id c found) ∙ ap (λ i. changed_at i v) own ∙ since in
                          let outdated : is_outdated p.iat c.password_changed_at ≡ true =
                            rw (ap (λ (q : Payload). q.iat) it ∙ dated, changed)
                              (lt→ltb (issued / 1_000_000) (w.now / 1_000_000) early) in
                          absurd cc
    where
      Refused : Result (Unit {0}) × World → Type 0
      Refused r = (x : AppError) × (r ≡ (err x, v))

      since : changed_at uid v ≡ some w.now
      since =
          ap
            (λ rows.
              Option.bind (first_where (λ (row : UserCredentials). row.user_id == uid) rows)
                (λ c. c.password_changed_at))
            stored
          ∙ Dated-changed uid w.now (reset_password library token password w)
              (reset_password-Dated token password w decoded named) went

      known :
          (key : ℕ) (c : UserCredentials)
          → get_credentials key v ≡ some c
          → changed_at key v ≡ c.password_changed_at
      known key c found = rw found refl
