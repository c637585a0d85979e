-- ===== src/Auth/Sessions/Once.antt =====
-- A refresh token presented twice (`refresh_tokens` of app/modules/auth/service.py).
use mathlib.Core.Path.{subst}
use prompt_studio_backend.Prelude.{
  ℕ, String, ◌≡◌, refl, sym, ap, ◌∙◌, inl, inr, true, false, not, ◌||◌, Option, none, some, List,
  leb, if◌then◌else◌, ◌==◌, nat_beq_iff, string_eq, holds, is_some, Bool-cases, some-injective,
  beq_refl, any_where, first_where-holds,
}
use prompt_studio_backend.Auth.Sessions.{
  already_revoked, is_token_revoked, deny, deny_payload, deny_access, load_active_user,
  find_session, issue, rotate, refresh_tokens,
}
use prompt_studio_backend.Auth.Tokens.{Payload, TokenLibrary, Token}
use prompt_studio_backend.Core.Errors.{AppError, authentication_error}
use prompt_studio_backend.Core.Roles.{TokenType, token_type_eq}
use prompt_studio_backend.Store.{User, Session, RevokedToken, World}
use prompt_studio_backend.Store.Action.{
  Result, Action, ◌>>=◌, raise_if-then, or_raise-then, ok, err,
}
use prompt_studio_backend.Store.Rows.{get_user}
use prompt_studio_backend.Core.ErrorMessage

-- The account that the id names and that may go on, or a refusal; nothing is written.
pub load_active_user-then :
    {A : Type 0} (P : Result A × World → Type 0) (uid : Option ℕ) (k : User → Action A) (w : World)
    → ((e : AppError) → P (err e, w))
    → ((user : User) → uid ≡ some user.id → P (k user w))
    → P ((load_active_user uid >>= k) w)
unfolding load_active_user
load_active_user-then P none k w refused h = refused _
load_active_user-then P (some uid) k w refused h = active (get_user uid w) refl
  where
    active :
        (found : Option User) → get_user uid w ≡ found → P ((load_active_user (some uid) >>= k) w)
    active none e = rw e (refused (authentication_error ErrorMessage.user_not_found_or_inactive))
    active (some user) e = rw e (elim (Bool-cases (not user.is_active || user.is_deleted)) [
      | inl b ↦ rw b (refused (authentication_error ErrorMessage.user_not_found_or_inactive))
      | inr b ↦
          let same = (nat_beq_iff user.id uid).0 (first_where-holds _ w.users e) in
          rw b (h user (ap some (sym same)))
    ])

pub already_revoked-deny :
    (jti : String) (exp : ℕ) (denied : List RevokedToken)
    → already_revoked jti (deny jti exp denied) ≡ true
unfolding deny already_revoked any_where
already_revoked-deny jti exp denied = elim (Bool-cases (already_revoked jti denied)) [
  | inl e ↦ rw (e, if◌then◌else◌) e
  | inr e ↦ rw (e, if◌then◌else◌) (rw (beq_refl jti) refl)
]

already_revoked-deny_payload :
    (payload : Payload) (denied : List RevokedToken) {exp : ℕ}
    → payload.exp ≡ some exp
    → (payload.jti == "") ≡ false
    → already_revoked payload.jti (deny_payload payload denied) ≡ true
unfolding deny_payload
already_revoked-deny_payload payload denied {exp} e n =
    rw (e, n, if◌then◌else◌) (already_revoked-deny payload.jti exp denied)

module _ (library : TokenLibrary) where
  -- Unless it was refused, the token's id is on the committed denylist.
  abbrev Used : String → Result Token × World → Type 0
  Used jti (ok token, w) = already_revoked jti w.committed.revoked_tokens ≡ true
  Used jti (err e, w) = Unit {0}

  rotate-Used :
      (payload : Payload) (user : User) (s : Session) (w : World) {exp : ℕ}
      → payload.exp ≡ some exp
      → (payload.jti == "") ≡ false
      → Used payload.jti (rotate library payload user s w)
  unfolding rotate issue
  rotate-Used payload user s w e n =
      already_revoked-deny_payload payload (deny_access w.now s w.revoked_tokens) e n

  refresh_tokens-Used :
      (refresh_token : String) (w : World) {payload : Payload} {exp : ℕ}
      → library.decode_token refresh_token w.now ≡ some payload
      → payload.exp ≡ some exp
      → (payload.jti == "") ≡ false
      → Used payload.jti (refresh_tokens library refresh_token w)
  unfolding refresh_tokens
  refresh_tokens-Used refresh_token w {payload} decoded e n =
      or_raise-then (Used payload.jti) (library.decode_token refresh_token w.now) _ _ w tt λ p same.
        raise_if-then (Used payload.jti) (not (holds p.type TokenType.refresh)) _ _ w tt λ _.
          raise_if-then (Used payload.jti) (is_token_revoked p.jti w) _ _ w tt λ _.
            load_active_user-then (Used payload.jti) p.user_id _ w (λ _. tt)
              λ user _.
                or_raise-then (Used payload.jti) (find_session library refresh_token w) _ _ w tt
                  λ s _.
                    raise_if-then (Used payload.jti)
                      (is_some s.revoked_at || leb s.expires_at w.now) _ _ w tt
                      λ _.
                        let it : p ≡ payload = some-injective (sym same ∙ decoded) in
                        subst (λ q. Used payload.jti (rotate library q user s w)) (sym it)
                          (rotate-Used payload user s w e n)

  Used-denied :
      (jti : String) (r : Result Token × World) {token : Token}
      → Used jti r
      → r.0 ≡ ok token
      → already_revoked jti r.1.committed.revoked_tokens ≡ true
  Used-denied jti (ok token, w) used e = used
  Used-denied jti (err x, w) used e = cc

  -- Once a refresh token has been exchanged for a new pair, presenting it again is refused and
  -- changes nothing, at whatever later moment, as long as the denylist still has what the exchange
  -- committed. The token carries an id and an expiry, as every minted token does, and is still
  -- decoded the same.
  pub refresh_token_works_once :
      (refresh_token : String) (w v : World) {payload : Payload} {exp : ℕ} {token : Token}
      → library.decode_token refresh_token w.now ≡ some payload
      → library.decode_token refresh_token v.now ≡ some payload
      → payload.exp ≡ some exp
      → (payload.jti == "") ≡ false
      → (refresh_tokens library refresh_token w).0 ≡ ok token
      → v.revoked_tokens ≡ (refresh_tokens library refresh_token w).1.committed.revoked_tokens
      → (e : AppError) × (refresh_tokens library refresh_token v ≡ (err e, v))
  unfolding refresh_tokens is_token_revoked
  refresh_token_works_once refresh_token w v {payload} decoded again e n first later =
      or_raise-then Refused (library.decode_token refresh_token v.now) _ _ v (_, refl)
        λ p same.
          raise_if-then Refused (not (holds p.type TokenType.refresh)) _ _ v (_, refl)
            λ _.
              raise_if-then Refused (is_token_revoked p.jti v) _ _ v (_, refl)
                λ unrevoked.
                  let it : p ≡ payload = some-injective (sym same ∙ again) in
                  let denied : already_revoked payload.jti v.revoked_tokens ≡ true =
                    ap (already_revoked payload.jti) later
                    ∙ Used-denied payload.jti (refresh_tokens library refresh_token w)
                        (refresh_tokens-Used refresh_token w decoded e n) first in
                  let revoked : is_token_revoked payload.jti v ≡ true =
                    rw (n, if◌then◌else◌) denied in
                  let clash : true ≡ false =
                    sym revoked
                    ∙ ap (λ (q : Payload). is_token_revoked q.jti v) (sym it)
                    ∙ unrevoked in
                  absurd cc
    where
      Refused : Result Token × World → Type 0
      Refused r = (x : AppError) × (r ≡ (err x, v))
