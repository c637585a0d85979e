-- ===== src/Auth/Logout/Stopped.antt =====
-- The tokens that are presented at signing out (`logout` of app/modules/auth/service.py).
use prompt_studio_backend.Prelude.{
  ℕ, ◌≤◌, String, ◌≡◌, refl, inl, inr, true, false, not, ◌&&◌, ◌||◌, Option, none, some, List, [],
  ◌∷◌, arith, ltb, leb, if◌then◌else◌, ◌==◌, string_eq, holds, or_else, ltb→lt, Bool-cases,
  Option-cases, beq_refl, delete_where, any_where,
}
use prompt_studio_backend.Auth.Logout.{
  purge_expired, end_session, finish_logout, deny_refresh, logout,
}
use prompt_studio_backend.Auth.Sessions.{already_revoked, deny, deny_payload, deny_access}
use prompt_studio_backend.Auth.Tokens.{Payload, TokenLibrary}
use prompt_studio_backend.Core.Roles.{TokenType, token_type_eq}
use prompt_studio_backend.Store.{Session, RevokedToken, World}
use prompt_studio_backend.Store.Action.{ok}

-- On the denylist, in a row that the purge leaves.
abbrev Denies : ℕ → String → List RevokedToken → Type 0
Denies now jti denied = any_where (λ r. r.jti == jti && not (ltb r.expires_at now)) denied ≡ true

deny-Denies :
    (now : ℕ) (jti : String) (exp : ℕ) (denied : List RevokedToken)
    → already_revoked jti denied ≡ false
    → now ≤ exp
    → Denies now jti (deny jti exp denied)
unfolding deny any_where
deny-Denies now jti exp denied new live =
    rw (new, if◌then◌else◌) (ground (arith, beq_refl jti, ltb→lt exp now))

deny-keeps :
    (now : ℕ) (jti other : String) (exp : ℕ) (denied : List RevokedToken)
    → Denies now jti denied
    → Denies now jti (deny other exp denied)
unfolding deny any_where
deny-keeps now jti other exp denied h = elim (Bool-cases (already_revoked other denied)) [
  | inl e ↦ rw (e, if◌then◌else◌) h
  | inr e ↦ rw (e, if◌then◌else◌) (ground (arith, h))
]

deny_payload-Denies :
    (now : ℕ) (payload : Payload) (denied : List RevokedToken) {exp : ℕ}
    → payload.exp ≡ some exp
    → (payload.jti == "") ≡ false
    → already_revoked payload.jti denied ≡ false
    → now ≤ exp
    → Denies now payload.jti (deny_payload payload denied)
unfolding deny_payload
deny_payload-Denies now payload denied {exp} e n new live =
    rw (e, n, if◌then◌else◌) (deny-Denies now payload.jti exp denied new live)

deny_payload-keeps :
    (now : ℕ) (jti : String) (payload : Payload) (denied : List RevokedToken)
    → Denies now jti denied
    → Denies now jti (deny_payload payload denied)
unfolding deny_payload
deny_payload-keeps now jti payload denied h = elim (Option-cases payload.exp) [
  | inl e ↦ rw e h
  | inr (exp, e) ↦ rw e (elim (Bool-cases (payload.jti == "")) [
    | inl n ↦ rw (n, if◌then◌else◌) h
    | inr n ↦ rw (n, if◌then◌else◌) (deny-keeps now jti payload.jti exp denied h)
  ])
]

deny_access-keeps :
    (now : ℕ) (jti : String) (s : Session) (denied : List RevokedToken)
    → Denies now jti denied
    → Denies now jti (deny_access now s denied)
unfolding deny_access
deny_access-keeps now jti s denied h = elim (Option-cases s.access_jti) [
  | inl e ↦ rw e h
  | inr (other, e) ↦
      rw e (elim (Bool-cases (other == "" || leb (or_else s.access_expires_at s.expires_at) now)) [
        | inl k ↦ rw (k, if◌then◌else◌) h
        | inr k ↦ rw (k, if◌then◌else◌) (deny-keeps now jti other _ denied h)
      ])
]

purge_expired-keeps :
    (now : ℕ) (jti : String) (denied : List RevokedToken)
    → Denies now jti denied
    → already_revoked jti (purge_expired now denied) ≡ true
unfolding purge_expired delete_where any_where already_revoked
purge_expired-keeps now jti [] h = cc
purge_expired-keeps now jti (r ∷ rs) h = ground (arith, h, purge_expired-keeps now jti rs)

finish_logout-denied :
    (jti : String) (found : Option Session) (w : World)
    → Denies w.now jti w.revoked_tokens
    → ((finish_logout found w).0 ≡ ok tt)
      × (already_revoked jti (finish_logout found w).1.committed.revoked_tokens ≡ true)
unfolding finish_logout end_session
finish_logout-denied jti none w h = (refl, purge_expired-keeps w.now jti w.revoked_tokens h)
finish_logout-denied jti (some s) w h = (
  refl,
  purge_expired-keeps w.now jti (deny_access w.now s w.revoked_tokens)
      (deny_access-keeps w.now jti s w.revoked_tokens h),
)

module _ (library : TokenLibrary) where
  deny_refresh-keeps :
      (now : ℕ) (jti : String) (refresh_token : Option String) (denied : List RevokedToken)
      → Denies now jti denied
      → Denies now jti (deny_refresh library now refresh_token denied)
  unfolding deny_refresh
  deny_refresh-keeps now jti none denied h = h
  deny_refresh-keeps now jti (some token) denied h = elim (Bool-cases (token == "")) [
    | inl e ↦ rw (e, if◌then◌else◌) h
    | inr e ↦
        rw (e, if◌then◌else◌)
          (elim (Option-cases (library.decode_token token now)) [
            | inl absent ↦ rw absent h
            | inr (payload, is) ↦ rw is (elim (Bool-cases (holds payload.type TokenType.refresh)) [
              | inl k ↦ rw (k, if◌then◌else◌) (deny_payload-keeps now jti payload denied h)
              | inr k ↦ rw (k, if◌then◌else◌) h
            ])
          ])
  ]

  -- Signing out of one device always succeeds, and puts the access token it is asked with on the
  -- committed denylist, whatever refresh token comes along; the token carries an id that is not
  -- denied yet, and has not expired.
  pub logout_stops_access :
      (payload : Payload) (refresh_token : Option String) (w : World) {exp : ℕ}
      → payload.exp ≡ some exp
      → (payload.jti == "") ≡ false
      → already_revoked payload.jti w.revoked_tokens ≡ false
      → w.now ≤ exp
      → ((logout library payload refresh_token w).0 ≡ ok tt)
        × (already_revoked payload.jti
              (logout library payload refresh_token w).1.committed.revoked_tokens
            ≡ true)
  unfolding logout
  logout_stops_access payload refresh_token w {exp} e n new live =
      finish_logout-denied payload.jti _ _ (
        deny_refresh-keeps w.now payload.jti refresh_token (deny_payload payload w.revoked_tokens)
          (deny_payload-Denies w.now payload w.revoked_tokens e n new live))
