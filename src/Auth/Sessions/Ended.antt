-- ===== src/Auth/Sessions/Ended.antt =====
-- The sessions of an account after signing out everywhere (app/modules/auth/service.py).
use prompt_studio_backend.Prelude.{
  ℕ, String, ◌≡◌, refl, inl, inr, Bool, true, not, ◌&&◌, ◌||◌, Option, none, some, List, [], ◌∷◌,
  arith, leb, if◌then◌else◌, ◌==◌, string_eq, is_some, or_else, Bool-cases, or_true, any_where, All,
  All-map,
}
use prompt_studio_backend.Auth.Sessions.{
  already_revoked, deny, deny_access, is_unexpired, is_kept, end_sessions, revoke_all_sessions,
  logout_everywhere,
}
use prompt_studio_backend.Auth.Sessions.Once.{already_revoked-deny}
use prompt_studio_backend.Store.{User, Session, RevokedToken, World}

-- The access token of a session is of no use: there is none, it has expired, or it is denied.
abbrev pub is_dead_until : ℕ → List RevokedToken → Option String → ℕ → Bool
is_dead_until now denied none exp = true
is_dead_until now denied (some jti) exp = jti == "" || leb exp now || already_revoked jti denied

-- An ended session: its refresh token is refused, and so is its access token.
abbrev pub is_ended : ℕ → List RevokedToken → Session → Bool
is_ended now denied s =
    is_some s.revoked_at
    && is_dead_until now denied s.access_jti (or_else s.access_expires_at s.expires_at)

-- What is denied stays denied while more is.
already_revoked-deny_more :
    (jti other : String) (exp : ℕ) (denied : List RevokedToken)
    → already_revoked jti denied ≡ true
    → already_revoked jti (deny other exp denied) ≡ true
unfolding deny already_revoked any_where
already_revoked-deny_more jti other exp denied h =
    elim (Bool-cases (already_revoked other denied)) [
      | inl e ↦ rw (e, if◌then◌else◌) h
      | inr e ↦
          rw (e, if◌then◌else◌)
            (elim (Bool-cases (other == jti)) [
              | inl k ↦ rw (k, if◌then◌else◌) refl
              | inr k ↦ rw (k, if◌then◌else◌) h
            ])
    ]

already_revoked-deny_access :
    (jti : String) (now : ℕ) (s : Session) (denied : List RevokedToken)
    → already_revoked jti denied ≡ true
    → already_revoked jti (deny_access now s denied) ≡ true
unfolding deny_access
already_revoked-deny_access jti now s denied h = by_jti s.access_jti refl
  where
    by_jti :
        (stored : Option String)
        → s.access_jti ≡ stored
        → already_revoked jti (deny_access now s denied) ≡ true
    by_jti none e = rw e h
    by_jti (some other) e =
        rw e
          (elim (Bool-cases (other == "" || leb (or_else s.access_expires_at s.expires_at) now)) [
            | inl k ↦ rw (k, if◌then◌else◌) h
            | inr k ↦ rw (k, if◌then◌else◌) (already_revoked-deny_more jti other _ denied h)
          ])

-- The loop only adds to the denylist.
already_revoked-end_sessions :
    (jti : String) (keep : Option String) (uid now : ℕ) (ss : List Session)
    (denied : List RevokedToken)
    → already_revoked jti denied ≡ true
    → already_revoked jti (end_sessions keep uid now ss denied).1 ≡ true
unfolding end_sessions
already_revoked-end_sessions jti keep uid now [] denied h = h
already_revoked-end_sessions jti keep uid now (s ∷ ss) denied h =
    already_revoked-end_sessions jti keep uid now ss _
      (elim (Bool-cases (is_unexpired uid now s && not (is_kept keep s))) [
        | inl e ↦ rw (e, if◌then◌else◌) (already_revoked-deny_access jti now s denied h)
        | inr e ↦ rw (e, if◌then◌else◌) h
      ])

dead_until-end_sessions :
    (stored : Option String) (exp : ℕ) (keep : Option String) (uid now : ℕ) (ss : List Session)
    (denied : List RevokedToken)
    → is_dead_until now denied stored exp ≡ true
    → is_dead_until now (end_sessions keep uid now ss denied).1 stored exp ≡ true
dead_until-end_sessions none exp keep uid now ss denied h = refl
dead_until-end_sessions (some jti) exp keep uid now ss denied h =
    elim (Bool-cases (already_revoked jti denied)) [
      | inl e ↦
          rw (already_revoked-end_sessions jti keep uid now ss denied e)
            (or_true (jti == "" || leb exp now))
      | inr e ↦ ground arith
    ]

dead_until-deny_access :
    (now : ℕ) (s : Session) (denied : List RevokedToken)
    → is_dead_until now
        (deny_access now s denied)
        s.access_jti
        (or_else s.access_expires_at s.expires_at)
      ≡ true
unfolding deny_access
dead_until-deny_access now s denied = by_jti s.access_jti refl
  where
    by_jti :
        (stored : Option String)
        → s.access_jti ≡ stored
        → is_dead_until now
            (deny_access now s denied)
            s.access_jti
            (or_else s.access_expires_at s.expires_at)
          ≡ true
    by_jti none e = rw e refl
    by_jti (some jti) e =
        rw e (elim (Bool-cases (jti == "" || leb (or_else s.access_expires_at s.expires_at) now)) [
          | inl k ↦ rw (k, if◌then◌else◌) (ground arith)
          | inr k ↦
              rw
                (
                  k,
                  if◌then◌else◌,
                  already_revoked-deny jti (or_else s.access_expires_at s.expires_at) denied,
                )
                (ground arith)
        ])

-- Every session that the loop comes to is ended, and it comes to all that are not spared.
end_sessions-ended :
    (keep : Option String) (uid now : ℕ) (ss : List Session) (denied : List RevokedToken)
    → All
        (λ s.
          (is_unexpired uid now s && not (is_kept keep s)) ≡ true
          → is_ended now (end_sessions keep uid now ss denied).1 s ≡ true)
        (end_sessions keep uid now ss denied).0
unfolding end_sessions
end_sessions-ended keep uid now [] denied = tt
end_sessions-ended keep uid now (s ∷ ss) denied =
    elim (Bool-cases (is_unexpired uid now s && not (is_kept keep s))) [
      | inl e ↦
          rw (e, if◌then◌else◌)
            (
              λ _.
                  dead_until-end_sessions s.access_jti (or_else s.access_expires_at s.expires_at)
                    keep uid now ss (deny_access now s denied)
                    (dead_until-deny_access now s denied),
              All-map _ _ (end_sessions keep uid now ss (deny_access now s denied)).0
                  (λ x h k. rw (e, if◌then◌else◌) (h k))
                  (end_sessions-ended keep uid now ss (deny_access now s denied)),
            )
      | inr e ↦
          rw (e, if◌then◌else◌)
            (
              λ k. cc,
              All-map _ _ (end_sessions keep uid now ss denied).0
                  (λ x h k. rw (e, if◌then◌else◌) (h k))
                  (end_sessions-ended keep uid now ss denied),
            )
    ]

-- After `logout_everywhere`, every session of the account that has not expired is ended, those
-- rotated away by a refresh included: its refresh token is revoked, and its access token is missing,
-- expired or on the denylist.
pub logout_everywhere_ends_sessions :
    (user : User) (w : World)
    → All
        (λ s.
          is_unexpired user.id w.now s ≡ true
          → is_ended w.now (logout_everywhere user w).1.revoked_tokens s ≡ true)
        (logout_everywhere user w).1.sessions
unfolding logout_everywhere revoke_all_sessions
logout_everywhere_ends_sessions user w =
    All-map _ _ (end_sessions none user.id w.now w.sessions w.revoked_tokens).0
      (λ s h live. h (rw live refl))
      (end_sessions-ended none user.id w.now w.sessions w.revoked_tokens)
