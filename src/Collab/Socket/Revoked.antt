-- ===== src/Collab/Socket/Revoked.antt =====
-- A socket whose access is gone, over the arrivals that are left to it
-- (app/modules/collab/router.py).
use prompt_studio_backend.Prelude.{
  ℕ, ◌≤◌, ◌≡◌, refl, ap, ◌∙◌, ◌⊎◌, inl, inr, true, false, some, List, [], ◌∷◌, arith, if◌then◌else◌,
  is_some, Bool-cases, Option-cases, All,
}
use prompt_studio_backend.Auth.Sessions.{is_token_revoked}
use prompt_studio_backend.Collab.Socket.{
  Socket, Loop, Arrival, Round, go, stop, Ending, reload_user, still_authorised, left,
}
use prompt_studio_backend.Collab.Socket.Answers.{Kept}
use prompt_studio_backend.Collab.Socket.Kept.{HasDict, IsOut, leave_room-IsOut}
use prompt_studio_backend.Collab.Socket.Rounds.{
  Stopped, IsUnauthorised, round_of-Stopped, round_of-Kept,
}
use prompt_studio_backend.Collab.Socket.Serve.{after_round, serve}
use prompt_studio_backend.Core.Errors.{AppError}
use prompt_studio_backend.Core.Roles.{ProjectRole}
use prompt_studio_backend.Projects.Access.{ProjectAccess, resolve_access}
use prompt_studio_backend.Projects.Access.Decision.{
  decision, granted_role, visible_project, membership_row, resolve_access_decides,
}
use prompt_studio_backend.Projects.Schemas.{JsonLibrary}
use prompt_studio_backend.Store.{User, World}
use prompt_studio_backend.Store.Action.{Result, Action, continue, rollback, attempted, ok, err}

-- The token is revoked, or the account is not live, or the project does not let it in.
abbrev pub IsDenied : Socket → World → Type 0
IsDenied s w =
    (is_token_revoked s.access_jti (rollback w) ≡ true)
    ⊎ ((user : User)
        → reload_user s.user.id (rollback w) ≡ some user
        → (e : AppError) × (decision (visible_project s.connection.project_id (rollback w))
              (membership_row s.connection.project_id user (rollback w)) ProjectRole.viewer
            ≡ err e))

refused_access :
    (r : Result ProjectAccess) {e : AppError}
    → granted_role r ≡ err e
    → is_some (attempted r) ≡ false
refused_access (ok access) h = cc
refused_access (err e) h = refl

IsDenied-IsUnauthorised : (s : Socket) (w : World) → IsDenied s w → IsUnauthorised s w
unfolding still_authorised
IsDenied-IsUnauthorised s w (inl revoked) = rw (revoked, if◌then◌else◌) refl
IsDenied-IsUnauthorised s w (inr closed) =
    elim (Bool-cases (is_token_revoked s.access_jti (rollback w))) [
      | inl e ↦ rw (e, if◌then◌else◌) refl
      | inr e ↦
          rw (e, if◌then◌else◌)
            (elim (Option-cases (reload_user s.user.id (rollback w))) [
              | inl absent ↦ rw absent refl
              | inr (user, found) ↦
                  let (x, out) = closed user found in
                  rw found (
                    ap ok (
                      refused_access
                        (resolve_access s.connection.project_id user ProjectRole.viewer
                          (rollback w)).0
                        (resolve_access_decides s.connection.project_id user ProjectRole.viewer
                            (rollback w)
                          ∙ out)))
            ])
    ]

-- What the others do leaves the rooms a dict and the caller without access, in any world.
abbrev pub Denies : Socket → Arrival → Type 0
Denies s a = (w : World) → HasDict w → HasDict (a.meanwhile w) × IsDenied s (a.meanwhile w)

-- Something arrives at or after `d`.
abbrev pub IsReached : ℕ → List Arrival → Type 0
IsReached d [] = ⊥
IsReached d (a ∷ arrivals) = ((w : World) → d ≤ (a.meanwhile w).now) ⊎ IsReached d arrivals

abbrev pub HasLeft : Socket → Result Ending × World → Type 0
HasLeft s (r, w) = (r ≡ ok left) × IsOut s.connection w

module _ (d : ℕ) (json : JsonLibrary) (s : Socket) where
  after_round-HasLeft :
      (next : Loop → Action Ending) (r : Result Round) (w : World)
      → Kept d (r, w)
      → ((loop : Loop) → loop.deadline ≤ d → HasDict w → HasLeft s (next loop w))
      → HasLeft s (continue (r, w) (after_round s.connection next))
  unfolding after_round
  after_round-HasLeft next (ok (go loop)) w k h = h loop k.0 k.1
  after_round-HasLeft next (ok stop) w k h = (refl, leave_room-IsOut s.connection w k)
  after_round-HasLeft next (err e) w k h = absurd k

  Stopped-HasLeft :
      (next : Loop → Action Ending) (r : Result Round) (w : World)
      → Stopped (r, w)
      → HasLeft s (continue (r, w) (after_round s.connection next))
  unfolding after_round
  Stopped-HasLeft next (ok (go loop)) w (e, i) = cc
  Stopped-HasLeft next (ok stop) w (e, i) = (refl, leave_room-IsOut s.connection w i)
  Stopped-HasLeft next (err x) w (e, i) = cc

  -- Once the token is revoked, or the account is off, or the project no longer lets it in, the socket
  -- is out of its room and its loop has ended by the first arrival at or after its deadline: whatever
  -- the client sends, pings included, and whatever else happens between its messages, as long as the
  -- access stays gone and the rooms a dict.
  pub revoked_socket_leaves :
      (arrivals : List Arrival) (loop : Loop) (w : World)
      → loop.deadline ≤ d
      → HasDict w
      → All (Denies s) arrivals
      → IsReached d arrivals
      → HasLeft s (serve json s arrivals loop w)
  unfolding serve
  revoked_socket_leaves [] loop w le i denied reached = absurd reached
  revoked_socket_leaves (a ∷ arrivals) loop w le i (denies, denied) (inl due) =
      let (i', gone) = denies w i in
      Stopped-HasLeft _ _ _ (
        round_of-Stopped d json s a.event loop (a.meanwhile w) (omega (arith, due w)) i'
          (IsDenied-IsUnauthorised s _ gone))
  revoked_socket_leaves (a ∷ arrivals) loop w le i (denies, denied) (inr later) =
      let (i', gone) = denies w i in
      after_round-HasLeft (serve json s arrivals) _ _
        (round_of-Kept d json s a.event loop (a.meanwhile w) le i'
          (IsDenied-IsUnauthorised s _ gone))
        (λ loop' le' i''. revoked_socket_leaves arrivals loop' _ le' i'' denied later)
