-- ===== src/Auth/Login/Lockout.antt =====
-- The lock on an account that is being guessed at (`authenticate` of app/modules/auth/service.py).
use mathlib.Core.Option
use prompt_studio_backend.Prelude.{
  ℕ, ◌+◌, ◌*◌, ◌≤◌, ◌<◌, String, ◌≡◌, refl, ap, ◌∙◌, inl, inr, true, false, Option, none, some,
  List, [], ◌∷◌, arith, leb, ◌==◌, nat_eq, string_eq, or_else, lt→ltb, Bool-cases, beq_refl, length,
  first_where, All, All-map, first_where-written,
}
use prompt_studio_backend.Auth.Login.{
  LoginResponse, counted_failure, locked_out, lock_account, failures_of, register_failure,
  matching_credentials, sign_in, authenticate,
}
use prompt_studio_backend.Auth.Tokens.{TokenLibrary}
use prompt_studio_backend.Core.Errors.{AppError, authentication_error}
use prompt_studio_backend.Core.Text.{normalise_email}
use prompt_studio_backend.Projects.Feed.{record_audit}
use prompt_studio_backend.Projects.Members.{get_by_email}
use prompt_studio_backend.Store.{User, UserCredentials, World, minute}
use prompt_studio_backend.Store.Action.{Result, raise, continue, when, ok, err}
use prompt_studio_backend.Store.Rows.{get_user, update_user, get_credentials}
use prompt_studio_backend.Core.ErrorMessage

-- The account that the address and the id name may be tried with a password; it has failed so often.
abbrev pub IsTried : String → ℕ → User → World → Type 0
IsTried email failures u w =
    (get_by_email email w ≡ some u)
    × (get_user u.id w ≡ some u)
    × (u.is_deleted ≡ false)
    × (u.locked_until ≡ none)
    × (u.failed_login_count ≡ failures)

written :
    (email : String) (f : User → User) (u : User) (w : World)
    → ((x : User) → (f x).id ≡ x.id)
    → ((x : User) → (f x).email ≡ x.email)
    → get_by_email email w ≡ some u
    → get_user u.id w ≡ some u
    → (get_by_email email (update_user u.id f w) ≡ some (f u))
      × (get_user u.id (update_user u.id f w) ≡ some (f u))
unfolding get_by_email
written email f u w same_id same_email found there = (
  first_where-written (λ x. x.email == normalise_email email) (λ x. x.id == u.id) f w.users
      (λ x. rw same_email refl) found (beq_refl u.id),
  first_where-written (λ x. x.id == u.id) (λ x. x.id == u.id) f w.users (λ x. rw same_id refl) there
      (beq_refl u.id),
)

-- One failure more.
register_failure-IsTried :
    (email : String) (failures : ℕ) (u : User) (w : World)
    → IsTried email failures u w
    → failures + 1 < w.settings.max_failed_logins
    → IsTried email (failures + 1) (counted_failure u) (register_failure u w).1
unfolding register_failure get_by_email
register_failure-IsTried email failures u w (found, there, present, unlocked, count) few =
    let after = written email counted_failure u w (λ x. refl) (λ x. refl) found there in
    let counted : failures_of u.id (update_user u.id counted_failure w) ≡ failures + 1 =
      ap (λ o. or_else (Option.map (λ (x : User). x.failed_login_count) o) 0) after.1
      ∙ ap (λ n. n + 1) count in
    let open_still : leb w.settings.max_failed_logins
          (failures_of u.id (update_user u.id counted_failure w))
        ≡ false =
      rw counted (ground arith) in
    rw (open_still, when) (after.0, after.1, present, unlocked, ap (λ n. n + 1) count)

-- What a failure has nothing to do with.
register_failure-keeps :
    (u : User) (w : World)
    → ((register_failure u w).1.now ≡ w.now)
      × ((register_failure u w).1.settings ≡ w.settings)
      × ((register_failure u w).1.credentials ≡ w.credentials)
unfolding register_failure lock_account record_audit
register_failure-keeps u w =
    elim (Bool-cases
      (leb w.settings.max_failed_logins (failures_of u.id (update_user u.id counted_failure w)))) [
        | inl e ↦ rw (e, when) (refl, refl, refl)
        | inr e ↦ rw (e, when) (refl, refl, refl)
      ]

-- The failure that locks.
register_failure-locks :
    (email : String) (failures : ℕ) (u : User) (w : World)
    → IsTried email failures u w
    → w.settings.max_failed_logins ≤ failures + 1
    → get_by_email email (register_failure u w).1
      ≡ some (locked_out (w.now + w.settings.lockout_minutes * minute) (counted_failure u))
unfolding register_failure lock_account record_audit get_by_email
register_failure-locks email failures u w (found, there, present, unlocked, count) many =
    let after = written email counted_failure u w (λ x. refl) (λ x. refl) found there in
    let counted : failures_of u.id (update_user u.id counted_failure w) ≡ failures + 1 =
      ap (λ o. or_else (Option.map (λ (x : User). x.failed_login_count) o) 0) after.1
      ∙ ap (λ n. n + 1) count in
    let shut : leb w.settings.max_failed_logins
          (failures_of u.id (update_user u.id counted_failure w))
        ≡ true =
      rw counted (ground arith) in
    rw (shut, when)
      (written email (locked_out (w.now + w.settings.lockout_minutes * minute)) (counted_failure u)
        (update_user u.id counted_failure w) (λ x. refl) (λ x. refl) after.0 after.1).0

-- Time passes.
abbrev pub wait : ℕ → World → World
wait pause w = record w { now = w.now + pause }

wait-get_by_email :
    (pause : ℕ) (email : String) (w : World)
    → get_by_email email (wait pause w) ≡ get_by_email email w
unfolding get_by_email
wait-get_by_email pause email w = refl

wait-IsTried :
    (pause : ℕ) (email : String) (failures : ℕ) (u : User) (w : World)
    → IsTried email failures u w
    → IsTried email failures u (wait pause w)
unfolding get_by_email
wait-IsTried pause email failures u w tried = tried

module _ (library : TokenLibrary) (email : String) where
  -- A password that is not the one that the account's row holds.
  abbrev pub IsWrong : String → ℕ → World → Type 0
  IsWrong password uid w = matching_credentials library password (get_credentials uid w) ≡ none

  then-raise :
      {A : Type 0} (B : Type 0) (r : Result A × World) (e : AppError)
      → (continue {B = B} r (λ _. raise e)).1 ≡ r.1
  then-raise B (ok a, w) e = refl
  then-raise B (err x, w) e = refl

  sign_in-wrong :
      (u : User) (found : Option UserCredentials) (w : World)
      → found ≡ none
      → (sign_in library u found w).1 ≡ (register_failure u w).1
  unfolding sign_in
  sign_in-wrong u none w e = then-raise LoginResponse (register_failure u w) _
  sign_in-wrong u (some c) w e = cc

  -- Trying a wrong password on an account that may be tried counts a failure.
  authenticate-wrong :
      (password : String) (failures : ℕ) (u : User) (w : World)
      → IsTried email failures u w
      → IsWrong password u.id w
      → (authenticate library email password w).1 ≡ (register_failure u w).1
  unfolding authenticate
  authenticate-wrong password failures u w (found, _, present, unlocked, _) wrong =
      rw (found, present, unlocked, wrong)
        (sign_in-wrong (record u { locked_until = none; is_deleted = false }) none w refl)

  -- Once it is locked, no password is looked at.
  authenticate-locked :
      (password : String) (until : ℕ) (u : User) (w : World)
      → get_by_email email w ≡ some u
      → u.is_deleted ≡ false
      → u.locked_until ≡ some until
      → w.now < until
      → authenticate library email password w
        ≡ (err (authentication_error ErrorMessage.account_locked), w)
  unfolding authenticate
  authenticate-locked password until u w found present shut later =
      rw (found, present, shut, lt→ltb w.now until later) refl

  -- Wrong passwords, one after the other, each after a pause.
  pub guess : List (ℕ × String) → World → World
  guess [] w = w
  guess ((pause, password) ∷ guesses) w =
      guess guesses (authenticate library email password (wait pause w)).1

  -- Somebody who goes on guessing locks the account, however fast or slowly the guesses come: once
  -- the wrong passwords, together with the failures that were counted before, are as many as the
  -- settings allow, every attempt within the lock's minutes, of sixty million microseconds each, is
  -- refused and changes nothing, whatever its password, the right one included. The account is named
  -- by the address and by its id, is not deleted and not locked yet.
  pub guesses_lock_account :
      (guesses : List (ℕ × String)) (password : String) (later failures : ℕ) (u : User) (w : World)
      → IsTried email failures u w
      → All (λ g. IsWrong g.1 u.id w) guesses
      → failures + length guesses ≡ w.settings.max_failed_logins
      → failures < w.settings.max_failed_logins
      → later < w.settings.lockout_minutes * 60_000_000
      → authenticate library email password (wait later (guess guesses w))
        ≡ (err (authentication_error ErrorMessage.account_locked), wait later (guess guesses w))
  unfolding guess
  guesses_lock_account [] password later failures u w tried wrong all few soon =
      absurd (omega arith)
  guesses_lock_account ((pause, g) ∷ []) password later failures u w tried wrong all few soon =
      let w' = wait pause w in
      let there = wait-IsTried pause email failures u w tried in
      let v = (register_failure u w').1 in
      let kept = register_failure-keeps u w' in
      let until = w.now + pause + w.settings.lockout_minutes * minute in
      rw (authenticate-wrong g failures u w' there wrong.0) (
        authenticate-locked password until (locked_out until (counted_failure u)) (wait later v)
          (wait-get_by_email later email v
            ∙ register_failure-locks email failures u w' there (omega arith))
          tried.2 refl (rw kept.0 (omega arith)))
  guesses_lock_account ((pause, g) ∷ h ∷ guesses) password later failures u w tried wrong all few
        soon =
      let w' = wait pause w in
      let there = wait-IsTried pause email failures u w tried in
      let v = (register_failure u w').1 in
      let kept = register_failure-keeps u w' in
      let counted : guess ((pause, g) ∷ h ∷ guesses) w ≡ guess (h ∷ guesses) v =
        ap (guess (h ∷ guesses)) (authenticate-wrong g failures u w' there wrong.0) in
      rw counted (
        guesses_lock_account (h ∷ guesses) password later (failures + 1) (counted_failure u) v
          (register_failure-IsTried email failures u w' there (omega arith))
          (All-map _ _ (h ∷ guesses)
            (λ x k.
              ap
                (λ cs.
                  matching_credentials library x.1
                    (first_where (λ (c : UserCredentials). c.user_id == u.id) cs))
                kept.2
              ∙ k)
            wrong.1)
          (rw kept.1 (omega arith)) (rw kept.1 (omega arith)) (rw kept.1 soon))
