-- ===== src/Projects/Comments/Authors.antt =====
-- Whose words a comment is.
use mathlib.Core.Option
use mathlib.Core.Path.{subst}
use prompt_studio_backend.Prelude.{
  ℕ, String, ◌≡◌, refl, sym, ap, ◌∙◌, ◌≢◌, ◌⊎◌, inl, inr, Bool, true, false, not, ◌&&◌, ◌||◌,
  Option, none, some, arith, if◌then◌else◌, ◌!=◌, ◌==◌, nat_beq_iff, nat_eq, holds, is_some,
  or_else, Bool-cases, Option-cases, holds-some, some-injective, first_where-holds,
  first_where-update_where,
}
use prompt_studio_backend.Core.Errors.{AppError, not_found_error}
use prompt_studio_backend.Core.Roles.{ProjectRole, project_role_number_iff}
use prompt_studio_backend.Projects.Access.{ProjectAccess, is_owner}
use prompt_studio_backend.Projects.Comments.{
  CommentUpdate, comment_of, resolve, edited, update_comment, trashed, delete_comment,
}
use prompt_studio_backend.Store.{User, ProjectComment, World}
use prompt_studio_backend.Store.Action.{Result, Action, ◌>>=◌, bind-from, raise_if-then, ok, err}
use prompt_studio_backend.Store.Rows.{get_comment, update_comment_row}

-- A comment that is there, or a refusal.
comment_of-cases :
    (pid comment_id : ℕ) (w : World)
    → ((row : ProjectComment) × (get_comment row.id w ≡ some row)
        × (comment_of pid comment_id w ≡ (ok row, w)))
      ⊎ ((e : AppError) × (comment_of pid comment_id w ≡ (err e, w)))
unfolding comment_of
comment_of-cases pid comment_id w = elim (Option-cases (get_comment comment_id w)) [
  | inl absent ↦ inr (not_found_error "Comment not found", rw absent refl)
  | inr (row, found) ↦ elim (Bool-cases (row.project_id != pid || row.is_deleted)) [
    | inl e ↦ inr (not_found_error "Comment not found", rw (found, e) refl)
    | inr e ↦ inl (
      row,
      subst (λ key. get_comment key w ≡ some row)
          (sym (
            (nat_beq_iff row.id comment_id).0
              (first_where-holds (λ (r : ProjectComment). r.id == comment_id) w.comments found)))
          found,
      rw (found, e) refl,
    )
  ]
]

comment_of-then :
    {A : Type 0} (P : Result A × World → Type 0) (pid comment_id : ℕ)
    (k : ProjectComment → Action A) (w : World)
    → ((e : AppError) → P (err e, w))
    → ((row : ProjectComment) → get_comment row.id w ≡ some row → P (k row w))
    → P ((comment_of pid comment_id >>= k) w)
comment_of-then P pid comment_id k w refused h = elim (comment_of-cases pid comment_id w) [
  | inr (e, absent) ↦ bind-from P (comment_of pid comment_id) k w absent (refused e)
  | inl (row, found, is) ↦ bind-from P (comment_of pid comment_id) k w is (h row found)
]

-- The words of a comment.
abbrev pub words : ℕ → World → Option String
words key w = Option.map (λ (c : ProjectComment). c.body) (get_comment key w)

body-resolve :
    (resolved : Option Bool) (user : User) (now : ℕ) (c : ProjectComment)
    → (resolve resolved user now c).body ≡ c.body
body-resolve none user now c = refl
body-resolve (some true) user now c = refl
body-resolve (some false) user now c = refl

id-edited :
    (change : CommentUpdate) (user : User) (now : ℕ) (c : ProjectComment)
    → (edited change user now c).id ≡ c.id
id-edited change user now c = id-resolve change.resolved
  where
    id-resolve :
        (resolved : Option Bool)
        → (resolve resolved user now (record c { body = or_else change.body c.body })).id ≡ c.id
    id-resolve none = refl
    id-resolve (some true) = refl
    id-resolve (some false) = refl

-- A comment read after one comment was written.
get_comment-update :
    (key at : ℕ) (f : ProjectComment → ProjectComment) (w : World) {c : ProjectComment}
    → ((x : ProjectComment) → (f x).id ≡ x.id)
    → get_comment key w ≡ some c
    → get_comment key (update_comment_row at f w) ≡ some (if key == at then f c else c)
get_comment-update key at f w {c} same found =
    first_where-update_where (λ (x : ProjectComment). x.id) f key at w.comments same
    ∙ elim (Bool-cases (key == at)) [
      | inl e ↦ rw (e, found, if◌then◌else◌) refl
      | inr e ↦ rw (e, found, if◌then◌else◌) refl
    ]

-- The comment under a key is the one that the operation is on.
same_comment :
    (key : ℕ) (w : World) {c row : ProjectComment}
    → get_comment key w ≡ some c
    → get_comment row.id w ≡ some row
    → (key == row.id) ≡ true
    → row ≡ c
same_comment key w {c} {row} found there e =
    some-injective
      (sym there ∙ ap (λ k. get_comment k w) (sym ((nat_beq_iff key row.id).0 e)) ∙ found)

not_holds : (o : Option ℕ) (uid : ℕ) → o ≢ some uid → holds o uid ≡ false
not_holds o uid h = elim (Bool-cases (holds o uid)) [
  | inl e ↦ absurd (h (holds-some o uid e))
  | inr e ↦ e
]

-- Whatever `update_comment` is asked to do, and by whom, a comment that somebody else wrote keeps
-- its words.
pub update_comment_keeps_words :
    (access : ProjectAccess) (user : User) (comment_id key : ℕ) (change : CommentUpdate) (w : World)
    {c : ProjectComment}
    → get_comment key w ≡ some c
    → c.author_id ≢ some user.id
    → words key (update_comment access user comment_id change w).1 ≡ some c.body
unfolding update_comment
update_comment_keeps_words access user comment_id key change w {c} found other =
    comment_of-then Same access.project.id comment_id _ w (λ e. rw found refl)
      λ row there.
        raise_if-then Same (is_some change.body && not (holds row.author_id user.id)) _ _ w
          (rw found refl)
          λ allowed.
            ap (Option.map (λ (x : ProjectComment). x.body)) (
              get_comment-update key row.id (edited change user w.now) w
                (id-edited change user w.now) found)
            ∙ elim (Bool-cases (key == row.id)) [
              | inl e ↦
                  let mine = same_comment key w found there e in
                  let stranger =
                    not_holds row.author_id user.id
                      (λ k. other (ap (λ (x : ProjectComment). x.author_id) (sym mine) ∙ k)) in
                  rw (e, if◌then◌else◌)
                    (ap some (
                      body-resolve change.resolved user w.now
                        (record c { body = or_else change.body c.body })
                      ∙ kept change.body (ground arith)))
              | inr e ↦ rw (e, if◌then◌else◌) refl
            ]
  where
    Same : Result ProjectComment × World → Type 0
    Same r = words key r.1 ≡ some c.body

    kept : (sent : Option String) → is_some sent ≡ false → or_else sent c.body ≡ c.body
    kept none h = refl
    kept (some s) h = cc

-- A comment is deleted by its author or by an owner of the project: anybody else's
-- `delete_comment` leaves it as it was.
pub delete_comment_keeps_others :
    (access : ProjectAccess) (user : User) (comment_id key : ℕ) (w : World) {c : ProjectComment}
    → get_comment key w ≡ some c
    → c.author_id ≢ some user.id
    → access.role ≢ ProjectRole.owner
    → get_comment key (delete_comment access user comment_id w).1 ≡ some c
unfolding delete_comment is_owner
delete_comment_keeps_others access user comment_id key w {c} found other standing =
    comment_of-then Same access.project.id comment_id _ w (λ e. found)
      λ row there.
        raise_if-then Same (not (holds row.author_id user.id) && not (is_owner access)) _ _ w found
          λ allowed.
            get_comment-update key row.id (trashed user w.now) w (λ x. refl) found
            ∙ elim (Bool-cases (key == row.id)) [
              | inl e ↦
                  let mine = same_comment key w found there e in
                  let stranger =
                    not_holds row.author_id user.id
                      (λ k. other (ap (λ (x : ProjectComment). x.author_id) (sym mine) ∙ k)) in
                  absurd (
                    standing
                      ((project_role_number_iff access.role ProjectRole.owner).0 (ground arith)))
              | inr e ↦ rw (e, if◌then◌else◌) refl
            ]
  where
    Same : Result (Unit {0}) × World → Type 0
    Same r = get_comment key r.1 ≡ some c
