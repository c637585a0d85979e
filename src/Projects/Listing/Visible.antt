-- ===== src/Projects/Listing/Visible.antt =====
-- The query of `list_projects` beside the check of `resolve_access` (app/modules/projects).
use prompt_studio_backend.Prelude.{
  ℕ, ◌≡◌, refl, sym, ap, ◌∙◌, inl, inr, Bool, true, false, not, ◌&&◌, Option, none, some, List, [],
  ◌∷◌, arith, if◌then◌else◌, ◌==◌, nat_beq_iff, nat_eq, is_some, Bool-cases, and_false,
  select_where, first_where, any_where,
}
use prompt_studio_backend.Core.Errors.{authorization_error}
use prompt_studio_backend.Core.Roles.{ProjectRole, rank, at_least}
use prompt_studio_backend.Projects.Access.{is_membership, resolve_access}
use prompt_studio_backend.Projects.Access.Decision.{
  decision, granted_role, visible_project, membership_row, resolve_access_decides,
}
use prompt_studio_backend.Projects.Listing.{is_joined, visible_projects}
use prompt_studio_backend.Store.{User, Project, ProjectMember, World}
use prompt_studio_backend.Store.Action.{Result, ok, err}
use prompt_studio_backend.Core.ErrorMessage

module _ {ℓ} {A : Type ℓ} where
  any_where-select_where :
      (q r : A → Bool) (xs : List A)
      → any_where q (select_where r xs) ≡ any_where (λ x. q x && r x) xs
  unfolding any_where select_where
  any_where-select_where q r [] = refl
  any_where-select_where q r (x ∷ xs) = elim (Bool-cases (r x)) [
    | inl e ↦
        rw (e, any_where-select_where q r xs)
          (elim (Bool-cases (q x)) [ inl k ↦ rw k refl | inr k ↦ rw k refl ])
    | inr e ↦ rw (e, and_false (q x)) (any_where-select_where q r xs)
  ]

  any_where-ext :
      (q r : A → Bool) (xs : List A) → ((x : A) → q x ≡ r x) → any_where q xs ≡ any_where r xs
  unfolding any_where
  any_where-ext q r [] h = refl
  any_where-ext q r (x ∷ xs) h = rw (h x, any_where-ext q r xs h) refl

  any_where-and :
      (q : A → Bool) (k : Bool) (xs : List A) → any_where (λ x. q x && k) xs ≡ (any_where q xs && k)
  unfolding any_where
  any_where-and q k [] = refl
  any_where-and q k (x ∷ xs) =
      rw (any_where-and q k xs)
        (elim (Bool-cases (q x)) [ inl e ↦ rw e (ground arith) | inr e ↦ rw e refl ])

  any_where-first_where : (q : A → Bool) (xs : List A) → any_where q xs ≡ is_some (first_where q xs)
  unfolding any_where first_where
  any_where-first_where q [] = refl
  any_where-first_where q (x ∷ xs) = elim (Bool-cases (q x)) [
    | inl e ↦ rw e refl
    | inr e ↦ rw e (any_where-first_where q xs)
  ]

abbrev pub is_granted : Result ProjectRole → Bool
is_granted (ok role) = true
is_granted (err e) = false

joined-here :
    (pid : ℕ) (user : User) (members : List ProjectMember) (p : Project)
    → ((p.id == pid) && (not p.is_deleted && is_joined user members p))
      ≡ ((p.id == pid && not p.is_deleted) && any_where (is_membership pid user) members)
joined-here pid user members p = elim (Bool-cases (p.id == pid)) [
  | inr e ↦ rw e refl
  | inl e ↦
      let same : p.id ≡ pid = (nat_beq_iff p.id pid).0 e in
      rw e (ap (λ key. not p.is_deleted && any_where (is_membership key user) members) same)
]

decision-viewer :
    (project : Option Project) (row : Option ProjectMember)
    → (is_some project && is_some row) ≡ is_granted (decision project row ProjectRole.viewer)
unfolding at_least rank
decision-viewer none row = refl
decision-viewer (some project) none = refl
decision-viewer (some project) (some row) = any_role row.role
  where
    any_role :
        (role : ProjectRole)
        → true
          ≡ is_granted (
              if at_least role ProjectRole.viewer
              then ok role
              else err (authorization_error ErrorMessage.project_role_too_low))
    any_role ProjectRole.owner = refl
    any_role ProjectRole.editor = refl
    any_role ProjectRole.commenter = refl
    any_role ProjectRole.viewer = refl

-- A project is among those that the list is made of exactly if the caller may open it: the query of
-- the list and the check of access never disagree.
pub visible_projects_agree :
    (pid : ℕ) (user : User) (w : World)
    → any_where (λ p. p.id == pid) (visible_projects user w)
      ≡ is_granted (granted_role (resolve_access pid user ProjectRole.viewer w).0)
unfolding visible_projects
visible_projects_agree pid user w =
    any_where-select_where (λ (p : Project). p.id == pid)
      (λ p. not p.is_deleted && is_joined user w.members p) w.projects
    ∙ any_where-ext _ _ w.projects (joined-here pid user w.members)
    ∙ any_where-and (λ (p : Project). p.id == pid && not p.is_deleted)
        (any_where (is_membership pid user) w.members) w.projects
    ∙ rw
        (
          any_where-first_where (λ (p : Project). p.id == pid && not p.is_deleted) w.projects,
          any_where-first_where (is_membership pid user) w.members,
        )
        (decision-viewer (visible_project pid w) (membership_row pid user w))
    ∙ ap is_granted (sym (resolve_access_decides pid user ProjectRole.viewer w))
