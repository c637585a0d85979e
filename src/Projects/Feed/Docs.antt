-- ===== src/Projects/Feed/Docs.antt =====
-- The feed beside the documents (app/modules/projects/service.py).
use mathlib.Core.Option
use prompt_studio_backend.Prelude.{
  ℕ, String, ◌≡◌, refl, ◌∙◌, inl, inr, Option, none, some, List, arith, if◌then◌else◌, ◌==◌, nat_eq,
  Option-cases, first_where, update_where, first_where-update_where,
}
use prompt_studio_backend.Core.Json.{Fields}
use prompt_studio_backend.Core.Roles.{ActivityType}
use prompt_studio_backend.Projects.Feed.{
  touch_project, add_activity, open_session, continue_edit, record_edit,
}
use prompt_studio_backend.Store.{User, Project, ProjectActivity, World}
use prompt_studio_backend.Store.Action.{Action, ok}

-- What other sessions compare and overwrite: a project's document and its version.
abbrev pub doc_of : ℕ → List Project → Option (Fields × ℕ)
doc_of pid ps =
    Option.map (λ (p : Project). (p.doc, p.doc_version)) (first_where (λ p. p.id == pid) ps)

-- An action that leaves every document as it was.
abbrev pub KeepsDocs : {A : Type 0} → Action A → Type 0
KeepsDocs m = (pid : ℕ) (w : World) → doc_of pid (m w).1.projects ≡ doc_of pid w.projects

pub doc_of-update_where :
    (f : Project → Project) (key pid : ℕ) (ps : List Project)
    → ((p : Project) → (f p).id ≡ p.id)
    → doc_of pid (update_where (λ p. p.id == key) f ps) ≡ (
        if pid == key
        then Option.map
            (λ (p : Project). ((f p).doc, (f p).doc_version))
            (first_where (λ p. p.id == pid) ps)
        else doc_of pid ps)
doc_of-update_where f key pid ps h =
    rw (first_where-update_where (λ (p : Project). p.id) f pid key ps h) (ground arith)

pub doc_of-update_kept :
    (f : Project → Project) (key pid : ℕ) (ps : List Project)
    → ((p : Project)
        → ((f p).id ≡ p.id) × ((f p).doc ≡ p.doc) × ((f p).doc_version ≡ p.doc_version))
    → doc_of pid (update_where (λ p. p.id == key) f ps) ≡ doc_of pid ps
doc_of-update_kept f key pid ps h =
    doc_of-update_where f key pid ps (λ p. (h p).0)
    ∙ elim (Option-cases (first_where (λ (p : Project). p.id == pid) ps)) [
      | inl e ↦ ground arith
      | inr (p, e) ↦ ground (arith, h p)
    ]

pub touch_project-KeepsDocs : (key : ℕ) → KeepsDocs (touch_project key)
touch_project-KeepsDocs key pid w =
    doc_of-update_kept (λ p. record p { last_activity_at = some w.now }) key pid w.projects
      (λ p. (refl, refl, refl))

pub add_activity-KeepsDocs :
    (project : Project) (actor : Option User) (kind : ActivityType) (summary : String)
    (meta : List (String × ℕ))
    → KeepsDocs (add_activity project actor kind summary meta)
unfolding add_activity
add_activity-KeepsDocs project actor kind summary meta pid w =
    doc_of-update_kept (λ p. record p { last_activity_at = some w.now }) project.id pid w.projects
      (λ p. (refl, refl, refl))

continue_edit-KeepsDocs :
    (project : Project) (user : User) (to_version now : ℕ) (row : Option ProjectActivity)
    → KeepsDocs (continue_edit project user to_version now row)
unfolding continue_edit
continue_edit-KeepsDocs project user to_version now none pid w =
    add_activity-KeepsDocs project (some user) ActivityType.project_updated _ _ pid w
continue_edit-KeepsDocs project user to_version now (some row) pid w =
    doc_of-update_kept (λ p. record p { last_activity_at = some w.now }) project.id pid w.projects
      (λ p. (refl, refl, refl))

pub record_edit-KeepsDocs :
    (project : Project) (user : User) (to_version : ℕ)
    → KeepsDocs (record_edit project user to_version)
unfolding record_edit
record_edit-KeepsDocs project user to_version pid w =
    continue_edit-KeepsDocs project user to_version w.now (open_session project user w) pid w

-- Noting an edit never raises.
pub record_edit-ok :
    (project : Project) (user : User) (to_version : ℕ) (w : World)
    → (record_edit project user to_version w).0 ≡ ok tt
unfolding record_edit continue_edit add_activity
record_edit-ok project user to_version w = elim (Option-cases (open_session project user w)) [
  | inl e ↦ rw (e, continue_edit)
  | inr (row, e) ↦ rw (e, continue_edit)
]
