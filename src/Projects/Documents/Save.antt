-- ===== src/Projects/Documents/Save.antt =====
-- One save, accepted or refused (`save_doc` of app/modules/projects/service.py).
use mathlib.Core.Option
use prompt_studio_backend.Prelude.{
  ℕ, ◌+◌, String, ◌≡◌, refl, ◌∙◌, inl, inr, Bool, true, false, ◌||◌, Option, none, some, List, [],
  ◌∷◌, if◌then◌else◌, ◌==◌, nat_eq, is_none, or_else, Bool-cases, first_where,
}
use prompt_studio_backend.Core.Errors.{AppError}
use prompt_studio_backend.Core.Json.{is_blank}
use prompt_studio_backend.Projects.Access.{ProjectAccess}
use prompt_studio_backend.Projects.Documents.{
  ProjectDocSave, reload, delete_versions, prune_auto_versions, version_row, snapshot,
  stale_document, check_base, saved, is_given, snapshot_before, finish_doc, save_doc,
}
use prompt_studio_backend.Projects.Feed.{record_edit}
use prompt_studio_backend.Projects.Feed.Docs.{
  doc_of, KeepsDocs, doc_of-update_where, record_edit-KeepsDocs, record_edit-ok,
}
use prompt_studio_backend.Store.{User, Project, ProjectVersion, World}
use prompt_studio_backend.Store.Action.{
  Result, Action, pure, gets, ◌>>◌, then-ok, when, commit, ok, err,
}
use prompt_studio_backend.Store.Rows.{update_project, add_version, delete_version}

projects-delete_versions :
    (stale : List ProjectVersion) (w : World) → (delete_versions stale w).projects ≡ w.projects
unfolding delete_versions
projects-delete_versions [] w = refl
projects-delete_versions (v ∷ stale) w = projects-delete_versions stale (delete_version v.id w)

-- A snapshot never raises, and leaves the projects alone.
abbrev pub Quiet : {A : Type 0} → Action A → World → Type 0
Quiet {A} m w = (a : A) × ((m w).0 ≡ ok a) × ((m w).1.projects ≡ w.projects)

pub snapshot-Quiet :
    (project : Project) (user : User) (label : String) (is_auto : Bool) (w : World)
    → Quiet (snapshot project user label is_auto) w
unfolding snapshot prune_auto_versions
snapshot-Quiet project user label true w = elim (Bool-cases (is_blank project.doc)) [
  | inl e ↦ rw (e, if◌then◌else◌) (none, refl, refl)
  | inr e ↦
      rw (e, if◌then◌else◌)
        (
          some (version_row w.next_id project user label true w.now),
          refl,
          projects-delete_versions _ (
              add_version (version_row w.next_id project user label true w.now)
                (record w { next_id = w.next_id + 1 })),
        )
]
snapshot-Quiet project user label false w = elim (Bool-cases (is_blank project.doc)) [
  | inl e ↦ rw (e, if◌then◌else◌) (none, refl, refl)
  | inr e ↦
      rw (e, if◌then◌else◌)
        (some (version_row w.next_id project user label false w.now), refl, refl)
]

snapshot_before-Quiet :
    (project : Project) (user : User) (body : ProjectDocSave) (take_snapshot : Bool) (w : World)
    → Quiet (snapshot_before project user body take_snapshot) w
unfolding snapshot_before
snapshot_before-Quiet project user body take_snapshot w =
    elim (Bool-cases (take_snapshot || is_given body.label)) [
      | inl e ↦
          let kept = snapshot-Quiet project user (or_else body.label "") (is_none body.label) w in
          rw
            (
              e,
              when,
              then-ok (snapshot project user (or_else body.label "") (is_none body.label)) (pure tt)
                  w kept.1,
            )
            (tt, refl, kept.2)
      | inr e ↦ rw (e, when) (tt, refl, refl)
    ]

when-record_edit-ok :
    (activity : Bool) (project : Project) (user : User) (to_version : ℕ) (w : World)
    → (when activity (record_edit project user to_version) w).0 ≡ ok tt
when-record_edit-ok true project user to_version w = record_edit-ok project user to_version w
when-record_edit-ok false project user to_version w = refl

when-record_edit-KeepsDocs :
    (activity : Bool) (project : Project) (user : User) (to_version : ℕ)
    → KeepsDocs (when activity (record_edit project user to_version))
when-record_edit-KeepsDocs true project user to_version pid w =
    record_edit-KeepsDocs project user to_version pid w
when-record_edit-KeepsDocs false project user to_version pid w = refl

-- The documents after an accepted save: the new one at the next version, every other as it was.
abbrev pub SavedOver : ProjectDocSave → Project → World → Result Project × World → Type 0
SavedOver body project w (r, w') =
    (r ≡ ok (reload project w'))
    × ((pid : ℕ)
        → doc_of pid w'.projects ≡ (
            if pid == project.id
            then Option.map (λ (p : Project). (body.doc, p.doc_version + 1))
                (first_where (λ p. p.id == pid) w.projects)
            else doc_of pid w.projects))
    × (w'.committed ≡ w'.db)

finish_doc-SavedOver :
    (project : Project) (user : User) (body : ProjectDocSave) (activity : Bool) (w : World)
    → SavedOver body project w (finish_doc project user body activity w)
unfolding finish_doc
finish_doc-SavedOver project user body activity w =
    rw
      (then-ok (when activity (record_edit project user (project.doc_version + 1)))
        (commit >> gets (reload project)) written
        (when-record_edit-ok activity project user (project.doc_version + 1) written))
      (
        refl,
        λ pid.
            when-record_edit-KeepsDocs activity project user (project.doc_version + 1) pid written
            ∙ doc_of-update_where (saved body user w.now) project.id pid w.projects (λ p. refl),
        refl,
      )
  where
    written : World
    written = update_project project.id (saved body user w.now) w

-- A save whose version check passes.
accepted-SavedOver :
    (project : Project) (user : User) (body : ProjectDocSave) (take_snapshot activity : Bool)
    (w : World)
    → SavedOver body project w (
        (do snapshot_before project user body take_snapshot; finish_doc project user body activity)
          w)
accepted-SavedOver project user body take_snapshot activity w =
    let kept = snapshot_before-Quiet project user body take_snapshot w in
    rw
      (then-ok (snapshot_before project user body take_snapshot)
        (finish_doc project user body activity) w kept.1)
      (rw kept.2 at (
        finish_doc-SavedOver project user body activity
          (snapshot_before project user body take_snapshot w).1))

-- What the save is refused with, if it is.
abbrev pub refusal : Option ℕ → ℕ → Option AppError
refusal none current = none
refusal (some sent) current = if sent == current then none else some (stale_document current sent)

abbrev pub SaveSpec :
    ProjectDocSave → Project → World → Option AppError → Result Project × World → Type 0
SaveSpec body project w none after = SavedOver body project w after
SaveSpec body project w (some e) after = after ≡ (err e, w)

check_base-SaveSpec :
    (base : Option ℕ) (current : ℕ) (m : Action Project) (body : ProjectDocSave) (project : Project)
    (w : World)
    → SavedOver body project w (m w)
    → SaveSpec body project w (refusal base current) ((check_base base current >> m) w)
unfolding check_base
check_base-SaveSpec none current m body project w s = s
check_base-SaveSpec (some sent) current m body project w s = elim (Bool-cases (sent == current)) [
  | inl e ↦ rw (e, if◌then◌else◌) s
  | inr e ↦ rw (e, if◌then◌else◌)
]

-- A save whose `base_version` is not the stored version is refused with a conflict that carries both
-- numbers, and changes nothing at all. Any other save, with no `base_version` or with the stored
-- one, returns the project as it then stands, with the sent document at the next version, leaves
-- every other project's document and version alone, and commits.
pub save_doc_checks_version :
    (access : ProjectAccess) (user : User) (body : ProjectDocSave) (take_snapshot activity : Bool)
    (w : World)
    → SaveSpec body
        (reload access.project w)
        w
        (refusal body.base_version (reload access.project w).doc_version)
        (save_doc access user body take_snapshot activity w)
unfolding save_doc
save_doc_checks_version access user body take_snapshot activity w =
    check_base-SaveSpec body.base_version (reload access.project w).doc_version _ body
      (reload access.project w) w
      (accepted-SavedOver (reload access.project w) user body take_snapshot activity w)
