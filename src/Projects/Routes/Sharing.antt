-- ===== src/Projects/Routes/Sharing.antt =====
-- Whom a project belongs to and is shared with, under the handlers that an editor may reach
-- (app/modules/projects/router.py).
use prompt_studio_backend.Prelude.{
  ℕ, ◌+◌, String, ◌≡◌, refl, ◌∙◌, inl, inr, Bool, true, false, ◌&&◌, Option, none, some, List, [],
  ◌∷◌, map, if◌then◌else◌, ◌!=◌, ◌==◌, nat_eq, string_eq, is_none, is_some, or_else, Bool-cases,
  map-update_kept,
}
use prompt_studio_backend.Core.Errors.{authorization_error, validation_error}
use prompt_studio_backend.Core.Json.{is_blank}
use prompt_studio_backend.Core.Roles.{ProjectRole, ActivityType, project_role_eq}
use prompt_studio_backend.Core.Text.{format}
use prompt_studio_backend.Projects.Access.{ProjectAccess}
use prompt_studio_backend.Projects.Documents.{
  ProjectDocSave, reload, delete_versions, prune_auto_versions, snapshot, check_base, saved,
  snapshot_before, finish_doc, save_doc, save_version, get_version_of, restored, restore_version,
}
use prompt_studio_backend.Projects.Feed.{add_activity, open_session, continue_edit, record_edit}
use prompt_studio_backend.Projects.Handlers.{
  update_project_route, save_document_route, save_version_route, restore_version_route,
}
use prompt_studio_backend.Projects.Lifecycle.{
  ProjectUpdate, changed, is_renamed, update_project_metadata,
}
use prompt_studio_backend.Projects.Routes.View.{add_activity-ViewIs, get_version_of-KeepsView}
use prompt_studio_backend.Store.{
  User, Project, ProjectMember, ProjectVersion, ProjectActivity, World,
}
use prompt_studio_backend.Store.Action.{
  Result, Action, pure, or_raise, continue, ◌>>◌, raise_if, when,
}
use prompt_studio_backend.Store.Frames.{continue-then, or_raise-holds}
use prompt_studio_backend.Store.Rows.{update_project, delete_version}
use prompt_studio_backend.Core.ErrorMessage

-- The owner, the public link, and the trash.
abbrev pub share : Project → ℕ × Option ℕ × Option String × Bool
share p = (p.id, p.owner_id, p.public_token, p.is_deleted)

-- Who is on which project, with which role.
abbrev pub seat : ProjectMember → ℕ × ℕ × String × ProjectRole
seat r = (r.id, r.project_id, r.email, r.role)

module _ (shares : List (ℕ × Option ℕ × Option String × Bool))
    (seats : List (ℕ × ℕ × String × ProjectRole)) where
  abbrev pub SharingIs : World → Type 0
  SharingIs w = (map share w.projects ≡ shares) × (map seat w.members ≡ seats)

  abbrev pub KeepsSharing : {A : Type 0} → Result A × World → Type 0
  KeepsSharing (r, w) = (map share w.projects ≡ shares) × (map seat w.members ≡ seats)

  then-KeepsSharing :
      {A B : Type 0} (r : Result A × World) (f : A → Action B)
      → SharingIs r.1
      → ((a : A) (w : World) → SharingIs w → KeepsSharing (f a w))
      → KeepsSharing (continue r f)
  then-KeepsSharing r f = continue-then SharingIs KeepsSharing (λ r w p. p) r f

  update_project-SharingIs :
      (key : ℕ) (f : Project → Project) (w : World)
      → ((p : Project) → share (f p) ≡ share p)
      → SharingIs w
      → SharingIs (update_project key f w)
  update_project-SharingIs key f w same are =
      (map-update_kept share (λ p. p.id == key) f w.projects same ∙ are.0, are.1)

  noted-SharingIs :
      (project : Project) (actor : Option User) (kind : ActivityType) (summary : String)
      (meta : List (String × ℕ)) (w : World)
      → SharingIs w
      → SharingIs (add_activity project actor kind summary meta w).1
  noted-SharingIs project actor kind summary meta w are =
      let noted =
        add_activity-ViewIs share seat (λ p at. refl) (λ r at. refl) shares seats w.versions project
          actor kind summary meta w (are.0, are.1, refl) in
      (noted.0, noted.1)

  get_version_of-KeepsSharing :
      (pid vid : ℕ) (w : World) → SharingIs w → KeepsSharing (get_version_of pid vid w)
  get_version_of-KeepsSharing pid vid w are =
      let got =
        get_version_of-KeepsView share seat (λ p at. refl) (λ r at. refl) shares seats w.versions
          pid vid w (are.0, are.1, refl) in
      (got.0, got.1)

  when-SharingIs :
      (b : Bool) (m : Action (Unit {0})) (w : World)
      → SharingIs w
      → SharingIs (m w).1
      → SharingIs (when b m w).1
  when-SharingIs true m w are after = after
  when-SharingIs false m w are after = are

  delete_versions-SharingIs :
      (stale : List ProjectVersion) (w : World) → SharingIs w → SharingIs (delete_versions stale w)
  unfolding delete_versions
  delete_versions-SharingIs [] w are = are
  delete_versions-SharingIs (v ∷ stale) w are =
      delete_versions-SharingIs stale (delete_version v.id w) are

  snapshot-SharingIs :
      (project : Project) (user : User) (label : String) (is_auto : Bool) (w : World)
      → SharingIs w
      → SharingIs (snapshot project user label is_auto w).1
  unfolding snapshot prune_auto_versions
  snapshot-SharingIs project user label true w are = elim (Bool-cases (is_blank project.doc)) [
    | inl e ↦ rw (e, if◌then◌else◌) are
    | inr e ↦ rw (e, if◌then◌else◌) (delete_versions-SharingIs _ _ are)
  ]
  snapshot-SharingIs project user label false w are = elim (Bool-cases (is_blank project.doc)) [
    | inl e ↦ rw (e, if◌then◌else◌) are
    | inr e ↦ rw (e, if◌then◌else◌) are
  ]

  check_base-SharingIs :
      (base : Option ℕ) (current : ℕ) (w : World)
      → SharingIs w
      → SharingIs (check_base base current w).1
  unfolding check_base
  check_base-SharingIs none current w are = are
  check_base-SharingIs (some sent) current w are = are

  continue_edit-SharingIs :
      (project : Project) (user : User) (to_version now : ℕ) (row : Option ProjectActivity)
      (w : World)
      → SharingIs w
      → SharingIs (continue_edit project user to_version now row w).1
  unfolding continue_edit
  continue_edit-SharingIs project user to_version now none w are =
      noted-SharingIs project (some user) ActivityType.project_updated _ _ w are
  continue_edit-SharingIs project user to_version now (some row) w are =
      update_project-SharingIs project.id (λ p. record p { last_activity_at = some w.now }) w
        (λ p. refl) are

  module _ (access : ProjectAccess) (user : User) where
    pub update_project_route-KeepsSharing :
        (change : ProjectUpdate) (w : World)
        → SharingIs w
        → KeepsSharing (update_project_route change access user w)
    unfolding update_project_route update_project_metadata
    update_project_route-KeepsSharing change w are =
        then-KeepsSharing (update_project_metadata access user change w) _
          (then-KeepsSharing
            (raise_if (is_some change.is_archived && access.role != ProjectRole.owner)
              (authorization_error ErrorMessage.not_project_owner) w)
            _ are
            λ _ w1 p1.
              let renamed = is_renamed change.name access.project in
              let written = update_project access.project.id (changed change user) w1 in
              let p2 =
                update_project-SharingIs access.project.id (changed change user) w1 (λ p. refl)
                  p1 in
              then-KeepsSharing
                (when renamed
                  (add_activity access.project (some user) ActivityType.project_renamed
                    (format
                      ("renamed it to “" ∷ (changed change user access.project).name ∷ "”" ∷ []))
                    [])
                  written)
                _
                (when-SharingIs renamed _ written p2 (
                  noted-SharingIs access.project (some user) ActivityType.project_renamed _ []
                    written p2))
                (λ _ w3 p3. p3))
          (λ _ w4 p4. p4)

    pub save_document_route-KeepsSharing :
        (body : ProjectDocSave) (w : World)
        → SharingIs w
        → KeepsSharing (save_document_route body access user w)
    unfolding save_document_route save_doc finish_doc snapshot_before record_edit
    save_document_route-KeepsSharing body w are =
        let project = reload access.project w in
        let take = snapshot project user (or_else body.label "") (is_none body.label) in
        then-KeepsSharing (save_doc access user body true true w) _
          (then-KeepsSharing (check_base body.base_version project.doc_version w) _
            (check_base-SharingIs body.base_version project.doc_version w are)
            λ _ w1 p1.
              then-KeepsSharing ((take >> pure tt) w1) _
                (then-KeepsSharing (take w1) _
                  (snapshot-SharingIs project user (or_else body.label "") (is_none body.label) w1
                    p1)
                  (λ _ v p. p))
                λ _ w2 p2.
                  let written = update_project project.id (saved body user w2.now) w2 in
                  let version = project.doc_version + 1 in
                  then-KeepsSharing (record_edit project user version written) _
                    (continue_edit-SharingIs project user version written.now
                      (open_session project user written) written
                      (update_project-SharingIs project.id (saved body user w2.now) w2 (λ p. refl)
                        p2))
                    (λ _ w3 p3. p3))
          (λ _ w4 p4. p4)

    pub save_version_route-KeepsSharing :
        (label : Option String) (w : World)
        → SharingIs w
        → KeepsSharing (save_version_route label access user w)
    unfolding save_version_route save_version
    save_version_route-KeepsSharing label w are =
        let name = or_else label "" in
        let take =
          snapshot access.project user (if name == "" then "Manual save" else name) false in
        let nothing = validation_error "There is nothing saved yet to snapshot" in
        then-KeepsSharing (save_version access user name w) _
          (then-KeepsSharing (take w) _ (snapshot-SharingIs access.project user _ false w are)
            λ kept w1 p1.
              then-KeepsSharing (or_raise kept nothing w1) _
                (or_raise-holds SharingIs kept nothing w1 p1)
                λ version w2 p2.
                  then-KeepsSharing
                    (add_activity access.project (some user) ActivityType.version_saved
                      (format ("saved a version — " ∷ version.label ∷ [])) [] w2)
                    _
                    (noted-SharingIs access.project (some user) ActivityType.version_saved
                      (format ("saved a version — " ∷ version.label ∷ [])) [] w2 p2)
                    (λ _ w3 p3. p3))
          (λ _ w4 p4. p4)

    pub restore_version_route-KeepsSharing :
        (strftime : ℕ → String) (vid : ℕ) (w : World)
        → SharingIs w
        → KeepsSharing (restore_version_route strftime vid access user w)
    unfolding restore_version_route restore_version
    restore_version_route-KeepsSharing strftime vid w are =
        then-KeepsSharing (restore_version access user vid strftime w) _
          (then-KeepsSharing (get_version_of access.project.id vid w) _
            (get_version_of-KeepsSharing access.project.id vid w are)
            λ version w1 p1.
              let project = reload access.project w1 in
              then-KeepsSharing (snapshot project user "Before restore" true w1) _
                (snapshot-SharingIs project user "Before restore" true w1 p1)
                λ _ w2 p2.
                  let written = update_project project.id (restored version user) w2 in
                  let summary =
                    format ("restored the version from " ∷ strftime version.created_at ∷ []) in
                  let meta = ("version_id", version.id) ∷ [] in
                  let kind = ActivityType.version_restored in
                  then-KeepsSharing (add_activity project (some user) kind summary meta written) _
                    (noted-SharingIs project (some user) kind summary meta written (
                      update_project-SharingIs project.id (restored version user) w2 (λ p. refl)
                        p2))
                    (λ _ w3 p3. p3))
          (λ _ w4 p4. p4)
