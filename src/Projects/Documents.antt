-- ===== src/Projects/Documents.antt =====
-- app/modules/projects/service.py: the document of a project, its optimistic concurrency check, and
-- the history of snapshots.
pub mod Prune
pub mod Save
pub mod History
pub mod Register
pub mod Frame
use prompt_studio_backend.Prelude.{
  ℕ, ◌+◌, String, Bool, true, false, ◌&&◌, ◌||◌, Option, none, some, List, [], ◌∷◌, if◌then◌else◌,
  ◌!=◌, ◌==◌, nat_eq, string_eq, is_none, or_else, drop, select_where, order_by_desc,
}
use prompt_studio_backend.Core.Errors.{AppError, not_found_error, conflict_error, validation_error}
use prompt_studio_backend.Core.Json.{Fields, get, is_blank, list_size}
use prompt_studio_backend.Core.Roles.{ActivityType}
use prompt_studio_backend.Core.Text.{format}
use prompt_studio_backend.Projects.Access.{ProjectAccess}
use prompt_studio_backend.Projects.Feed.{add_activity, record_edit}
use prompt_studio_backend.Store.{User, Project, ProjectVersion, World}
use prompt_studio_backend.Store.Action.{
  Action, pure, gets, or_raise, ◌>>=◌, ◌>>◌, modify, raise_if, when, new_id, commit,
}
use prompt_studio_backend.Store.Rows.{
  get_project, update_project, get_version, add_version, delete_version,
}
use prompt_studio_backend.Core.ErrorMessage

-- The request body of a save (schemas.py, `ProjectDocSave`).
pub record ProjectDocSave : Type 0 where
  pub doc : Fields
  pub base_version : Option ℕ
  pub schema_version : Option ℕ
  pub label : Option String

-- `(screens, modules)` of a document
pub count_doc : Fields → ℕ × ℕ
count_doc doc = (list_size (get doc "screens"), list_size (get doc "modules"))

abbrev pub sync_counts : Project → Project
sync_counts p = record p { screen_count = (count_doc p.doc).0; module_count = (count_doc p.doc).1 }

-- `_lock`: the row is read again under the lock, into the instance that the session holds.
unfoldable pub reload : Project → World → Project
reload project w = or_else (get_project project.id w) project

-- Automatic snapshots of one project.
abbrev pub is_auto_version : ℕ → ProjectVersion → Bool
is_auto_version pid v = v.project_id == pid && v.is_auto

-- The ids that `_prune_auto_versions` selects: all but the most recent ones.
pub stale_versions : ℕ → World → List ProjectVersion
stale_versions pid w = drop w.settings.project_version_limit (
    order_by_desc (λ (v : ProjectVersion). v.created_at)
      (select_where (is_auto_version pid) w.versions))

unfoldable pub delete_versions : List ProjectVersion → World → World
delete_versions [] w = w
delete_versions (v ∷ stale) w = delete_versions stale (delete_version v.id w)

-- `_prune_auto_versions`
unfoldable pub prune_auto_versions : ℕ → World → World
prune_auto_versions pid w = delete_versions (stale_versions pid w) w

abbrev version_row : ℕ → Project → User → String → Bool → ℕ → ProjectVersion
version_row key project user label is_auto now = record {
  id = key;
  project_id = project.id;
  label = label;
  doc = project.doc;
  doc_version = project.doc_version;
  is_auto = is_auto;
  created_by = some (or_else project.updated_by user.id);
  created_at = now;
}

-- `_snapshot`: the document as it stands before the write; an empty one is not kept.
unfoldable pub snapshot : Project → User → String → Bool → Action (Option ProjectVersion)
snapshot project user label is_auto = if is_blank project.doc then pure none else do
  key ← new_id
  now ← gets (λ w. w.now)
  let version = version_row key project user label is_auto now
  modify (add_version version)
  when is_auto (modify (prune_auto_versions project.id))
  pure (some version)

abbrev stale_document : ℕ → ℕ → AppError
stale_document current sent = conflict_error ErrorMessage.stale_document (
    record {
      field = "base_version";
      message = ErrorMessage.stale_document;
      current_version = current;
      sent_version = sent;
    }
    ∷ [])

-- The optimistic check: a version that was sent must be the stored one.
unfoldable pub check_base : Option ℕ → ℕ → Action (Unit {0})
check_base none current = pure tt
check_base (some sent) current = raise_if (sent != current) (stale_document current sent)

-- What an accepted save writes to the row.
abbrev pub saved : ProjectDocSave → User → ℕ → Project → Project
saved body user now p = sync_counts (record p {
  doc = body.doc;
  doc_version = p.doc_version + 1;
  schema_version = or_else body.schema_version p.schema_version;
  updated_by = some user.id;
  last_activity_at = some now;
})

-- `bool(data.label)`: neither missing nor empty
abbrev pub is_given : Option String → Bool
is_given none = false
is_given (some s) = s != ""

-- The snapshot that goes before a save, if it asks for one or names one.
unfoldable pub snapshot_before : Project → User → ProjectDocSave → Bool → Action (Unit {0})
snapshot_before project user body take_snapshot =
    when (take_snapshot || is_given body.label)
      (snapshot project user (or_else body.label "") (is_none body.label) >> pure tt)

-- The rest of a save: the row is written, the edit noted, and the whole committed.
unfoldable pub finish_doc : Project → User → ProjectDocSave → Bool → Action Project
finish_doc project user body activity = do
  now ← gets (λ w. w.now)
  modify (update_project project.id (saved body user now))
  when activity (record_edit project user (project.doc_version + 1))
  commit
  gets (reload project)

unfoldable pub save_doc : ProjectAccess → User → ProjectDocSave → Bool → Bool → Action Project
save_doc access user body take_snapshot activity = do
  project ← gets (reload access.project)
  check_base body.base_version project.doc_version
  snapshot_before project user body take_snapshot
  finish_doc project user body activity

unfoldable pub save_version : ProjectAccess → User → String → Action ProjectVersion
save_version access user label = do
  kept ← snapshot access.project user (if label == "" then "Manual save" else label) false
  version ← or_raise kept (validation_error "There is nothing saved yet to snapshot")
  add_activity access.project (some user) ActivityType.version_saved
      (format ("saved a version — " ∷ version.label ∷ [])) []
  commit
  pure version

unfoldable pub get_version_of : ℕ → ℕ → Action ProjectVersion
get_version_of pid version_id = do
  found ← gets (get_version version_id)
  version ← or_raise found (not_found_error ErrorMessage.version_not_found)
  raise_if (version.project_id != pid) (not_found_error ErrorMessage.version_not_found)
  pure version

abbrev pub restored : ProjectVersion → User → Project → Project
restored version user p =
    sync_counts
      (record p { doc = version.doc; doc_version = p.doc_version + 1; updated_by = some user.id })

unfoldable pub restore_version : ProjectAccess → User → ℕ → (ℕ → String) → Action Project
restore_version access user version_id strftime = do
  version ← get_version_of access.project.id version_id
  project ← gets (reload access.project)
  snapshot project user "Before restore" true
  modify (update_project project.id (restored version user))
  add_activity project (some user) ActivityType.version_restored
      (format ("restored the version from " ∷ strftime version.created_at ∷ []))
      (("version_id", version.id) ∷ [])
  commit
  gets (reload project)
