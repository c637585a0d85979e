-- ===== src/Projects/Feed.antt =====
-- app/modules/projects/service.py (`add_activity`, `record_edit`) and app/modules/audit/service.py
-- (`record`): the project's feed and the platform's audit log.
pub mod Docs
pub mod Frame
use mathlib.Core.Option
use prompt_studio_backend.Prelude.{
  ℕ, ◌+◌, ◌-◌, ◌*◌, String, Bool, true, ◌&&◌, Option, none, some, List, [], ◌∷◌, map, leb,
  if◌then◌else◌, ◌==◌, nat_eq, string_eq, holds, or_else, select_where, first_where, order_by_desc,
}
use prompt_studio_backend.Core.Roles.{ActivityType, activity_type_eq}
use prompt_studio_backend.Core.Text.{format, show}
use prompt_studio_backend.Store.{User, Project, ProjectActivity, World, minute}
use prompt_studio_backend.Store.Action.{Action, gets, ◌>>=◌, ◌>>◌, modify, new_id}
use prompt_studio_backend.Store.Rows.{update_project, update_activity, add_activity_row}

-- One audit row, staged; the actor is the request's.
unfoldable pub record_audit : String → String → ℕ → String → Action (Unit {0})
record_audit action entity_type entity_id summary = modify λ w. record w {
  db = record w.db {
    audit_logs =
        record {
          actor_id = Option.map (λ (a : ℕ × String). a.0) w.audit_actor;
          actor_email = or_else (Option.map (λ (a : ℕ × String). a.1) w.audit_actor) "";
          action = action;
          entity_type = entity_type;
          entity_id = entity_id;
          summary = summary;
        }
        ∷ w.audit_logs;
  };
}

-- `project.last_activity_at = now()`
abbrev pub touch_project : ℕ → Action (Unit {0})
touch_project pid =
    modify λ w. update_project pid (λ p. record p { last_activity_at = some w.now }) w

abbrev activity_row :
    ℕ → Project → Option User → ActivityType → String → List (String × ℕ) → World → ProjectActivity
activity_row key project actor kind summary meta w = record {
  id = key;
  project_id = project.id;
  actor_id = Option.map (λ (u : User). u.id) actor;
  actor_email = or_else (Option.map (λ (u : User). u.email) actor) "";
  kind = kind;
  summary = summary;
  meta = meta;
  created_at = w.now;
}

-- `add_activity`: a feed entry, and the project marked as touched
unfoldable pub add_activity :
    Project → Option User → ActivityType → String → List (String × ℕ) → Action (Unit {0})
add_activity project actor kind summary meta = do
  key ← new_id
  modify (λ w. add_activity_row (activity_row key project actor kind summary meta w) w)
  touch_project project.id

-- `meta.get(key, default)` and `meta[key] = value`
abbrev pub meta_get : String → ℕ → List (String × ℕ) → ℕ
meta_get key default [] = default
meta_get key default ((k, v) ∷ meta) = if k == key then v else meta_get key default meta

abbrev pub meta_set : String → ℕ → List (String × ℕ) → List (String × ℕ)
meta_set key value [] = (key, value) ∷ []
meta_set key value ((k, v) ∷ meta) =
    if k == key then (key, value) ∷ meta else (k, v) ∷ meta_set key value meta

abbrev pub edit_session_minutes : ℕ
edit_session_minutes = 10

-- This person's entry for this project that an edit may still be counted into.
abbrev is_open_session : Project → User → ℕ → ProjectActivity → Bool
is_open_session project user since row =
    row.project_id == project.id
    && holds row.actor_id user.id
    && row.kind == ActivityType.project_updated
    && leb since row.created_at

pub open_session : Project → User → World → Option ProjectActivity
open_session project user w =
    let since = w.now - edit_session_minutes * minute in
    first_where (λ _. true)
      (order_by_desc (λ (row : ProjectActivity). row.created_at)
        (select_where (is_open_session project user since) w.activities))

abbrev coalesced : ℕ → ℕ → ProjectActivity → ProjectActivity
coalesced to_version now row =
    let edits = meta_get "edits" 1 row.meta + 1 in
    record row {
      meta =
          meta_set "last_edit_at" now
            (meta_set "to_version" to_version (meta_set "edits" edits row.meta));
      summary = format ("saved " ∷ show edits ∷ " changes" ∷ []);
    }

-- `record_edit`: the edit joins the open session, or starts one.
unfoldable pub continue_edit : Project → User → ℕ → ℕ → Option ProjectActivity → Action (Unit {0})
continue_edit project user to_version now (some row) = do
  modify (update_activity row.id (coalesced to_version now))
  touch_project project.id
continue_edit project user to_version now none =
    add_activity project (some user) ActivityType.project_updated "saved changes" (
      ("edits", 1)
      ∷ ("from_version", to_version - 1)
      ∷ ("to_version", to_version)
      ∷ ("last_edit_at", now)
      ∷ [])

unfoldable pub record_edit : Project → User → ℕ → Action (Unit {0})
record_edit project user to_version = do
  row ← gets (open_session project user)
  now ← gets (λ w. w.now)
  continue_edit project user to_version now row
