-- ===== src/Projects/Documents/Frame.antt =====
-- What a save leaves alone (`save_doc` of app/modules/projects/service.py).
use prompt_studio_backend.Prelude.{
  ℕ, ◌+◌, String, inl, inr, Bool, true, false, ◌||◌, Option, none, some, List, [], ◌∷◌,
  if◌then◌else◌, is_none, or_else, Bool-cases,
}
use prompt_studio_backend.Collab.Hub.{Hub}
use prompt_studio_backend.Core.Json.{is_blank}
use prompt_studio_backend.Projects.Access.{ProjectAccess}
use prompt_studio_backend.Projects.Documents.{
  ProjectDocSave, reload, delete_versions, prune_auto_versions, version_row, snapshot, check_base,
  saved, is_given, snapshot_before, finish_doc, save_doc,
}
use prompt_studio_backend.Projects.Feed.{record_edit}
use prompt_studio_backend.Projects.Feed.Frame.{HubIs, record_edit-HubIs}
use prompt_studio_backend.Store.{User, Project, ProjectVersion, World}
use prompt_studio_backend.Store.Action.{Result, Action, pure, continue, ◌>>◌, when}
use prompt_studio_backend.Store.Frames.{continue-then}
use prompt_studio_backend.Store.Rows.{update_project, add_version, delete_version}

delete_versions-HubIs :
    (h : Hub) (stale : List ProjectVersion) (w : World)
    → HubIs h w
    → HubIs h (delete_versions stale w)
unfolding delete_versions
delete_versions-HubIs h [] w p = p
delete_versions-HubIs h (v ∷ stale) w p = delete_versions-HubIs h stale (delete_version v.id w) p

check_base-HubIs :
    (h : Hub) (base : Option ℕ) (current : ℕ) (w : World)
    → HubIs h w
    → HubIs h (check_base base current w).1
unfolding check_base
check_base-HubIs h none current w p = p
check_base-HubIs h (some sent) current w p = p

snapshot-HubIs :
    (h : Hub) (project : Project) (user : User) (label : String) (is_auto : Bool) (w : World)
    → HubIs h w
    → HubIs h (snapshot project user label is_auto w).1
unfolding snapshot prune_auto_versions
snapshot-HubIs h project user label true w p = elim (Bool-cases (is_blank project.doc)) [
  | inl e ↦ rw (e, if◌then◌else◌) p
  | inr e ↦
      rw (e, if◌then◌else◌)
        (delete_versions-HubIs h _
          (add_version (version_row w.next_id project user label true w.now)
            (record w { next_id = w.next_id + 1 }))
          p)
]
snapshot-HubIs h project user label false w p = elim (Bool-cases (is_blank project.doc)) [
  | inl e ↦ rw (e, if◌then◌else◌) p
  | inr e ↦ rw (e, if◌then◌else◌) p
]

when-HubIs :
    (h : Hub) (b : Bool) (m : Action (Unit {0})) (w : World)
    → HubIs h w
    → HubIs h (m w).1
    → HubIs h (when b m w).1
when-HubIs h true m w p q = q
when-HubIs h false m w p q = p

-- What a save comes to, in a world with the same hub.
module _ (h : Hub) (Q : Result Project × World → Type 0)
    (ends : (r : Result Project) (w : World) → HubIs h w → Q (r, w)) where
  snapshot-then :
      (project : Project) (user : User) (label : String) (is_auto : Bool) (w : World)
      → HubIs h w
      → HubIs h (continue (snapshot project user label is_auto w) (λ _. pure {A = Unit {0}} tt)).1
  snapshot-then project user label is_auto w p =
      continue-then (HubIs h) (λ (r : Result (Unit {0}) × World). HubIs h r.1) (λ r w' p'. p')
        (snapshot project user label is_auto w) (λ _. pure tt)
        (snapshot-HubIs h project user label is_auto w p) (λ a w' p'. p')

  pub save_doc-then :
      (access : ProjectAccess) (user : User) (body : ProjectDocSave) (take_snapshot activity : Bool)
      (w : World)
      → HubIs h w
      → Q (save_doc access user body take_snapshot activity w)
  unfolding save_doc finish_doc snapshot_before
  save_doc-then access user body take_snapshot activity w p =
      let project = reload access.project w in
      let take = snapshot project user (or_else body.label "") (is_none body.label) in
      continue-then (HubIs h) Q ends (check_base body.base_version project.doc_version w) _
        (check_base-HubIs h body.base_version project.doc_version w p)
        λ _ w1 p1.
          continue-then (HubIs h) Q ends
            (when (take_snapshot || is_given body.label) (take >> pure tt) w1) _
            (when-HubIs h (take_snapshot || is_given body.label) (take >> pure tt) w1 p1
              (snapshot-then project user (or_else body.label "") (is_none body.label) w1 p1))
            λ _ w2 p2.
              let written = update_project project.id (saved body user w2.now) w2 in
              let note = record_edit project user (project.doc_version + 1) in
              continue-then (HubIs h) Q ends (when activity note written) _
                (when-HubIs h activity note written p2
                  (record_edit-HubIs h project user (project.doc_version + 1) written p2))
                (λ _ w3 p3. ends _ _ p3)
