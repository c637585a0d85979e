-- ===== src/Collab/Socket/Writes.antt =====
-- What a message of the client can do to the committed projects (app/modules/collab/router.py).
use prompt_studio_backend.Prelude.{
  ℕ, ◌-◌, ◌≡◌, refl, sym, ap, ◌∙◌, ◌⊎◌, inl, inr, Bool, true, false, ◌||◌, Option, none, some, List,
  arith, ltb, if◌then◌else◌, Bool-cases, Option-cases,
}
use prompt_studio_backend.Admin.Accounts.{granted}
use prompt_studio_backend.Auth.Sessions.{is_token_revoked}
use prompt_studio_backend.Collab.Rooms.{Connection}
use prompt_studio_backend.Collab.Socket.{
  snapshot_interval, Socket, Loop, Saving, signed_out, conflict, refused, stored, close_with,
  reload_user, refuse_save, saving, save_as, write_save,
}
use prompt_studio_backend.Collab.Socket.Kept.{write_save-ReturnsIn}
use prompt_studio_backend.Collab.Socket.Serve.{
  answer_error, announce_save, respond, is_text, relay_pointer, answer_ping, answer_pointer,
  apply_save, apply_update, dispatch_object, dispatch,
}
use prompt_studio_backend.Core.Json.{Json, Fields, get, null, bool, number, text, list, object}
use prompt_studio_backend.Core.Roles.{ProjectRole}
use prompt_studio_backend.Projects.Access.{ProjectAccess, resolve_access}
use prompt_studio_backend.Projects.Access.Decision.{
  decision, granted_role, visible_project, membership_row, resolve_access_decides,
}
use prompt_studio_backend.Projects.Access.Frame.{after_binding, resolve_access-then}
use prompt_studio_backend.Projects.Documents.{ProjectDocSave, save_doc}
use prompt_studio_backend.Projects.Schemas.{JsonLibrary}
use prompt_studio_backend.Store.{User, Project, ProjectMember, Db, World}
use prompt_studio_backend.Store.Action.{Result, continue, bind-ok, rollback, ok, err}

-- The session stands, and the account may edit the project as it is committed.
abbrev pub MayEdit : Socket → World → Type 0
MayEdit s w =
    (is_token_revoked s.access_jti (rollback w) ≡ false)
    × ((user : User) × (reload_user s.user.id (rollback w) ≡ some user)
        × ((role : ProjectRole) × (decision (visible_project s.connection.project_id (rollback w))
                (membership_row s.connection.project_id user (rollback w)) ProjectRole.editor
              ≡ ok role)))

-- The projects of the session and the committed ones are these.
abbrev Projects : List Project → World → Type 0
Projects ps w = (w.projects ≡ ps) × (w.committed.projects ≡ ps)

binding-Projects :
    (ps : List Project) (user : User) (row : ProjectMember) (w : World)
    → Projects ps w
    → Projects ps (after_binding user row w)
binding-Projects ps user row w p = (p.0, p.0)

saving-committed :
    (pid : ℕ) (user : User) (r : Result Project) (w : World)
    → (saving pid user r w).1.committed ≡ w.committed
unfolding saving refuse_save
saving-committed pid user (ok project) w = refl
saving-committed pid user (err e) w = refl

-- The projects stay as they were, or access as an editor was granted.
abbrev Guarded : List Project → Result ProjectAccess → World → Type 0
Guarded ps granted w =
    (w.committed.projects ≡ ps) ⊎ ((access : ProjectAccess) × (granted ≡ ok access))

save_as_nobody :
    (pid : ℕ) (save : ProjectDocSave) (take_snapshot : Bool) (w : World)
    → (save_as pid save take_snapshot none (rollback w)).1.committed.projects ≡ w.committed.projects
unfolding save_as
save_as_nobody pid save take_snapshot w = refl

save_as-Guarded :
    (pid : ℕ) (save : ProjectDocSave) (take_snapshot : Bool) (user : User) (ps : List Project)
    (w : World)
    → Projects ps w
    → Guarded ps
        (resolve_access pid user ProjectRole.editor w).0
        (save_as pid save take_snapshot (some user) w).1
unfolding save_as
save_as-Guarded pid save take_snapshot user ps w p =
    resolve_access-then (Projects ps) (binding-Projects ps)
      (λ r.
        Guarded ps r.0
          (saving pid user (continue r (λ access. save_doc access user save take_snapshot true)).0
            (continue r (λ access. save_doc access user save take_snapshot true)).1).1)
      pid user ProjectRole.editor w after p
  where
    after :
        (r : Result ProjectAccess) (w' : World)
        → Projects ps w'
        → Guarded ps r
            (saving pid user
              (continue (r, w') (λ access. save_doc access user save take_snapshot true)).0
              (continue (r, w') (λ access. save_doc access user save take_snapshot true)).1).1
    after (err e) w' p' =
        inl (ap (λ (c : Db). c.projects) (saving-committed pid user (err e) w') ∙ p'.1)
    after (ok access) w' p' = inr (access, refl)

granted-decision :
    (pid : ℕ) (user : User) (minimum : ProjectRole) (w : World) {access : ProjectAccess}
    → (resolve_access pid user minimum w).0 ≡ ok access
    → decision (visible_project pid w) (membership_row pid user w) minimum ≡ ok access.role
granted-decision pid user minimum w e =
    sym (resolve_access_decides pid user minimum w) ∙ ap granted_role e

module _ (s : Socket) where
  -- The committed projects are as they were, unless an editor's session stands behind the change.
  abbrev pub IsGuarded : World → World → Type 0
  IsGuarded w w' = (w'.committed.projects ≡ w.committed.projects) ⊎ MayEdit s w

  write_save-IsGuarded :
      (save : ProjectDocSave) (take_snapshot : Bool) (w : World)
      → IsGuarded w (write_save s save take_snapshot w).1
  unfolding write_save
  write_save-IsGuarded save take_snapshot w =
      elim (Bool-cases (is_token_revoked s.access_jti (rollback w))) [
        | inl e ↦ inl (rw (e, if◌then◌else◌) refl)
        | inr e ↦ elim (Option-cases (reload_user s.user.id (rollback w))) [
          | inl absent ↦ inl (
              rw (e, if◌then◌else◌, absent)
                (save_as_nobody s.connection.project_id save take_snapshot w))
          | inr (user, found) ↦
              elim (save_as-Guarded s.connection.project_id save take_snapshot user
                w.committed.projects (rollback w) (refl, refl)) [
                  | inl same ↦ inl (rw (e, if◌then◌else◌, found) same)
                  | inr (access, granted) ↦ inr (
                    e,
                    (
                      user,
                      found,
                      (
                        access.role,
                        granted-decision s.connection.project_id user ProjectRole.editor
                            (rollback w) granted,
                      ),
                    ),
                  )
                ]
        ]
      ]

  respond-committed :
      (c : Connection) (sent : Option Json) (loop after : Loop) (result : Saving) (w : World)
      → (respond c sent loop after result w).1.committed ≡ w.committed
  unfolding respond announce_save close_with answer_error
  respond-committed c sent loop after (signed_out reason) w = ground arith
  respond-committed c sent loop after (conflict message doc version) w = refl
  respond-committed c sent loop after (refused message) w = refl
  respond-committed c sent loop after (stored user project) w = refl

  module _ (json : JsonLibrary) where
    apply_save-IsGuarded :
        (loop : Loop) (sent : Option Json) (save : Option ProjectDocSave) (w : World)
        → IsGuarded w (apply_save json s loop sent save w).1
    unfolding apply_save answer_error
    apply_save-IsGuarded loop sent none w = inl refl
    apply_save-IsGuarded loop sent (some save) w =
        let take = ltb snapshot_interval (w.now - loop.last_snapshot) in
        let ((result, returned), same) = write_save-ReturnsIn s save take w in
        rw
          (
            bind-ok (write_save s save take) _ w returned,
            respond-committed s.connection sent loop _ result (write_save s save take w).1,
          )
          (write_save-IsGuarded save take w)

    apply_update-IsGuarded :
        (loop : Loop) (message : Fields) (doc : Option Fields) (w : World)
        → IsGuarded w (apply_update json s loop message doc w).1
    unfolding apply_update answer_error
    apply_update-IsGuarded loop message none w = inl refl
    apply_update-IsGuarded loop message (some doc) w = apply_save-IsGuarded loop _ _ w

    object-IsGuarded :
        (loop : Loop) (message : Fields) (w : World)
        → IsGuarded w (dispatch_object json s loop message w).1
    unfolding dispatch_object answer_ping answer_pointer relay_pointer answer_error
    object-IsGuarded loop message w = elim (Bool-cases (is_text (get message "type") "ping")) [
      | inl e ↦ rw (e, if◌then◌else◌) (inl refl)
      | inr e ↦
          elim (Bool-cases
            (is_text (get message "type") "cursor" || is_text (get message "type") "selection")) [
              | inl e' ↦ rw (e, if◌then◌else◌, e') (inl refl)
              | inr e' ↦ elim (Bool-cases (is_text (get message "type") "doc.update")) [
                | inl e'' ↦ rw (e, if◌then◌else◌, e', e'') (apply_update-IsGuarded loop message _ w)
                | inr e'' ↦ rw (e, if◌then◌else◌, e', e'') (inl refl)
              ]
            ]
    ]

    -- Whatever a client sends over its socket, the committed projects stay as they were, unless its
    -- token is not revoked, its account is live, and the committed rows grant that account the role of
    -- an editor on the socket's project at least: its standing at the handshake does not count.
    pub socket_writes_need_editor :
        (loop : Loop) (message : Option Json) (w : World)
        → IsGuarded w (dispatch json s loop message w).1
    unfolding dispatch answer_error
    socket_writes_need_editor loop none w = inl refl
    socket_writes_need_editor loop (some (object message)) w = object-IsGuarded loop message w
    socket_writes_need_editor loop (some null) w = inl refl
    socket_writes_need_editor loop (some (bool b)) w = inl refl
    socket_writes_need_editor loop (some (number n)) w = inl refl
    socket_writes_need_editor loop (some (text t)) w = inl refl
    socket_writes_need_editor loop (some (list xs)) w = inl refl
