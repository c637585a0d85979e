-- ===== src/Projects/Documents/History.antt =====
-- Many sessions saving one project, one request after the other in the order of its row lock.
use mathlib.Core.Option
use mathlib.Core.Path.{subst}
use prompt_studio_backend.Prelude.{
  ℕ, ◌+◌, ◌≡◌, refl, sym, ap, ◌∙◌, ◌⊎◌, inl, inr, Bool, Option, none, some, List, [], ◌∷◌, arith,
  if◌then◌else◌, ◌==◌, nat_beq_iff, nat_eq, Bool-cases, Option-cases, first_where, All,
  first_where-holds,
}
use prompt_studio_backend.Core.Errors.{AppError}
use prompt_studio_backend.Core.Json.{Fields}
use prompt_studio_backend.Projects.Access.{ProjectAccess}
use prompt_studio_backend.Projects.Documents.{ProjectDocSave, reload, save_doc}
use prompt_studio_backend.Projects.Documents.Save.{
  SavedOver, refusal, SaveSpec, save_doc_checks_version,
}
use prompt_studio_backend.Projects.Feed.Docs.{doc_of}
use prompt_studio_backend.Store.{User, Project, Db, World}
use prompt_studio_backend.Store.Action.{Result, Action, rollback, request, ok, err}
use prompt_studio_backend.Store.Rows.{get_project}

pub record Save : Type 0 where
  pub access : ProjectAccess
  pub user : User
  pub body : ProjectDocSave
  pub take_snapshot : Bool
  pub activity : Bool

abbrev pub serve_save : Save → Action Project
serve_save s = request (save_doc s.access s.user s.body s.take_snapshot s.activity)

-- The accepted saves of a history: the version each started from, if it sent one, and the version
-- it was told.
abbrev note_accepted : Option ℕ → Result Project → List (Option ℕ × ℕ) → List (Option ℕ × ℕ)
note_accepted base (ok p) rest = (base, p.doc_version) ∷ rest
note_accepted base (err e) rest = rest

unfoldable pub accepted_saves : List Save → World → List (Option ℕ × ℕ)
accepted_saves [] w = []
accepted_saves (s ∷ rest) w =
    note_accepted s.body.base_version (serve_save s w).0 (accepted_saves rest (serve_save s w).1)

-- Each version is one more than the one before, and a save that named its base started from it.
abbrev pub IsChain : ℕ → List (Option ℕ × ℕ) → Type 0
IsChain n [] = Unit {0}
IsChain n ((base, v) ∷ rest) = (v ≡ n + 1) × ((base ≡ none) ⊎ (base ≡ some n)) × IsChain v rest

-- A fresh session on a world in which the project stands at some version.
abbrev pub At : ℕ → ℕ → World → Type 0
At pid n w =
    (p : Project) × (get_project pid w ≡ some p) × (p.doc_version ≡ n) × (w.committed ≡ w.db)

-- One save: refused and without effect, or the next version.
abbrev Step : ℕ → ℕ → Option ℕ → Result Project × World → Type 0
Step pid n base (ok p, w) =
    (p.doc_version ≡ n + 1) × ((base ≡ none) ⊎ (base ≡ some n)) × At pid p.doc_version w
Step pid n base (err e, w) = At pid n w

-- The row that a document and version were read from.
doc_of-row :
    (pid : ℕ) (ps : List Project) {d : Fields} {v : ℕ}
    → doc_of pid ps ≡ some (d, v)
    → (p : Project) × (first_where (λ p. p.id == pid) ps ≡ some p) × (p.doc_version ≡ v)
doc_of-row pid ps e = elim (Option-cases (first_where (λ (p : Project). p.id == pid) ps)) [
  | inl absent ↦ absurd (ground arith)
  | inr (p, found) ↦ (p, found, ground arith)
]

reload-found :
    (project : Project) (w : World) {p : Project}
    → get_project project.id w ≡ some p
    → reload project w ≡ p
unfolding reload
reload-found project w e = rw e

SavedOver-At :
    (project : Project) (body : ProjectDocSave) (n : ℕ) (w : World) (p : Project)
    (r : Result Project) (w' : World)
    → get_project project.id w ≡ some p
    → p.doc_version ≡ n
    → SavedOver body project w (r, w')
    → (q : Project) × (r ≡ ok q)
      × (q.doc_version ≡ n + 1)
      × At project.id q.doc_version (rollback w')
SavedOver-At project body n w p r w' found version (returned, docs, committed) =
    let (q, there, v) = doc_of-row project.id w'.projects (docs project.id ∙ now_there) in
    (
      q,
      returned ∙ ap ok (reload-found project w' there),
      v,
      (q, rw (ap (λ (db : Db). db.projects) committed) there, refl, refl),
    )
  where
    now_there :
        (if project.id == project.id
          then Option.map
              (λ (p : Project). (body.doc, p.doc_version + 1))
              (first_where (λ p. p.id == project.id) w.projects)
          else doc_of project.id w.projects)
        ≡ some (body.doc, n + 1)
    now_there = ground arith

SavedOver-Step :
    (project : Project) (body : ProjectDocSave) (base : Option ℕ) (n : ℕ) (w : World) (p : Project)
    (r : Result Project) (w' : World)
    → get_project project.id w ≡ some p
    → p.doc_version ≡ n
    → (base ≡ none) ⊎ (base ≡ some n)
    → SavedOver body project w (r, w')
    → Step project.id n base (r, rollback w')
SavedOver-Step project body base n w p r w' found version started s =
    let (q, returned, v, at) = SavedOver-At project body n w p r w' found version s in
    rw returned (v, started, at)

-- A refused save leaves the project as it was.
refused-Step :
    (pid n : ℕ) (base : Option ℕ) (w : World) (p : Project) (after : Result Project × World)
    {e : AppError}
    → get_project pid w ≡ some p
    → p.doc_version ≡ n
    → w.committed ≡ w.db
    → after ≡ (err e, w)
    → Step pid n base (after.0, rollback after.1)
refused-Step pid n base w p after found version fresh refused =
    rw refused (p, rw (ap (λ (db : Db). db.projects) fresh) found, version, refl)

SaveSpec-Step :
    (project : Project) (body : ProjectDocSave) (base : Option ℕ) (n : ℕ) (w : World) (p : Project)
    (r : Result Project) (w' : World)
    → get_project project.id w ≡ some p
    → p.doc_version ≡ n
    → w.committed ≡ w.db
    → SaveSpec body project w (refusal base n) (r, w')
    → Step project.id n base (r, rollback w')
SaveSpec-Step project body none n w p r w' found version fresh s =
    SavedOver-Step project body none n w p r w' found version (inl refl) s
SaveSpec-Step project body (some sent) n w p r w' found version fresh s =
    elim (Bool-cases (sent == n)) [
      | inl e ↦
          SavedOver-Step project body (some sent) n w p r w' found version
            (inr (ap some ((nat_beq_iff sent n).0 e))) (rw (e, if◌then◌else◌) at s)
      | inr e ↦
          refused-Step project.id n (some sent) w p (r, w') found version fresh
            (rw (e, if◌then◌else◌) at s)
    ]

served-Step :
    (s : Save) (n : ℕ) (w : World)
    → At s.access.project.id n w
    → Step s.access.project.id n s.body.base_version (serve_save s w)
served-Step s n w (p, found, version, fresh) =
    let project = reload s.access.project w in
    let same : project ≡ p = reload-found s.access.project w found in
    let its_id : project.id ≡ s.access.project.id =
      ap (λ (q : Project). q.id) same
      ∙ (nat_beq_iff p.id s.access.project.id).0
          (first_where-holds (λ (q : Project). q.id == s.access.project.id) w.projects found) in
    let its_version : project.doc_version ≡ n =
      ap (λ (q : Project). q.doc_version) same ∙ version in
    let served = save_doc s.access s.user s.body s.take_snapshot s.activity w in
    subst (λ pid. Step pid n s.body.base_version (serve_save s w)) its_id
      (SaveSpec-Step project s.body s.body.base_version n w p served.0 served.1
        (ap (λ pid. get_project pid w) its_id ∙ found) version fresh
        (subst (λ current. SaveSpec s.body project w (refusal s.body.base_version current) served)
          its_version
          (save_doc_checks_version s.access s.user s.body s.take_snapshot s.activity w)))

note-IsChain :
    (pid n : ℕ) (base : Option ℕ) (r : Result Project) (w : World) (rest : List (Option ℕ × ℕ))
    → Step pid n base (r, w)
    → ((m : ℕ) → At pid m w → IsChain m rest)
    → IsChain n (note_accepted base r rest)
note-IsChain pid n base (ok p) w rest (v, started, at) k = (v, started, k p.doc_version at)
note-IsChain pid n base (err e) w rest at k = k n at

-- However the saves of several people interleave, the accepted ones form a chain: every accepted
-- save is told the version after the last accepted one, so no two are told the same, and one that
-- sent a `base_version` started from exactly the document that it replaced. The saves are of one
-- project, which is there, and the first session is fresh.
pub accepted_saves-IsChain :
    (saves : List Save) (pid n : ℕ) (w : World)
    → All (λ s. s.access.project.id ≡ pid) saves
    → At pid n w
    → IsChain n (accepted_saves saves w)
unfolding accepted_saves
accepted_saves-IsChain [] pid n w same at = tt
accepted_saves-IsChain (s ∷ rest) pid n w same at =
    note-IsChain pid n s.body.base_version (serve_save s w).0 (serve_save s w).1 _
      (subst (λ key. Step key n s.body.base_version (serve_save s w)) same.0
        (served-Step s n w (subst (λ key. At key n w) (sym same.0) at)))
      (λ m. accepted_saves-IsChain rest pid m (serve_save s w).1 same.1)
