-- ===== src/Projects/Documents/Register.antt =====
-- What the documents promise, with all else forgotten: a register for each project, which holds a
-- document and its version, and is written by compare-and-set.
use mathlib.Core.Path.{subst}
use prompt_studio_backend.Prelude.{
  ℕ, ◌+◌, ◌≡◌, refl, ap, ◌∙◌, inl, inr, Bool, true, false, Option, none, some, List, [], ◌∷◌,
  if◌then◌else◌, ◌==◌, nat_beq_iff, nat_eq, Bool-cases, Option-cases, first_where-holds,
}
use prompt_studio_backend.Core.Errors.{AppError}
use prompt_studio_backend.Core.Json.{Fields}
use prompt_studio_backend.Projects.Documents.{ProjectDocSave, reload, save_doc}
use prompt_studio_backend.Projects.Documents.History.{Save, serve_save}
use prompt_studio_backend.Projects.Documents.Save.{
  SavedOver, refusal, SaveSpec, save_doc_checks_version,
}
use prompt_studio_backend.Projects.Feed.Docs.{doc_of}
use prompt_studio_backend.Store.{Project, Db, World}
use prompt_studio_backend.Store.Action.{Result, rollback, err}
use prompt_studio_backend.Store.Rows.{get_project}

-- The registers, by the project's id.
abbrev pub Registers : Type 0
Registers = ℕ → Option (Fields × ℕ)

abbrev pub accepts : Option ℕ → ℕ → Bool
accepts none current = true
accepts (some sent) current = sent == current

-- A write to a register that is there, if its base is the current version.
abbrev pub put : Option ℕ → Fields → Option (Fields × ℕ) → Option (Fields × ℕ)
put base doc none = none
put base doc (some (old, v)) = if accepts base v then some (doc, v + 1) else some (old, v)

abbrev pub write : ℕ → Option ℕ → Fields → Registers → Registers
write pid base doc registers key =
    if key == pid then put base doc (registers key) else registers key

unfoldable pub write_all : List Save → Registers → Registers
write_all [] registers = registers
write_all (s ∷ rest) registers =
    write_all rest (write s.access.project.id s.body.base_version s.body.doc registers)

unfoldable pub serve_saves : List Save → World → World
serve_saves [] w = w
serve_saves (s ∷ rest) w = serve_saves rest (serve_save s w).1

-- The registers that the rows stand for.
abbrev pub registers_of : World → Registers
registers_of w pid = doc_of pid w.projects

reload-its_id : (project : Project) (w : World) → (reload project w).id ≡ project.id
unfolding reload
reload-its_id project w = elim (Option-cases (get_project project.id w)) [
  | inl e ↦ rw e refl
  | inr (p, e) ↦ rw e (
      (nat_beq_iff p.id project.id).0
        (first_where-holds (λ (q : Project). q.id == project.id) w.projects e))
]

-- The version that the check compares is the stored one, of a row that is there.
stored_version :
    (project : Project) (w : World) {p : Project}
    → get_project project.id w ≡ some p
    → p.doc_version ≡ (reload project w).doc_version
unfolding reload
stored_version project w e = rw e refl

-- What a save that is accepted writes.
accepted_write :
    (project : Project) (body : ProjectDocSave) (w : World) (r : Result Project) (w' : World)
    → ((p : Project) → get_project project.id w ≡ some p → p.doc_version ≡ project.doc_version)
    → accepts body.base_version project.doc_version ≡ true
    → SavedOver body project w (r, w')
    → (key : ℕ)
    → registers_of (rollback w') key
      ≡ write project.id body.base_version body.doc (registers_of w) key
accepted_write project body w r w' current accepted (returned, docs, committed) key =
    ap (λ (db : Db). doc_of key db.projects) committed
    ∙ docs key
    ∙ elim (Bool-cases (key == project.id)) [
      | inr e ↦ rw e refl
      | inl e ↦ elim (Option-cases (get_project key w)) [
        | inl absent ↦ rw (e, absent) refl
        | inr (p, found) ↦
            let its : p.doc_version ≡ project.doc_version =
              current p
                (subst (λ k. get_project k w ≡ some p) ((nat_beq_iff key project.id).0 e) found) in
            rw (e, found, its, accepted) refl
      ]
    ]

put-refused :
    (base : Option ℕ) (doc : Fields) (project : Project) (w : World) (key : ℕ)
    → ((p : Project) → get_project project.id w ≡ some p → p.doc_version ≡ project.doc_version)
    → accepts base project.doc_version ≡ false
    → registers_of w key ≡ write project.id base doc (registers_of w) key
put-refused base doc project w key current stale = elim (Bool-cases (key == project.id)) [
  | inr e ↦ rw e refl
  | inl e ↦ elim (Option-cases (get_project key w)) [
    | inl absent ↦ rw (e, absent) refl
    | inr (p, found) ↦
        let its : p.doc_version ≡ project.doc_version =
          current p
            (subst (λ k. get_project k w ≡ some p) ((nat_beq_iff key project.id).0 e) found) in
        rw (e, found, its, stale) refl
  ]
]

-- A save that is refused leaves the registers, a fresh session being what is committed.
refused_write :
    (project : Project) (body : ProjectDocSave) (w : World) (after : Result Project × World)
    {x : AppError}
    → ((p : Project) → get_project project.id w ≡ some p → p.doc_version ≡ project.doc_version)
    → accepts body.base_version project.doc_version ≡ false
    → w.committed ≡ w.db
    → after ≡ (err x, w)
    → (key : ℕ)
    → registers_of (rollback after.1) key
      ≡ write project.id body.base_version body.doc (registers_of w) key
refused_write project body w after current stale fresh refused key =
    ap (λ (a : Result Project × World). registers_of (rollback a.1) key) refused
    ∙ ap (λ (db : Db). doc_of key db.projects) fresh
    ∙ put-refused body.base_version body.doc project w key current stale

spec_write :
    (base : Option ℕ) (project : Project) (body : ProjectDocSave) (w : World)
    (after : Result Project × World)
    → body.base_version ≡ base
    → ((p : Project) → get_project project.id w ≡ some p → p.doc_version ≡ project.doc_version)
    → w.committed ≡ w.db
    → SaveSpec body project w (refusal base project.doc_version) after
    → (key : ℕ)
    → registers_of (rollback after.1) key
      ≡ write project.id body.base_version body.doc (registers_of w) key
spec_write none project body w after sent current fresh s =
    accepted_write project body w after.0 after.1 current (rw sent refl) s
spec_write (some base) project body w after sent current fresh s =
    elim (Bool-cases (base == project.doc_version)) [
      | inl e ↦
          accepted_write project body w after.0 after.1 current (rw (sent, e) refl) (rw e at s)
      | inr e ↦ refused_write project body w after current (rw (sent, e) refl) fresh (rw e at s)
    ]

-- One save.
save_refines :
    (s : Save) (w : World)
    → w.committed ≡ w.db
    → registers_of (serve_save s w).1
      ≡ write s.access.project.id s.body.base_version s.body.doc (registers_of w)
save_refines s w fresh =
    let project = reload s.access.project w in
    let its = reload-its_id s.access.project w in
    let after = save_doc s.access s.user s.body s.take_snapshot s.activity w in
    subst
      (λ pid.
        registers_of (serve_save s w).1 ≡ write pid s.body.base_version s.body.doc (registers_of w))
      its
      (λ i key.
        spec_write s.body.base_version project s.body w after refl
          (λ p found.
            stored_version s.access.project w (subst (λ k. get_project k w ≡ some p) its found))
          fresh (save_doc_checks_version s.access s.user s.body s.take_snapshot s.activity w) key i)

-- Saves of several people to several projects, in whatever order, take the documents where the same
-- compare-and-set writes take the registers that they stand for: who saves, the snapshots, the feed
-- and the audit log make no difference. The first session is fresh.
pub saves_refine_registers :
    (saves : List Save) (w : World)
    → w.committed ≡ w.db
    → registers_of (serve_saves saves w) ≡ write_all saves (registers_of w)
unfolding serve_saves write_all
saves_refine_registers [] w fresh = refl
saves_refine_registers (s ∷ rest) w fresh =
    saves_refine_registers rest (serve_save s w).1 refl
    ∙ ap (write_all rest) (save_refines s w fresh)
