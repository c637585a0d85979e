-- ===== src/Tests/Documents.antt =====
-- Saves, refusals and pruning on the sample world.
use prompt_studio_backend.Prelude.{
  ℕ, ◌≤◌, ◌≡◌, refl, true, Option, none, some, List, [], ◌∷◌, arith, ◌==◌, nat_eq, first_where,
  count_where,
}
use prompt_studio_backend.Core.Json.{empty}
use prompt_studio_backend.Projects.Documents.{
  ProjectDocSave, reload, is_auto_version, prune_auto_versions, save_doc,
}
use prompt_studio_backend.Projects.Documents.History.{
  Save, accepted_saves, IsChain, accepted_saves-IsChain,
}
use prompt_studio_backend.Projects.Documents.Prune.{
  prune_auto_versions_caps, prune_auto_versions_spares,
}
use prompt_studio_backend.Projects.Documents.Register.{
  write_all, serve_saves, registers_of, saves_refine_registers,
}
use prompt_studio_backend.Projects.Documents.Save.{refusal, SaveSpec, save_doc_checks_version}
use prompt_studio_backend.Tests.Samples.{
  owner, editor, board, some_world, owner_access, editor_access,
}

abbrev save_from : Option ℕ → ProjectDocSave
save_from base = record { doc = empty; base_version = base; schema_version = none; label = none }

-- The editor, then the owner, both from version 4: the second save is refused.
abbrev two_saves : List Save
two_saves =
    record {
      access = editor_access;
      user = editor;
      body = save_from (some 4);
      take_snapshot = true;
      activity = true;
    }
    ∷ record {
      access = owner_access;
      user = owner;
      body = save_from (some 4);
      take_snapshot = true;
      activity = true;
    }
    ∷ []

save_doc_checks_version_example :
    SaveSpec
      (save_from (some 3))
      (reload board some_world)
      some_world
      (refusal (some 3) (reload board some_world).doc_version)
      (save_doc editor_access editor (save_from (some 3)) true true some_world)
save_doc_checks_version_example =
    save_doc_checks_version editor_access editor (save_from (some 3)) true true some_world

accepted_saves-IsChain_example : IsChain 4 (accepted_saves two_saves some_world)
unfolding first_where
accepted_saves-IsChain_example =
    accepted_saves-IsChain two_saves 10 4 some_world (refl, (refl, tt)) (board, refl, refl, refl)

prune_auto_versions_caps_example :
    count_where (is_auto_version 10) (prune_auto_versions 10 some_world).versions ≤ 2
prune_auto_versions_caps_example = prune_auto_versions_caps 10 some_world

prune_auto_versions_spares_example :
    count_where (λ v. v.project_id == 9) (prune_auto_versions 10 some_world).versions
    ≡ count_where (λ v. v.project_id == 9) some_world.versions
unfolding count_where
prune_auto_versions_spares_example =
    prune_auto_versions_spares 10 (λ v. v.project_id == 9) some_world (λ key. ground arith)
      (λ v e. ground arith)

saves_refine_registers_example :
    registers_of (serve_saves two_saves some_world) ≡ write_all two_saves (registers_of some_world)
saves_refine_registers_example = saves_refine_registers two_saves some_world refl

-- The first save is taken, the second is not.
register_after : write_all two_saves (registers_of some_world) 10 ≡ some (empty, 5)
unfolding write_all first_where
register_after = refl
