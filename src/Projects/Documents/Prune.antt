-- ===== src/Projects/Documents/Prune.antt =====
-- The cap on automatic snapshots: what `_prune_auto_versions` keeps and what it drops.
use mathlib.Core.Path.{subst}
use prompt_studio_backend.Prelude.{
  ℕ, ◌≤◌, ◌≡◌, refl, ap, ◌∙◌, inl, inr, Bool, true, false, not, ◌&&◌, List, [], ◌∷◌, arith,
  if◌then◌else◌, ◌==◌, nat_beq_iff, nat_eq, Bool-cases, beq_refl, take, drop, length-take,
  select_where, count_where, any_where, All, order_by_desc, count_where-append,
  count_where-delete_where, count_where-select_where, count_where-order_by_desc, All-map,
  All-any_where, count_where-ext, count_where-eq_of_All, count_where-le-length, count_where-eq_zero,
  All-counted, take-append-drop, drop-All, order_by_desc-All, count_where-split,
}
use prompt_studio_backend.Projects.Documents.{
  is_auto_version, stale_versions, delete_versions, prune_auto_versions,
}
use prompt_studio_backend.Store.{ProjectVersion, World}
use prompt_studio_backend.Store.Rows.{delete_version}

-- Rows whose id is none of those that are deleted.
abbrev survives : List ProjectVersion → ProjectVersion → Bool
survives stale v = not (any_where (λ s. s.id == v.id) stale)

-- Deleting one stale row after another leaves the rows with none of their ids.
count-delete_versions :
    (p : ProjectVersion → Bool) (stale : List ProjectVersion) (w : World)
    → count_where p (delete_versions stale w).versions
      ≡ count_where (λ v. p v && survives stale v) w.versions
unfolding delete_versions any_where
count-delete_versions p [] w = count_where-ext p _ w.versions (λ v. ground arith)
count-delete_versions p (v ∷ stale) w =
    count-delete_versions p stale (delete_version v.id w)
    ∙ count_where-delete_where (λ x. p x && survives stale x) (λ x. x.id == v.id) w.versions
    ∙ count_where-ext _ _ w.versions (λ x. ground (arith, nat_beq_iff x.id v.id))

-- The stale rows are among those that do not survive.
stale-survives : (stale : List ProjectVersion) → All (λ v. survives stale v ≡ false) stale
stale-survives stale =
    All-map _ _ stale (λ v h. rw h) (All-any_where (λ s v. s.id == v.id) stale (λ v. beq_refl v.id))

-- After pruning, a project has at most `PROJECT_VERSION_LIMIT` automatic snapshots, whatever was in
-- the table.
pub prune_auto_versions_caps :
    (pid : ℕ) (w : World)
    → count_where (is_auto_version pid) (prune_auto_versions pid w).versions
      ≤ w.settings.project_version_limit
unfolding prune_auto_versions stale_versions
prune_auto_versions_caps pid w = omega (
  arith,
  count-delete_versions (is_auto_version pid) stale w,
  count_where-select_where (survives stale) (is_auto_version pid) w.versions,
  count_where-order_by_desc (survives stale) created
      (select_where (is_auto_version pid) w.versions),
  ap (count_where (survives stale)) (take-append-drop w.settings.project_version_limit sorted),
  count_where-append (survives stale) (take w.settings.project_version_limit sorted) stale,
  count_where-eq_zero (survives stale) stale (stale-survives stale),
  count_where-le-length (survives stale) (take w.settings.project_version_limit sorted),
  length-take w.settings.project_version_limit sorted,
)
  where
    created : ProjectVersion → ℕ
    created v = v.created_at

    sorted : List ProjectVersion
    sorted = order_by_desc created (select_where (is_auto_version pid) w.versions)

    stale : List ProjectVersion
    stale = drop w.settings.project_version_limit sorted

-- No two rows have one id.
abbrev pub HasUniqueIds : List ProjectVersion → Type 0
HasUniqueIds vs = (key : ℕ) → count_where (λ v. v.id == key) vs ≤ 1

abbrev pub auto_at : ℕ → ℕ → ProjectVersion → Bool
auto_at pid key v = v.id == key && is_auto_version pid v

abbrev other_at : ℕ → ℕ → ProjectVersion → Bool
other_at pid key v = v.id == key && not (is_auto_version pid v)

-- A row of another kind has no stale row's id.
other-survives :
    (pid : ℕ) (vs stale : List ProjectVersion) (v : ProjectVersion)
    → HasUniqueIds vs
    → 1 ≤ count_where (other_at pid v.id) vs
    → All (λ s. 1 ≤ count_where (auto_at pid s.id) vs) stale
    → survives stale v ≡ true
unfolding any_where
other-survives pid vs [] v u c h = refl
other-survives pid vs (s ∷ stale) v u c h = elim (Bool-cases (s.id == v.id)) [
  | inr differ ↦ rw differ (other-survives pid vs stale v u c h.1)
  | inl same ↦
      let e = (nat_beq_iff s.id v.id).0 same in
      absurd (
        omega (
          arith,
          u v.id,
          count_where-split (λ x. x.id == v.id) (is_auto_version pid) vs,
          c,
          subst (λ k. 1 ≤ count_where (auto_at pid k) vs) e h.0,
        ))
]

-- Each selected row is counted among the rows it was selected from.
select-counted :
    (pid : ℕ) (vs : List ProjectVersion)
    → All (λ s. 1 ≤ count_where (auto_at pid s.id) vs) (select_where (is_auto_version pid) vs)
select-counted pid vs =
    All-map _ _ (select_where (is_auto_version pid) vs)
      (λ s h. omega (
        arith,
        h,
        count_where-select_where (λ x. x.id == s.id) (is_auto_version pid) vs,
        count_where-ext (λ x. is_auto_version pid x && x.id == s.id) (auto_at pid s.id) vs
            (λ x. ground arith),
      ))
      (All-counted (λ s x. x.id == s.id) (select_where (is_auto_version pid) vs)
        (λ v. beq_refl v.id))

-- Every row that is not an automatic snapshot of the project is counted as such.
other-counted :
    (pid : ℕ) (vs : List ProjectVersion)
    → All (λ v. is_auto_version pid v ≡ false → 1 ≤ count_where (other_at pid v.id) vs) vs
other-counted pid vs =
    All-map _ _ vs
      (λ v h e.
        omega (arith, h, count_where-ext (kin v) (other_at pid v.id) vs (λ x. ground arith)))
      (All-counted kin vs (λ v. ground (arith, beq_refl v.id)))
  where
    kin : ProjectVersion → ProjectVersion → Bool
    kin v x =
        x.id == v.id
        && (if is_auto_version pid v then is_auto_version pid x else not (is_auto_version pid x))

-- Pruning drops automatic snapshots of this project only: any count of rows that are named, or are
-- another project's, stays as it was. Rows have unique ids.
pub prune_auto_versions_spares :
    (pid : ℕ) (p : ProjectVersion → Bool) (w : World)
    → HasUniqueIds w.versions
    → ((v : ProjectVersion) → p v ≡ true → is_auto_version pid v ≡ false)
    → count_where p (prune_auto_versions pid w).versions ≡ count_where p w.versions
unfolding prune_auto_versions stale_versions
prune_auto_versions_spares pid p w unique named =
    count-delete_versions p (stale_versions pid w) w
    ∙ count_where-eq_of_All _ p w.versions (
        All-map _ _ w.versions
          (λ v counted.
            keep v (λ e. other-survives pid w.versions _ v unique (counted e) stale_counted))
          (other-counted pid w.versions))
  where
    stale_counted : All (λ s. 1 ≤ count_where (auto_at pid s.id) w.versions) (stale_versions pid w)
    stale_counted = drop-All _ w.settings.project_version_limit _ (
        order_by_desc-All _ _ (select_where (is_auto_version pid) w.versions)
          (select-counted pid w.versions))

    keep :
        (v : ProjectVersion)
        → (is_auto_version pid v ≡ false → survives (stale_versions pid w) v ≡ true)
        → (p v && survives (stale_versions pid w) v) ≡ p v
    keep v h = elim (Bool-cases (p v)) [ inl t ↦ rw t (h (named v t)) | inr t ↦ rw t ]
