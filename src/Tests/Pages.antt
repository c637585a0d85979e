-- ===== src/Tests/Pages.antt =====
-- A list read page after page, and what an administrator is granted.
use prompt_studio_backend.Prelude.{
  ℕ, ◌+◌, ◌<◌, ◌≡◌, refl, ◌↔◌, ◌⊎◌, true, false, List, [], ◌∷◌, arith, length, any_where, All,
}
use prompt_studio_backend.Core.Pagination.{PageParams, IsValid, offset, page_count, build}
use prompt_studio_backend.Core.Pagination.Windows.{
  offset_bounded, pages_up_to, pages_cover, build_has_next,
}
use prompt_studio_backend.Core.Roles.{GlobalRole}
use prompt_studio_backend.Rbac.{irreversible_permissions, role_has}
use prompt_studio_backend.Rbac.Grants.{irreversible_needs_superadmin, role_has_grows}

abbrev last_page : PageParams
last_page = record { page = 1_000_000; size = 200 }

last_page-IsValid : IsValid last_page
last_page-IsValid = (omega arith, omega arith, omega arith, omega arith)

last_page-offset : offset last_page < 9_223_372_036_854_775_808
last_page-offset = offset_bounded last_page last_page-IsValid

abbrev five_rows : List ℕ
five_rows = 10 ∷ 20 ∷ 30 ∷ 40 ∷ 50 ∷ []

three_pages : page_count (length five_rows) 2 ≡ 3
unfolding page_count
three_pages = refl

pages_cover_example : pages_up_to (page_count (length five_rows) 2) 2 five_rows ≡ five_rows
pages_cover_example = pages_cover five_rows 2 (omega arith)

abbrev second_page : PageParams
second_page = record { page = 2; size = 2 }

second_page-IsValid : IsValid second_page
second_page-IsValid = (omega arith, omega arith, omega arith, omega arith)

second_page-build :
    ((build {A = ℕ} (30 ∷ 40 ∷ []) 5 second_page).has_next ≡ true)
    ↔ (offset second_page + second_page.size < 5)
second_page-build = build_has_next (30 ∷ 40 ∷ []) 5 second_page second_page-IsValid

admin_keeps_reversible :
    All
      (λ code.
        role_has GlobalRole.admin code false ≡ true
        → (false ≡ true) ⊎ (GlobalRole.admin ≡ GlobalRole.superadmin))
      irreversible_permissions
admin_keeps_reversible = irreversible_needs_superadmin GlobalRole.admin false

admin_reads_users : role_has GlobalRole.admin "users.read" false ≡ true
unfolding role_has any_where
admin_reads_users = refl

admin_grants_grow :
    (role_has GlobalRole.superadmin "users.read" false ≡ true)
    × (role_has GlobalRole.admin "users.read" true ≡ true)
admin_grants_grow = role_has_grows GlobalRole.admin "users.read" false admin_reads_users
