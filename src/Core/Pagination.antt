-- ===== src/Core/Pagination.antt =====
-- app/core/pagination.py: one page of a query's rows.
pub mod Windows
use prompt_studio_backend.Prelude.{
  ℕ, ◌+◌, ◌-◌, ◌*◌, ◌/◌, ◌≤◌, Bool, List, [], ltb, if◌then◌else◌, ◌==◌, nat_eq, length, take, drop,
}

abbrev pub max_page_size : ℕ
max_page_size = 200

abbrev pub max_page : ℕ
max_page = 1_000_000

pub record PageParams : Type 0 where
  pub page : ℕ
  pub size : ℕ

-- The bounds that the schema checks.
abbrev pub IsValid : PageParams → Type 0
IsValid params =
    (1 ≤ params.page) × (params.page ≤ max_page) × (1 ≤ params.size) × (params.size ≤ max_page_size)

pub offset : PageParams → ℕ
offset params = (params.page - 1) * params.size

pub record Page {ℓ} (A : Type ℓ) : Type ℓ where
  pub items : List A
  pub total : ℕ
  pub page : ℕ
  pub size : ℕ
  pub pages : ℕ
  pub has_next : Bool
  pub has_prev : Bool

-- `math.ceil(total / params.size) if total else 0`, where the quotient is exact (a total below 2 ^ 53)
unfoldable pub page_count : ℕ → ℕ → ℕ
page_count total size = if total == 0 then 0 else (total + (size - 1)) / size

module _ {ℓ} {A : Type ℓ} where
  -- `Page.build`
  pub build : List A → ℕ → PageParams → Page A
  build items total params = record {
    items = items;
    total = total;
    page = params.page;
    size = params.size;
    pages = page_count total params.size;
    has_next = ltb params.page (page_count total params.size);
    has_prev = ltb 1 params.page;
  }

  -- `paginate`, over the rows that the statement selects, each once and in its order
  pub paginate : List A → PageParams → List A × ℕ
  paginate rows params =
      if length rows == 0
      then ([], 0)
      else (take params.size (drop (offset params) rows), length rows)
