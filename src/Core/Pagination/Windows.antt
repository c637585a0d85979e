-- ===== src/Core/Pagination/Windows.antt =====
-- The windows of a list, page after page.
use native.Mathlib.Nat.{
  mul-le-mul_left, mul-le-mul_right, lt-div-mul-add, le-div_iff_mul-le, suc-mul, zero-mul,
}
use prompt_studio_backend.Prelude.{
  ℕ, zero, suc, ◌+◌, ◌-◌, ◌*◌, ◌/◌, ◌≤◌, ◌<◌, ◌≡◌, refl, sym, ap, ◌∙◌, ◌↔◌, inl, inr, true, List,
  [], ◌∷◌, ◌++◌, arith, ltb, if◌then◌else◌, ◌==◌, nat_eq, ltb→lt, lt→ltb, Bool-cases, length, take,
  drop,
}
use prompt_studio_backend.Core.Pagination.{PageParams, IsValid, offset, page_count, build, paginate}

-- The offset of a valid page is inside a signed 64-bit column.
pub offset_bounded :
    (params : PageParams) → IsValid params → offset params < 9_223_372_036_854_775_808
unfolding offset
offset_bounded params (first, last, some_rows, few_rows) = omega (
  arith,
  mul-le-mul_right {m = params.page - 1} {n = 999_999} params.size (omega arith),
  mul-le-mul_left {m = params.size} {n = 200} 999_999 few_rows,
)

enough_pages : (total size : ℕ) → 1 ≤ size → total ≤ page_count total size * size
unfolding page_count
enough_pages total size one = elim (Bool-cases (total == 0)) [
  | inl e ↦ ground arith
  | inr e ↦
      rw (e, if◌then◌else◌)
        (omega (arith, lt-div-mul-add {a = total + (size - 1)} {b = size} (omega arith)))
]

page_times : (page size : ℕ) → 1 ≤ page → page * size ≡ (page - 1) * size + size
page_times zero size one = absurd (omega arith)
page_times (suc p) size one = suc-mul p size ∙ ap (λ k. k * size + size) (omega arith)

-- A later page is there exactly if rows are left.
next_page_iff :
    (page size total : ℕ)
    → 1 ≤ page
    → 1 ≤ size
    → (ltb page (page_count total size) ≡ true) ↔ ((page - 1) * size + size < total)
unfolding page_count
next_page_iff page size total first one = elim (Bool-cases (total == 0)) [
  | inl e ↦ rw (e, if◌then◌else◌) (λ h. absurd (ground arith), λ h. absurd (ground arith))
  | inr e ↦
      let fits =
        le-div_iff_mul-le {k = size} {x = suc page} {y = total + (size - 1)} (omega arith) in
      let this = page_times page size first in
      let that = suc-mul page size in
      rw (e, if◌then◌else◌)
        (
          λ h.
              let low = fits.0 (omega (arith, ltb→lt page ((total + (size - 1)) / size) h)) in
              omega arith,
          λ h. lt→ltb page ((total + (size - 1)) / size) (omega (arith, fits.1 (omega arith))),
        )
]

module _ {ℓ} {A : Type ℓ} where
  take-nothing : (n : ℕ) → take {A = A} n [] ≡ []
  take-nothing zero = refl
  take-nothing (suc n) = refl

  drop-nothing : (n : ℕ) → drop {A = A} n [] ≡ []
  drop-nothing zero = refl
  drop-nothing (suc n) = refl

  take-whole : (n : ℕ) (xs : List A) → length xs ≤ n → take n xs ≡ xs
  take-whole n [] le = take-nothing n
  take-whole zero (x ∷ xs) le = absurd (omega arith)
  take-whole (suc n) (x ∷ xs) le = rw (take-whole n xs (omega arith)) refl

  take-next : (a b n : ℕ) (xs : List A) → n ≡ a + b → take a xs ++ take b (drop a xs) ≡ take n xs
  take-next zero b n xs e = ap (λ k. take k xs) (omega arith)
  take-next (suc a) b zero xs e = absurd (omega arith)
  take-next (suc a) b (suc n) [] e = take-nothing b
  take-next (suc a) b (suc n) (x ∷ xs) e = ap (λ ys. x ∷ ys) (take-next a b n xs (omega arith))

  window :
      (rows : List A) (params : PageParams)
      → (paginate rows params).0 ≡ take params.size (drop (offset params) rows)
  unfolding paginate
  window [] params =
      sym (ap (take params.size) (drop-nothing (offset params)) ∙ take-nothing params.size)
  window (x ∷ rows) params = ground arith

  -- The first pages of a list, one after the other.
  pub pages_up_to : ℕ → ℕ → List A → List A
  pages_up_to zero size rows = []
  pages_up_to (suc n) size rows =
      pages_up_to n size rows ++ (paginate rows (record { page = suc n; size = size })).0

  pages_up_to-take :
      (n size m : ℕ) (rows : List A) → m ≡ n * size → pages_up_to n size rows ≡ take m rows
  unfolding pages_up_to offset
  pages_up_to-take zero size m rows e = ap (λ k. take k rows) (sym (e ∙ zero-mul size))
  pages_up_to-take (suc n) size m rows e =
      ap (λ ys. ys ++ (paginate rows (record { page = suc n; size = size })).0)
        (pages_up_to-take n size (n * size) rows refl)
      ∙ ap (λ ys. take (n * size) rows ++ ys)
          (window rows (record { page = suc n; size = size })
            ∙ ap (λ k. take size (drop (k * size) rows)) (omega arith))
      ∙ take-next (n * size) size m rows (e ∙ suc-mul n size)

  -- The pages of a list, as many as the page says there are, hold its rows in order: each row once,
  -- none left out.
  pub pages_cover :
      (rows : List A) (size : ℕ)
      → 1 ≤ size
      → pages_up_to (page_count (length rows) size) size rows ≡ rows
  pages_cover rows size one =
      pages_up_to-take (page_count (length rows) size) size (page_count (length rows) size * size)
        rows refl
      ∙ take-whole (page_count (length rows) size * size) rows (enough_pages (length rows) size one)

  -- A page says that there is a next one exactly if rows are left after its window.
  pub build_has_next :
      (items : List A) (total : ℕ) (params : PageParams)
      → IsValid params
      → ((build items total params).has_next ≡ true) ↔ (offset params + params.size < total)
  unfolding build offset
  build_has_next items total params (first, last, some_rows, few_rows) =
      next_page_iff params.page params.size total first some_rows
