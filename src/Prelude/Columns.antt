-- ===== src/Prelude/Columns.antt =====
-- What a write to a table's rows keeps of one column.
use mathlib.Core.Path.{◌≡◌, refl}
use mathlib.Core.Logic.{inl, inr}
use mathlib.Core.Bool.{Bool, true}
use mathlib.Core.List.{List, [], ◌∷◌, map}
use prompt_studio_backend.Prelude.Tests.{Bool-cases}
use prompt_studio_backend.Prelude.Tables.{update_where, All}

pub All-everywhere {ℓ κ} : {A : Type ℓ} (P : A → Type κ) (xs : List A) → ((x : A) → P x) → All P xs
All-everywhere P [] h = tt
All-everywhere P (x ∷ xs) h = (h x, All-everywhere P xs h)

module _ {ℓ κ} {A : Type ℓ} {B : Type κ} where
  -- A write that keeps a column of each row that it reaches keeps the column.
  pub map-update_where :
      (column : A → B) (q : A → Bool) (f : A → A) (xs : List A)
      → All (λ x. q x ≡ true → column (f x) ≡ column x) xs
      → map column (update_where q f xs) ≡ map column xs
  unfolding update_where
  map-update_where column q f [] h = refl
  map-update_where column q f (x ∷ xs) h = elim (Bool-cases (q x)) [
    | inl e ↦ rw (e, h.0 e, map-update_where column q f xs h.1) refl
    | inr e ↦ rw (e, map-update_where column q f xs h.1) refl
  ]

  pub map-update_kept :
      (column : A → B) (q : A → Bool) (f : A → A) (xs : List A)
      → ((x : A) → column (f x) ≡ column x)
      → map column (update_where q f xs) ≡ map column xs
  map-update_kept column q f xs h =
      map-update_where column q f xs (All-everywhere _ xs (λ x e. h x))
