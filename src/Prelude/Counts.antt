-- ===== src/Prelude/Counts.antt =====
-- How the queries count: `count_where` under each of the other operations on a table.
use Prim.Native.Nat.{ℕ, ◌+◌, ◌≤◌}
use mathlib.Core.Path.{◌≡◌, refl, ap, fun_ext, ◌∙◌}
use mathlib.Core.Bool.{Bool, true, false, not, ◌&&◌}
use mathlib.Core.List.{List, [], ◌∷◌, ◌++◌}
use native.Mathlib.Omega.{arith}
use prompt_studio_backend.Prelude.Lists.{length}
use prompt_studio_backend.Prelude.Tables.{
  select_where, count_where, delete_where, All, insert_desc, order_by_desc, All-map,
}

module _ {ℓ} {A : Type ℓ} where
  pub count_where-append :
      (p : A → Bool) (xs ys : List A)
      → count_where p (xs ++ ys) ≡ count_where p xs + count_where p ys
  unfolding count_where
  count_where-append p [] ys = omega arith
  count_where-append p (x ∷ xs) ys = omega (arith, count_where-append p xs ys)

  -- Counting after a deletion counts the rows that satisfy the one test and not the other.
  pub count_where-delete_where :
      (p q : A → Bool) (xs : List A)
      → count_where p (delete_where q xs) ≡ count_where (λ x. p x && not (q x)) xs
  unfolding count_where delete_where
  count_where-delete_where p q [] = refl
  count_where-delete_where p q (x ∷ xs) = ground (arith, count_where-delete_where p q xs)

  pub length-select_where :
      (p : A → Bool) (xs : List A) → length (select_where p xs) ≡ count_where p xs
  unfolding count_where select_where
  length-select_where p [] = refl
  length-select_where p (x ∷ xs) = ground (arith, length-select_where p xs)

  pub count_where-select_where :
      (p q : A → Bool) (xs : List A)
      → count_where p (select_where q xs) ≡ count_where (λ x. q x && p x) xs
  unfolding count_where select_where
  count_where-select_where p q [] = refl
  count_where-select_where p q (x ∷ xs) = ground (arith, count_where-select_where p q xs)

  -- Sorting permutes: any count is the same before and after.
  pub count_where-insert_desc :
      (p : A → Bool) (key : A → ℕ) (x : A) (ys : List A)
      → count_where p (insert_desc key x ys) ≡ count_where p (x ∷ ys)
  unfolding count_where insert_desc
  count_where-insert_desc p key x [] = refl
  count_where-insert_desc p key x (y ∷ ys) = ground (arith, count_where-insert_desc p key x ys)

  pub count_where-order_by_desc :
      (p : A → Bool) (key : A → ℕ) (xs : List A)
      → count_where p (order_by_desc key xs) ≡ count_where p xs
  unfolding order_by_desc count_where
  count_where-order_by_desc p key [] = refl
  count_where-order_by_desc p key (x ∷ xs) =
      count_where-insert_desc p key x (order_by_desc key xs)
      ∙ omega (arith, count_where-order_by_desc p key xs)

  pub count_where-ext :
      (p q : A → Bool) (xs : List A) → ((x : A) → p x ≡ q x) → count_where p xs ≡ count_where q xs
  count_where-ext p q xs h = ap (λ f. count_where f xs) (fun_ext h)

  -- The test need agree only on the rows that are there.
  pub count_where-eq_of_All :
      (p q : A → Bool) (xs : List A) → All (λ x. p x ≡ q x) xs → count_where p xs ≡ count_where q xs
  unfolding count_where
  count_where-eq_of_All p q [] h = refl
  count_where-eq_of_All p q (x ∷ xs) h = ground (arith, count_where-eq_of_All p q xs h.1)

  pub count_where-le-length : (p : A → Bool) (xs : List A) → count_where p xs ≤ length xs
  unfolding count_where
  count_where-le-length p [] = omega arith
  count_where-le-length p (x ∷ xs) = ground (arith, count_where-le-length p xs)

  pub count_where-le-count_where :
      (p q : A → Bool) (xs : List A)
      → ((x : A) → p x ≡ true → q x ≡ true)
      → count_where p xs ≤ count_where q xs
  unfolding count_where
  count_where-le-count_where p q [] h = omega arith
  count_where-le-count_where p q (x ∷ xs) h =
      ground (arith, h x, count_where-le-count_where p q xs h)

  pub count_where-eq_zero :
      (p : A → Bool) (xs : List A) → All (λ x. p x ≡ false) xs → count_where p xs ≡ 0
  unfolding count_where
  count_where-eq_zero p [] h = refl
  count_where-eq_zero p (x ∷ xs) h = ground (arith, count_where-eq_zero p xs h.1)

  -- A row that is there is counted.
  pub All-counted :
      (p : A → A → Bool) (xs : List A)
      → ((x : A) → p x x ≡ true)
      → All (λ x. 1 ≤ count_where (p x) xs) xs
  unfolding count_where
  All-counted p [] r = tt
  All-counted p (x ∷ xs) r =
      (ground (arith, r x), All-map _ _ xs (λ y h. ground arith) (All-counted p xs r))

  pub count_where-split :
      (p q : A → Bool) (xs : List A)
      → count_where p xs ≡ count_where (λ x. p x && q x) xs + count_where (λ x. p x && not (q x)) xs
  unfolding count_where
  count_where-split p q [] = refl
  count_where-split p q (x ∷ xs) = ground (arith, count_where-split p q xs)
