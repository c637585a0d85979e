-- ===== src/Prelude/Tables.antt =====
-- A table is a list of rows; these are the queries that the services send. A `where` clause is a
-- Boolean function of the row.
use Prim.Native.Nat.{ℕ, zero, suc, ◌+◌}
use mathlib.Core.Path.{◌≡◌, refl, subst}
use mathlib.Core.Logic.{inl, inr}
use mathlib.Core.Bool.{Bool, true, false}
use mathlib.Core.Option
use mathlib.Core.Option.{Option, none, some}
use mathlib.Core.List.{List, [], ◌∷◌, ◌++◌}
use native.Mathlib.Omega.{arith}
use prompt_studio_backend.Prelude.Tests.{nat_beq, if◌then◌else◌, leb, Bool-cases}
use prompt_studio_backend.Prelude.Lists.{take, drop}

module _ {ℓ} {A : Type ℓ} where
  -- select(T).where(p)
  unfoldable pub select_where : (A → Bool) → List A → List A
  select_where p [] = []
  select_where p (x ∷ xs) = let rest = select_where p xs in if p x then x ∷ rest else rest

  -- select(T).where(p), the first row
  unfoldable pub first_where : (A → Bool) → List A → Option A
  first_where p [] = none
  first_where p (x ∷ xs) = if p x then some x else first_where p xs

  -- Every row that satisfies `p` is replaced by its image.
  unfoldable pub update_where : (A → Bool) → (A → A) → List A → List A
  update_where p f [] = []
  update_where p f (x ∷ xs) = (if p x then f x else x) ∷ update_where p f xs

  -- select(func.count()).where(p)
  unfoldable pub count_where : (A → Bool) → List A → ℕ
  count_where p [] = 0
  count_where p (x ∷ xs) = (if p x then 1 else 0) + count_where p xs

  -- delete(T).where(p)
  unfoldable pub delete_where : (A → Bool) → List A → List A
  delete_where p [] = []
  delete_where p (x ∷ xs) = let rest = delete_where p xs in if p x then rest else x ∷ rest

  unfoldable pub any_where : (A → Bool) → List A → Bool
  any_where p [] = false
  any_where p (x ∷ xs) = if p x then true else any_where p xs

  abbrev pub All {κ} : (A → Type κ) → List A → Type κ
  All P [] = Unit
  All P (x ∷ xs) = P x × All P xs

  -- order_by(key.desc()): a stable insertion sort.
  unfoldable pub insert_desc : (A → ℕ) → A → List A → List A
  insert_desc key x [] = x ∷ []
  insert_desc key x (y ∷ ys) =
      let rest = y ∷ insert_desc key x ys in if leb (key y) (key x) then x ∷ y ∷ ys else rest

  unfoldable pub order_by_desc : (A → ℕ) → List A → List A
  unfolding insert_desc
  order_by_desc key [] = []
  order_by_desc key (x ∷ xs) = insert_desc key x (order_by_desc key xs)

  pub first_where-holds :
      (p : A → Bool) (xs : List A) {x : A} → first_where p xs ≡ some x → p x ≡ true
  unfolding first_where
  first_where-holds p [] e = cc
  first_where-holds p (y ∷ ys) e = elim (Bool-cases (p y)) [
    | inl h ↦ ground arith
    | inr h ↦ first_where-holds p ys (ground arith)
  ]

  pub first_where-All {κ} :
      (P : A → Type κ) (p : A → Bool) (xs : List A) {x : A}
      → All P xs
      → first_where p xs ≡ some x
      → P x
  unfolding first_where
  first_where-All P p [] h e = cc
  first_where-All P p (y ∷ ys) {x} h e = elim (Bool-cases (p y)) [
    | inl t ↦ let q : y ≡ x = ground arith in subst P q h.0
    | inr t ↦ first_where-All P p ys h.1 (ground arith)
  ]

  -- A row that survives a deletion was there before, and did not satisfy the test.
  pub delete_where-All {κ} :
      (P : A → Type κ) (p : A → Bool) (xs : List A) → All P xs → All P (delete_where p xs)
  unfolding delete_where
  delete_where-All P p [] h = tt
  delete_where-All P p (x ∷ xs) h = elim (Bool-cases (p x)) [
    | inl t ↦ rw (t, if◌then◌else◌) (delete_where-All P p xs h.1)
    | inr t ↦ rw (t, if◌then◌else◌) (h.0, delete_where-All P p xs h.1)
  ]

  pub update_where-All {κ} :
      (P : A → Type κ) (p : A → Bool) (f : A → A) (xs : List A)
      → ((x : A) → P x → P (f x))
      → All P xs
      → All P (update_where p f xs)
  unfolding update_where
  update_where-All P p f [] k h = tt
  update_where-All P p f (x ∷ xs) k h = elim (Bool-cases (p x)) [
    | inl t ↦ rw (t, if◌then◌else◌) (k x h.0, update_where-All P p f xs k h.1)
    | inr t ↦ rw (t, if◌then◌else◌) (h.0, update_where-All P p f xs k h.1)
  ]

  -- What every row satisfies that survives a deletion.
  pub delete_where-All_of {κ κ'} :
      (P : A → Type κ) (Q : A → Type κ') (p : A → Bool) (xs : List A)
      → ((x : A) → P x → p x ≡ false → Q x)
      → All P xs
      → All Q (delete_where p xs)
  unfolding delete_where
  delete_where-All_of P Q p [] k h = tt
  delete_where-All_of P Q p (x ∷ xs) k h = elim (Bool-cases (p x)) [
    | inl t ↦ rw (t, if◌then◌else◌) (delete_where-All_of P Q p xs k h.1)
    | inr t ↦ rw (t, if◌then◌else◌) (k x h.0 t, delete_where-All_of P Q p xs k h.1)
  ]

  pub All-map {κ κ'} :
      (P : A → Type κ) (Q : A → Type κ') (xs : List A) → ((x : A) → P x → Q x) → All P xs → All Q xs
  All-map P Q [] k h = tt
  All-map P Q (x ∷ xs) k h = (k x h.0, All-map P Q xs k h.1)

  pub select_where-All {κ} :
      (P : A → Type κ) (p : A → Bool) (xs : List A) → All P xs → All P (select_where p xs)
  unfolding select_where
  select_where-All P p [] h = tt
  select_where-All P p (x ∷ xs) h = elim (Bool-cases (p x)) [
    | inl t ↦ rw (t, if◌then◌else◌) (h.0, select_where-All P p xs h.1)
    | inr t ↦ rw (t, if◌then◌else◌) (select_where-All P p xs h.1)
  ]

  pub select_where-holds : (p : A → Bool) (xs : List A) → All (λ x. p x ≡ true) (select_where p xs)
  unfolding select_where
  select_where-holds p [] = tt
  select_where-holds p (x ∷ xs) = elim (Bool-cases (p x)) [
    | inl t ↦ rw (t, if◌then◌else◌) (t, select_where-holds p xs)
    | inr t ↦ rw (t, if◌then◌else◌) (select_where-holds p xs)
  ]

  -- Every row of a list is found in it by a test that it satisfies itself.
  pub All-any_where :
      (same : A → A → Bool) (xs : List A)
      → ((x : A) → same x x ≡ true)
      → All (λ x. any_where (λ y. same y x) xs ≡ true) xs
  unfolding any_where
  All-any_where same [] r = tt
  All-any_where same (x ∷ xs) r = (
    rw (r x) refl,
    All-map _ _ xs (λ z h. elim (Bool-cases (same x z)) [ inl t ↦ rw t refl | inr t ↦ rw t h ])
        (All-any_where same xs r),
  )

  pub take-append-drop : (n : ℕ) (xs : List A) → take n xs ++ drop n xs ≡ xs
  take-append-drop zero xs = refl
  take-append-drop (suc n) [] = refl
  take-append-drop (suc n) (x ∷ xs) = rw (take-append-drop n xs)

  pub drop-All {κ} : (P : A → Type κ) (n : ℕ) (xs : List A) → All P xs → All P (drop n xs)
  drop-All P zero xs h = h
  drop-All P (suc n) [] h = tt
  drop-All P (suc n) (x ∷ xs) h = drop-All P n xs h.1

  pub insert_desc-All {κ} :
      (P : A → Type κ) (key : A → ℕ) (x : A) (ys : List A)
      → P x
      → All P ys
      → All P (insert_desc key x ys)
  unfolding insert_desc
  insert_desc-All P key x [] h k = (h, tt)
  insert_desc-All P key x (y ∷ ys) h k = elim (Bool-cases (leb (key y) (key x))) [
    | inl t ↦ rw (t, if◌then◌else◌) (h, k)
    | inr t ↦ rw (t, if◌then◌else◌) (k.0, insert_desc-All P key x ys h k.1)
  ]

  pub order_by_desc-All {κ} :
      (P : A → Type κ) (key : A → ℕ) (xs : List A) → All P xs → All P (order_by_desc key xs)
  unfolding order_by_desc
  order_by_desc-All P key [] h = tt
  order_by_desc-All P key (x ∷ xs) h =
      insert_desc-All P key x (order_by_desc key xs) h.0 (order_by_desc-All P key xs h.1)

  -- A row read by its key after a write to the rows with some key.
  pub first_where-update_where :
      (key : A → ℕ) (f : A → A) (k j : ℕ) (xs : List A)
      → ((x : A) → key (f x) ≡ key x)
      → first_where (λ x. nat_beq (key x) k) (update_where (λ x. nat_beq (key x) j) f xs) ≡ (
          if nat_beq k j
          then Option.map f (first_where (λ x. nat_beq (key x) k) xs)
          else first_where (λ x. nat_beq (key x) k) xs)
  unfolding first_where update_where
  first_where-update_where key f k j [] h = ground arith
  first_where-update_where key f k j (x ∷ xs) h =
      ground (arith, h x, first_where-update_where key f k j xs h)
