-- ===== src/Prelude/Single.antt =====
-- A test that at most one row satisfies, as a key does, and what a write to that row keeps.
use Prim.Native.Nat.{ℕ, ◌≤◌}
use mathlib.Core.Path.{◌≡◌, refl, ap, ◌∙◌}
use mathlib.Core.Logic.{inl, inr}
use mathlib.Core.Bool.{Bool, true, false, not, ◌&&◌, ◌||◌}
use mathlib.Core.Option
use mathlib.Core.Option.{none, some}
use mathlib.Core.List.{List, [], ◌∷◌}
use native.Mathlib.Omega.{arith}
use prompt_studio_backend.Prelude.Tests.{
  nat_beq, nat_beq_iff, if◌then◌else◌, Bool-cases, or_true, some-injective,
}
use prompt_studio_backend.Prelude.Tables.{
  select_where, any_where, first_where, first_where-All, update_where, delete_where, count_where,
  All, All-map,
}
use prompt_studio_backend.Prelude.Counts.{count_where-eq_of_All}

module _ {ℓ} {A : Type ℓ} where
  pub count_where-none :
      (p : A → Bool) (xs : List A) → count_where p xs ≡ 0 → All (λ x. p x ≡ false) xs
  unfolding count_where
  count_where-none p [] e = tt
  count_where-none p (x ∷ xs) e = (ground arith, count_where-none p xs (ground arith))

  -- A test that one row at most satisfies finds the only one.
  pub first_where-only :
      (p : A → Bool) (xs : List A) {x : A}
      → count_where p xs ≤ 1
      → first_where p xs ≡ some x
      → All (λ y. p y ≡ true → y ≡ x) xs
  unfolding first_where count_where
  first_where-only p [] u e = tt
  first_where-only p (y ∷ ys) {x} u e = elim (Bool-cases (p y)) [
    | inl h ↦
        (λ _. ground arith, All-map _ _ ys (λ z n k. cc) (count_where-none p ys (ground arith)))
    | inr h ↦ (λ k. cc, first_where-only p ys (ground arith) (ground arith))
  ]

  -- A write that changes a test on none of its rows changes no count of it.
  pub count_where-update_where :
      (p q : A → Bool) (f : A → A) (xs : List A)
      → All (λ x. q x ≡ true → p (f x) ≡ p x) xs
      → count_where p (update_where q f xs) ≡ count_where p xs
  unfolding count_where update_where
  count_where-update_where p q f [] h = refl
  count_where-update_where p q f (x ∷ xs) h =
      ground (arith, h.0, count_where-update_where p q f xs h.1)

  -- The rows that a write passes over stay.
  pub count_where-le-update_where :
      (p q : A → Bool) (f : A → A) (xs : List A)
      → count_where (λ x. p x && not (q x)) xs ≤ count_where p (update_where q f xs)
  unfolding count_where update_where
  count_where-le-update_where p q f [] = ground arith
  count_where-le-update_where p q f (x ∷ xs) = ground (arith, count_where-le-update_where p q f xs)

  pub count_where-spared :
      (p q : A → Bool) (xs : List A)
      → All (λ x. q x ≡ true → p x ≡ false) xs
      → count_where (λ x. p x && not (q x)) xs ≡ count_where p xs
  count_where-spared p q xs h =
      count_where-eq_of_All (λ x. p x && not (q x)) p xs
        (All-map _ _ xs (λ x k. ground (arith, k)) h)

  -- A row found by some test is the row that its own key finds.
  pub first_where-by_key :
      (p : A → Bool) (key : A → ℕ) (xs : List A) {x : A}
      → count_where (λ y. nat_beq (key y) (key x)) xs ≤ 1
      → first_where p xs ≡ some x
      → first_where (λ y. nat_beq (key y) (key x)) xs ≡ some x
  unfolding first_where count_where
  first_where-by_key p key [] u e = e
  first_where-by_key p key (y ∷ ys) {x} u e = elim (Bool-cases (p y)) [
    | inl h ↦ ground (arith, nat_beq_iff (key x) (key x))
    | inr h ↦ elim (Bool-cases (nat_beq (key y) (key x))) [
      | inl k ↦
          let gone = count_where-none (λ z. nat_beq (key z) (key x)) ys (ground arith) in
          let here = (nat_beq_iff (key x) (key x)).1 refl in
          let away : nat_beq (key x) (key x) ≡ false =
            first_where-All (λ z. nat_beq (key z) (key x) ≡ false) p ys gone (ground arith) in
          absurd cc
      | inr k ↦ rw k (first_where-by_key p key ys (ground arith) (ground arith))
    ]
  ]

  -- A write that loses no row of a test loses none of its count.
  pub count_where-grows :
      (p q : A → Bool) (f : A → A) (xs : List A)
      → ((x : A) → p x ≡ true → p (f x) ≡ true)
      → count_where p xs ≤ count_where p (update_where q f xs)
  unfolding count_where update_where
  count_where-grows p q f [] h = ground arith
  count_where-grows p q f (x ∷ xs) h = ground (arith, h x, count_where-grows p q f xs h)

  -- What a deletion was of is not found.
  pub first_where-delete_where :
      (p : A → Bool) (xs : List A) → first_where p (delete_where p xs) ≡ none
  unfolding first_where delete_where
  first_where-delete_where p [] = refl
  first_where-delete_where p (x ∷ xs) = elim (Bool-cases (p x)) [
    | inl h ↦ rw h (first_where-delete_where p xs)
    | inr h ↦ rw (h, h) (first_where-delete_where p xs)
  ]

  -- A test that fails on what a write makes, and on what it passes over, finds nothing.
  pub first_where-overwritten :
      (p q : A → Bool) (f : A → A) (xs : List A)
      → ((x : A) → q x ≡ true → p (f x) ≡ false)
      → ((x : A) → q x ≡ false → p x ≡ false)
      → first_where p (update_where q f xs) ≡ none
  unfolding first_where update_where
  first_where-overwritten p q f [] h k = refl
  first_where-overwritten p q f (x ∷ xs) h k =
      rw (first_where-overwritten p q f xs h k) (elim (Bool-cases (q x)) [
        | inl e ↦ rw (e, if◌then◌else◌, h x e) refl
        | inr e ↦ rw (e, if◌then◌else◌, k x e) refl
      ])

  -- A write leaves its mark on every row that it was meant for.
  pub update_where-All_marked {κ} :
      (P : A → Type κ) (q : A → Bool) (f : A → A) (xs : List A)
      → ((x : A) → P (f x))
      → All (λ x. q x ≡ true → P x) (update_where q f xs)
  unfolding update_where
  update_where-All_marked P q f [] h = tt
  update_where-All_marked P q f (x ∷ xs) h = elim (Bool-cases (q x)) [
    | inl e ↦ rw (e, if◌then◌else◌) (λ _. h x, update_where-All_marked P q f xs h)
    | inr e ↦ rw (e, if◌then◌else◌) (λ k. cc, update_where-All_marked P q f xs h)
  ]

  -- A selection that every row passes, and one that none does.
  pub select_where-all :
      (p : A → Bool) (xs : List A) → ((x : A) → p x ≡ true) → select_where p xs ≡ xs
  unfolding select_where
  select_where-all p [] h = refl
  select_where-all p (x ∷ xs) h = rw (h x, if◌then◌else◌, select_where-all p xs h)

  pub select_where-nothing :
      (p : A → Bool) (xs : List A) → All (λ x. p x ≡ false) xs → select_where p xs ≡ []
  unfolding select_where
  select_where-nothing p [] h = refl
  select_where-nothing p (x ∷ xs) h = rw (h.0, if◌then◌else◌) (select_where-nothing p xs h.1)

  -- A row that passes a selection is found in what is selected, by a test that it satisfies itself.
  pub All-selected :
      (p : A → Bool) (same : A → A → Bool) (xs : List A)
      → ((x : A) → same x x ≡ true)
      → All (λ x. (not (p x) || any_where (λ y. same y x) (select_where p xs)) ≡ true) xs
  unfolding select_where any_where
  All-selected p same [] r = tt
  All-selected p same (x ∷ xs) r = elim (Bool-cases (p x)) [
    | inl e ↦
        rw (e, if◌then◌else◌)
          (
            ground (arith, r x),
            All-map _ _ xs
                (λ y h. elim (Bool-cases (same x y)) [
                  | inl k ↦ rw (e, if◌then◌else◌, k) (or_true (not (p y)))
                  | inr k ↦ rw (e, if◌then◌else◌, k) h
                ])
                (All-selected p same xs r),
          )
    | inr e ↦
        rw (e, if◌then◌else◌)
          (refl, All-map _ _ xs (λ y h. rw (e, if◌then◌else◌) h) (All-selected p same xs r))
  ]

  -- The row that a test finds, after a write to it that the test does not notice.
  pub first_where-written :
      (p q : A → Bool) (f : A → A) (xs : List A) {x : A}
      → ((y : A) → p (f y) ≡ p y)
      → first_where p xs ≡ some x
      → q x ≡ true
      → first_where p (update_where q f xs) ≡ some (f x)
  unfolding first_where update_where
  first_where-written p q f [] h e k = cc
  first_where-written p q f (y ∷ ys) {x} h e k = elim (Bool-cases (p y)) [
    | inl m ↦
        let same : y ≡ x = some-injective (rw (m, if◌then◌else◌) at e) in
        rw (ap q same ∙ k, if◌then◌else◌, h y, m) (ap (λ z. some (f z)) same)
    | inr m ↦
        let rest = first_where-written p q f ys h (rw (m, if◌then◌else◌) at e) k in
        elim (Bool-cases (q y)) [
          | inl n ↦ rw (n, if◌then◌else◌, h y, m) rest
          | inr n ↦ rw (n, if◌then◌else◌, m) rest
        ]
  ]

module _ {ℓ κ} {A : Type ℓ} {B : Type κ} where
  -- A column that a write keeps reads the same after it.
  pub map-first_where-update_where :
      (column : A → B) (p q : A → Bool) (f : A → A) (xs : List A)
      → ((x : A) → p (f x) ≡ p x)
      → ((x : A) → column (f x) ≡ column x)
      → Option.map column (first_where p (update_where q f xs))
        ≡ Option.map column (first_where p xs)
  unfolding first_where update_where
  map-first_where-update_where column p q f [] h k = refl
  map-first_where-update_where column p q f (x ∷ xs) h k = elim (Bool-cases (q x)) [
    | inl e ↦
        rw (e, if◌then◌else◌, h x)
          (elim (Bool-cases (p x)) [
            | inl m ↦ rw (m, if◌then◌else◌) (ap some (k x))
            | inr m ↦ rw (m, if◌then◌else◌) (map-first_where-update_where column p q f xs h k)
          ])
    | inr e ↦
        rw (e, if◌then◌else◌)
          (elim (Bool-cases (p x)) [
            | inl m ↦ rw (m, if◌then◌else◌) refl
            | inr m ↦ rw (m, if◌then◌else◌) (map-first_where-update_where column p q f xs h k)
          ])
  ]
