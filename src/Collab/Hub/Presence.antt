-- ===== src/Collab/Hub/Presence.antt =====
-- The roster of a room: one row for each person, with the number of their tabs.
use prompt_studio_backend.Prelude.{
  ℕ, ◌+◌, ◌≤◌, ◌≡◌, ◌∙◌, ◌&&◌, List, [], ◌∷◌, arith, if◌then◌else◌, ◌==◌, nat_eq, count_where,
}
use prompt_studio_backend.Collab.Hub.{Description, Person, count_person, collapse_onto, collapse}

-- The tabs that a roster counts for a person.
abbrev pub tabs : ℕ → List Person → ℕ
tabs uid [] = 0
tabs uid (p ∷ people) = (if p.entry.user_id == uid then p.connections else 0) + tabs uid people

abbrev pub rows_of : ℕ → List Person → ℕ
rows_of uid people = count_where (λ p. p.entry.user_id == uid) people

tabs-count_person :
    (uid : ℕ) (d : Description) (people : List Person)
    → tabs uid (count_person d people) ≡ tabs uid people + (if d.user_id == uid then 1 else 0)
unfolding count_person
tabs-count_person uid d [] = ground arith
tabs-count_person uid d (p ∷ people) = ground (arith, tabs-count_person uid d people)

rows_of-count_person :
    (uid : ℕ) (d : Description) (people : List Person)
    → rows_of uid (count_person d people)
      ≡ (if d.user_id == uid && rows_of uid people == 0 then 1 else rows_of uid people)
unfolding count_person count_where
rows_of-count_person uid d [] = ground arith
rows_of-count_person uid d (p ∷ people) = ground (arith, rows_of-count_person uid d people)

collapse_onto-counts :
    (uid : ℕ) (people : List Person) (entries : List Description)
    → rows_of uid people ≤ 1
    → (rows_of uid (collapse_onto people entries) ≤ 1)
      × (tabs uid (collapse_onto people entries)
          ≡ tabs uid people + count_where (λ d. d.user_id == uid) entries)
unfolding collapse_onto count_where
collapse_onto-counts uid people [] once = (once, omega arith)
collapse_onto-counts uid people (d ∷ entries) once =
    let rest =
      collapse_onto-counts uid (count_person d people) entries
        (ground (arith, rows_of-count_person uid d people)) in
    (rest.0, rest.1 ∙ ground (arith, tabs-count_person uid d people))

-- The collapsed roster has at most one row for each person, and that row counts exactly the entries
-- of that person: the same person in three tabs is one row that says three.
pub collapse_counts_tabs :
    (uid : ℕ) (entries : List Description)
    → (rows_of uid (collapse entries) ≤ 1)
      × (tabs uid (collapse entries) ≡ count_where (λ d. d.user_id == uid) entries)
unfolding collapse count_where
collapse_counts_tabs uid entries =
    let counted = collapse_onto-counts uid [] entries (omega arith) in
    (counted.0, counted.1 ∙ omega arith)
