-- ===== src/Projects/Members/Sound.antt =====
-- The keys of the membership table (`ProjectMember` of app/modules/projects/models.py).
use prompt_studio_backend.Prelude.{
  ℕ, ◌+◌, ◌≤◌, ◌<◌, ◌≡◌, inl, inr, not, ◌&&◌, List, arith, ◌==◌, nat_beq_iff, nat_eq, Bool-cases,
  count_where, All, delete_where-All, update_where-All, All-map, count_where-delete_where,
  count_where-le-count_where, count_where-eq_zero, count_where-update_where,
}
use prompt_studio_backend.Store.{ProjectMember, World}
use prompt_studio_backend.Store.Rows.{update_member, add_member, delete_member}

abbrev pub HasUniqueIds : List ProjectMember → Type 0
HasUniqueIds rows = (key : ℕ) → count_where (λ r. r.id == key) rows ≤ 1

abbrev pub IsSound : World → Type 0
IsSound w = HasUniqueIds w.members × All (λ r. r.id < w.next_id) w.members

-- What the feed, the audit log, the mail and the hub do to it.
abbrev pub IsBeside : World → World → Type 0
IsBeside w w' = (w'.members ≡ w.members) × (w.next_id ≤ w'.next_id)

below_more :
    (n m : ℕ) (rows : List ProjectMember)
    → n ≤ m
    → All (λ r. r.id < n) rows
    → All (λ r. r.id < m) rows
below_more n m rows le h = All-map _ _ rows (λ r k. omega arith) h

pub IsSound-beside : (w w' : World) → IsBeside w w' → IsSound w → IsSound w'
IsSound-beside w w' (same, le) (unique, below) =
    (λ key. rw same (unique key), rw same (below_more w.next_id w'.next_id w.members le below))

pub IsSound-delete_member : (key : ℕ) (w : World) → IsSound w → IsSound (delete_member key w)
IsSound-delete_member key w (unique, below) = (
  λ k. omega (
    arith,
    unique k,
    count_where-delete_where (λ r. r.id == k) (λ r. r.id == key) w.members,
    count_where-le-count_where (λ r. r.id == k && not (r.id == key)) (λ r. r.id == k) w.members
        (λ r h. ground arith),
  ),
  delete_where-All _ (λ r. r.id == key) w.members below,
)

pub IsSound-update_member :
    (key : ℕ) (f : ProjectMember → ProjectMember) (w : World)
    → ((r : ProjectMember) → (f r).id ≡ r.id)
    → IsSound w
    → IsSound (update_member key f w)
IsSound-update_member key f w same (unique, below) = (
  λ k.
      rw
        (count_where-update_where (λ r. r.id == k) (λ r. r.id == key) f w.members
          (All-map _ _ w.members (λ r h e. rw (same r)) below))
        (unique k),
  update_where-All (λ r. r.id < w.next_id) (λ r. r.id == key) f w.members (λ r h. rw (same r) h)
      below,
)

pub IsSound-add_member :
    (row : ProjectMember) (w : World)
    → row.id ≡ w.next_id
    → IsSound w
    → IsSound (add_member row (record w { next_id = w.next_id + 1 }))
unfolding count_where
IsSound-add_member row w e (unique, below) = (
  λ k. elim (Bool-cases (row.id == k)) [
    | inl h ↦ ground (
      arith,
      count_where-eq_zero (λ r. r.id == k) w.members
          (All-map _ _ w.members (λ r l. ground (arith, nat_beq_iff row.id k)) below),
    )
    | inr h ↦ ground (arith, unique k)
  ],
  (ground arith, below_more w.next_id (w.next_id + 1) w.members (omega arith) below),
)
