-- ===== src/Projects/Links/Served.antt =====
-- Which documents the public link serves, and to which token.
use prompt_studio_backend.Prelude.{
  ℕ, ◌≤◌, String, List, [], ◌∷◌, holds, first_where-written, ◌≡◌, refl, sym, ap, ◌∙◌, ◌≢◌, inl, inr,
  true, false, Option, none, some, arith, if◌then◌else◌, ◌==◌, nat_beq_iff, nat_eq, string_eq,
  Bool-cases, Option-cases, holds-some, some-injective, first_where, update_where, count_where, All,
  first_where-holds, first_where-All, update_where-All, first_where-only, update_where-All_marked,
}
use prompt_studio_backend.Core.Roles.{ActivityType}
use prompt_studio_backend.Core.Text.{strip}
use prompt_studio_backend.Projects.Documents.{is_given}
use prompt_studio_backend.Projects.Feed.{add_activity}
use prompt_studio_backend.Projects.Links.{
  shared, unshared, change_link, enable_public_link, rotate_public_link, disable_public_link,
  is_served, project_by_public_token,
}
use prompt_studio_backend.Store.{User, Project, World}
use prompt_studio_backend.Store.Action.{ok}
use prompt_studio_backend.Store.Rows.{get_project}

-- The anonymous read answers this token with this project.
abbrev pub IsServed : String → Project → World → Type 0
IsServed token p w = (project_by_public_token token w).0 ≡ ok p

-- The row behind an answer.
served-row :
    (token : String) (p : Project) (w : World)
    → IsServed token p w
    → ((token == "") ≡ false)
      × ((strip token == "") ≡ false)
      × (first_where (is_served token) w.projects ≡ some p)
unfolding project_by_public_token
served-row token p w e = elim (Option-cases (first_where (is_served token) w.projects)) [
  | inl absent ↦ absurd (ground arith)
  | inr (q, found) ↦ (ground arith, ground arith, ground arith)
]

-- What the anonymous read serves is a project whose owner shared it under exactly this token, which
-- is neither in the trash nor archived; and the token is not blank.
pub served_is_shared :
    (token : String) (p : Project) (w : World)
    → IsServed token p w
    → (p.public_token ≡ some token)
      × (p.is_deleted ≡ false)
      × (p.is_archived ≡ false)
      × (strip token ≢ "")
served_is_shared token p w e =
    let (_, visible, found) = served-row token p w e in
    let h = first_where-holds (is_served token) w.projects found in
    (
      holds-some p.public_token token (ground arith),
      ground arith,
      ground arith,
      λ k. absurd (ground (arith, (string_eq.same_iff (strip token) "").1 k)),
    )

-- What holds of every row of a project holds of the one that is served.
served-marked :
    (P : Project → Type 0) (pid : ℕ) (token : String) (p : Project) (w : World)
    → All (λ q. (q.id == pid) ≡ true → P q) w.projects
    → IsServed token p w
    → p.id ≡ pid
    → P p
served-marked P pid token p w marked e same =
    let (_, _, found) = served-row token p w e in
    first_where-All _ (is_served token) w.projects marked found ((nat_beq_iff p.id pid).1 same)

-- A change of the link marks the project's rows, whatever the feed does after it.
change_link-marked :
    (P : Project → Type 0) (f : Project → Project) (kind : ActivityType) (summary : String)
    (project : Project) (user : User) (w : World)
    → ((q : Project) → P (f q))
    → ((q : Project) → P q → P (record q { last_activity_at = some w.now }))
    → All
        (λ q. (q.id == project.id) ≡ true → P q)
        (change_link f kind summary project user w).1.projects
unfolding change_link add_activity
change_link-marked P f kind summary project user w h k =
    update_where-All (λ q. (q.id == project.id) ≡ true → P q) (λ q. q.id == project.id)
      (λ q. record q { last_activity_at = some w.now })
      (update_where (λ q. q.id == project.id) f w.projects) (λ q m e. k q (m e))
      (update_where-All_marked P (λ q. q.id == project.id) f w.projects h)

served_under :
    (old token : String) (p project : Project) (user : User) (w : World) (kind : ActivityType)
    (summary : String)
    → IsServed old p (change_link (shared token user w.now) kind summary project user w).1
    → p.id ≡ project.id
    → old ≡ token
served_under old token p project user w kind summary e same =
    let after = (change_link (shared token user w.now) kind summary project user w).1 in
    some-injective (
      sym (served_is_shared old p after e).0
      ∙ served-marked (λ q. q.public_token ≡ some token) project.id old p after
          (change_link-marked (λ q. q.public_token ≡ some token) (shared token user w.now) kind
            summary project user w (λ q. refl) (λ q h. h))
          e same)

-- A token that is there and not blank counts as given.
blank-not_given :
    (token : String) (stored : Option String)
    → stored ≡ some token
    → is_given stored ≡ false
    → strip token ≢ ""
    → ⊥
unfolding strip
blank-not_given token none there given blank = cc
blank-not_given token (some s) there given blank =
    let empty : s ≡ "" = (string_eq.same_iff s "").0 (ground arith) in
    blank (ap strip (sym (some-injective there) ∙ empty))

-- The row as it is once it is shared anew.
abbrev pub reshared : String → User → ℕ → Project → Project
reshared token user now p = record (shared token user now p) { last_activity_at = some now }

-- Among rows that a token does not open, the one that is given the token is the one it opens.
first_where-shared :
    (token : String) (key : ℕ) (user : User) (now : ℕ) (ps : List Project) {row : Project}
    → first_where (λ (p : Project). p.id == key) ps ≡ some row
    → row.is_deleted ≡ false
    → row.is_archived ≡ false
    → All (λ p. holds p.public_token token ≡ false) ps
    → first_where (is_served token) (update_where (λ p. p.id == key) (shared token user now) ps)
      ≡ some (shared token user now row)
unfolding first_where update_where
first_where-shared token key user now [] found kept public fresh = cc
first_where-shared token key user now (p ∷ ps) {row} found kept public fresh =
    elim (Bool-cases (p.id == key)) [
      | inl here ↦
          let it : p ≡ row = some-injective (rw (here, if◌then◌else◌) at found) in
          rw (here, it, kept, public, (string_eq.same_iff token token).1 refl) refl
      | inr past ↦
          rw (past, fresh.0)
            (first_where-shared token key user now ps (rw (past, if◌then◌else◌) at found) kept
              public fresh.1)
    ]

not_blank :
    (token : String) → strip token ≢ "" → ((token == "") ≡ false) × ((strip token == "") ≡ false)
unfolding strip
not_blank token given = (
  elim (Bool-cases (token == "")) [
    | inl e ↦ absurd (given (ap strip ((string_eq.same_iff token "").0 e)))
    | inr e ↦ e
  ],
  elim (Bool-cases (strip token == "")) [
    | inl e ↦ absurd (given ((string_eq.same_iff (strip token) "").0 e))
    | inr e ↦ e
  ],
)

-- The token that a change of the link stores opens the project.
change_link-IsServed :
    (token : String) (row project : Project) (user : User) (w : World) (kind : ActivityType)
    (summary : String)
    → get_project project.id w ≡ some row
    → row.is_deleted ≡ false
    → row.is_archived ≡ false
    → strip token ≢ ""
    → All (λ q. holds q.public_token token ≡ false) w.projects
    → IsServed token
        (reshared token user w.now row)
        (change_link (shared token user w.now) kind summary project user w).1
unfolding change_link add_activity project_by_public_token
change_link-IsServed token row project user w kind summary found kept public given fresh =
    let filled = not_blank token given in
    let opened =
      first_where-written (is_served token) (λ (q : Project). q.id == project.id)
        (λ q. record q { last_activity_at = some w.now })
        (update_where (λ (q : Project). q.id == project.id) (shared token user w.now) w.projects)
        (λ q. refl)
        (first_where-shared token project.id user w.now w.projects found kept public fresh)
        (first_where-holds (λ (q : Project). q.id == project.id) w.projects found) in
    rw (filled.0, filled.1, opened) refl

-- After `rotate_public_link`, the new token opens the project, and no other token does: every link
-- handed out before is dead. The project's row is neither in the trash nor archived, and the token
-- that is drawn is not blank and no row has it yet.
pub rotate_public_link_revokes :
    (token old : String) (project row p : Project) (user : User) (w : World)
    → get_project project.id w ≡ some row
    → row.is_deleted ≡ false
    → row.is_archived ≡ false
    → strip token ≢ ""
    → All (λ q. holds q.public_token token ≡ false) w.projects
    → old ≢ token
    → p.id ≡ project.id
    → IsServed token (reshared token user w.now row) (rotate_public_link token project user w).1
      × ¬ IsServed old p (rotate_public_link token project user w).1
unfolding rotate_public_link enable_public_link
rotate_public_link_revokes token old project row p user w found kept public given fresh other same =
    elim (Bool-cases (is_given project.public_token)) [
      | inl there ↦
          rw (there, if◌then◌else◌)
            (
              change_link-IsServed token row project user w ActivityType.public_link_rotated _ found
                  kept public given fresh,
              λ e. other (
                  served_under old token p project user w ActivityType.public_link_rotated _ e
                    same),
            )
      | inr absent ↦
          rw (absent, if◌then◌else◌)
            (
              change_link-IsServed token row project user w ActivityType.public_link_enabled _ found
                  kept public given fresh,
              λ e. other (
                  served_under old token p project user w ActivityType.public_link_enabled _ e
                    same),
            )
    ]

-- After `disable_public_link`, the project is served to no token. It is the row that the session
-- holds, and no other row has its id.
pub disable_public_link_revokes :
    (token : String) (project p : Project) (user : User) (w : World)
    → count_where (λ q. q.id == project.id) w.projects ≤ 1
    → get_project project.id w ≡ some project
    → IsServed token p (disable_public_link project user w).1
    → p.id ≢ project.id
unfolding disable_public_link
disable_public_link_revokes token project p user w unique found e same =
    elim (Bool-cases (is_given project.public_token)) [
      | inl given ↦
          let after =
            (change_link unshared ActivityType.public_link_disabled " turned off the public link"
              project user w).1 in
          let shared_as = (served_is_shared token p after (rw (given, if◌then◌else◌) at e)).0 in
          let gone =
            served-marked (λ q. q.public_token ≡ none) project.id token p after
              (change_link-marked (λ q. q.public_token ≡ none) unshared
                ActivityType.public_link_disabled " turned off the public link" project user w
                (λ q. refl) (λ q h. h))
              (rw (given, if◌then◌else◌) at e) same in
          cc
      | inr given ↦
          let shared_as = served_is_shared token p w (rw (given, if◌then◌else◌) at e) in
          let it : p ≡ project =
            served-marked (λ q. q ≡ project) project.id token p w
              (first_where-only (λ (q : Project). q.id == project.id) w.projects unique found)
              (rw (given, if◌then◌else◌) at e) same in
          blank-not_given token project.public_token
            (ap (λ (q : Project). q.public_token) (sym it) ∙ shared_as.0) given shared_as.3
    ]
