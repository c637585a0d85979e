-- ===== src/Auth/Register/Proved.antt =====
-- What a registration claims (`register` of app/modules/auth/service.py).
use prompt_studio_backend.Prelude.{◌≡◌, List, string_eq}
use prompt_studio_backend.Store.{ProjectMember, World}
use prompt_studio_backend.Store.Action.{Result}

-- The memberships are as they were.
abbrev MembersAre : List ProjectMember → World → Type 0
MembersAre rows w = w.members ≡ rows

abbrev Claimless : {A : Type 0} → List ProjectMember → Result A × World → Type 0
Claimless rows (r, w) = w.members ≡ rows
