-- ===== src/Store/Rows.antt =====
-- Reading and writing one row: `db.get(T, id)`, an attribute set on a row that the session holds,
-- `db.add` and `db.delete`.
use prompt_studio_backend.Prelude.{
  ℕ, Option, ◌∷◌, ◌==◌, nat_eq, first_where, update_where, delete_where,
}
use prompt_studio_backend.Store.{
  User, UserCredentials, Session, Project, ProjectMember, ProjectVersion, ProjectActivity,
  ProjectComment, World,
}

abbrev pub get_user : ℕ → World → Option User
get_user key w = first_where (λ row. row.id == key) w.users

abbrev pub update_user : ℕ → (User → User) → World → World
update_user key f w = record w {
  db = record w.db { users = update_where (λ row. row.id == key) f w.users };
}

abbrev pub add_user : User → World → World
add_user row w = record w { db = record w.db { users = row ∷ w.users } }

abbrev pub get_project : ℕ → World → Option Project
get_project key w = first_where (λ row. row.id == key) w.projects

abbrev pub update_project : ℕ → (Project → Project) → World → World
update_project key f w = record w {
  db = record w.db { projects = update_where (λ row. row.id == key) f w.projects };
}

abbrev pub add_project : Project → World → World
add_project row w = record w { db = record w.db { projects = row ∷ w.projects } }

abbrev pub get_member : ℕ → World → Option ProjectMember
get_member key w = first_where (λ row. row.id == key) w.members

abbrev pub update_member : ℕ → (ProjectMember → ProjectMember) → World → World
update_member key f w = record w {
  db = record w.db { members = update_where (λ row. row.id == key) f w.members };
}

abbrev pub add_member : ProjectMember → World → World
add_member row w = record w { db = record w.db { members = row ∷ w.members } }

abbrev pub delete_member : ℕ → World → World
delete_member key w = record w {
  db = record w.db { members = delete_where (λ row. row.id == key) w.members };
}

abbrev pub get_version : ℕ → World → Option ProjectVersion
get_version key w = first_where (λ row. row.id == key) w.versions

abbrev pub update_version : ℕ → (ProjectVersion → ProjectVersion) → World → World
update_version key f w = record w {
  db = record w.db { versions = update_where (λ row. row.id == key) f w.versions };
}

abbrev pub add_version : ProjectVersion → World → World
add_version row w = record w { db = record w.db { versions = row ∷ w.versions } }

abbrev pub delete_version : ℕ → World → World
delete_version key w = record w {
  db = record w.db { versions = delete_where (λ row. row.id == key) w.versions };
}

abbrev pub get_activity : ℕ → World → Option ProjectActivity
get_activity key w = first_where (λ row. row.id == key) w.activities

abbrev pub update_activity : ℕ → (ProjectActivity → ProjectActivity) → World → World
update_activity key f w = record w {
  db = record w.db { activities = update_where (λ row. row.id == key) f w.activities };
}

abbrev pub add_activity_row : ProjectActivity → World → World
add_activity_row row w = record w { db = record w.db { activities = row ∷ w.activities } }

abbrev pub get_comment : ℕ → World → Option ProjectComment
get_comment key w = first_where (λ row. row.id == key) w.comments

abbrev pub update_comment_row : ℕ → (ProjectComment → ProjectComment) → World → World
update_comment_row key f w = record w {
  db = record w.db { comments = update_where (λ row. row.id == key) f w.comments };
}

abbrev pub add_comment_row : ProjectComment → World → World
add_comment_row row w = record w { db = record w.db { comments = row ∷ w.comments } }

abbrev pub get_session : ℕ → World → Option Session
get_session key w = first_where (λ row. row.id == key) w.sessions

abbrev pub update_session : ℕ → (Session → Session) → World → World
update_session key f w = record w {
  db = record w.db { sessions = update_where (λ row. row.id == key) f w.sessions };
}

abbrev pub add_session : Session → World → World
add_session row w = record w { db = record w.db { sessions = row ∷ w.sessions } }

-- Credentials are keyed by their user.
abbrev pub get_credentials : ℕ → World → Option UserCredentials
get_credentials key w = first_where (λ row. row.user_id == key) w.credentials

abbrev pub update_credentials : ℕ → (UserCredentials → UserCredentials) → World → World
update_credentials key f w = record w {
  db = record w.db { credentials = update_where (λ row. row.user_id == key) f w.credentials };
}

abbrev pub add_credentials : UserCredentials → World → World
add_credentials row w = record w { db = record w.db { credentials = row ∷ w.credentials } }
