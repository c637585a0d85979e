-- ===== src/Core/Roles.antt =====
-- app/core/constants.py: the enumerations that the rules compare.
use prompt_studio_backend.Prelude.{ℕ, String, ◌≡◌, ◌↔◌, Bool, true, arith, leb, nat_beq, Equal}

pub data GlobalRole : Type 0 where
  superadmin admin member : GlobalRole

pub data ProjectRole : Type 0 where
  owner editor commenter viewer : ProjectRole

pub data MemberStatus : Type 0 where
  invited active revoked : MemberStatus

pub data TokenType : Type 0 where
  access refresh reset invite verify : TokenType

pub data ActivityType : Type 0 where
  project_created project_updated project_renamed project_deleted project_restored : ActivityType
  member_invited member_joined member_role_changed member_removed : ActivityType
  version_saved version_restored comment_added : ActivityType
  public_link_enabled public_link_rotated public_link_disabled : ActivityType

-- The string that a project role is.
abbrev pub role_value : ProjectRole → String
role_value ProjectRole.owner = "OWNER"
role_value ProjectRole.editor = "EDITOR"
role_value ProjectRole.commenter = "COMMENTER"
role_value ProjectRole.viewer = "VIEWER"

-- The string that a platform role is.
abbrev pub role_text : GlobalRole → String
role_text GlobalRole.superadmin = "SUPERADMIN"
role_text GlobalRole.admin = "ADMIN"
role_text GlobalRole.member = "MEMBER"

-- `ProjectRole.rank`, the table `_PROJECT_ROLE_RANK`
unfoldable pub rank : ProjectRole → ℕ
rank ProjectRole.viewer = 10
rank ProjectRole.commenter = 20
rank ProjectRole.editor = 30
rank ProjectRole.owner = 40

-- `ProjectRole.at_least`: self.rank >= other.rank
unfoldable pub at_least : ProjectRole → ProjectRole → Bool
unfolding rank
at_least self other = leb (rank other) (rank self)

-- Equality of these string-valued enumerations: equal constructors.
abbrev pub global_role_number : GlobalRole → ℕ
global_role_number GlobalRole.superadmin = 0
global_role_number GlobalRole.admin = 1
global_role_number GlobalRole.member = 2

pub global_role_number_iff :
    (a b : GlobalRole) → (nat_beq (global_role_number a) (global_role_number b) ≡ true) ↔ (a ≡ b)
global_role_number_iff a b = ground arith

instance abbrev pub global_role_eq : Equal GlobalRole
global_role_eq = record {
  same = λ a b. nat_beq (global_role_number a) (global_role_number b);
  same_iff = global_role_number_iff;
}

abbrev pub project_role_number : ProjectRole → ℕ
project_role_number ProjectRole.owner = 0
project_role_number ProjectRole.editor = 1
project_role_number ProjectRole.commenter = 2
project_role_number ProjectRole.viewer = 3

pub project_role_number_iff :
    (a b : ProjectRole) → (nat_beq (project_role_number a) (project_role_number b) ≡ true) ↔ (a ≡ b)
project_role_number_iff a b = ground arith

instance abbrev pub project_role_eq : Equal ProjectRole
project_role_eq = record {
  same = λ a b. nat_beq (project_role_number a) (project_role_number b);
  same_iff = project_role_number_iff;
}

abbrev pub member_status_number : MemberStatus → ℕ
member_status_number MemberStatus.invited = 0
member_status_number MemberStatus.active = 1
member_status_number MemberStatus.revoked = 2

pub member_status_number_iff :
    (a b : MemberStatus)
    → (nat_beq (member_status_number a) (member_status_number b) ≡ true) ↔ (a ≡ b)
member_status_number_iff a b = ground arith

instance abbrev pub member_status_eq : Equal MemberStatus
member_status_eq = record {
  same = λ a b. nat_beq (member_status_number a) (member_status_number b);
  same_iff = member_status_number_iff;
}

abbrev pub token_type_number : TokenType → ℕ
token_type_number TokenType.access = 0
token_type_number TokenType.refresh = 1
token_type_number TokenType.reset = 2
token_type_number TokenType.invite = 3
token_type_number TokenType.verify = 4

pub token_type_number_iff :
    (a b : TokenType) → (nat_beq (token_type_number a) (token_type_number b) ≡ true) ↔ (a ≡ b)
token_type_number_iff a b = ground arith

instance abbrev pub token_type_eq : Equal TokenType
token_type_eq = record {
  same = λ a b. nat_beq (token_type_number a) (token_type_number b);
  same_iff = token_type_number_iff;
}

abbrev pub activity_type_number : ActivityType → ℕ
activity_type_number ActivityType.project_created = 0
activity_type_number ActivityType.project_updated = 1
activity_type_number ActivityType.project_renamed = 2
activity_type_number ActivityType.project_deleted = 3
activity_type_number ActivityType.project_restored = 4
activity_type_number ActivityType.member_invited = 5
activity_type_number ActivityType.member_joined = 6
activity_type_number ActivityType.member_role_changed = 7
activity_type_number ActivityType.member_removed = 8
activity_type_number ActivityType.version_saved = 9
activity_type_number ActivityType.version_restored = 10
activity_type_number ActivityType.comment_added = 11
activity_type_number ActivityType.public_link_enabled = 12
activity_type_number ActivityType.public_link_rotated = 13
activity_type_number ActivityType.public_link_disabled = 14

pub activity_type_number_iff :
    (a b : ActivityType)
    → (nat_beq (activity_type_number a) (activity_type_number b) ≡ true) ↔ (a ≡ b)
activity_type_number_iff a b = ground arith

instance abbrev pub activity_type_eq : Equal ActivityType
activity_type_eq = record {
  same = λ a b. nat_beq (activity_type_number a) (activity_type_number b);
  same_iff = activity_type_number_iff;
}
