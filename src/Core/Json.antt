-- ===== src/Core/Json.antt =====
-- Documents as JSON values: the `dict[str, Any]` that the editor saves. Numbers are integers here,
-- since the server never computes with one.
use prompt_studio_backend.Prelude.{
  ℕ, suc, String, Bool, Option, none, some, if◌then◌else◌, ◌==◌, nat_eq, string_eq,
}
use prompt_studio_backend.Core.Roles.{
  global_role_eq, project_role_eq, member_status_eq, token_type_eq, activity_type_eq,
}

mutual
  pub data Json : Type 0 where
    null : Json
    bool : Bool → Json
    number : ℕ → Json
    text : String → Json
    list : Items → Json
    object : Fields → Json

  pub data Items : Type 0 where
    nil : Items
    cons : Json → Items → Items

  pub data Fields : Type 0 where
    empty : Fields
    field : String → Json → Fields → Fields

-- `doc.get(key)`
unfoldable pub get : Fields → String → Option Json
get empty key = none
get (field k v rest) key = if k == key then some v else get rest key

-- `len(value)` of a list
abbrev pub item_count : Items → ℕ
item_count nil = 0
item_count (cons x xs) = suc (item_count xs)

-- `not doc`: an empty object is false.
abbrev pub is_blank : Fields → Bool
is_blank empty = Bool.true
is_blank (field k v rest) = Bool.false

-- `len(value) if isinstance(value, list) else 0`
unfoldable pub list_size : Option Json → ℕ
list_size (some (list xs)) = item_count xs
list_size _ = 0
