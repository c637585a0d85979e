-- ===== src/Projects/Schemas.antt =====
-- app/modules/projects/schemas.py: what a saved document is checked for before it is taken in.
use mathlib.Core.Option
use prompt_studio_backend.Prelude.{
  ℕ, ◌*◌, String, Bool, true, false, not, ◌&&◌, Option, none, some, List, [], ◌∷◌, leb,
  if◌then◌else◌, any_where,
}
use prompt_studio_backend.Core.Json.{Json, Fields, get, null, bool, number, text, list, object}
use prompt_studio_backend.Projects.Documents.{ProjectDocSave}

abbrev pub doc_array_keys : List String
doc_array_keys =
    "views" ∷ "flows" ∷ "screens" ∷ "edges" ∷ "modules" ∷ "moduleEdges" ∷ "sections" ∷ []

abbrev pub max_doc_bytes : ℕ
max_doc_bytes = 8 * 1024 * 1024

-- `value is None or isinstance(value, list)`; JSON's null is Python's None
abbrev pub is_list_or_missing : Option Json → Bool
is_list_or_missing none = true
is_list_or_missing (some null) = true
is_list_or_missing (some (list xs)) = true
is_list_or_missing (some (bool b)) = false
is_list_or_missing (some (number n)) = false
is_list_or_missing (some (text t)) = false
is_list_or_missing (some (object o)) = false

-- What the json and schema libraries do: the bytes of a document once printed, an optional integer
-- read from a value, and `repr`.
pub record JsonLibrary : Type 0 where
  pub doc_bytes : Fields → ℕ
  pub read_int : Option Json → Option (Option ℕ)
  pub repr : Option Json → String

module _ (json : JsonLibrary) where
  unfoldable pub validate_doc : Fields → Bool
  validate_doc doc =
      not (any_where (λ key. not (is_list_or_missing (get doc key))) doc_array_keys)
      && leb (json.doc_bytes doc) max_doc_bytes

  -- `Field(None, ge=1, le=2_147_483_647)`
  abbrev pub is_schema_version : Option ℕ → Bool
  is_schema_version none = true
  is_schema_version (some n) = leb 1 n && leb n 2_147_483_647

  -- `ProjectDocSave(doc=…, base_version=…, schema_version=…)`, or the schema library's refusal
  unfoldable pub read_save : Fields → Option Json → Option Json → Option ProjectDocSave
  read_save doc base schema = Option.bind (json.read_int base) λ base_version.
      Option.bind (json.read_int schema) λ schema_version.
        if validate_doc doc && is_schema_version schema_version
        then some (record {
          doc = doc;
          base_version = base_version;
          schema_version = schema_version;
          label = none;
        })
        else none
