-- ===== src/Admin/Editor.antt =====
-- `ConfigDetails`: the editor of a scope's draft and schema.
-- Code: apps/admin-ui/src/App.tsx
-- JSON values, `JSON.parse`, `JSON.stringify` with an indent of 2, and the calls of the API are
-- parameters. An action is taken as one step: nobody types while its request is on the way.
pub mod Laws
use text.Mathlib.Text.{◌==◌ as str_eq}
use pgapp.Common.{String, Bool, Option, none, some, List, [], ◌∷◌, if◌then◌else◌}
use pgapp.Common.Result.{Result, ok, throw}
use pgapp.Admin.Text.{trim}
use pgapp.Admin.Async.{error_message}
use pgapp.Admin.Scopes.{ConfigScope}

pub record ConfigDraftItem (Json : Type 0) : Type 0 where
  pub key : String
  pub value : Json
  pub deleted : Bool

pub record Editor : Type 0 where
  pub selected_key : String
  pub json_value : String
  pub schema_value : String
  pub feedback : String

abbrev pub empty_object : String
empty_object = "{\n}"

-- `items.find((item) => !item.deleted)`
unfoldable pub find_kept :
    {Json : Type 0} → List (ConfigDraftItem Json) → Option (ConfigDraftItem Json)
find_kept [] = none
find_kept (item ∷ items) = let rest = find_kept items in if item.deleted then rest else some item

abbrev pub head_item : {Json : Type 0} → List (ConfigDraftItem Json) → Option (ConfigDraftItem Json)
head_item [] = none
head_item (item ∷ items) = some item

unfoldable pub first_item :
    {Json : Type 0} → List (ConfigDraftItem Json) → Option (ConfigDraftItem Json)
unfolding find_kept
first_item items = elim (find_kept items) [ none ↦ head_item items | some item ↦ some item ]

-- The entries that `scopeQuery` gives to `URLSearchParams`, which makes the query of them.
unfoldable pub scope_query : ConfigScope → List (String × String)
scope_query scope =
    ("app_id", scope.app_id)
    ∷ ("environment", scope.environment)
    ∷ ("cluster", scope.cluster)
    ∷ ("namespace", scope.namespace)
    ∷ []

-- The requests of an action, with their bodies or their query: saving an item, saving the schema,
-- removing it, and publishing.
pub data Call (Json : Type 0) : Type 0 where
  put_item : (scope : ConfigScope) → (key : String) → Json → Call Json
  put_schema : (scope : ConfigScope) → Json → Call Json
  delete_schema : (query : List (String × String)) → Call Json
  post_release : (scope : ConfigScope) → (message published_by : String) → Call Json

-- The requests that an action makes, and the editor that it leaves.
pub record Acted (Json : Type 0) : Type 0 where
  pub calls : List (Call Json)
  pub editor : Editor

abbrev pub say : String → Editor → Editor
say text editor = record editor { feedback = text }

abbrev pub report : {Json : Type 0} → String → Result Json → Editor → Editor
report text (ok answer) editor = say text editor
report text (throw e) editor = say (error_message e) editor

-- The effect of a loaded draft.
module _ {Json : Type 0} (pretty : Json → String) where
  abbrev pub show_item : Option (ConfigDraftItem Json) → Editor → Editor
  show_item none editor = record editor { selected_key = ""; json_value = empty_object }
  show_item (some item) editor = record editor {
    selected_key = item.key;
    json_value = pretty item.value;
  }

  unfoldable pub draft_loaded : List (ConfigDraftItem Json) → Editor → Editor
  unfolding first_item
  draft_loaded items editor = show_item (first_item items) editor

  -- The effect of a loaded schema.
  unfoldable pub schema_loaded : Bool → Json → Editor → Editor
  schema_loaded has_schema schema editor = record editor {
    schema_value = if has_schema then pretty schema else empty_object;
  }

module _ {Json : Type 0} (parse : String → Result Json) (send : Call Json → Result Json)
    (scope : ConfigScope) where
  abbrev pub save_parsed : Result Json → Editor → Acted Json
  save_parsed (throw e) editor = record { calls = []; editor = say "Invalid JSON" editor }
  save_parsed (ok parsed) editor =
      if str_eq (trim editor.selected_key) ""
      then record { calls = []; editor = say "Key required" editor }
      else record {
        calls = put_item scope (trim editor.selected_key) parsed ∷ [];
        editor =
            report "Draft saved" (send (put_item scope (trim editor.selected_key) parsed)) editor;
      }

  unfoldable pub save_item : Editor → Acted Json
  save_item editor = save_parsed (parse editor.json_value) editor

  abbrev pub save_parsed_schema : Result Json → Editor → Acted Json
  save_parsed_schema (throw e) editor = record {
    calls = [];
    editor = say "Invalid JSON Schema" editor;
  }
  save_parsed_schema (ok parsed) editor = record {
    calls = put_schema scope parsed ∷ [];
    editor = report "Schema saved" (send (put_schema scope parsed)) editor;
  }

  unfoldable pub save_schema : Editor → Acted Json
  save_schema editor = save_parsed_schema (parse editor.schema_value) editor

abbrev pub removed : {Json : Type 0} → Result Json → Editor → Editor
removed (ok answer) editor = record editor {
  schema_value = empty_object;
  feedback = "Schema removed";
}
removed (throw e) editor = say (error_message e) editor

module _ {Json : Type 0} (send : Call Json → Result Json) (scope : ConfigScope) where
  unfoldable pub remove_schema : Editor → Acted Json
  unfolding scope_query
  remove_schema editor = record {
    calls = delete_schema (scope_query scope) ∷ [];
    editor = removed (send (delete_schema (scope_query scope))) editor;
  }

  unfoldable pub publish : Editor → Acted Json
  publish editor = record {
    calls = post_release scope "Admin UI publish" "admin-ui" ∷ [];
    editor =
        report "Release published" (send (post_release scope "Admin UI publish" "admin-ui")) editor;
  }
