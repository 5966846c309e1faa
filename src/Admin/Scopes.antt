-- ===== src/Admin/Scopes.antt =====
-- `ConfigView`: which scope is shown.
-- Code: apps/admin-ui/src/App.tsx
pub mod Laws
use text.Mathlib.Text.{◌==◌ as str_eq}
use pgapp.Common.{ℕ, String, Option, none, some, List, [], ◌∷◌, template, if◌then◌else◌}

pub record ConfigScope : Type 0 where
  pub app_id : String
  pub environment : String
  pub cluster : String
  pub namespace : String

pub record ConfigScopeSummary : Type 0 where
  pub scope : ConfigScope
  pub current_revision : ℕ

unfoldable pub scope_id : ConfigScope → String
scope_id scope =
    template
      (scope.app_id ∷ "/" ∷ scope.environment ∷ "/" ∷ scope.cluster ∷ "/" ∷ scope.namespace ∷ [])

-- `items.find((item) => scopeId(item.scope) === id)?.scope`
unfoldable pub find_scope : String → List ConfigScopeSummary → Option ConfigScope
unfolding scope_id
find_scope id [] = none
find_scope id (item ∷ items) =
    if str_eq (scope_id item.scope) id then some item.scope else find_scope id items

abbrev pub first_scope : List ConfigScopeSummary → Option ConfigScope
first_scope [] = none
first_scope (item ∷ items) = some item.scope

-- `... ?? items[0]?.scope`
unfoldable pub selected_scope : String → List ConfigScopeSummary → Option ConfigScope
unfolding find_scope
selected_scope id items = elim (find_scope id items) [
  | none ↦ first_scope items
  | some scope ↦ some scope
]

-- The rows of `ScopeList`: the id that a click selects, and whether the row is marked.
pub record ScopeRow : Type 0 where
  pub id : String
  pub class_name : String

unfoldable pub scope_rows : String → List ConfigScopeSummary → List ScopeRow
unfolding scope_id
scope_rows selected [] = []
scope_rows selected (item ∷ items) =
    record {
      id = scope_id item.scope;
      class_name =
          if str_eq (scope_id item.scope) selected then "scope-row active" else "scope-row";
    }
    ∷ scope_rows selected items
