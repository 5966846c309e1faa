-- ===== src/Admin/Editor/Laws.antt =====
-- Lemmas about what the editor sends and shows.
-- Code: apps/admin-ui/src/App.tsx
use text.Mathlib.Text.{◌==◌ as str_eq}
use text.Mathlib.TextEquality.{eq_iff}
use pgapp.Common.{
  ◌≡◌, refl, sym, ap, ◌∙◌, String, true, false, Bool-cases, inl, inr, ◌⊎◌, none, some, List, [],
  ◌∷◌, All, arith,
}
use pgapp.Common.Result.{Thrown, Result, ok, throw}
use pgapp.Admin.Text.{trim}
use pgapp.Admin.Text.Laws.{trim-same}
use pgapp.Admin.Clients.Laws.{IsClean, trim-IsClean}
use pgapp.Admin.Scopes.{ConfigScope}
use pgapp.Admin.Editor.{
  scope_query, ConfigDraftItem, Editor, find_kept, first_item, Call, put_item, put_schema,
  delete_schema, post_release, Acted, draft_loaded, show_item, save_parsed, save_item,
  save_parsed_schema, save_schema, remove_schema, publish,
}

-- The actions of the editor.
pub data Action : Type 0 where
  saving_item saving_schema removing_schema publishing : Action

module _ {Json : Type 0} (parse : String → Result Json) (send : Call Json → Result Json)
    (scope : ConfigScope) where
  abbrev pub act : Action → Editor → Acted Json
  act saving_item = save_item parse send scope
  act saving_schema = save_schema parse send scope
  act removing_schema = remove_schema send scope
  act publishing = publish send scope

  -- What saving an item sends: nothing if the text of the value is no JSON or the key is blank, and else
  -- one item of the scope, under the trimmed key, with the value of the text.
  abbrev pub ItemSent : Editor → List (Call Json) → Type 0
  ItemSent editor calls =
      ((calls ≡ []) × (e : Thrown) × (parse editor.json_value ≡ throw e))
      ⊎ ((calls ≡ []) × (trim editor.selected_key ≡ ""))
      ⊎ ((value : Json) × (parse editor.json_value ≡ ok value)
          × IsClean (trim editor.selected_key)
          × (calls ≡ put_item scope (trim editor.selected_key) value ∷ []))

  -- What saving the schema sends: nothing if its text is no JSON, and else the schema of the scope.
  abbrev pub SchemaSent : Editor → List (Call Json) → Type 0
  SchemaSent editor calls =
      ((calls ≡ []) × (e : Thrown) × (parse editor.schema_value ≡ throw e))
      ⊎ ((schema : Json) × (parse editor.schema_value ≡ ok schema)
          × (calls ≡ put_schema scope schema ∷ []))

  abbrev pub Sends : Action → Editor → List (Call Json) → Type 0
  Sends saving_item editor calls = ItemSent editor calls
  Sends saving_schema editor calls = SchemaSent editor calls
  Sends removing_schema editor calls =
      calls
      ≡ delete_schema (
          ("app_id", scope.app_id)
          ∷ ("environment", scope.environment)
          ∷ ("cluster", scope.cluster)
          ∷ ("namespace", scope.namespace)
          ∷ [])
        ∷ []
  Sends publishing editor calls = calls ≡ post_release scope "Admin UI publish" "admin-ui" ∷ []

  save_parsed-ItemSent :
      (editor : Editor) (result : Result Json)
      → parse editor.json_value ≡ result
      → ItemSent editor ((save_parsed parse send scope result editor).calls)
  save_parsed-ItemSent editor (throw e) h = inl (refl, e, h)
  save_parsed-ItemSent editor (ok value) h =
      elim (Bool-cases (str_eq (trim editor.selected_key) "")) [
        | inl e ↦ inr (inl (rw e refl, ground (arith, e, eq_iff (trim editor.selected_key) "")))
        | inr e ↦ inr (inr (value, h, trim-IsClean editor.selected_key e, rw e refl))
      ]

  save_parsed_schema-SchemaSent :
      (editor : Editor) (result : Result Json)
      → parse editor.schema_value ≡ result
      → SchemaSent editor ((save_parsed_schema parse send scope result editor).calls)
  save_parsed_schema-SchemaSent editor (throw e) h = inl (refl, e, h)
  save_parsed_schema-SchemaSent editor (ok schema) h = inr (schema, h, refl)

  -- What the actions of the editor send, each at most once and for the scope of the editor. Saving an item
  -- sends nothing if the value's text is no JSON or the key is blank, and else the trimmed key with the
  -- value of the text; saving the schema sends nothing if its text is no JSON, and else the schema of
  -- the text; removing the schema sends the names of the scope as the query; publishing sends the message
  -- "Admin UI publish" by "admin-ui".
  pub act-Sends :
      (action : Action) (editor : Editor) → Sends action editor ((act action editor).calls)
  unfolding save_item save_schema remove_schema publish scope_query
  act-Sends saving_item editor = save_parsed-ItemSent editor (parse editor.json_value) refl
  act-Sends saving_schema editor =
      save_parsed_schema-SchemaSent editor (parse editor.schema_value) refl
  act-Sends removing_schema editor = refl
  act-Sends publishing editor = refl

-- Saving a draft right after it is loaded sends the shown item of the scope back as it is, if its key is
-- clean and its value is read back from its indented text.
pub save_item-loaded :
    {Json : Type 0} (parse : String → Result Json) (pretty : Json → String)
    (send : Call Json → Result Json) (scope : ConfigScope) (items : List (ConfigDraftItem Json))
    (item : ConfigDraftItem Json) (editor : Editor)
    → first_item items ≡ some item
    → IsClean item.key
    → parse (pretty item.value) ≡ ok item.value
    → (save_item parse send scope (draft_loaded pretty items editor)).calls
      ≡ put_item scope item.key item.value ∷ []
unfolding save_item draft_loaded
save_item-loaded parse pretty send scope items item editor first (filled, starts, ends) back =
    let same = trim-same item.key starts ends in
    let named : str_eq item.key "" ≡ false = elim (Bool-cases (str_eq item.key "")) [
      | inl e ↦ absurd (filled (ground (arith, e, eq_iff item.key "")))
      | inr e ↦ e
    ] in
    let sent : (save_parsed parse send scope (ok item.value)
          (show_item pretty (some item) editor)).calls
        ≡ put_item scope item.key item.value ∷ [] =
      rw (same, named) refl in
    ap (λ o. (save_item parse send scope (show_item pretty o editor)).calls) first
    ∙ ap (λ r. (save_parsed parse send scope r (show_item pretty (some item) editor)).calls) back
    ∙ sent

find_kept-cases :
    {Json : Type 0} (items : List (ConfigDraftItem Json))
    → ((find_kept items ≡ none) × All (λ (i : ConfigDraftItem Json). i.deleted ≡ true) items)
      ⊎ ((i : ConfigDraftItem Json) × (find_kept items ≡ some i) × (i.deleted ≡ false))
unfolding find_kept
find_kept-cases [] = inl (refl, tt)
find_kept-cases (item ∷ items) = elim (Bool-cases item.deleted) [
  | inl e ↦ elim (find_kept-cases items) [
    | inl (f, all) ↦ inl (rw e f, (e, all))
    | inr (i, f, kept) ↦ inr (i, rw e f, kept)
  ]
  | inr e ↦ inr (item, rw e refl, e)
]

-- The item that the editor shows is not deleted, unless all items are.
pub first_item-kept :
    {Json : Type 0} (items : List (ConfigDraftItem Json)) (item : ConfigDraftItem Json)
    → first_item items ≡ some item
    → (item.deleted ≡ false) ⊎ All (λ (i : ConfigDraftItem Json). i.deleted ≡ true) items
unfolding first_item
first_item-kept items item e = elim (find_kept-cases items) [
  | inl (f, all) ↦ inr all
  | inr (i, f, kept) ↦
      let shown : first_item items ≡ some i = rw (f, first_item) refl in
      let same : some i ≡ some item = sym shown ∙ e in inl (cc)
]
