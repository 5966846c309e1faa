-- ===== src/Proto/Config/Drafts.antt =====
-- Draft items.
-- Code: sdk/typescript/src/gen/pgapp/v1/config.ts
pub mod RoundTrip
use text.Mathlib.Text.{◌==◌ as str_eq}
use pgapp.Common.{
  if◌then◌else◌, ◌==◌, ◌++◌, String, Bool, false, not, Option, none, some, List, [], ◌∷◌,
}
use pgapp.Wire.{
  Runtime, MessageType, Message, assign, assign_parsed, write_if, write_each, ◌then_write◌, varint,
  length_delimited, write_optional, write_nested, read_nested,
}
use pgapp.Proto.Config.Scopes.{ConfigScope, config_scope_type}

pub record ConfigItem : Type 0 where
  pub key : String
  pub json_value : String
  pub deleted : Bool
  pub updated_at : String

unfoldable pub config_item_type : Runtime → MessageType ConfigItem
config_item_type runtime = record {
  type_name = "pgapp.v1.ConfigItem";
  create = record { key = ""; json_value = ""; deleted = false; updated_at = "" };
  read_field = λ _ field_no _ message.
      if field_no == 1
      then some (assign runtime.reader.string (λ v. record message { key = v }))
      else if field_no == 2
      then some (assign runtime.reader.string (λ v. record message { json_value = v }))
      else if field_no == 3
      then some (assign runtime.reader.bool (λ v. record message { deleted = v }))
      else if field_no == 4
      then some (assign runtime.reader.string (λ v. record message { updated_at = v }))
      else none;
  write_fields = λ _ message.
      write_if (not (str_eq message.key ""))
        (runtime.writer.tag 1 length_delimited then_write runtime.writer.string message.key)
      then_write write_if (not (str_eq message.json_value "")) (
          runtime.writer.tag 2 length_delimited then_write runtime.writer.string message.json_value)
      then_write write_if message.deleted
          (runtime.writer.tag 3 varint then_write runtime.writer.bool message.deleted)
      then_write write_if (not (str_eq message.updated_at "")) (
          runtime.writer.tag 4 length_delimited
          then_write runtime.writer.string message.updated_at);
}

pub record UpsertConfigItemRequest : Type 0 where
  pub scope : Option (Message ConfigScope)
  pub key : String
  pub json_value : String

unfoldable pub upsert_config_item_request_type : Runtime → MessageType UpsertConfigItemRequest
upsert_config_item_request_type runtime = record {
  type_name = "pgapp.v1.UpsertConfigItemRequest";
  create = record { scope = none; key = ""; json_value = "" };
  read_field = λ policy field_no _ message.
      if field_no == 1
      then some (
          assign_parsed (read_nested runtime (config_scope_type runtime) policy message.scope)
            (λ v. record message { scope = some v }))
      else if field_no == 2
      then some (assign runtime.reader.string (λ v. record message { key = v }))
      else if field_no == 3
      then some (assign runtime.reader.string (λ v. record message { json_value = v }))
      else none;
  write_fields = λ unknown_too message.
      write_optional runtime (config_scope_type runtime) unknown_too 1 message.scope
      then_write write_if (not (str_eq message.key ""))
          (runtime.writer.tag 2 length_delimited then_write runtime.writer.string message.key)
      then_write write_if (not (str_eq message.json_value "")) (
          runtime.writer.tag 3 length_delimited
          then_write runtime.writer.string message.json_value);
}

pub record DeleteConfigItemRequest : Type 0 where
  pub scope : Option (Message ConfigScope)
  pub key : String

unfoldable pub delete_config_item_request_type : Runtime → MessageType DeleteConfigItemRequest
delete_config_item_request_type runtime = record {
  type_name = "pgapp.v1.DeleteConfigItemRequest";
  create = record { scope = none; key = "" };
  read_field = λ policy field_no _ message.
      if field_no == 1
      then some (
          assign_parsed (read_nested runtime (config_scope_type runtime) policy message.scope)
            (λ v. record message { scope = some v }))
      else if field_no == 2
      then some (assign runtime.reader.string (λ v. record message { key = v }))
      else none;
  write_fields = λ unknown_too message.
      write_optional runtime (config_scope_type runtime) unknown_too 1 message.scope
      then_write write_if (not (str_eq message.key ""))
          (runtime.writer.tag 2 length_delimited then_write runtime.writer.string message.key);
}

pub record GetConfigDraftRequest : Type 0 where
  pub scope : Option (Message ConfigScope)

unfoldable pub get_config_draft_request_type : Runtime → MessageType GetConfigDraftRequest
get_config_draft_request_type runtime = record {
  type_name = "pgapp.v1.GetConfigDraftRequest";
  create = record { scope = none };
  read_field = λ policy field_no _ message.
      if field_no == 1
      then some (
          assign_parsed (read_nested runtime (config_scope_type runtime) policy message.scope)
            (λ v. record message { scope = some v }))
      else none;
  write_fields = λ unknown_too message.
      write_optional runtime (config_scope_type runtime) unknown_too 1 message.scope;
}

pub record ConfigDraftResponse : Type 0 where
  pub scope : Option (Message ConfigScope)
  pub items : List (Message ConfigItem)

unfoldable pub config_draft_response_type : Runtime → MessageType ConfigDraftResponse
config_draft_response_type runtime = record {
  type_name = "pgapp.v1.ConfigDraftResponse";
  create = record { scope = none; items = [] };
  read_field = λ policy field_no _ message.
      if field_no == 1
      then some (
          assign_parsed (read_nested runtime (config_scope_type runtime) policy message.scope)
            (λ v. record message { scope = some v }))
      else if field_no == 2
      then some (
          assign_parsed (read_nested runtime (config_item_type runtime) policy none)
            (λ v. record message { items = message.items ++ v ∷ [] }))
      else none;
  write_fields = λ unknown_too message.
      write_optional runtime (config_scope_type runtime) unknown_too 1 message.scope
      then_write write_each (write_nested runtime (config_item_type runtime) unknown_too 2)
          message.items;
}
