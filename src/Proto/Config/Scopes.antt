-- ===== src/Proto/Config/Scopes.antt =====
-- Scopes.
-- Code: sdk/typescript/src/gen/pgapp/v1/config.ts
pub mod RoundTrip
use text.Mathlib.Text.{◌==◌ as str_eq}
use pgapp.Common.{
  if◌then◌else◌, ◌==◌, ◌++◌, String, not, Option, none, some, List, [], ◌∷◌, ℤ, pos, is_zero,
}
use pgapp.Wire.{
  Runtime, MessageType, Message, assign, assign_parsed, write_if, write_each, ◌then_write◌, varint,
  length_delimited, write_optional, write_nested, read_nested,
}

pub record ConfigScope : Type 0 where
  pub app_id : String
  pub environment : String
  pub cluster : String
  pub namespace : String

unfoldable pub config_scope_type : Runtime → MessageType ConfigScope
config_scope_type runtime = record {
  type_name = "pgapp.v1.ConfigScope";
  create = record { app_id = ""; environment = ""; cluster = ""; namespace = "" };
  read_field = λ _ field_no _ message.
      if field_no == 1
      then some (assign runtime.reader.string (λ v. record message { app_id = v }))
      else if field_no == 2
      then some (assign runtime.reader.string (λ v. record message { environment = v }))
      else if field_no == 3
      then some (assign runtime.reader.string (λ v. record message { cluster = v }))
      else if field_no == 4
      then some (assign runtime.reader.string (λ v. record message { namespace = v }))
      else none;
  write_fields = λ _ message.
      write_if (not (str_eq message.app_id ""))
        (runtime.writer.tag 1 length_delimited then_write runtime.writer.string message.app_id)
      then_write write_if (not (str_eq message.environment "")) (
          runtime.writer.tag 2 length_delimited
          then_write runtime.writer.string message.environment)
      then_write write_if (not (str_eq message.cluster ""))
          (runtime.writer.tag 3 length_delimited then_write runtime.writer.string message.cluster)
      then_write write_if (not (str_eq message.namespace "")) (
          runtime.writer.tag 4 length_delimited then_write runtime.writer.string message.namespace);
}

pub record ListConfigScopesRequest : Type 0 where
  pub limit : ℤ
  pub offset : String

unfoldable pub list_config_scopes_request_type : Runtime → MessageType ListConfigScopesRequest
list_config_scopes_request_type runtime = record {
  type_name = "pgapp.v1.ListConfigScopesRequest";
  create = record { limit = pos 0; offset = "0" };
  read_field = λ _ field_no _ message.
      if field_no == 1
      then some (assign runtime.reader.int32 (λ v. record message { limit = v }))
      else if field_no == 2
      then some (assign runtime.reader.int64 (λ v. record message { offset = v }))
      else none;
  write_fields = λ _ message.
      write_if (not (is_zero message.limit))
        (runtime.writer.tag 1 varint then_write runtime.writer.int32 message.limit)
      then_write write_if (not (str_eq message.offset "0"))
          (runtime.writer.tag 2 varint then_write runtime.writer.int64 message.offset);
}

pub record ConfigScopeSummary : Type 0 where
  pub scope : Option (Message ConfigScope)
  pub current_revision : String
  pub created_at : String
  pub updated_at : String

unfoldable pub config_scope_summary_type : Runtime → MessageType ConfigScopeSummary
config_scope_summary_type runtime = record {
  type_name = "pgapp.v1.ConfigScopeSummary";
  create = record { scope = none; current_revision = "0"; created_at = ""; updated_at = "" };
  read_field = λ policy field_no _ message.
      if field_no == 1
      then some (
          assign_parsed (read_nested runtime (config_scope_type runtime) policy message.scope)
            (λ v. record message { scope = some v }))
      else if field_no == 2
      then some (assign runtime.reader.int64 (λ v. record message { current_revision = v }))
      else if field_no == 3
      then some (assign runtime.reader.string (λ v. record message { created_at = v }))
      else if field_no == 4
      then some (assign runtime.reader.string (λ v. record message { updated_at = v }))
      else none;
  write_fields = λ unknown_too message.
      write_optional runtime (config_scope_type runtime) unknown_too 1 message.scope
      then_write write_if (not (str_eq message.current_revision "0"))
          (runtime.writer.tag 2 varint then_write runtime.writer.int64 message.current_revision)
      then_write write_if (not (str_eq message.created_at "")) (
          runtime.writer.tag 3 length_delimited then_write runtime.writer.string message.created_at)
      then_write write_if (not (str_eq message.updated_at "")) (
          runtime.writer.tag 4 length_delimited
          then_write runtime.writer.string message.updated_at);
}

pub record ListConfigScopesResponse : Type 0 where
  pub scopes : List (Message ConfigScopeSummary)
  pub next_offset : String

unfoldable pub list_config_scopes_response_type : Runtime → MessageType ListConfigScopesResponse
list_config_scopes_response_type runtime = record {
  type_name = "pgapp.v1.ListConfigScopesResponse";
  create = record { scopes = []; next_offset = "0" };
  read_field = λ policy field_no _ message.
      if field_no == 1
      then some (
          assign_parsed (read_nested runtime (config_scope_summary_type runtime) policy none)
            (λ v. record message { scopes = message.scopes ++ v ∷ [] }))
      else if field_no == 2
      then some (assign runtime.reader.int64 (λ v. record message { next_offset = v }))
      else none;
  write_fields = λ unknown_too message.
      write_each (write_nested runtime (config_scope_summary_type runtime) unknown_too 1)
        message.scopes
      then_write write_if (not (str_eq message.next_offset "0"))
          (runtime.writer.tag 2 varint then_write runtime.writer.int64 message.next_offset);
}
