-- ===== src/Proto/Config/Schemas.antt =====
-- JSON schemas.
-- Code: sdk/typescript/src/gen/pgapp/v1/config.ts
pub mod RoundTrip
use text.Mathlib.Text.{◌==◌ as str_eq}
use pgapp.Common.{if◌then◌else◌, ◌==◌, String, Bool, false, not, Option, none, some}
use pgapp.Wire.{
  Runtime, MessageType, Message, assign, assign_parsed, write_if, ◌then_write◌, varint,
  length_delimited, write_optional, read_nested,
}
use pgapp.Proto.Config.Scopes.{ConfigScope, config_scope_type}

pub record SetConfigSchemaRequest : Type 0 where
  pub scope : Option (Message ConfigScope)
  pub json_schema : String

unfoldable pub set_config_schema_request_type : Runtime → MessageType SetConfigSchemaRequest
set_config_schema_request_type runtime = record {
  type_name = "pgapp.v1.SetConfigSchemaRequest";
  create = record { scope = none; json_schema = "" };
  read_field = λ policy field_no _ message.
      if field_no == 1
      then some (
          assign_parsed (read_nested runtime (config_scope_type runtime) policy message.scope)
            (λ v. record message { scope = some v }))
      else if field_no == 2
      then some (assign runtime.reader.string (λ v. record message { json_schema = v }))
      else none;
  write_fields = λ unknown_too message.
      write_optional runtime (config_scope_type runtime) unknown_too 1 message.scope
      then_write write_if (not (str_eq message.json_schema "")) (
          runtime.writer.tag 2 length_delimited
          then_write runtime.writer.string message.json_schema);
}

pub record GetConfigSchemaRequest : Type 0 where
  pub scope : Option (Message ConfigScope)

unfoldable pub get_config_schema_request_type : Runtime → MessageType GetConfigSchemaRequest
get_config_schema_request_type runtime = record {
  type_name = "pgapp.v1.GetConfigSchemaRequest";
  create = record { scope = none };
  read_field = λ policy field_no _ message.
      if field_no == 1
      then some (
          assign_parsed (read_nested runtime (config_scope_type runtime) policy message.scope)
            (λ v. record message { scope = some v }))
      else none;
  write_fields = λ unknown_too message.
      write_optional runtime (config_scope_type runtime) unknown_too 1 message.scope;
}

pub record ConfigSchemaResponse : Type 0 where
  pub scope : Option (Message ConfigScope)
  pub has_schema : Bool
  pub json_schema : String

unfoldable pub config_schema_response_type : Runtime → MessageType ConfigSchemaResponse
config_schema_response_type runtime = record {
  type_name = "pgapp.v1.ConfigSchemaResponse";
  create = record { scope = none; has_schema = false; json_schema = "" };
  read_field = λ policy field_no _ message.
      if field_no == 1
      then some (
          assign_parsed (read_nested runtime (config_scope_type runtime) policy message.scope)
            (λ v. record message { scope = some v }))
      else if field_no == 2
      then some (assign runtime.reader.bool (λ v. record message { has_schema = v }))
      else if field_no == 3
      then some (assign runtime.reader.string (λ v. record message { json_schema = v }))
      else none;
  write_fields = λ unknown_too message.
      write_optional runtime (config_scope_type runtime) unknown_too 1 message.scope
      then_write write_if message.has_schema
          (runtime.writer.tag 2 varint then_write runtime.writer.bool message.has_schema)
      then_write write_if (not (str_eq message.json_schema "")) (
          runtime.writer.tag 3 length_delimited
          then_write runtime.writer.string message.json_schema);
}
