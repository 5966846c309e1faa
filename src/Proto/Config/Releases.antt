-- ===== src/Proto/Config/Releases.antt =====
-- Releases.
-- Code: sdk/typescript/src/gen/pgapp/v1/config.ts
pub mod RoundTrip
use text.Mathlib.Text.{◌==◌ as str_eq}
use pgapp.Common.{
  if◌then◌else◌, ◌==◌, ◌++◌, String, not, Option, none, some, List, [], ◌∷◌, ℤ, pos, is_zero,
}
use pgapp.Wire.{
  Runtime, MessageType, Message, assign, assign_parsed, write_if, write_each, ◌then_write◌, varint,
  length_delimited, write_optional, write_nested, read_nested,
}
use pgapp.Proto.Config.Scopes.{ConfigScope, config_scope_type}

pub record ConfigRelease : Type 0 where
  pub scope : Option (Message ConfigScope)
  pub revision : String
  pub checksum : String
  pub snapshot_json : String
  pub message : String
  pub published_by : String
  pub published_at : String

unfoldable pub config_release_type : Runtime → MessageType ConfigRelease
config_release_type runtime = record {
  type_name = "pgapp.v1.ConfigRelease";
  create = record {
    scope = none;
    revision = "0";
    checksum = "";
    snapshot_json = "";
    message = "";
    published_by = "";
    published_at = "";
  };
  read_field = λ policy field_no _ message.
      if field_no == 1
      then some (
          assign_parsed (read_nested runtime (config_scope_type runtime) policy message.scope)
            (λ v. record message { scope = some v }))
      else if field_no == 2
      then some (assign runtime.reader.int64 (λ v. record message { revision = v }))
      else if field_no == 3
      then some (assign runtime.reader.string (λ v. record message { checksum = v }))
      else if field_no == 4
      then some (assign runtime.reader.string (λ v. record message { snapshot_json = v }))
      else if field_no == 5
      then some (assign runtime.reader.string (λ v. record message { message = v }))
      else if field_no == 6
      then some (assign runtime.reader.string (λ v. record message { published_by = v }))
      else if field_no == 7
      then some (assign runtime.reader.string (λ v. record message { published_at = v }))
      else none;
  write_fields = λ unknown_too message.
      write_optional runtime (config_scope_type runtime) unknown_too 1 message.scope
      then_write write_if (not (str_eq message.revision "0"))
          (runtime.writer.tag 2 varint then_write runtime.writer.int64 message.revision)
      then_write write_if (not (str_eq message.checksum ""))
          (runtime.writer.tag 3 length_delimited then_write runtime.writer.string message.checksum)
      then_write write_if (not (str_eq message.snapshot_json "")) (
          runtime.writer.tag 4 length_delimited
          then_write runtime.writer.string message.snapshot_json)
      then_write write_if (not (str_eq message.message ""))
          (runtime.writer.tag 5 length_delimited then_write runtime.writer.string message.message)
      then_write write_if (not (str_eq message.published_by "")) (
          runtime.writer.tag 6 length_delimited
          then_write runtime.writer.string message.published_by)
      then_write write_if (not (str_eq message.published_at "")) (
          runtime.writer.tag 7 length_delimited
          then_write runtime.writer.string message.published_at);
}

pub record PublishConfigRequest : Type 0 where
  pub scope : Option (Message ConfigScope)
  pub message : String
  pub published_by : String

unfoldable pub publish_config_request_type : Runtime → MessageType PublishConfigRequest
publish_config_request_type runtime = record {
  type_name = "pgapp.v1.PublishConfigRequest";
  create = record { scope = none; message = ""; published_by = "" };
  read_field = λ policy field_no _ message.
      if field_no == 1
      then some (
          assign_parsed (read_nested runtime (config_scope_type runtime) policy message.scope)
            (λ v. record message { scope = some v }))
      else if field_no == 2
      then some (assign runtime.reader.string (λ v. record message { message = v }))
      else if field_no == 3
      then some (assign runtime.reader.string (λ v. record message { published_by = v }))
      else none;
  write_fields = λ unknown_too message.
      write_optional runtime (config_scope_type runtime) unknown_too 1 message.scope
      then_write write_if (not (str_eq message.message ""))
          (runtime.writer.tag 2 length_delimited then_write runtime.writer.string message.message)
      then_write write_if (not (str_eq message.published_by "")) (
          runtime.writer.tag 3 length_delimited
          then_write runtime.writer.string message.published_by);
}

pub record GetConfigReleaseRequest : Type 0 where
  pub scope : Option (Message ConfigScope)
  pub revision : String

unfoldable pub get_config_release_request_type : Runtime → MessageType GetConfigReleaseRequest
get_config_release_request_type runtime = record {
  type_name = "pgapp.v1.GetConfigReleaseRequest";
  create = record { scope = none; revision = "0" };
  read_field = λ policy field_no _ message.
      if field_no == 1
      then some (
          assign_parsed (read_nested runtime (config_scope_type runtime) policy message.scope)
            (λ v. record message { scope = some v }))
      else if field_no == 2
      then some (assign runtime.reader.int64 (λ v. record message { revision = v }))
      else none;
  write_fields = λ unknown_too message.
      write_optional runtime (config_scope_type runtime) unknown_too 1 message.scope
      then_write write_if (not (str_eq message.revision "0"))
          (runtime.writer.tag 2 varint then_write runtime.writer.int64 message.revision);
}

pub record ListConfigReleasesRequest : Type 0 where
  pub scope : Option (Message ConfigScope)
  pub limit : ℤ
  pub offset : String

unfoldable pub list_config_releases_request_type : Runtime → MessageType ListConfigReleasesRequest
list_config_releases_request_type runtime = record {
  type_name = "pgapp.v1.ListConfigReleasesRequest";
  create = record { scope = none; limit = pos 0; offset = "0" };
  read_field = λ policy field_no _ message.
      if field_no == 1
      then some (
          assign_parsed (read_nested runtime (config_scope_type runtime) policy message.scope)
            (λ v. record message { scope = some v }))
      else if field_no == 2
      then some (assign runtime.reader.int32 (λ v. record message { limit = v }))
      else if field_no == 3
      then some (assign runtime.reader.int64 (λ v. record message { offset = v }))
      else none;
  write_fields = λ unknown_too message.
      write_optional runtime (config_scope_type runtime) unknown_too 1 message.scope
      then_write write_if (not (is_zero message.limit))
          (runtime.writer.tag 2 varint then_write runtime.writer.int32 message.limit)
      then_write write_if (not (str_eq message.offset "0"))
          (runtime.writer.tag 3 varint then_write runtime.writer.int64 message.offset);
}

pub record ListConfigReleasesResponse : Type 0 where
  pub releases : List (Message ConfigRelease)
  pub next_offset : String

unfoldable pub list_config_releases_response_type : Runtime → MessageType ListConfigReleasesResponse
list_config_releases_response_type runtime = record {
  type_name = "pgapp.v1.ListConfigReleasesResponse";
  create = record { releases = []; next_offset = "0" };
  read_field = λ policy field_no _ message.
      if field_no == 1
      then some (
          assign_parsed (read_nested runtime (config_release_type runtime) policy none)
            (λ v. record message { releases = message.releases ++ v ∷ [] }))
      else if field_no == 2
      then some (assign runtime.reader.int64 (λ v. record message { next_offset = v }))
      else none;
  write_fields = λ unknown_too message.
      write_each (write_nested runtime (config_release_type runtime) unknown_too 1) message.releases
      then_write write_if (not (str_eq message.next_offset "0"))
          (runtime.writer.tag 2 varint then_write runtime.writer.int64 message.next_offset);
}
