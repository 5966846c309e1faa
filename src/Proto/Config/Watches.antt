-- ===== src/Proto/Config/Watches.antt =====
-- Watching for a release.
-- Code: sdk/typescript/src/gen/pgapp/v1/config.ts
pub mod RoundTrip
use text.Mathlib.Text.{◌==◌ as str_eq}
use pgapp.Common.{if◌then◌else◌, ◌==◌, String, Bool, false, not, Option, none, some}
use pgapp.Wire.{
  Runtime, MessageType, Message, assign, assign_parsed, write_if, ◌then_write◌, varint,
  write_optional, read_nested,
}
use pgapp.Proto.Config.Scopes.{ConfigScope, config_scope_type}
use pgapp.Proto.Config.Releases.{ConfigRelease, config_release_type}

pub record WatchConfigRequest : Type 0 where
  pub scope : Option (Message ConfigScope)
  pub known_revision : String
  pub timeout_seconds : String

unfoldable pub watch_config_request_type : Runtime → MessageType WatchConfigRequest
watch_config_request_type runtime = record {
  type_name = "pgapp.v1.WatchConfigRequest";
  create = record { scope = none; known_revision = "0"; timeout_seconds = "0" };
  read_field = λ policy field_no _ message.
      if field_no == 1
      then some (
          assign_parsed (read_nested runtime (config_scope_type runtime) policy message.scope)
            (λ v. record message { scope = some v }))
      else if field_no == 2
      then some (assign runtime.reader.int64 (λ v. record message { known_revision = v }))
      else if field_no == 3
      then some (assign runtime.reader.int64 (λ v. record message { timeout_seconds = v }))
      else none;
  write_fields = λ unknown_too message.
      write_optional runtime (config_scope_type runtime) unknown_too 1 message.scope
      then_write write_if (not (str_eq message.known_revision "0"))
          (runtime.writer.tag 2 varint then_write runtime.writer.int64 message.known_revision)
      then_write write_if (not (str_eq message.timeout_seconds "0"))
          (runtime.writer.tag 3 varint then_write runtime.writer.int64 message.timeout_seconds);
}

pub record WatchConfigResponse : Type 0 where
  pub changed : Bool
  pub latest_revision : String
  pub release : Option (Message ConfigRelease)

unfoldable pub watch_config_response_type : Runtime → MessageType WatchConfigResponse
watch_config_response_type runtime = record {
  type_name = "pgapp.v1.WatchConfigResponse";
  create = record { changed = false; latest_revision = "0"; release = none };
  read_field = λ policy field_no _ message.
      if field_no == 1
      then some (assign runtime.reader.bool (λ v. record message { changed = v }))
      else if field_no == 2
      then some (assign runtime.reader.int64 (λ v. record message { latest_revision = v }))
      else if field_no == 3
      then some (
          assign_parsed (read_nested runtime (config_release_type runtime) policy message.release)
            (λ v. record message { release = some v }))
      else none;
  write_fields = λ unknown_too message.
      write_if message.changed
        (runtime.writer.tag 1 varint then_write runtime.writer.bool message.changed)
      then_write write_if (not (str_eq message.latest_revision "0"))
          (runtime.writer.tag 2 varint then_write runtime.writer.int64 message.latest_revision)
      then_write write_optional runtime (config_release_type runtime) unknown_too 3 message.release;
}
