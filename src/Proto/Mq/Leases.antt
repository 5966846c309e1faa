-- ===== src/Proto/Mq/Leases.antt =====
-- Ending or extending the lease on a message.
-- Code: sdk/typescript/src/gen/pgapp/v1/mq.ts
pub mod RoundTrip
use text.Mathlib.Text.{◌==◌ as str_eq}
use pgapp.Common.{if◌then◌else◌, ◌==◌, String, not, none, some}
use pgapp.Wire.{Runtime, MessageType, assign, write_if, ◌then_write◌, varint, length_delimited}

pub record AckMessageRequest : Type 0 where
  pub queue_name : String
  pub message_id : String
  pub ack_token : String

unfoldable pub ack_message_request_type : Runtime → MessageType AckMessageRequest
ack_message_request_type runtime = record {
  type_name = "pgapp.v1.AckMessageRequest";
  create = record { queue_name = ""; message_id = "0"; ack_token = "" };
  read_field = λ _ field_no _ message.
      if field_no == 1
      then some (assign runtime.reader.string (λ v. record message { queue_name = v }))
      else if field_no == 2
      then some (assign runtime.reader.int64 (λ v. record message { message_id = v }))
      else if field_no == 3
      then some (assign runtime.reader.string (λ v. record message { ack_token = v }))
      else none;
  write_fields = λ _ message.
      write_if (not (str_eq message.queue_name ""))
        (runtime.writer.tag 1 length_delimited then_write runtime.writer.string message.queue_name)
      then_write write_if (not (str_eq message.message_id "0"))
          (runtime.writer.tag 2 varint then_write runtime.writer.int64 message.message_id)
      then_write write_if (not (str_eq message.ack_token "")) (
          runtime.writer.tag 3 length_delimited then_write runtime.writer.string message.ack_token);
}

pub record ArchiveMessageRequest : Type 0 where
  pub queue_name : String
  pub message_id : String
  pub ack_token : String

unfoldable pub archive_message_request_type : Runtime → MessageType ArchiveMessageRequest
archive_message_request_type runtime = record {
  type_name = "pgapp.v1.ArchiveMessageRequest";
  create = record { queue_name = ""; message_id = "0"; ack_token = "" };
  read_field = λ _ field_no _ message.
      if field_no == 1
      then some (assign runtime.reader.string (λ v. record message { queue_name = v }))
      else if field_no == 2
      then some (assign runtime.reader.int64 (λ v. record message { message_id = v }))
      else if field_no == 3
      then some (assign runtime.reader.string (λ v. record message { ack_token = v }))
      else none;
  write_fields = λ _ message.
      write_if (not (str_eq message.queue_name ""))
        (runtime.writer.tag 1 length_delimited then_write runtime.writer.string message.queue_name)
      then_write write_if (not (str_eq message.message_id "0"))
          (runtime.writer.tag 2 varint then_write runtime.writer.int64 message.message_id)
      then_write write_if (not (str_eq message.ack_token "")) (
          runtime.writer.tag 3 length_delimited then_write runtime.writer.string message.ack_token);
}

pub record SetVisibilityTimeoutRequest : Type 0 where
  pub queue_name : String
  pub message_id : String
  pub visibility_timeout_seconds : String
  pub ack_token : String

unfoldable pub set_visibility_timeout_request_type :
    Runtime → MessageType SetVisibilityTimeoutRequest
set_visibility_timeout_request_type runtime = record {
  type_name = "pgapp.v1.SetVisibilityTimeoutRequest";
  create = record {
    queue_name = "";
    message_id = "0";
    visibility_timeout_seconds = "0";
    ack_token = "";
  };
  read_field = λ _ field_no _ message.
      if field_no == 1
      then some (assign runtime.reader.string (λ v. record message { queue_name = v }))
      else if field_no == 2
      then some (assign runtime.reader.int64 (λ v. record message { message_id = v }))
      else if field_no == 3
      then some
          (assign runtime.reader.int64 (λ v. record message { visibility_timeout_seconds = v }))
      else if field_no == 4
      then some (assign runtime.reader.string (λ v. record message { ack_token = v }))
      else none;
  write_fields = λ _ message.
      write_if (not (str_eq message.queue_name ""))
        (runtime.writer.tag 1 length_delimited then_write runtime.writer.string message.queue_name)
      then_write write_if (not (str_eq message.message_id "0"))
          (runtime.writer.tag 2 varint then_write runtime.writer.int64 message.message_id)
      then_write write_if (not (str_eq message.visibility_timeout_seconds "0")) (
          runtime.writer.tag 3 varint
          then_write runtime.writer.int64 message.visibility_timeout_seconds)
      then_write write_if (not (str_eq message.ack_token "")) (
          runtime.writer.tag 4 length_delimited then_write runtime.writer.string message.ack_token);
}
