-- ===== src/Proto/Mq/Reads.antt =====
-- Reading messages.
-- Code: sdk/typescript/src/gen/pgapp/v1/mq.ts
pub mod RoundTrip
use text.Mathlib.Text.{◌==◌ as str_eq}
use pgapp.Common.{
  if◌then◌else◌, ◌==◌, ◌++◌, String, not, none, some, List, [], ◌∷◌, ℤ, pos, is_zero,
}
use pgapp.Wire.{
  Runtime, MessageType, Message, assign, assign_parsed, write_if, write_each, ◌then_write◌, varint,
  length_delimited, write_nested, read_nested,
}

pub record ReadMessagesRequest : Type 0 where
  pub queue_name : String
  pub quantity : ℤ
  pub visibility_timeout_seconds : String

unfoldable pub read_messages_request_type : Runtime → MessageType ReadMessagesRequest
read_messages_request_type runtime = record {
  type_name = "pgapp.v1.ReadMessagesRequest";
  create = record { queue_name = ""; quantity = pos 0; visibility_timeout_seconds = "0" };
  read_field = λ _ field_no _ message.
      if field_no == 1
      then some (assign runtime.reader.string (λ v. record message { queue_name = v }))
      else if field_no == 2
      then some (assign runtime.reader.int32 (λ v. record message { quantity = v }))
      else if field_no == 3
      then some
          (assign runtime.reader.int64 (λ v. record message { visibility_timeout_seconds = v }))
      else none;
  write_fields = λ _ message.
      write_if (not (str_eq message.queue_name ""))
        (runtime.writer.tag 1 length_delimited then_write runtime.writer.string message.queue_name)
      then_write write_if (not (is_zero message.quantity))
          (runtime.writer.tag 2 varint then_write runtime.writer.int32 message.quantity)
      then_write write_if (not (str_eq message.visibility_timeout_seconds "0")) (
          runtime.writer.tag 3 varint
          then_write runtime.writer.int64 message.visibility_timeout_seconds);
}

pub record ReadWithPollRequest : Type 0 where
  pub queue_name : String
  pub quantity : ℤ
  pub visibility_timeout_seconds : String
  pub max_poll_seconds : String
  pub poll_interval_millis : String

unfoldable pub read_with_poll_request_type : Runtime → MessageType ReadWithPollRequest
read_with_poll_request_type runtime = record {
  type_name = "pgapp.v1.ReadWithPollRequest";
  create = record {
    queue_name = "";
    quantity = pos 0;
    visibility_timeout_seconds = "0";
    max_poll_seconds = "0";
    poll_interval_millis = "0";
  };
  read_field = λ _ field_no _ message.
      if field_no == 1
      then some (assign runtime.reader.string (λ v. record message { queue_name = v }))
      else if field_no == 2
      then some (assign runtime.reader.int32 (λ v. record message { quantity = v }))
      else if field_no == 3
      then some
          (assign runtime.reader.int64 (λ v. record message { visibility_timeout_seconds = v }))
      else if field_no == 4
      then some (assign runtime.reader.int64 (λ v. record message { max_poll_seconds = v }))
      else if field_no == 5
      then some (assign runtime.reader.int64 (λ v. record message { poll_interval_millis = v }))
      else none;
  write_fields = λ _ message.
      write_if (not (str_eq message.queue_name ""))
        (runtime.writer.tag 1 length_delimited then_write runtime.writer.string message.queue_name)
      then_write write_if (not (is_zero message.quantity))
          (runtime.writer.tag 2 varint then_write runtime.writer.int32 message.quantity)
      then_write write_if (not (str_eq message.visibility_timeout_seconds "0")) (
          runtime.writer.tag 3 varint
          then_write runtime.writer.int64 message.visibility_timeout_seconds)
      then_write write_if (not (str_eq message.max_poll_seconds "0"))
          (runtime.writer.tag 4 varint then_write runtime.writer.int64 message.max_poll_seconds)
      then_write write_if (not (str_eq message.poll_interval_millis "0")) (
          runtime.writer.tag 5 varint then_write runtime.writer.int64 message.poll_interval_millis);
}

pub record StreamReadRequest : Type 0 where
  pub queue_name : String
  pub quantity : ℤ
  pub visibility_timeout_seconds : String

unfoldable pub stream_read_request_type : Runtime → MessageType StreamReadRequest
stream_read_request_type runtime = record {
  type_name = "pgapp.v1.StreamReadRequest";
  create = record { queue_name = ""; quantity = pos 0; visibility_timeout_seconds = "0" };
  read_field = λ _ field_no _ message.
      if field_no == 1
      then some (assign runtime.reader.string (λ v. record message { queue_name = v }))
      else if field_no == 2
      then some (assign runtime.reader.int32 (λ v. record message { quantity = v }))
      else if field_no == 3
      then some
          (assign runtime.reader.int64 (λ v. record message { visibility_timeout_seconds = v }))
      else none;
  write_fields = λ _ message.
      write_if (not (str_eq message.queue_name ""))
        (runtime.writer.tag 1 length_delimited then_write runtime.writer.string message.queue_name)
      then_write write_if (not (is_zero message.quantity))
          (runtime.writer.tag 2 varint then_write runtime.writer.int32 message.quantity)
      then_write write_if (not (str_eq message.visibility_timeout_seconds "0")) (
          runtime.writer.tag 3 varint
          then_write runtime.writer.int64 message.visibility_timeout_seconds);
}

pub record QueueMessage : Type 0 where
  pub message_id : String
  pub read_count : ℤ
  pub enqueued_at : String
  pub visibility_timeout_at : String
  pub json_payload : String
  pub ack_token : String

unfoldable pub queue_message_type : Runtime → MessageType QueueMessage
queue_message_type runtime = record {
  type_name = "pgapp.v1.QueueMessage";
  create = record {
    message_id = "0";
    read_count = pos 0;
    enqueued_at = "";
    visibility_timeout_at = "";
    json_payload = "";
    ack_token = "";
  };
  read_field = λ _ field_no _ message.
      if field_no == 1
      then some (assign runtime.reader.int64 (λ v. record message { message_id = v }))
      else if field_no == 2
      then some (assign runtime.reader.int32 (λ v. record message { read_count = v }))
      else if field_no == 3
      then some (assign runtime.reader.string (λ v. record message { enqueued_at = v }))
      else if field_no == 4
      then some (assign runtime.reader.string (λ v. record message { visibility_timeout_at = v }))
      else if field_no == 5
      then some (assign runtime.reader.string (λ v. record message { json_payload = v }))
      else if field_no == 6
      then some (assign runtime.reader.string (λ v. record message { ack_token = v }))
      else none;
  write_fields = λ _ message.
      write_if (not (str_eq message.message_id "0"))
        (runtime.writer.tag 1 varint then_write runtime.writer.int64 message.message_id)
      then_write write_if (not (is_zero message.read_count))
          (runtime.writer.tag 2 varint then_write runtime.writer.int32 message.read_count)
      then_write write_if (not (str_eq message.enqueued_at "")) (
          runtime.writer.tag 3 length_delimited
          then_write runtime.writer.string message.enqueued_at)
      then_write write_if (not (str_eq message.visibility_timeout_at "")) (
          runtime.writer.tag 4 length_delimited
          then_write runtime.writer.string message.visibility_timeout_at)
      then_write write_if (not (str_eq message.json_payload "")) (
          runtime.writer.tag 5 length_delimited
          then_write runtime.writer.string message.json_payload)
      then_write write_if (not (str_eq message.ack_token "")) (
          runtime.writer.tag 6 length_delimited then_write runtime.writer.string message.ack_token);
}

pub record ReadMessagesResponse : Type 0 where
  pub messages : List (Message QueueMessage)

unfoldable pub read_messages_response_type : Runtime → MessageType ReadMessagesResponse
read_messages_response_type runtime = record {
  type_name = "pgapp.v1.ReadMessagesResponse";
  create = record { messages = [] };
  read_field = λ policy field_no _ message.
      if field_no == 1
      then some (
          assign_parsed (read_nested runtime (queue_message_type runtime) policy none)
            (λ v. record message { messages = message.messages ++ v ∷ [] }))
      else none;
  write_fields = λ unknown_too message.
      write_each (write_nested runtime (queue_message_type runtime) unknown_too 1) message.messages;
}
