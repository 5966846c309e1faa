-- ===== src/Proto/Mq/DeadLetters.antt =====
-- The dead letter queue.
-- Code: sdk/typescript/src/gen/pgapp/v1/mq.ts
pub mod RoundTrip
use text.Mathlib.Text.{◌==◌ as str_eq}
use pgapp.Common.{
  if◌then◌else◌, ◌==◌, ◌++◌, String, not, none, some, List, [], ◌∷◌, ℤ, pos, is_zero,
}
use pgapp.Wire.{
  Runtime, MessageType, Message, assign, assign_parsed, write_if, write_each, ◌then_write◌, varint,
  length_delimited, write_nested, read_nested,
}

pub record DlqMessage : Type 0 where
  pub id : String
  pub original_message_id : String
  pub read_count : ℤ
  pub enqueued_at : String
  pub dead_lettered_at : String
  pub json_payload : String
  pub reason : String

unfoldable pub dlq_message_type : Runtime → MessageType DlqMessage
dlq_message_type runtime = record {
  type_name = "pgapp.v1.DlqMessage";
  create = record {
    id = "0";
    original_message_id = "0";
    read_count = pos 0;
    enqueued_at = "";
    dead_lettered_at = "";
    json_payload = "";
    reason = "";
  };
  read_field = λ _ field_no _ message.
      if field_no == 1
      then some (assign runtime.reader.int64 (λ v. record message { id = v }))
      else if field_no == 2
      then some (assign runtime.reader.int64 (λ v. record message { original_message_id = v }))
      else if field_no == 3
      then some (assign runtime.reader.int32 (λ v. record message { read_count = v }))
      else if field_no == 4
      then some (assign runtime.reader.string (λ v. record message { enqueued_at = v }))
      else if field_no == 5
      then some (assign runtime.reader.string (λ v. record message { dead_lettered_at = v }))
      else if field_no == 6
      then some (assign runtime.reader.string (λ v. record message { json_payload = v }))
      else if field_no == 7
      then some (assign runtime.reader.string (λ v. record message { reason = v }))
      else none;
  write_fields = λ _ message.
      write_if (not (str_eq message.id "0"))
        (runtime.writer.tag 1 varint then_write runtime.writer.int64 message.id)
      then_write write_if (not (str_eq message.original_message_id "0"))
          (runtime.writer.tag 2 varint then_write runtime.writer.int64 message.original_message_id)
      then_write write_if (not (is_zero message.read_count))
          (runtime.writer.tag 3 varint then_write runtime.writer.int32 message.read_count)
      then_write write_if (not (str_eq message.enqueued_at "")) (
          runtime.writer.tag 4 length_delimited
          then_write runtime.writer.string message.enqueued_at)
      then_write write_if (not (str_eq message.dead_lettered_at "")) (
          runtime.writer.tag 5 length_delimited
          then_write runtime.writer.string message.dead_lettered_at)
      then_write write_if (not (str_eq message.json_payload "")) (
          runtime.writer.tag 6 length_delimited
          then_write runtime.writer.string message.json_payload)
      then_write write_if (not (str_eq message.reason ""))
          (runtime.writer.tag 7 length_delimited then_write runtime.writer.string message.reason);
}

pub record ListDlqMessagesRequest : Type 0 where
  pub queue_name : String
  pub limit : ℤ
  pub offset : String

unfoldable pub list_dlq_messages_request_type : Runtime → MessageType ListDlqMessagesRequest
list_dlq_messages_request_type runtime = record {
  type_name = "pgapp.v1.ListDlqMessagesRequest";
  create = record { queue_name = ""; limit = pos 0; offset = "0" };
  read_field = λ _ field_no _ message.
      if field_no == 1
      then some (assign runtime.reader.string (λ v. record message { queue_name = v }))
      else if field_no == 2
      then some (assign runtime.reader.int32 (λ v. record message { limit = v }))
      else if field_no == 3
      then some (assign runtime.reader.int64 (λ v. record message { offset = v }))
      else none;
  write_fields = λ _ message.
      write_if (not (str_eq message.queue_name ""))
        (runtime.writer.tag 1 length_delimited then_write runtime.writer.string message.queue_name)
      then_write write_if (not (is_zero message.limit))
          (runtime.writer.tag 2 varint then_write runtime.writer.int32 message.limit)
      then_write write_if (not (str_eq message.offset "0"))
          (runtime.writer.tag 3 varint then_write runtime.writer.int64 message.offset);
}

pub record ListDlqMessagesResponse : Type 0 where
  pub messages : List (Message DlqMessage)
  pub next_offset : String

unfoldable pub list_dlq_messages_response_type : Runtime → MessageType ListDlqMessagesResponse
list_dlq_messages_response_type runtime = record {
  type_name = "pgapp.v1.ListDlqMessagesResponse";
  create = record { messages = []; next_offset = "0" };
  read_field = λ policy field_no _ message.
      if field_no == 1
      then some (
          assign_parsed (read_nested runtime (dlq_message_type runtime) policy none)
            (λ v. record message { messages = message.messages ++ v ∷ [] }))
      else if field_no == 2
      then some (assign runtime.reader.int64 (λ v. record message { next_offset = v }))
      else none;
  write_fields = λ unknown_too message.
      write_each (write_nested runtime (dlq_message_type runtime) unknown_too 1) message.messages
      then_write write_if (not (str_eq message.next_offset "0"))
          (runtime.writer.tag 2 varint then_write runtime.writer.int64 message.next_offset);
}

pub record GetDlqMessageRequest : Type 0 where
  pub queue_name : String
  pub original_message_id : String

unfoldable pub get_dlq_message_request_type : Runtime → MessageType GetDlqMessageRequest
get_dlq_message_request_type runtime = record {
  type_name = "pgapp.v1.GetDlqMessageRequest";
  create = record { queue_name = ""; original_message_id = "0" };
  read_field = λ _ field_no _ message.
      if field_no == 1
      then some (assign runtime.reader.string (λ v. record message { queue_name = v }))
      else if field_no == 2
      then some (assign runtime.reader.int64 (λ v. record message { original_message_id = v }))
      else none;
  write_fields = λ _ message.
      write_if (not (str_eq message.queue_name ""))
        (runtime.writer.tag 1 length_delimited then_write runtime.writer.string message.queue_name)
      then_write write_if (not (str_eq message.original_message_id "0"))
          (runtime.writer.tag 2 varint then_write runtime.writer.int64 message.original_message_id);
}

pub record ReprocessDlqMessageRequest : Type 0 where
  pub queue_name : String
  pub original_message_id : String

unfoldable pub reprocess_dlq_message_request_type : Runtime → MessageType ReprocessDlqMessageRequest
reprocess_dlq_message_request_type runtime = record {
  type_name = "pgapp.v1.ReprocessDlqMessageRequest";
  create = record { queue_name = ""; original_message_id = "0" };
  read_field = λ _ field_no _ message.
      if field_no == 1
      then some (assign runtime.reader.string (λ v. record message { queue_name = v }))
      else if field_no == 2
      then some (assign runtime.reader.int64 (λ v. record message { original_message_id = v }))
      else none;
  write_fields = λ _ message.
      write_if (not (str_eq message.queue_name ""))
        (runtime.writer.tag 1 length_delimited then_write runtime.writer.string message.queue_name)
      then_write write_if (not (str_eq message.original_message_id "0"))
          (runtime.writer.tag 2 varint then_write runtime.writer.int64 message.original_message_id);
}

pub record PurgeDlqRequest : Type 0 where
  pub queue_name : String

unfoldable pub purge_dlq_request_type : Runtime → MessageType PurgeDlqRequest
purge_dlq_request_type runtime = record {
  type_name = "pgapp.v1.PurgeDlqRequest";
  create = record { queue_name = "" };
  read_field = λ _ field_no _ message.
      if field_no == 1
      then some (assign runtime.reader.string (λ v. record message { queue_name = v }))
      else none;
  write_fields = λ _ message.
      write_if (not (str_eq message.queue_name ""))
        (runtime.writer.tag 1 length_delimited then_write runtime.writer.string message.queue_name);
}
