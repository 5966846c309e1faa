-- ===== src/Proto/Mq/Sends.antt =====
-- Sending messages.
-- Code: sdk/typescript/src/gen/pgapp/v1/mq.ts
pub mod RoundTrip
use text.Mathlib.Text.{◌==◌ as str_eq}
use pgapp.Common.{if◌then◌else◌, ◌==◌, ◌++◌, String, not, none, some, List, [], ◌∷◌, is_empty}
use pgapp.Wire.{
  Runtime, MessageType, assign, assign_parsed, write_if, write_each, ◌then_write◌, varint,
  length_delimited, write_packed, read_packed_int64, is_length_delimited,
}

pub record SendMessageRequest : Type 0 where
  pub queue_name : String
  pub json_payload : String
  pub delay_seconds : String

unfoldable pub send_message_request_type : Runtime → MessageType SendMessageRequest
send_message_request_type runtime = record {
  type_name = "pgapp.v1.SendMessageRequest";
  create = record { queue_name = ""; json_payload = ""; delay_seconds = "0" };
  read_field = λ _ field_no _ message.
      if field_no == 1
      then some (assign runtime.reader.string (λ v. record message { queue_name = v }))
      else if field_no == 2
      then some (assign runtime.reader.string (λ v. record message { json_payload = v }))
      else if field_no == 3
      then some (assign runtime.reader.int64 (λ v. record message { delay_seconds = v }))
      else none;
  write_fields = λ _ message.
      write_if (not (str_eq message.queue_name ""))
        (runtime.writer.tag 1 length_delimited then_write runtime.writer.string message.queue_name)
      then_write write_if (not (str_eq message.json_payload "")) (
          runtime.writer.tag 2 length_delimited
          then_write runtime.writer.string message.json_payload)
      then_write write_if (not (str_eq message.delay_seconds "0"))
          (runtime.writer.tag 3 varint then_write runtime.writer.int64 message.delay_seconds);
}

pub record SendMessageResponse : Type 0 where
  pub message_id : String

unfoldable pub send_message_response_type : Runtime → MessageType SendMessageResponse
send_message_response_type runtime = record {
  type_name = "pgapp.v1.SendMessageResponse";
  create = record { message_id = "0" };
  read_field = λ _ field_no _ message.
      if field_no == 1
      then some (assign runtime.reader.int64 (λ v. record message { message_id = v }))
      else none;
  write_fields = λ _ message.
      write_if (not (str_eq message.message_id "0"))
        (runtime.writer.tag 1 varint then_write runtime.writer.int64 message.message_id);
}

pub record SendBatchRequest : Type 0 where
  pub queue_name : String
  pub json_payloads : List String
  pub delay_seconds : String

unfoldable pub send_batch_request_type : Runtime → MessageType SendBatchRequest
send_batch_request_type runtime = record {
  type_name = "pgapp.v1.SendBatchRequest";
  create = record { queue_name = ""; json_payloads = []; delay_seconds = "0" };
  read_field = λ _ field_no _ message.
      if field_no == 1
      then some (assign runtime.reader.string (λ v. record message { queue_name = v }))
      else if field_no == 2
      then some (
          assign runtime.reader.string
            (λ v. record message { json_payloads = message.json_payloads ++ v ∷ [] }))
      else if field_no == 3
      then some (assign runtime.reader.int64 (λ v. record message { delay_seconds = v }))
      else none;
  write_fields = λ _ message.
      write_if (not (str_eq message.queue_name ""))
        (runtime.writer.tag 1 length_delimited then_write runtime.writer.string message.queue_name)
      then_write write_each
          (λ s. runtime.writer.tag 2 length_delimited then_write runtime.writer.string s)
          message.json_payloads
      then_write write_if (not (str_eq message.delay_seconds "0"))
          (runtime.writer.tag 3 varint then_write runtime.writer.int64 message.delay_seconds);
}

pub record SendBatchResponse : Type 0 where
  pub message_ids : List String

unfoldable pub send_batch_response_type : Runtime → MessageType SendBatchResponse
send_batch_response_type runtime = record {
  type_name = "pgapp.v1.SendBatchResponse";
  create = record { message_ids = [] };
  read_field = λ _ field_no wire_type message.
      if field_no == 1
      then (if is_length_delimited wire_type
          then some (
              assign_parsed (read_packed_int64 runtime message.message_ids)
                (λ v. record message { message_ids = v }))
          else some (
              assign runtime.reader.int64
                (λ v. record message { message_ids = message.message_ids ++ v ∷ [] })))
      else none;
  write_fields = λ _ message.
      write_if (not (is_empty message.message_ids)) (write_packed runtime 1 message.message_ids);
}
