-- ===== src/Proto/Mq/Queues.antt =====
-- Creating, emptying and dropping a queue.
-- Code: sdk/typescript/src/gen/pgapp/v1/mq.ts
pub mod RoundTrip
use text.Mathlib.Text.{◌==◌ as str_eq}
use pgapp.Common.{if◌then◌else◌, ◌==◌, String, not, none, some, ℤ, pos, is_zero}
use pgapp.Wire.{Runtime, MessageType, assign, write_if, ◌then_write◌, varint, length_delimited}

pub record CreateQueueRequest : Type 0 where
  pub queue_name : String
  pub storage_mode : ℤ

unfoldable pub create_queue_request_type : Runtime → MessageType CreateQueueRequest
create_queue_request_type runtime = record {
  type_name = "pgapp.v1.CreateQueueRequest";
  create = record { queue_name = ""; storage_mode = pos 0 };
  read_field = λ _ field_no _ message.
      if field_no == 1
      then some (assign runtime.reader.string (λ v. record message { queue_name = v }))
      else if field_no == 2
      then some (assign runtime.reader.int32 (λ v. record message { storage_mode = v }))
      else none;
  write_fields = λ _ message.
      write_if (not (str_eq message.queue_name ""))
        (runtime.writer.tag 1 length_delimited then_write runtime.writer.string message.queue_name)
      then_write write_if (not (is_zero message.storage_mode))
          (runtime.writer.tag 2 varint then_write runtime.writer.int32 message.storage_mode);
}

pub record PurgeQueueRequest : Type 0 where
  pub queue_name : String

unfoldable pub purge_queue_request_type : Runtime → MessageType PurgeQueueRequest
purge_queue_request_type runtime = record {
  type_name = "pgapp.v1.PurgeQueueRequest";
  create = record { queue_name = "" };
  read_field = λ _ field_no _ message.
      if field_no == 1
      then some (assign runtime.reader.string (λ v. record message { queue_name = v }))
      else none;
  write_fields = λ _ message.
      write_if (not (str_eq message.queue_name ""))
        (runtime.writer.tag 1 length_delimited then_write runtime.writer.string message.queue_name);
}

pub record DropQueueRequest : Type 0 where
  pub queue_name : String

unfoldable pub drop_queue_request_type : Runtime → MessageType DropQueueRequest
drop_queue_request_type runtime = record {
  type_name = "pgapp.v1.DropQueueRequest";
  create = record { queue_name = "" };
  read_field = λ _ field_no _ message.
      if field_no == 1
      then some (assign runtime.reader.string (λ v. record message { queue_name = v }))
      else none;
  write_fields = λ _ message.
      write_if (not (str_eq message.queue_name ""))
        (runtime.writer.tag 1 length_delimited then_write runtime.writer.string message.queue_name);
}

pub record QueueMetricsRequest : Type 0 where
  pub queue_name : String

unfoldable pub queue_metrics_request_type : Runtime → MessageType QueueMetricsRequest
queue_metrics_request_type runtime = record {
  type_name = "pgapp.v1.QueueMetricsRequest";
  create = record { queue_name = "" };
  read_field = λ _ field_no _ message.
      if field_no == 1
      then some (assign runtime.reader.string (λ v. record message { queue_name = v }))
      else none;
  write_fields = λ _ message.
      write_if (not (str_eq message.queue_name ""))
        (runtime.writer.tag 1 length_delimited then_write runtime.writer.string message.queue_name);
}

pub record QueueMetricsResponse : Type 0 where
  pub visible_message_count : String
  pub in_flight_message_count : String
  pub oldest_visible_message_age_seconds : String
  pub archived_message_count : String
  pub dlq_message_count : String

unfoldable pub queue_metrics_response_type : Runtime → MessageType QueueMetricsResponse
queue_metrics_response_type runtime = record {
  type_name = "pgapp.v1.QueueMetricsResponse";
  create = record {
    visible_message_count = "0";
    in_flight_message_count = "0";
    oldest_visible_message_age_seconds = "0";
    archived_message_count = "0";
    dlq_message_count = "0";
  };
  read_field = λ _ field_no _ message.
      if field_no == 1
      then some (assign runtime.reader.int64 (λ v. record message { visible_message_count = v }))
      else if field_no == 2
      then some (assign runtime.reader.int64 (λ v. record message { in_flight_message_count = v }))
      else if field_no == 3
      then some (
          assign runtime.reader.int64
            (λ v. record message { oldest_visible_message_age_seconds = v }))
      else if field_no == 4
      then some (assign runtime.reader.int64 (λ v. record message { archived_message_count = v }))
      else if field_no == 5
      then some (assign runtime.reader.int64 (λ v. record message { dlq_message_count = v }))
      else none;
  write_fields = λ _ message.
      write_if (not (str_eq message.visible_message_count "0"))
        (runtime.writer.tag 1 varint then_write runtime.writer.int64 message.visible_message_count)
      then_write write_if (not (str_eq message.in_flight_message_count "0")) (
          runtime.writer.tag 2 varint
          then_write runtime.writer.int64 message.in_flight_message_count)
      then_write write_if (not (str_eq message.oldest_visible_message_age_seconds "0")) (
          runtime.writer.tag 3 varint
          then_write runtime.writer.int64 message.oldest_visible_message_age_seconds)
      then_write write_if (not (str_eq message.archived_message_count "0")) (
          runtime.writer.tag 4 varint
          then_write runtime.writer.int64 message.archived_message_count)
      then_write write_if (not (str_eq message.dlq_message_count "0"))
          (runtime.writer.tag 5 varint then_write runtime.writer.int64 message.dlq_message_count);
}
