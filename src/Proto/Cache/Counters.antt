-- ===== src/Proto/Cache/Counters.antt =====
-- Counters.
-- Code: sdk/typescript/src/gen/pgapp/v1/cache.ts
pub mod RoundTrip
use text.Mathlib.Text.{◌==◌ as str_eq}
use pgapp.Common.{if◌then◌else◌, ◌==◌, String, not, none, some}
use pgapp.Wire.{Runtime, MessageType, assign, write_if, ◌then_write◌, varint, length_delimited}

pub record IncrementRequest : Type 0 where
  pub namespace : String
  pub key : String
  pub delta : String
  pub ttl_seconds : String

unfoldable pub increment_request_type : Runtime → MessageType IncrementRequest
increment_request_type runtime = record {
  type_name = "pgapp.v1.IncrementRequest";
  create = record { namespace = ""; key = ""; delta = "0"; ttl_seconds = "0" };
  read_field = λ _ field_no _ message.
      if field_no == 1
      then some (assign runtime.reader.string (λ v. record message { namespace = v }))
      else if field_no == 2
      then some (assign runtime.reader.string (λ v. record message { key = v }))
      else if field_no == 3
      then some (assign runtime.reader.int64 (λ v. record message { delta = v }))
      else if field_no == 4
      then some (assign runtime.reader.int64 (λ v. record message { ttl_seconds = v }))
      else none;
  write_fields = λ _ message.
      write_if (not (str_eq message.namespace ""))
        (runtime.writer.tag 1 length_delimited then_write runtime.writer.string message.namespace)
      then_write write_if (not (str_eq message.key ""))
          (runtime.writer.tag 2 length_delimited then_write runtime.writer.string message.key)
      then_write write_if (not (str_eq message.delta "0"))
          (runtime.writer.tag 3 varint then_write runtime.writer.int64 message.delta)
      then_write write_if (not (str_eq message.ttl_seconds "0"))
          (runtime.writer.tag 4 varint then_write runtime.writer.int64 message.ttl_seconds);
}

pub record IncrementResponse : Type 0 where
  pub value : String

unfoldable pub increment_response_type : Runtime → MessageType IncrementResponse
increment_response_type runtime = record {
  type_name = "pgapp.v1.IncrementResponse";
  create = record { value = "0" };
  read_field = λ _ field_no _ message.
      if field_no == 1
      then some (assign runtime.reader.int64 (λ v. record message { value = v }))
      else none;
  write_fields = λ _ message.
      write_if (not (str_eq message.value "0"))
        (runtime.writer.tag 1 varint then_write runtime.writer.int64 message.value);
}

pub record DecrementRequest : Type 0 where
  pub namespace : String
  pub key : String
  pub delta : String
  pub ttl_seconds : String

unfoldable pub decrement_request_type : Runtime → MessageType DecrementRequest
decrement_request_type runtime = record {
  type_name = "pgapp.v1.DecrementRequest";
  create = record { namespace = ""; key = ""; delta = "0"; ttl_seconds = "0" };
  read_field = λ _ field_no _ message.
      if field_no == 1
      then some (assign runtime.reader.string (λ v. record message { namespace = v }))
      else if field_no == 2
      then some (assign runtime.reader.string (λ v. record message { key = v }))
      else if field_no == 3
      then some (assign runtime.reader.int64 (λ v. record message { delta = v }))
      else if field_no == 4
      then some (assign runtime.reader.int64 (λ v. record message { ttl_seconds = v }))
      else none;
  write_fields = λ _ message.
      write_if (not (str_eq message.namespace ""))
        (runtime.writer.tag 1 length_delimited then_write runtime.writer.string message.namespace)
      then_write write_if (not (str_eq message.key ""))
          (runtime.writer.tag 2 length_delimited then_write runtime.writer.string message.key)
      then_write write_if (not (str_eq message.delta "0"))
          (runtime.writer.tag 3 varint then_write runtime.writer.int64 message.delta)
      then_write write_if (not (str_eq message.ttl_seconds "0"))
          (runtime.writer.tag 4 varint then_write runtime.writer.int64 message.ttl_seconds);
}

pub record DecrementResponse : Type 0 where
  pub value : String

unfoldable pub decrement_response_type : Runtime → MessageType DecrementResponse
decrement_response_type runtime = record {
  type_name = "pgapp.v1.DecrementResponse";
  create = record { value = "0" };
  read_field = λ _ field_no _ message.
      if field_no == 1
      then some (assign runtime.reader.int64 (λ v. record message { value = v }))
      else none;
  write_fields = λ _ message.
      write_if (not (str_eq message.value "0"))
        (runtime.writer.tag 1 varint then_write runtime.writer.int64 message.value);
}
