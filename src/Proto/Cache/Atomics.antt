-- ===== src/Proto/Cache/Atomics.antt =====
-- Conditional and in-place writes.
-- Code: sdk/typescript/src/gen/pgapp/v1/cache.ts
pub mod RoundTrip
use text.Mathlib.Text.{◌==◌ as str_eq}
use pgapp.Common.{if◌then◌else◌, ◌==◌, String, Bool, false, not, none, some, [], is_empty}
use pgapp.Wire.{
  Bytes, Runtime, MessageType, assign, write_if, ◌then_write◌, varint, length_delimited,
}

pub record SetNxRequest : Type 0 where
  pub namespace : String
  pub key : String
  pub value : Bytes
  pub ttl_seconds : String

unfoldable pub set_nx_request_type : Runtime → MessageType SetNxRequest
set_nx_request_type runtime = record {
  type_name = "pgapp.v1.SetNXRequest";
  create = record { namespace = ""; key = ""; value = []; ttl_seconds = "0" };
  read_field = λ _ field_no _ message.
      if field_no == 1
      then some (assign runtime.reader.string (λ v. record message { namespace = v }))
      else if field_no == 2
      then some (assign runtime.reader.string (λ v. record message { key = v }))
      else if field_no == 3
      then some (assign runtime.reader.bytes (λ v. record message { value = v }))
      else if field_no == 4
      then some (assign runtime.reader.int64 (λ v. record message { ttl_seconds = v }))
      else none;
  write_fields = λ _ message.
      write_if (not (str_eq message.namespace ""))
        (runtime.writer.tag 1 length_delimited then_write runtime.writer.string message.namespace)
      then_write write_if (not (str_eq message.key ""))
          (runtime.writer.tag 2 length_delimited then_write runtime.writer.string message.key)
      then_write write_if (not (is_empty message.value))
          (runtime.writer.tag 3 length_delimited then_write runtime.writer.bytes message.value)
      then_write write_if (not (str_eq message.ttl_seconds "0"))
          (runtime.writer.tag 4 varint then_write runtime.writer.int64 message.ttl_seconds);
}

pub record SetNxResponse : Type 0 where
  pub created : Bool

unfoldable pub set_nx_response_type : Runtime → MessageType SetNxResponse
set_nx_response_type runtime = record {
  type_name = "pgapp.v1.SetNXResponse";
  create = record { created = false };
  read_field = λ _ field_no _ message.
      if field_no == 1
      then some (assign runtime.reader.bool (λ v. record message { created = v }))
      else none;
  write_fields = λ _ message.
      write_if message.created
        (runtime.writer.tag 1 varint then_write runtime.writer.bool message.created);
}

pub record GetSetRequest : Type 0 where
  pub namespace : String
  pub key : String
  pub value : Bytes
  pub ttl_seconds : String

unfoldable pub get_set_request_type : Runtime → MessageType GetSetRequest
get_set_request_type runtime = record {
  type_name = "pgapp.v1.GetSetRequest";
  create = record { namespace = ""; key = ""; value = []; ttl_seconds = "0" };
  read_field = λ _ field_no _ message.
      if field_no == 1
      then some (assign runtime.reader.string (λ v. record message { namespace = v }))
      else if field_no == 2
      then some (assign runtime.reader.string (λ v. record message { key = v }))
      else if field_no == 3
      then some (assign runtime.reader.bytes (λ v. record message { value = v }))
      else if field_no == 4
      then some (assign runtime.reader.int64 (λ v. record message { ttl_seconds = v }))
      else none;
  write_fields = λ _ message.
      write_if (not (str_eq message.namespace ""))
        (runtime.writer.tag 1 length_delimited then_write runtime.writer.string message.namespace)
      then_write write_if (not (str_eq message.key ""))
          (runtime.writer.tag 2 length_delimited then_write runtime.writer.string message.key)
      then_write write_if (not (is_empty message.value))
          (runtime.writer.tag 3 length_delimited then_write runtime.writer.bytes message.value)
      then_write write_if (not (str_eq message.ttl_seconds "0"))
          (runtime.writer.tag 4 varint then_write runtime.writer.int64 message.ttl_seconds);
}

pub record GetSetResponse : Type 0 where
  pub hit : Bool
  pub old_value : Bytes

unfoldable pub get_set_response_type : Runtime → MessageType GetSetResponse
get_set_response_type runtime = record {
  type_name = "pgapp.v1.GetSetResponse";
  create = record { hit = false; old_value = [] };
  read_field = λ _ field_no _ message.
      if field_no == 1
      then some (assign runtime.reader.bool (λ v. record message { hit = v }))
      else if field_no == 2
      then some (assign runtime.reader.bytes (λ v. record message { old_value = v }))
      else none;
  write_fields = λ _ message.
      write_if message.hit (runtime.writer.tag 1 varint then_write runtime.writer.bool message.hit)
      then_write write_if (not (is_empty message.old_value))
          (runtime.writer.tag 2 length_delimited then_write runtime.writer.bytes message.old_value);
}

pub record AppendRequest : Type 0 where
  pub namespace : String
  pub key : String
  pub value : Bytes
  pub ttl_seconds : String

unfoldable pub append_request_type : Runtime → MessageType AppendRequest
append_request_type runtime = record {
  type_name = "pgapp.v1.AppendRequest";
  create = record { namespace = ""; key = ""; value = []; ttl_seconds = "0" };
  read_field = λ _ field_no _ message.
      if field_no == 1
      then some (assign runtime.reader.string (λ v. record message { namespace = v }))
      else if field_no == 2
      then some (assign runtime.reader.string (λ v. record message { key = v }))
      else if field_no == 3
      then some (assign runtime.reader.bytes (λ v. record message { value = v }))
      else if field_no == 4
      then some (assign runtime.reader.int64 (λ v. record message { ttl_seconds = v }))
      else none;
  write_fields = λ _ message.
      write_if (not (str_eq message.namespace ""))
        (runtime.writer.tag 1 length_delimited then_write runtime.writer.string message.namespace)
      then_write write_if (not (str_eq message.key ""))
          (runtime.writer.tag 2 length_delimited then_write runtime.writer.string message.key)
      then_write write_if (not (is_empty message.value))
          (runtime.writer.tag 3 length_delimited then_write runtime.writer.bytes message.value)
      then_write write_if (not (str_eq message.ttl_seconds "0"))
          (runtime.writer.tag 4 varint then_write runtime.writer.int64 message.ttl_seconds);
}

pub record AppendResponse : Type 0 where
  pub length : String

unfoldable pub append_response_type : Runtime → MessageType AppendResponse
append_response_type runtime = record {
  type_name = "pgapp.v1.AppendResponse";
  create = record { length = "0" };
  read_field = λ _ field_no _ message.
      if field_no == 1
      then some (assign runtime.reader.int64 (λ v. record message { length = v }))
      else none;
  write_fields = λ _ message.
      write_if (not (str_eq message.length "0"))
        (runtime.writer.tag 1 varint then_write runtime.writer.int64 message.length);
}

pub record PrependRequest : Type 0 where
  pub namespace : String
  pub key : String
  pub value : Bytes
  pub ttl_seconds : String

unfoldable pub prepend_request_type : Runtime → MessageType PrependRequest
prepend_request_type runtime = record {
  type_name = "pgapp.v1.PrependRequest";
  create = record { namespace = ""; key = ""; value = []; ttl_seconds = "0" };
  read_field = λ _ field_no _ message.
      if field_no == 1
      then some (assign runtime.reader.string (λ v. record message { namespace = v }))
      else if field_no == 2
      then some (assign runtime.reader.string (λ v. record message { key = v }))
      else if field_no == 3
      then some (assign runtime.reader.bytes (λ v. record message { value = v }))
      else if field_no == 4
      then some (assign runtime.reader.int64 (λ v. record message { ttl_seconds = v }))
      else none;
  write_fields = λ _ message.
      write_if (not (str_eq message.namespace ""))
        (runtime.writer.tag 1 length_delimited then_write runtime.writer.string message.namespace)
      then_write write_if (not (str_eq message.key ""))
          (runtime.writer.tag 2 length_delimited then_write runtime.writer.string message.key)
      then_write write_if (not (is_empty message.value))
          (runtime.writer.tag 3 length_delimited then_write runtime.writer.bytes message.value)
      then_write write_if (not (str_eq message.ttl_seconds "0"))
          (runtime.writer.tag 4 varint then_write runtime.writer.int64 message.ttl_seconds);
}

pub record PrependResponse : Type 0 where
  pub length : String

unfoldable pub prepend_response_type : Runtime → MessageType PrependResponse
prepend_response_type runtime = record {
  type_name = "pgapp.v1.PrependResponse";
  create = record { length = "0" };
  read_field = λ _ field_no _ message.
      if field_no == 1
      then some (assign runtime.reader.int64 (λ v. record message { length = v }))
      else none;
  write_fields = λ _ message.
      write_if (not (str_eq message.length "0"))
        (runtime.writer.tag 1 varint then_write runtime.writer.int64 message.length);
}
