-- ===== src/Proto/Cache/Entries.antt =====
-- Reading, writing and deleting a cache entry.
-- Code: sdk/typescript/src/gen/pgapp/v1/cache.ts
pub mod RoundTrip
use text.Mathlib.Text.{◌==◌ as str_eq}
use pgapp.Common.{if◌then◌else◌, ◌==◌, String, Bool, false, not, none, some, [], is_empty}
use pgapp.Wire.{
  Bytes, Runtime, MessageType, assign, write_if, ◌then_write◌, varint, length_delimited,
}

pub record SetCacheRequest : Type 0 where
  pub namespace : String
  pub key : String
  pub value : Bytes
  pub ttl_seconds : String

unfoldable pub set_cache_request_type : Runtime → MessageType SetCacheRequest
set_cache_request_type runtime = record {
  type_name = "pgapp.v1.SetCacheRequest";
  create = record { namespace = ""; key = ""; value = []; ttl_seconds = "0" };
  read_field = λ _ field_no _ message.
      if field_no == 1
      then some (assign runtime.reader.string (λ v. record message { namespace = v }))
      else if field_no == 2
      then some (assign runtime.reader.string (λ v. record message { key = v }))
      else if field_no == 3
      then some (assign runtime.reader.bytes (λ v. record message { value = v }))
      else if field_no == 4
      then some (assign runtime.reader.int64 (λ v. record message { ttl_seconds = v }))
      else none;
  write_fields = λ _ message.
      write_if (not (str_eq message.namespace ""))
        (runtime.writer.tag 1 length_delimited then_write runtime.writer.string message.namespace)
      then_write write_if (not (str_eq message.key ""))
          (runtime.writer.tag 2 length_delimited then_write runtime.writer.string message.key)
      then_write write_if (not (is_empty message.value))
          (runtime.writer.tag 3 length_delimited then_write runtime.writer.bytes message.value)
      then_write write_if (not (str_eq message.ttl_seconds "0"))
          (runtime.writer.tag 4 varint then_write runtime.writer.int64 message.ttl_seconds);
}

pub record GetCacheRequest : Type 0 where
  pub namespace : String
  pub key : String

unfoldable pub get_cache_request_type : Runtime → MessageType GetCacheRequest
get_cache_request_type runtime = record {
  type_name = "pgapp.v1.GetCacheRequest";
  create = record { namespace = ""; key = "" };
  read_field = λ _ field_no _ message.
      if field_no == 1
      then some (assign runtime.reader.string (λ v. record message { namespace = v }))
      else if field_no == 2
      then some (assign runtime.reader.string (λ v. record message { key = v }))
      else none;
  write_fields = λ _ message.
      write_if (not (str_eq message.namespace ""))
        (runtime.writer.tag 1 length_delimited then_write runtime.writer.string message.namespace)
      then_write write_if (not (str_eq message.key ""))
          (runtime.writer.tag 2 length_delimited then_write runtime.writer.string message.key);
}

pub record GetCacheResponse : Type 0 where
  pub hit : Bool
  pub value : Bytes

unfoldable pub get_cache_response_type : Runtime → MessageType GetCacheResponse
get_cache_response_type runtime = record {
  type_name = "pgapp.v1.GetCacheResponse";
  create = record { hit = false; value = [] };
  read_field = λ _ field_no _ message.
      if field_no == 1
      then some (assign runtime.reader.bool (λ v. record message { hit = v }))
      else if field_no == 2
      then some (assign runtime.reader.bytes (λ v. record message { value = v }))
      else none;
  write_fields = λ _ message.
      write_if message.hit (runtime.writer.tag 1 varint then_write runtime.writer.bool message.hit)
      then_write write_if (not (is_empty message.value))
          (runtime.writer.tag 2 length_delimited then_write runtime.writer.bytes message.value);
}

pub record DeleteCacheRequest : Type 0 where
  pub namespace : String
  pub key : String

unfoldable pub delete_cache_request_type : Runtime → MessageType DeleteCacheRequest
delete_cache_request_type runtime = record {
  type_name = "pgapp.v1.DeleteCacheRequest";
  create = record { namespace = ""; key = "" };
  read_field = λ _ field_no _ message.
      if field_no == 1
      then some (assign runtime.reader.string (λ v. record message { namespace = v }))
      else if field_no == 2
      then some (assign runtime.reader.string (λ v. record message { key = v }))
      else none;
  write_fields = λ _ message.
      write_if (not (str_eq message.namespace ""))
        (runtime.writer.tag 1 length_delimited then_write runtime.writer.string message.namespace)
      then_write write_if (not (str_eq message.key ""))
          (runtime.writer.tag 2 length_delimited then_write runtime.writer.string message.key);
}

pub record ExistsCacheRequest : Type 0 where
  pub namespace : String
  pub key : String

unfoldable pub exists_cache_request_type : Runtime → MessageType ExistsCacheRequest
exists_cache_request_type runtime = record {
  type_name = "pgapp.v1.ExistsCacheRequest";
  create = record { namespace = ""; key = "" };
  read_field = λ _ field_no _ message.
      if field_no == 1
      then some (assign runtime.reader.string (λ v. record message { namespace = v }))
      else if field_no == 2
      then some (assign runtime.reader.string (λ v. record message { key = v }))
      else none;
  write_fields = λ _ message.
      write_if (not (str_eq message.namespace ""))
        (runtime.writer.tag 1 length_delimited then_write runtime.writer.string message.namespace)
      then_write write_if (not (str_eq message.key ""))
          (runtime.writer.tag 2 length_delimited then_write runtime.writer.string message.key);
}

pub record ExistsCacheResponse : Type 0 where
  pub exists : Bool

unfoldable pub exists_cache_response_type : Runtime → MessageType ExistsCacheResponse
exists_cache_response_type runtime = record {
  type_name = "pgapp.v1.ExistsCacheResponse";
  create = record { exists = false };
  read_field = λ _ field_no _ message.
      if field_no == 1
      then some (assign runtime.reader.bool (λ v. record message { exists = v }))
      else none;
  write_fields = λ _ message.
      write_if message.exists
        (runtime.writer.tag 1 varint then_write runtime.writer.bool message.exists);
}
