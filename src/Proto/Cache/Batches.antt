-- ===== src/Proto/Cache/Batches.antt =====
-- Reading many entries at once.
-- Code: sdk/typescript/src/gen/pgapp/v1/cache.ts
pub mod RoundTrip
use text.Mathlib.Text.{◌==◌ as str_eq}
use pgapp.Common.{
  if◌then◌else◌, ◌==◌, ◌++◌, String, Bool, false, not, none, some, List, [], ◌∷◌, is_empty,
}
use pgapp.Wire.{
  Bytes, Runtime, MessageType, Message, assign, assign_parsed, write_if, write_each, ◌then_write◌,
  varint, length_delimited, write_nested, read_nested,
}

pub record MgetCacheRequest : Type 0 where
  pub namespace : String
  pub keys : List String

unfoldable pub mget_cache_request_type : Runtime → MessageType MgetCacheRequest
mget_cache_request_type runtime = record {
  type_name = "pgapp.v1.MGetCacheRequest";
  create = record { namespace = ""; keys = [] };
  read_field = λ _ field_no _ message.
      if field_no == 1
      then some (assign runtime.reader.string (λ v. record message { namespace = v }))
      else if field_no == 2
      then some
          (assign runtime.reader.string (λ v. record message { keys = message.keys ++ v ∷ [] }))
      else none;
  write_fields = λ _ message.
      write_if (not (str_eq message.namespace ""))
        (runtime.writer.tag 1 length_delimited then_write runtime.writer.string message.namespace)
      then_write write_each
          (λ s. runtime.writer.tag 2 length_delimited then_write runtime.writer.string s)
          message.keys;
}

pub record CacheItem : Type 0 where
  pub key : String
  pub hit : Bool
  pub value : Bytes

unfoldable pub cache_item_type : Runtime → MessageType CacheItem
cache_item_type runtime = record {
  type_name = "pgapp.v1.CacheItem";
  create = record { key = ""; hit = false; value = [] };
  read_field = λ _ field_no _ message.
      if field_no == 1
      then some (assign runtime.reader.string (λ v. record message { key = v }))
      else if field_no == 2
      then some (assign runtime.reader.bool (λ v. record message { hit = v }))
      else if field_no == 3
      then some (assign runtime.reader.bytes (λ v. record message { value = v }))
      else none;
  write_fields = λ _ message.
      write_if (not (str_eq message.key ""))
        (runtime.writer.tag 1 length_delimited then_write runtime.writer.string message.key)
      then_write write_if message.hit
          (runtime.writer.tag 2 varint then_write runtime.writer.bool message.hit)
      then_write write_if (not (is_empty message.value))
          (runtime.writer.tag 3 length_delimited then_write runtime.writer.bytes message.value);
}

pub record MgetCacheResponse : Type 0 where
  pub items : List (Message CacheItem)

unfoldable pub mget_cache_response_type : Runtime → MessageType MgetCacheResponse
mget_cache_response_type runtime = record {
  type_name = "pgapp.v1.MGetCacheResponse";
  create = record { items = [] };
  read_field = λ policy field_no _ message.
      if field_no == 1
      then some (
          assign_parsed (read_nested runtime (cache_item_type runtime) policy none)
            (λ v. record message { items = message.items ++ v ∷ [] }))
      else none;
  write_fields = λ unknown_too message.
      write_each (write_nested runtime (cache_item_type runtime) unknown_too 1) message.items;
}
