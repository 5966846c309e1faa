-- ===== src/Proto/Cache/Namespaces.antt =====
-- Whole namespaces and the statistics.
-- Code: sdk/typescript/src/gen/pgapp/v1/cache.ts
pub mod RoundTrip
use text.Mathlib.Text.{◌==◌ as str_eq}
use pgapp.Common.{if◌then◌else◌, ◌==◌, ◌++◌, String, not, none, some, List, [], ◌∷◌}
use pgapp.Common.Result.{ok}
use pgapp.Wire.{
  Runtime, MessageType, Message, assign, assign_parsed, write_if, write_each, ◌then_write◌, varint,
  length_delimited, write_nested, read_nested,
}

pub record InvalidateNamespaceRequest : Type 0 where
  pub namespace : String

unfoldable pub invalidate_namespace_request_type : Runtime → MessageType InvalidateNamespaceRequest
invalidate_namespace_request_type runtime = record {
  type_name = "pgapp.v1.InvalidateNamespaceRequest";
  create = record { namespace = "" };
  read_field = λ _ field_no _ message.
      if field_no == 1
      then some (assign runtime.reader.string (λ v. record message { namespace = v }))
      else none;
  write_fields = λ _ message.
      write_if (not (str_eq message.namespace ""))
        (runtime.writer.tag 1 length_delimited then_write runtime.writer.string message.namespace);
}

-- An interface with no field.
pub data CacheStatsRequest : Type 0 where
  cache_stats_request : CacheStatsRequest

unfoldable pub cache_stats_request_type : Runtime → MessageType CacheStatsRequest
cache_stats_request_type runtime = record {
  type_name = "pgapp.v1.CacheStatsRequest";
  create = cache_stats_request;
  read_field = λ _ _ _ _. none;
  write_fields = λ _ _. ok [];
}

pub record NamespaceUsage : Type 0 where
  pub namespace : String
  pub key_count : String
  pub byte_size : String

unfoldable pub namespace_usage_type : Runtime → MessageType NamespaceUsage
namespace_usage_type runtime = record {
  type_name = "pgapp.v1.NamespaceUsage";
  create = record { namespace = ""; key_count = "0"; byte_size = "0" };
  read_field = λ _ field_no _ message.
      if field_no == 1
      then some (assign runtime.reader.string (λ v. record message { namespace = v }))
      else if field_no == 2
      then some (assign runtime.reader.int64 (λ v. record message { key_count = v }))
      else if field_no == 3
      then some (assign runtime.reader.int64 (λ v. record message { byte_size = v }))
      else none;
  write_fields = λ _ message.
      write_if (not (str_eq message.namespace ""))
        (runtime.writer.tag 1 length_delimited then_write runtime.writer.string message.namespace)
      then_write write_if (not (str_eq message.key_count "0"))
          (runtime.writer.tag 2 varint then_write runtime.writer.int64 message.key_count)
      then_write write_if (not (str_eq message.byte_size "0"))
          (runtime.writer.tag 3 varint then_write runtime.writer.int64 message.byte_size);
}

pub record CacheStatsResponse : Type 0 where
  pub hits : String
  pub misses : String
  pub writes : String
  pub deletes : String
  pub evictions : String
  pub expired_removals : String
  pub logical_key_count : String
  pub logical_byte_size : String
  pub namespace_usage : List (Message NamespaceUsage)

unfoldable pub cache_stats_response_type : Runtime → MessageType CacheStatsResponse
cache_stats_response_type runtime = record {
  type_name = "pgapp.v1.CacheStatsResponse";
  create = record {
    hits = "0";
    misses = "0";
    writes = "0";
    deletes = "0";
    evictions = "0";
    expired_removals = "0";
    logical_key_count = "0";
    logical_byte_size = "0";
    namespace_usage = [];
  };
  read_field = λ policy field_no _ message.
      if field_no == 1
      then some (assign runtime.reader.int64 (λ v. record message { hits = v }))
      else if field_no == 2
      then some (assign runtime.reader.int64 (λ v. record message { misses = v }))
      else if field_no == 3
      then some (assign runtime.reader.int64 (λ v. record message { writes = v }))
      else if field_no == 4
      then some (assign runtime.reader.int64 (λ v. record message { deletes = v }))
      else if field_no == 5
      then some (assign runtime.reader.int64 (λ v. record message { evictions = v }))
      else if field_no == 6
      then some (assign runtime.reader.int64 (λ v. record message { expired_removals = v }))
      else if field_no == 7
      then some (assign runtime.reader.int64 (λ v. record message { logical_key_count = v }))
      else if field_no == 8
      then some (assign runtime.reader.int64 (λ v. record message { logical_byte_size = v }))
      else if field_no == 9
      then some (
          assign_parsed (read_nested runtime (namespace_usage_type runtime) policy none)
            (λ v. record message { namespace_usage = message.namespace_usage ++ v ∷ [] }))
      else none;
  write_fields = λ unknown_too message.
      write_if (not (str_eq message.hits "0"))
        (runtime.writer.tag 1 varint then_write runtime.writer.int64 message.hits)
      then_write write_if (not (str_eq message.misses "0"))
          (runtime.writer.tag 2 varint then_write runtime.writer.int64 message.misses)
      then_write write_if (not (str_eq message.writes "0"))
          (runtime.writer.tag 3 varint then_write runtime.writer.int64 message.writes)
      then_write write_if (not (str_eq message.deletes "0"))
          (runtime.writer.tag 4 varint then_write runtime.writer.int64 message.deletes)
      then_write write_if (not (str_eq message.evictions "0"))
          (runtime.writer.tag 5 varint then_write runtime.writer.int64 message.evictions)
      then_write write_if (not (str_eq message.expired_removals "0"))
          (runtime.writer.tag 6 varint then_write runtime.writer.int64 message.expired_removals)
      then_write write_if (not (str_eq message.logical_key_count "0"))
          (runtime.writer.tag 7 varint then_write runtime.writer.int64 message.logical_key_count)
      then_write write_if (not (str_eq message.logical_byte_size "0"))
          (runtime.writer.tag 8 varint then_write runtime.writer.int64 message.logical_byte_size)
      then_write write_each (write_nested runtime (namespace_usage_type runtime) unknown_too 9)
          message.namespace_usage;
}
