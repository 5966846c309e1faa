-- ===== src/Sdk/Cache.antt =====
-- `CacheClient`.
-- Code: sdk/typescript/src/index.ts. The generated `CacheServiceClient` is a record of unary calls. A
-- number is an integer, and what `Number` makes of a text that is no decimal is `none`. An argument
-- with a default is given; `default_delta` and `default_ttl` are the defaults.
pub mod Calls
pub mod Requests
use pgapp.Common.{
  ℕ, String, Bool, true, false, Option, none, some, List, map, ℤ, pos, if◌then◌else◌,
}
use pgapp.Common.Result.{Result, ok, ◌>>=◌}
use pgapp.Number.{to_string, number}
use pgapp.Wire.{Bytes, Message, plain}
use pgapp.Sdk.Client.{PgAppClient, Unary, rpc_options, wrap}
use pgapp.Sdk.Bytes.{Value, encode_bytes}
use pgapp.Proto.Cache.Entries.{
  DeleteCacheRequest, ExistsCacheRequest, ExistsCacheResponse, GetCacheRequest, GetCacheResponse,
  SetCacheRequest,
}
use pgapp.Proto.Common.{OperationResult}
use pgapp.Proto.Cache.Batches.{CacheItem, MgetCacheRequest, MgetCacheResponse}
use pgapp.Proto.Cache.Namespaces.{
  CacheStatsRequest, cache_stats_request, CacheStatsResponse, InvalidateNamespaceRequest,
}
use pgapp.Proto.Cache.Counters.{
  DecrementRequest, DecrementResponse, IncrementRequest, IncrementResponse,
}
use pgapp.Proto.Cache.Atomics.{
  AppendRequest, AppendResponse, GetSetRequest, GetSetResponse, PrependRequest, PrependResponse,
  SetNxRequest, SetNxResponse,
}

-- `CacheServiceClient`.
pub record CacheServiceClient : Type 0 where
  pub set : Unary SetCacheRequest OperationResult
  pub get : Unary GetCacheRequest GetCacheResponse
  pub m_get : Unary MgetCacheRequest MgetCacheResponse
  pub delete : Unary DeleteCacheRequest OperationResult
  pub exists : Unary ExistsCacheRequest ExistsCacheResponse
  pub invalidate_namespace : Unary InvalidateNamespaceRequest OperationResult
  pub stats : Unary CacheStatsRequest CacheStatsResponse
  pub increment : Unary IncrementRequest IncrementResponse
  pub decrement : Unary DecrementRequest DecrementResponse
  pub set_nx : Unary SetNxRequest SetNxResponse
  pub get_set : Unary GetSetRequest GetSetResponse
  pub append : Unary AppendRequest AppendResponse
  pub prepend : Unary PrependRequest PrependResponse

abbrev pub default_delta : ℤ
default_delta = pos 1

abbrev pub default_ttl : ℤ
default_ttl = pos 0

-- The message that `set` sends.
unfoldable pub set_request : String → String → Value → ℤ → SetCacheRequest
set_request namespace key value ttl_seconds = record {
  namespace = namespace;
  key = key;
  value = encode_bytes value;
  ttl_seconds = to_string ttl_seconds;
}

-- The message that `get` sends.
unfoldable pub get_request : String → String → GetCacheRequest
get_request namespace key = record { namespace = namespace; key = key }

-- The message that `mget` sends.
unfoldable pub mget_request : String → List String → MgetCacheRequest
mget_request namespace keys = record { namespace = namespace; keys = keys }

-- The message that `delete` sends.
unfoldable pub delete_request : String → String → DeleteCacheRequest
delete_request namespace key = record { namespace = namespace; key = key }

-- The message that `exists` sends.
unfoldable pub exists_request : String → String → ExistsCacheRequest
exists_request namespace key = record { namespace = namespace; key = key }

-- The message that `invalidate_namespace` sends.
unfoldable pub invalidate_namespace_request : String → InvalidateNamespaceRequest
invalidate_namespace_request namespace = record { namespace = namespace }

-- The message that `increment` sends.
unfoldable pub increment_request : String → String → ℤ → ℤ → IncrementRequest
increment_request namespace key delta ttl_seconds = record {
  namespace = namespace;
  key = key;
  delta = to_string delta;
  ttl_seconds = to_string ttl_seconds;
}

-- The message that `decrement` sends.
unfoldable pub decrement_request : String → String → ℤ → ℤ → DecrementRequest
decrement_request namespace key delta ttl_seconds = record {
  namespace = namespace;
  key = key;
  delta = to_string delta;
  ttl_seconds = to_string ttl_seconds;
}

-- The message that `set_nx` sends.
unfoldable pub set_nx_request : String → String → Value → ℤ → SetNxRequest
set_nx_request namespace key value ttl_seconds = record {
  namespace = namespace;
  key = key;
  value = encode_bytes value;
  ttl_seconds = to_string ttl_seconds;
}

-- The message that `get_set` sends.
unfoldable pub get_set_request : String → String → Value → ℤ → GetSetRequest
get_set_request namespace key value ttl_seconds = record {
  namespace = namespace;
  key = key;
  value = encode_bytes value;
  ttl_seconds = to_string ttl_seconds;
}

-- The message that `append` sends.
unfoldable pub append_request : String → String → Value → ℤ → AppendRequest
append_request namespace key value ttl_seconds = record {
  namespace = namespace;
  key = key;
  value = encode_bytes value;
  ttl_seconds = to_string ttl_seconds;
}

-- The message that `prepend` sends.
unfoldable pub prepend_request : String → String → Value → ℤ → PrependRequest
prepend_request namespace key value ttl_seconds = record {
  namespace = namespace;
  key = key;
  value = encode_bytes value;
  ttl_seconds = to_string ttl_seconds;
}

module _ (inner : CacheServiceClient) (client : PgAppClient) where
  unfoldable pub set : String → String → Value → ℤ → Result (Bool)
  unfolding set_request wrap
  set namespace key value ttl_seconds = wrap (do
    response ← inner.set (plain (set_request namespace key value ttl_seconds)) (rpc_options client)
    ok (response.body.success))

  unfoldable pub get : String → String → Result (Option Bytes)
  unfolding get_request wrap
  get namespace key = wrap (do
    response ← inner.get (plain (get_request namespace key)) (rpc_options client)
    ok (if response.body.hit then some response.body.value else none))

  unfoldable pub mget : String → List String → Result (List (Message CacheItem))
  unfolding mget_request wrap
  mget namespace keys = wrap (do
    response ← inner.m_get (plain (mget_request namespace keys)) (rpc_options client)
    ok (response.body.items))

  unfoldable pub delete : String → String → Result (Bool)
  unfolding delete_request wrap
  delete namespace key = wrap (do
    response ← inner.delete (plain (delete_request namespace key)) (rpc_options client)
    ok (response.body.success))

  unfoldable pub exists : String → String → Result (Bool)
  unfolding exists_request wrap
  exists namespace key = wrap (do
    response ← inner.exists (plain (exists_request namespace key)) (rpc_options client)
    ok (response.body.exists))

  unfoldable pub invalidate_namespace : String → Result (Bool)
  unfolding invalidate_namespace_request wrap
  invalidate_namespace namespace = wrap (do
    response ←
        inner.invalidate_namespace (plain (invalidate_namespace_request namespace))
          (rpc_options client)
    ok (response.body.success))

  unfoldable pub stats : Result (Message CacheStatsResponse)
  unfolding wrap
  stats =
      wrap
        (do response ← inner.stats (plain cache_stats_request) (rpc_options client); ok (response))

  unfoldable pub increment : String → String → ℤ → ℤ → Result (Option ℤ)
  unfolding increment_request wrap
  increment namespace key delta ttl_seconds = wrap (do
    response ←
        inner.increment (plain (increment_request namespace key delta ttl_seconds))
          (rpc_options client)
    ok (number response.body.value))

  unfoldable pub decrement : String → String → ℤ → ℤ → Result (Option ℤ)
  unfolding decrement_request wrap
  decrement namespace key delta ttl_seconds = wrap (do
    response ←
        inner.decrement (plain (decrement_request namespace key delta ttl_seconds))
          (rpc_options client)
    ok (number response.body.value))

  unfoldable pub set_nx : String → String → Value → ℤ → Result (Bool)
  unfolding set_nx_request wrap
  set_nx namespace key value ttl_seconds = wrap (do
    response ←
        inner.set_nx (plain (set_nx_request namespace key value ttl_seconds)) (rpc_options client)
    ok (response.body.created))

  unfoldable pub get_set : String → String → Value → ℤ → Result (Option Bytes)
  unfolding get_set_request wrap
  get_set namespace key value ttl_seconds = wrap (do
    response ←
        inner.get_set (plain (get_set_request namespace key value ttl_seconds)) (rpc_options client)
    ok (if response.body.hit then some response.body.old_value else none))

  unfoldable pub append : String → String → Value → ℤ → Result (Option ℤ)
  unfolding append_request wrap
  append namespace key value ttl_seconds = wrap (do
    response ←
        inner.append (plain (append_request namespace key value ttl_seconds)) (rpc_options client)
    ok (number response.body.length))

  unfoldable pub prepend : String → String → Value → ℤ → Result (Option ℤ)
  unfolding prepend_request wrap
  prepend namespace key value ttl_seconds = wrap (do
    response ←
        inner.prepend (plain (prepend_request namespace key value ttl_seconds)) (rpc_options client)
    ok (number response.body.length))
