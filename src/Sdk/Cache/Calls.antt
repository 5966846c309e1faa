-- ===== src/Sdk/Cache/Calls.antt =====
-- The calls of `CacheClient` and what they throw.
-- Code: sdk/typescript/src/index.ts
use mathlib.Core.Option
use pgapp.Common.{◌≡◌, String, Option, List, ℤ}
use pgapp.Common.Result.{Thrown}
use pgapp.Wire.{plain}
use pgapp.Sdk.Client.{PgAppClient, from, rpc_options}
use pgapp.Sdk.Client.Laws.{thrown, thrown-wrap}
use pgapp.Sdk.Bytes.{Value}
use pgapp.Proto.Cache.Namespaces.{cache_stats_request}
use pgapp.Sdk.Cache.{
  CacheServiceClient, set, get, mget, delete, exists, invalidate_namespace, stats, increment,
  decrement, set_nx, get_set, append, prepend, set_request, get_request, mget_request,
  delete_request, exists_request, invalidate_namespace_request, increment_request,
  decrement_request, set_nx_request, get_set_request, append_request, prepend_request,
}

-- A call of the client, with its arguments.
pub data CacheCall : Type 0 where
  call_set : String → String → Value → ℤ → CacheCall
  call_get : String → String → CacheCall
  call_mget : String → List String → CacheCall
  call_delete : String → String → CacheCall
  call_exists : String → String → CacheCall
  call_invalidate_namespace : String → CacheCall
  call_stats : CacheCall
  call_increment : String → String → ℤ → ℤ → CacheCall
  call_decrement : String → String → ℤ → ℤ → CacheCall
  call_set_nx : String → String → Value → ℤ → CacheCall
  call_get_set : String → String → Value → ℤ → CacheCall
  call_append : String → String → Value → ℤ → CacheCall
  call_prepend : String → String → Value → ℤ → CacheCall

-- What the caller is thrown.
abbrev pub caller_error : CacheServiceClient → PgAppClient → CacheCall → Option Thrown
caller_error inner client (call_set namespace key value ttl_seconds) =
    thrown (set inner client namespace key value ttl_seconds)
caller_error inner client (call_get namespace key) = thrown (get inner client namespace key)
caller_error inner client (call_mget namespace keys) = thrown (mget inner client namespace keys)
caller_error inner client (call_delete namespace key) = thrown (delete inner client namespace key)
caller_error inner client (call_exists namespace key) = thrown (exists inner client namespace key)
caller_error inner client (call_invalidate_namespace namespace) =
    thrown (invalidate_namespace inner client namespace)
caller_error inner client call_stats = thrown (stats inner client)
caller_error inner client (call_increment namespace key delta ttl_seconds) =
    thrown (increment inner client namespace key delta ttl_seconds)
caller_error inner client (call_decrement namespace key delta ttl_seconds) =
    thrown (decrement inner client namespace key delta ttl_seconds)
caller_error inner client (call_set_nx namespace key value ttl_seconds) =
    thrown (set_nx inner client namespace key value ttl_seconds)
caller_error inner client (call_get_set namespace key value ttl_seconds) =
    thrown (get_set inner client namespace key value ttl_seconds)
caller_error inner client (call_append namespace key value ttl_seconds) =
    thrown (append inner client namespace key value ttl_seconds)
caller_error inner client (call_prepend namespace key value ttl_seconds) =
    thrown (prepend inner client namespace key value ttl_seconds)

-- What the generated client throws for the request that stands for the call.
abbrev pub service_error : CacheServiceClient → PgAppClient → CacheCall → Option Thrown
service_error inner client (call_set namespace key value ttl_seconds) =
    thrown (inner.set (plain (set_request namespace key value ttl_seconds)) (rpc_options client))
service_error inner client (call_get namespace key) =
    thrown (inner.get (plain (get_request namespace key)) (rpc_options client))
service_error inner client (call_mget namespace keys) =
    thrown (inner.m_get (plain (mget_request namespace keys)) (rpc_options client))
service_error inner client (call_delete namespace key) =
    thrown (inner.delete (plain (delete_request namespace key)) (rpc_options client))
service_error inner client (call_exists namespace key) =
    thrown (inner.exists (plain (exists_request namespace key)) (rpc_options client))
service_error inner client (call_invalidate_namespace namespace) = thrown (
    inner.invalidate_namespace (plain (invalidate_namespace_request namespace))
      (rpc_options client))
service_error inner client call_stats =
    thrown (inner.stats (plain cache_stats_request) (rpc_options client))
service_error inner client (call_increment namespace key delta ttl_seconds) = thrown (
    inner.increment (plain (increment_request namespace key delta ttl_seconds))
      (rpc_options client))
service_error inner client (call_decrement namespace key delta ttl_seconds) = thrown (
    inner.decrement (plain (decrement_request namespace key delta ttl_seconds))
      (rpc_options client))
service_error inner client (call_set_nx namespace key value ttl_seconds) =
    thrown
      (inner.set_nx (plain (set_nx_request namespace key value ttl_seconds)) (rpc_options client))
service_error inner client (call_get_set namespace key value ttl_seconds) =
    thrown
      (inner.get_set (plain (get_set_request namespace key value ttl_seconds)) (rpc_options client))
service_error inner client (call_append namespace key value ttl_seconds) =
    thrown
      (inner.append (plain (append_request namespace key value ttl_seconds)) (rpc_options client))
service_error inner client (call_prepend namespace key value ttl_seconds) =
    thrown
      (inner.prepend (plain (prepend_request namespace key value ttl_seconds)) (rpc_options client))

-- Whatever a call makes the generated client throw, the caller is thrown `PGAppError.from` of it, and
-- the caller is thrown nothing else.
pub cache_error-from :
    (inner : CacheServiceClient) (client : PgAppClient) (call : CacheCall)
    → caller_error inner client call ≡ Option.map from (service_error inner client call)
unfolding set get mget delete exists invalidate_namespace stats increment decrement set_nx get_set
    append prepend
cache_error-from inner client (call_set namespace key value ttl_seconds) =
    thrown-wrap
      (inner.set (plain (set_request namespace key value ttl_seconds)) (rpc_options client)) _
cache_error-from inner client (call_get namespace key) =
    thrown-wrap (inner.get (plain (get_request namespace key)) (rpc_options client)) _
cache_error-from inner client (call_mget namespace keys) =
    thrown-wrap (inner.m_get (plain (mget_request namespace keys)) (rpc_options client)) _
cache_error-from inner client (call_delete namespace key) =
    thrown-wrap (inner.delete (plain (delete_request namespace key)) (rpc_options client)) _
cache_error-from inner client (call_exists namespace key) =
    thrown-wrap (inner.exists (plain (exists_request namespace key)) (rpc_options client)) _
cache_error-from inner client (call_invalidate_namespace namespace) =
    thrown-wrap
      (inner.invalidate_namespace (plain (invalidate_namespace_request namespace))
        (rpc_options client))
      _
cache_error-from inner client call_stats =
    thrown-wrap (inner.stats (plain cache_stats_request) (rpc_options client)) _
cache_error-from inner client (call_increment namespace key delta ttl_seconds) =
    thrown-wrap
      (inner.increment (plain (increment_request namespace key delta ttl_seconds))
        (rpc_options client))
      _
cache_error-from inner client (call_decrement namespace key delta ttl_seconds) =
    thrown-wrap
      (inner.decrement (plain (decrement_request namespace key delta ttl_seconds))
        (rpc_options client))
      _
cache_error-from inner client (call_set_nx namespace key value ttl_seconds) =
    thrown-wrap
      (inner.set_nx (plain (set_nx_request namespace key value ttl_seconds)) (rpc_options client)) _
cache_error-from inner client (call_get_set namespace key value ttl_seconds) =
    thrown-wrap
      (inner.get_set (plain (get_set_request namespace key value ttl_seconds)) (rpc_options client))
      _
cache_error-from inner client (call_append namespace key value ttl_seconds) =
    thrown-wrap
      (inner.append (plain (append_request namespace key value ttl_seconds)) (rpc_options client)) _
cache_error-from inner client (call_prepend namespace key value ttl_seconds) =
    thrown-wrap
      (inner.prepend (plain (prepend_request namespace key value ttl_seconds)) (rpc_options client))
      _
