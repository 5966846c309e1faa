-- ===== src/Proto/Cache/Kinds.antt =====
-- Every message of cache.proto, by its kind.
-- Code: sdk/typescript/src/gen/pgapp/v1/cache.ts
use pgapp.Common.{ℕ, ◌+◌, ◌≡◌, true, Option, none, ◌++◌, length}
use pgapp.Common.Result.{ok}
use pgapp.Wire.{
  Bytes, Runtime, Reader, Message, MessageType, UnknownPolicy, done, plain, internal_binary_read,
  internal_binary_write,
}
use pgapp.Wire.Documented.{IsDocumented, at}
use pgapp.Wire.Loop.{EndsFrom, Terminates, internal_binary_read-Moves}
use pgapp.Proto.Cache.Entries.{
  SetCacheRequest, set_cache_request_type, GetCacheRequest, get_cache_request_type,
  GetCacheResponse, get_cache_response_type, DeleteCacheRequest, delete_cache_request_type,
  ExistsCacheRequest, exists_cache_request_type, ExistsCacheResponse, exists_cache_response_type,
}
use pgapp.Proto.Cache.Entries.RoundTrip.{
  SetCacheRequestFits, set_cache_request_type-RoundTrips, set_cache_request_type-Terminates,
  GetCacheRequestFits, get_cache_request_type-RoundTrips, get_cache_request_type-Terminates,
  GetCacheResponseFits, get_cache_response_type-RoundTrips, get_cache_response_type-Terminates,
  DeleteCacheRequestFits, delete_cache_request_type-RoundTrips,
  delete_cache_request_type-Terminates, ExistsCacheRequestFits,
  exists_cache_request_type-RoundTrips, exists_cache_request_type-Terminates,
  ExistsCacheResponseFits, exists_cache_response_type-RoundTrips,
  exists_cache_response_type-Terminates,
}
use pgapp.Proto.Cache.Batches.{
  MgetCacheRequest, mget_cache_request_type, CacheItem, cache_item_type, MgetCacheResponse,
  mget_cache_response_type,
}
use pgapp.Proto.Cache.Batches.RoundTrip.{
  MgetCacheRequestFits, mget_cache_request_type-RoundTrips, mget_cache_request_type-Terminates,
  CacheItemFits, cache_item_type-RoundTrips, cache_item_type-Terminates, MgetCacheResponseFits,
  mget_cache_response_type-RoundTrips, mget_cache_response_type-Terminates,
}
use pgapp.Proto.Cache.Namespaces.{
  InvalidateNamespaceRequest, invalidate_namespace_request_type, CacheStatsRequest,
  cache_stats_request_type, NamespaceUsage, namespace_usage_type, CacheStatsResponse,
  cache_stats_response_type,
}
use pgapp.Proto.Cache.Namespaces.RoundTrip.{
  InvalidateNamespaceRequestFits, invalidate_namespace_request_type-RoundTrips,
  invalidate_namespace_request_type-Terminates, CacheStatsRequestFits,
  cache_stats_request_type-RoundTrips, cache_stats_request_type-Terminates, NamespaceUsageFits,
  namespace_usage_type-RoundTrips, namespace_usage_type-Terminates, CacheStatsResponseFits,
  cache_stats_response_type-RoundTrips, cache_stats_response_type-Terminates,
}
use pgapp.Proto.Cache.Counters.{
  IncrementRequest, increment_request_type, IncrementResponse, increment_response_type,
  DecrementRequest, decrement_request_type, DecrementResponse, decrement_response_type,
}
use pgapp.Proto.Cache.Counters.RoundTrip.{
  IncrementRequestFits, increment_request_type-RoundTrips, increment_request_type-Terminates,
  IncrementResponseFits, increment_response_type-RoundTrips, increment_response_type-Terminates,
  DecrementRequestFits, decrement_request_type-RoundTrips, decrement_request_type-Terminates,
  DecrementResponseFits, decrement_response_type-RoundTrips, decrement_response_type-Terminates,
}
use pgapp.Proto.Cache.Atomics.{
  SetNxRequest, set_nx_request_type, SetNxResponse, set_nx_response_type, GetSetRequest,
  get_set_request_type, GetSetResponse, get_set_response_type, AppendRequest, append_request_type,
  AppendResponse, append_response_type, PrependRequest, prepend_request_type, PrependResponse,
  prepend_response_type,
}
use pgapp.Proto.Cache.Atomics.RoundTrip.{
  SetNxRequestFits, set_nx_request_type-RoundTrips, set_nx_request_type-Terminates,
  SetNxResponseFits, set_nx_response_type-RoundTrips, set_nx_response_type-Terminates,
  GetSetRequestFits, get_set_request_type-RoundTrips, get_set_request_type-Terminates,
  GetSetResponseFits, get_set_response_type-RoundTrips, get_set_response_type-Terminates,
  AppendRequestFits, append_request_type-RoundTrips, append_request_type-Terminates,
  AppendResponseFits, append_response_type-RoundTrips, append_response_type-Terminates,
  PrependRequestFits, prepend_request_type-RoundTrips, prepend_request_type-Terminates,
  PrependResponseFits, prepend_response_type-RoundTrips, prepend_response_type-Terminates,
}

pub data CacheKind : Type 0 where
  set_cache_request get_cache_request get_cache_response mget_cache_request cache_item
        mget_cache_response delete_cache_request exists_cache_request exists_cache_response
        invalidate_namespace_request cache_stats_request namespace_usage cache_stats_response
        increment_request increment_response decrement_request decrement_response set_nx_request
        set_nx_response get_set_request get_set_response append_request append_response
        prepend_request prepend_response :
      CacheKind

-- The interface of each kind.
abbrev pub CacheBody : CacheKind → Type 0
CacheBody set_cache_request = SetCacheRequest
CacheBody get_cache_request = GetCacheRequest
CacheBody get_cache_response = GetCacheResponse
CacheBody mget_cache_request = MgetCacheRequest
CacheBody cache_item = CacheItem
CacheBody mget_cache_response = MgetCacheResponse
CacheBody delete_cache_request = DeleteCacheRequest
CacheBody exists_cache_request = ExistsCacheRequest
CacheBody exists_cache_response = ExistsCacheResponse
CacheBody invalidate_namespace_request = InvalidateNamespaceRequest
CacheBody cache_stats_request = CacheStatsRequest
CacheBody namespace_usage = NamespaceUsage
CacheBody cache_stats_response = CacheStatsResponse
CacheBody increment_request = IncrementRequest
CacheBody increment_response = IncrementResponse
CacheBody decrement_request = DecrementRequest
CacheBody decrement_response = DecrementResponse
CacheBody set_nx_request = SetNxRequest
CacheBody set_nx_response = SetNxResponse
CacheBody get_set_request = GetSetRequest
CacheBody get_set_response = GetSetResponse
CacheBody append_request = AppendRequest
CacheBody append_response = AppendResponse
CacheBody prepend_request = PrependRequest
CacheBody prepend_response = PrependResponse

-- The class of each kind.
abbrev pub cache_type : Runtime → (kind : CacheKind) → MessageType (CacheBody kind)
cache_type runtime set_cache_request = set_cache_request_type runtime
cache_type runtime get_cache_request = get_cache_request_type runtime
cache_type runtime get_cache_response = get_cache_response_type runtime
cache_type runtime mget_cache_request = mget_cache_request_type runtime
cache_type runtime cache_item = cache_item_type runtime
cache_type runtime mget_cache_response = mget_cache_response_type runtime
cache_type runtime delete_cache_request = delete_cache_request_type runtime
cache_type runtime exists_cache_request = exists_cache_request_type runtime
cache_type runtime exists_cache_response = exists_cache_response_type runtime
cache_type runtime invalidate_namespace_request = invalidate_namespace_request_type runtime
cache_type runtime cache_stats_request = cache_stats_request_type runtime
cache_type runtime namespace_usage = namespace_usage_type runtime
cache_type runtime cache_stats_response = cache_stats_response_type runtime
cache_type runtime increment_request = increment_request_type runtime
cache_type runtime increment_response = increment_response_type runtime
cache_type runtime decrement_request = decrement_request_type runtime
cache_type runtime decrement_response = decrement_response_type runtime
cache_type runtime set_nx_request = set_nx_request_type runtime
cache_type runtime set_nx_response = set_nx_response_type runtime
cache_type runtime get_set_request = get_set_request_type runtime
cache_type runtime get_set_response = get_set_response_type runtime
cache_type runtime append_request = append_request_type runtime
cache_type runtime append_response = append_response_type runtime
cache_type runtime prepend_request = prepend_request_type runtime
cache_type runtime prepend_response = prepend_response_type runtime

-- The integer fields hold integers of their width in canonical decimal form, byte fields hold
-- bytes, and nested objects hold no unknown field.
abbrev pub CacheFits : Runtime → (kind : CacheKind) → CacheBody kind → Type 0
CacheFits runtime set_cache_request m = SetCacheRequestFits m
CacheFits runtime get_cache_request m = GetCacheRequestFits m
CacheFits runtime get_cache_response m = GetCacheResponseFits m
CacheFits runtime mget_cache_request m = MgetCacheRequestFits m
CacheFits runtime cache_item m = CacheItemFits m
CacheFits runtime mget_cache_response m = MgetCacheResponseFits m
CacheFits runtime delete_cache_request m = DeleteCacheRequestFits m
CacheFits runtime exists_cache_request m = ExistsCacheRequestFits m
CacheFits runtime exists_cache_response m = ExistsCacheResponseFits m
CacheFits runtime invalidate_namespace_request m = InvalidateNamespaceRequestFits m
CacheFits runtime cache_stats_request m = CacheStatsRequestFits m
CacheFits runtime namespace_usage m = NamespaceUsageFits m
CacheFits runtime cache_stats_response m = CacheStatsResponseFits m
CacheFits runtime increment_request m = IncrementRequestFits m
CacheFits runtime increment_response m = IncrementResponseFits m
CacheFits runtime decrement_request m = DecrementRequestFits m
CacheFits runtime decrement_response m = DecrementResponseFits m
CacheFits runtime set_nx_request m = SetNxRequestFits m
CacheFits runtime set_nx_response m = SetNxResponseFits m
CacheFits runtime get_set_request m = GetSetRequestFits m
CacheFits runtime get_set_response m = GetSetResponseFits m
CacheFits runtime append_request m = AppendRequestFits m
CacheFits runtime append_response m = AppendResponseFits m
CacheFits runtime prepend_request m = PrependRequestFits m
CacheFits runtime prepend_response m = PrependResponseFits m

-- For every message class of cache.ts and every object whose 64-bit integers are canonical decimal
-- texts of their width and whose byte fields hold bytes, in nested objects too, and which holds no
-- unknown field at any level: if `internalBinaryWrite` returns bytes, `internalBinaryRead` given
-- their number, at any position and whatever follows, returns the same object with the reader just
-- behind them, whichever policy for unknown fields is set.
pub cache_round_trip :
    (runtime : Runtime)
    → IsDocumented runtime
    → (policy : UnknownPolicy) (kind : CacheKind) (m : CacheBody kind) → CacheFits runtime kind m
    → (w : Bytes) → internal_binary_write runtime (cache_type runtime kind) true (plain m) ≡ ok w
    → (p : ℕ) (rest : Bytes)
    → internal_binary_read runtime
        (cache_type runtime kind)
        policy
        (length w)
        none
        (at p (w ++ rest))
      ≡ done (plain m, at (p + length w) rest)
cache_round_trip runtime documented policy set_cache_request m fits w e p rest =
    (set_cache_request_type-RoundTrips documented policy m fits).trips w e p rest
cache_round_trip runtime documented policy get_cache_request m fits w e p rest =
    (get_cache_request_type-RoundTrips documented policy m fits).trips w e p rest
cache_round_trip runtime documented policy get_cache_response m fits w e p rest =
    (get_cache_response_type-RoundTrips documented policy m fits).trips w e p rest
cache_round_trip runtime documented policy mget_cache_request m fits w e p rest =
    (mget_cache_request_type-RoundTrips documented policy m fits).trips w e p rest
cache_round_trip runtime documented policy cache_item m fits w e p rest =
    (cache_item_type-RoundTrips documented policy m fits).trips w e p rest
cache_round_trip runtime documented policy mget_cache_response m fits w e p rest =
    (mget_cache_response_type-RoundTrips documented policy m fits).trips w e p rest
cache_round_trip runtime documented policy delete_cache_request m fits w e p rest =
    (delete_cache_request_type-RoundTrips documented policy m fits).trips w e p rest
cache_round_trip runtime documented policy exists_cache_request m fits w e p rest =
    (exists_cache_request_type-RoundTrips documented policy m fits).trips w e p rest
cache_round_trip runtime documented policy exists_cache_response m fits w e p rest =
    (exists_cache_response_type-RoundTrips documented policy m fits).trips w e p rest
cache_round_trip runtime documented policy invalidate_namespace_request m fits w e p rest =
    (invalidate_namespace_request_type-RoundTrips documented policy m fits).trips w e p rest
cache_round_trip runtime documented policy cache_stats_request m fits w e p rest =
    (cache_stats_request_type-RoundTrips documented policy m fits).trips w e p rest
cache_round_trip runtime documented policy namespace_usage m fits w e p rest =
    (namespace_usage_type-RoundTrips documented policy m fits).trips w e p rest
cache_round_trip runtime documented policy cache_stats_response m fits w e p rest =
    (cache_stats_response_type-RoundTrips documented policy m fits).trips w e p rest
cache_round_trip runtime documented policy increment_request m fits w e p rest =
    (increment_request_type-RoundTrips documented policy m fits).trips w e p rest
cache_round_trip runtime documented policy increment_response m fits w e p rest =
    (increment_response_type-RoundTrips documented policy m fits).trips w e p rest
cache_round_trip runtime documented policy decrement_request m fits w e p rest =
    (decrement_request_type-RoundTrips documented policy m fits).trips w e p rest
cache_round_trip runtime documented policy decrement_response m fits w e p rest =
    (decrement_response_type-RoundTrips documented policy m fits).trips w e p rest
cache_round_trip runtime documented policy set_nx_request m fits w e p rest =
    (set_nx_request_type-RoundTrips documented policy m fits).trips w e p rest
cache_round_trip runtime documented policy set_nx_response m fits w e p rest =
    (set_nx_response_type-RoundTrips documented policy m fits).trips w e p rest
cache_round_trip runtime documented policy get_set_request m fits w e p rest =
    (get_set_request_type-RoundTrips documented policy m fits).trips w e p rest
cache_round_trip runtime documented policy get_set_response m fits w e p rest =
    (get_set_response_type-RoundTrips documented policy m fits).trips w e p rest
cache_round_trip runtime documented policy append_request m fits w e p rest =
    (append_request_type-RoundTrips documented policy m fits).trips w e p rest
cache_round_trip runtime documented policy append_response m fits w e p rest =
    (append_response_type-RoundTrips documented policy m fits).trips w e p rest
cache_round_trip runtime documented policy prepend_request m fits w e p rest =
    (prepend_request_type-RoundTrips documented policy m fits).trips w e p rest
cache_round_trip runtime documented policy prepend_response m fits w e p rest =
    (prepend_response_type-RoundTrips documented policy m fits).trips w e p rest

cache_type-Terminates :
    (runtime : Runtime)
    → IsDocumented runtime
    → (kind : CacheKind) → Terminates (cache_type runtime kind)
cache_type-Terminates runtime documented set_cache_request =
    set_cache_request_type-Terminates documented
cache_type-Terminates runtime documented get_cache_request =
    get_cache_request_type-Terminates documented
cache_type-Terminates runtime documented get_cache_response =
    get_cache_response_type-Terminates documented
cache_type-Terminates runtime documented mget_cache_request =
    mget_cache_request_type-Terminates documented
cache_type-Terminates runtime documented cache_item = cache_item_type-Terminates documented
cache_type-Terminates runtime documented mget_cache_response =
    mget_cache_response_type-Terminates documented
cache_type-Terminates runtime documented delete_cache_request =
    delete_cache_request_type-Terminates documented
cache_type-Terminates runtime documented exists_cache_request =
    exists_cache_request_type-Terminates documented
cache_type-Terminates runtime documented exists_cache_response =
    exists_cache_response_type-Terminates documented
cache_type-Terminates runtime documented invalidate_namespace_request =
    invalidate_namespace_request_type-Terminates documented
cache_type-Terminates runtime documented cache_stats_request =
    cache_stats_request_type-Terminates documented
cache_type-Terminates runtime documented namespace_usage =
    namespace_usage_type-Terminates documented
cache_type-Terminates runtime documented cache_stats_response =
    cache_stats_response_type-Terminates documented
cache_type-Terminates runtime documented increment_request =
    increment_request_type-Terminates documented
cache_type-Terminates runtime documented increment_response =
    increment_response_type-Terminates documented
cache_type-Terminates runtime documented decrement_request =
    decrement_request_type-Terminates documented
cache_type-Terminates runtime documented decrement_response =
    decrement_response_type-Terminates documented
cache_type-Terminates runtime documented set_nx_request = set_nx_request_type-Terminates documented
cache_type-Terminates runtime documented set_nx_response =
    set_nx_response_type-Terminates documented
cache_type-Terminates runtime documented get_set_request =
    get_set_request_type-Terminates documented
cache_type-Terminates runtime documented get_set_response =
    get_set_response_type-Terminates documented
cache_type-Terminates runtime documented append_request = append_request_type-Terminates documented
cache_type-Terminates runtime documented append_response =
    append_response_type-Terminates documented
cache_type-Terminates runtime documented prepend_request =
    prepend_request_type-Terminates documented
cache_type-Terminates runtime documented prepend_response =
    prepend_response_type-Terminates documented

-- For every message class of the file, any bytes, any length and any object to read into:
-- `internalBinaryRead` returns or throws, so its loop never runs out of the model's fuel, and where it
-- returns the reader has not moved back.
pub cache_read_ends :
    (runtime : Runtime)
    → IsDocumented runtime
    → (policy : UnknownPolicy) (kind : CacheKind) (size : ℕ)
      (target : Option (Message (CacheBody kind))) (r : Reader)
    → EndsFrom r.pos (internal_binary_read runtime (cache_type runtime kind) policy size target r)
cache_read_ends runtime documented policy kind size target r =
    (internal_binary_read-Moves documented (cache_type runtime kind)
        (cache_type-Terminates runtime documented kind) policy size target).moves
      r
