-- ===== src/Sdk/Cache/Requests.antt =====
-- The requests of the calls of `CacheClient` on the wire.
-- Code: sdk/typescript/src/index.ts
use pgapp.Common.{refl, ap, ◌∙◌, ℕ, ◌+◌, ◌≡◌, true, none, ◌++◌, length}
use pgapp.Common.Result.{ok}
use pgapp.Number.{IsSafe, to_string}
use pgapp.Number.Laws.{safe-IsInt64}
use pgapp.Wire.{
  Bytes, Runtime, UnknownPolicy, done, plain, internal_binary_read, internal_binary_write,
}
use pgapp.Wire.Documented.{IsDocumented, at}
use pgapp.Sdk.Bytes.{encode_bytes}
use pgapp.Sdk.Bytes.Utf8.{HoldsBytes, encode_bytes-AreBytes}
use pgapp.Proto.Cache.Namespaces.{cache_stats_request}
use pgapp.Proto.Cache.Kinds.{
  CacheKind, append_request as append_request_kind, cache_stats_request as cache_stats_request_kind,
  decrement_request as decrement_request_kind, delete_cache_request as delete_cache_request_kind,
  exists_cache_request as exists_cache_request_kind, get_cache_request as get_cache_request_kind,
  get_set_request as get_set_request_kind, increment_request as increment_request_kind,
  invalidate_namespace_request as invalidate_namespace_request_kind,
  mget_cache_request as mget_cache_request_kind, prepend_request as prepend_request_kind,
  set_cache_request as set_cache_request_kind, set_nx_request as set_nx_request_kind, CacheBody,
  cache_type, CacheFits, cache_round_trip,
}
use pgapp.Sdk.Cache.{
  set_request, get_request, mget_request, delete_request, exists_request,
  invalidate_namespace_request, increment_request, decrement_request, set_nx_request,
  get_set_request, append_request, prepend_request,
}
use pgapp.Sdk.Cache.Calls.{
  CacheCall, call_set, call_get, call_mget, call_delete, call_exists, call_invalidate_namespace,
  call_stats, call_increment, call_decrement, call_set_nx, call_get_set, call_append, call_prepend,
}

-- The message that the call sends.
abbrev pub request_kind : CacheCall → CacheKind
request_kind (call_set namespace key value ttl_seconds) = set_cache_request_kind
request_kind (call_get namespace key) = get_cache_request_kind
request_kind (call_mget namespace keys) = mget_cache_request_kind
request_kind (call_delete namespace key) = delete_cache_request_kind
request_kind (call_exists namespace key) = exists_cache_request_kind
request_kind (call_invalidate_namespace namespace) = invalidate_namespace_request_kind
request_kind call_stats = cache_stats_request_kind
request_kind (call_increment namespace key delta ttl_seconds) = increment_request_kind
request_kind (call_decrement namespace key delta ttl_seconds) = decrement_request_kind
request_kind (call_set_nx namespace key value ttl_seconds) = set_nx_request_kind
request_kind (call_get_set namespace key value ttl_seconds) = get_set_request_kind
request_kind (call_append namespace key value ttl_seconds) = append_request_kind
request_kind (call_prepend namespace key value ttl_seconds) = prepend_request_kind

abbrev pub request_body : (call : CacheCall) → CacheBody (request_kind call)
request_body (call_set namespace key value ttl_seconds) =
    (set_request namespace key value ttl_seconds)
request_body (call_get namespace key) = (get_request namespace key)
request_body (call_mget namespace keys) = (mget_request namespace keys)
request_body (call_delete namespace key) = (delete_request namespace key)
request_body (call_exists namespace key) = (exists_request namespace key)
request_body (call_invalidate_namespace namespace) = (invalidate_namespace_request namespace)
request_body call_stats = cache_stats_request
request_body (call_increment namespace key delta ttl_seconds) =
    (increment_request namespace key delta ttl_seconds)
request_body (call_decrement namespace key delta ttl_seconds) =
    (decrement_request namespace key delta ttl_seconds)
request_body (call_set_nx namespace key value ttl_seconds) =
    (set_nx_request namespace key value ttl_seconds)
request_body (call_get_set namespace key value ttl_seconds) =
    (get_set_request namespace key value ttl_seconds)
request_body (call_append namespace key value ttl_seconds) =
    (append_request namespace key value ttl_seconds)
request_body (call_prepend namespace key value ttl_seconds) =
    (prepend_request namespace key value ttl_seconds)

-- A number that goes into a 64-bit field as text is between -2^53 and 2^53, a number of an
-- `int32` field is of 32 bits, and a value holds bytes.
abbrev pub IsSendable : CacheCall → Type 0
IsSendable (call_set namespace key value ttl_seconds) = (HoldsBytes value) × (IsSafe ttl_seconds)
IsSendable (call_get namespace key) = Unit
IsSendable (call_mget namespace keys) = Unit
IsSendable (call_delete namespace key) = Unit
IsSendable (call_exists namespace key) = Unit
IsSendable (call_invalidate_namespace namespace) = Unit
IsSendable call_stats = Unit
IsSendable (call_increment namespace key delta ttl_seconds) = (IsSafe delta) × (IsSafe ttl_seconds)
IsSendable (call_decrement namespace key delta ttl_seconds) = (IsSafe delta) × (IsSafe ttl_seconds)
IsSendable (call_set_nx namespace key value ttl_seconds) = (HoldsBytes value) × (IsSafe ttl_seconds)
IsSendable (call_get_set namespace key value ttl_seconds) =
    (HoldsBytes value) × (IsSafe ttl_seconds)
IsSendable (call_append namespace key value ttl_seconds) = (HoldsBytes value) × (IsSafe ttl_seconds)
IsSendable (call_prepend namespace key value ttl_seconds) =
    (HoldsBytes value) × (IsSafe ttl_seconds)

request_body-Fits :
    (runtime : Runtime) (call : CacheCall)
    → IsSendable call
    → CacheFits runtime (request_kind call) (request_body call)
unfolding set_request get_request mget_request delete_request exists_request
    invalidate_namespace_request increment_request decrement_request set_nx_request get_set_request
    append_request prepend_request
request_body-Fits runtime (call_set namespace key value ttl_seconds) (h0, h1) =
    (encode_bytes-AreBytes value h0, safe-IsInt64 ttl_seconds h1)
request_body-Fits runtime (call_get namespace key) h = tt
request_body-Fits runtime (call_mget namespace keys) h = tt
request_body-Fits runtime (call_delete namespace key) h = tt
request_body-Fits runtime (call_exists namespace key) h = tt
request_body-Fits runtime (call_invalidate_namespace namespace) h = tt
request_body-Fits runtime call_stats h = tt
request_body-Fits runtime (call_increment namespace key delta ttl_seconds) (h0, h1) =
    (safe-IsInt64 delta h0, safe-IsInt64 ttl_seconds h1)
request_body-Fits runtime (call_decrement namespace key delta ttl_seconds) (h0, h1) =
    (safe-IsInt64 delta h0, safe-IsInt64 ttl_seconds h1)
request_body-Fits runtime (call_set_nx namespace key value ttl_seconds) (h0, h1) =
    (encode_bytes-AreBytes value h0, safe-IsInt64 ttl_seconds h1)
request_body-Fits runtime (call_get_set namespace key value ttl_seconds) (h0, h1) =
    (encode_bytes-AreBytes value h0, safe-IsInt64 ttl_seconds h1)
request_body-Fits runtime (call_append namespace key value ttl_seconds) (h0, h1) =
    (encode_bytes-AreBytes value h0, safe-IsInt64 ttl_seconds h1)
request_body-Fits runtime (call_prepend namespace key value ttl_seconds) (h0, h1) =
    (encode_bytes-AreBytes value h0, safe-IsInt64 ttl_seconds h1)

-- The arguments of the call, each in its field.
abbrev pub arguments : (call : CacheCall) → CacheBody (request_kind call)
arguments (call_set namespace key value ttl_seconds) = record {
  namespace = namespace;
  key = key;
  value = encode_bytes value;
  ttl_seconds = to_string ttl_seconds;
}
arguments (call_get namespace key) = record { namespace = namespace; key = key }
arguments (call_mget namespace keys) = record { namespace = namespace; keys = keys }
arguments (call_delete namespace key) = record { namespace = namespace; key = key }
arguments (call_exists namespace key) = record { namespace = namespace; key = key }
arguments (call_invalidate_namespace namespace) = record { namespace = namespace }
arguments call_stats = cache_stats_request
arguments (call_increment namespace key delta ttl_seconds) = record {
  namespace = namespace;
  key = key;
  delta = to_string delta;
  ttl_seconds = to_string ttl_seconds;
}
arguments (call_decrement namespace key delta ttl_seconds) = record {
  namespace = namespace;
  key = key;
  delta = to_string delta;
  ttl_seconds = to_string ttl_seconds;
}
arguments (call_set_nx namespace key value ttl_seconds) = record {
  namespace = namespace;
  key = key;
  value = encode_bytes value;
  ttl_seconds = to_string ttl_seconds;
}
arguments (call_get_set namespace key value ttl_seconds) = record {
  namespace = namespace;
  key = key;
  value = encode_bytes value;
  ttl_seconds = to_string ttl_seconds;
}
arguments (call_append namespace key value ttl_seconds) = record {
  namespace = namespace;
  key = key;
  value = encode_bytes value;
  ttl_seconds = to_string ttl_seconds;
}
arguments (call_prepend namespace key value ttl_seconds) = record {
  namespace = namespace;
  key = key;
  value = encode_bytes value;
  ttl_seconds = to_string ttl_seconds;
}

request_body-arguments : (call : CacheCall) → request_body call ≡ arguments call
unfolding set_request get_request mget_request delete_request exists_request
    invalidate_namespace_request increment_request decrement_request set_nx_request get_set_request
    append_request prepend_request
request_body-arguments (call_set namespace key value ttl_seconds) = refl
request_body-arguments (call_get namespace key) = refl
request_body-arguments (call_mget namespace keys) = refl
request_body-arguments (call_delete namespace key) = refl
request_body-arguments (call_exists namespace key) = refl
request_body-arguments (call_invalidate_namespace namespace) = refl
request_body-arguments call_stats = refl
request_body-arguments (call_increment namespace key delta ttl_seconds) = refl
request_body-arguments (call_decrement namespace key delta ttl_seconds) = refl
request_body-arguments (call_set_nx namespace key value ttl_seconds) = refl
request_body-arguments (call_get_set namespace key value ttl_seconds) = refl
request_body-arguments (call_append namespace key value ttl_seconds) = refl
request_body-arguments (call_prepend namespace key value ttl_seconds) = refl

-- A call whose arguments are sendable reaches the server: if the client writes its request as bytes,
-- reading them, at any position and whatever follows, gives a request with each argument in its field,
-- with the reader just behind them.
pub cache_request_arrives :
    (runtime : Runtime)
    → IsDocumented runtime
    → (call : CacheCall) → IsSendable call
    → (policy : UnknownPolicy) (w : Bytes)
    → internal_binary_write runtime
        (cache_type runtime (request_kind call))
        true
        (plain (request_body call))
      ≡ ok w
    → (p : ℕ) (rest : Bytes)
    → internal_binary_read runtime
        (cache_type runtime (request_kind call))
        policy
        (length w)
        none
        (at p (w ++ rest))
      ≡ done (plain (arguments call), at (p + length w) rest)
cache_request_arrives runtime documented call sendable policy w e p rest =
    cache_round_trip runtime documented policy (request_kind call) (request_body call)
      (request_body-Fits runtime call sendable) w e p rest
    ∙ ap (λ body. done (plain body, at (p + length w) rest)) (request_body-arguments call)
