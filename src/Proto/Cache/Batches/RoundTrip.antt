-- ===== src/Proto/Cache/Batches/RoundTrip.antt =====
-- Lemmas about the round trips and the reading of the messages of Proto/Cache/Batches.antt.
-- Code: sdk/typescript/src/gen/pgapp/v1
use pgapp.Common.{◌==◌, ◌++◌, ◌∷◌, [], refl, arith, false, All}
use pgapp.Wire.{Runtime, UnknownPolicy}
use pgapp.Wire.Documented.{IsDocumented, AreBytes}
use pgapp.Wire.Loop.{Terminates, case_ends, default_ends, assign-Moves}
use pgapp.Wire.Fields.{Reads-then}
use pgapp.Wire.Scalars.{string_field, bytes_field, bool_field}
use pgapp.Wire.Nested.{
  RoundTrips, round_trips, MessageFits, All-MessageFits→Trips, repeated_field, strings_field,
  assign_parsed-Moves, read_nested-Moves,
}
use pgapp.Proto.Cache.Batches.{
  MgetCacheRequest, mget_cache_request_type, CacheItem, cache_item_type, MgetCacheResponse,
  mget_cache_response_type,
}

abbrev pub MgetCacheRequestFits : MgetCacheRequest → Type 0
MgetCacheRequestFits _ = Unit

pub mget_cache_request_type-RoundTrips :
    {runtime : Runtime}
    → IsDocumented runtime
    → (policy : UnknownPolicy) (m : MgetCacheRequest) → MgetCacheRequestFits m
    → RoundTrips runtime (mget_cache_request_type runtime) policy m
unfolding mget_cache_request_type
mget_cache_request_type-RoundTrips documented policy m _ = round_trips documented _ policy m (
    Reads-then
      (string_field documented _ policy 1 (λ v. record { namespace = v; keys = [] }) m.namespace
        (omega arith) refl)
      (strings_field documented _ policy 2 (λ v. record { namespace = m.namespace; keys = v })
        m.keys (omega arith) (λ l. refl)))

pub mget_cache_request_type-Terminates :
    {runtime : Runtime} → IsDocumented runtime → Terminates (mget_cache_request_type runtime)
unfolding mget_cache_request_type
mget_cache_request_type-Terminates documented policy field_no t m =
    case_ends (field_no == 1) _ _
      (assign-Moves _ (λ v. record m { namespace = v }) documented.string_moves)
      (case_ends (field_no == 2) _ _
        (assign-Moves _ (λ v. record m { keys = m.keys ++ v ∷ [] }) documented.string_moves)
        default_ends)

abbrev pub CacheItemFits : CacheItem → Type 0
CacheItemFits m = AreBytes m.value

pub cache_item_type-RoundTrips :
    {runtime : Runtime}
    → IsDocumented runtime
    → (policy : UnknownPolicy) (m : CacheItem) → CacheItemFits m
    → RoundTrips runtime (cache_item_type runtime) policy m
unfolding cache_item_type
cache_item_type-RoundTrips documented policy m h1 = round_trips documented _ policy m (
    Reads-then
      (string_field documented _ policy 1 (λ v. record { key = v; hit = false; value = [] }) m.key
        (omega arith) refl)
      (Reads-then
        (bool_field documented _ policy 2 (λ v. record { key = m.key; hit = v; value = [] }) m.hit
          (omega arith) refl)
        (bytes_field documented _ policy 3 (λ v. record { key = m.key; hit = m.hit; value = v })
          m.value (omega arith) refl h1)))

pub cache_item_type-Terminates :
    {runtime : Runtime} → IsDocumented runtime → Terminates (cache_item_type runtime)
unfolding cache_item_type
cache_item_type-Terminates documented policy field_no t m =
    case_ends (field_no == 1) _ _
      (assign-Moves _ (λ v. record m { key = v }) documented.string_moves)
      (case_ends (field_no == 2) _ _
        (assign-Moves _ (λ v. record m { hit = v }) documented.bool_moves)
        (case_ends (field_no == 3) _ _
          (assign-Moves _ (λ v. record m { value = v }) documented.bytes_moves) default_ends))

abbrev pub MgetCacheResponseFits : MgetCacheResponse → Type 0
MgetCacheResponseFits m = All (MessageFits CacheItemFits) m.items

pub mget_cache_response_type-RoundTrips :
    {runtime : Runtime}
    → IsDocumented runtime
    → (policy : UnknownPolicy) (m : MgetCacheResponse) → MgetCacheResponseFits m
    → RoundTrips runtime (mget_cache_response_type runtime) policy m
unfolding mget_cache_response_type
mget_cache_response_type-RoundTrips documented policy m h1 = round_trips documented _ policy m (
    repeated_field documented _ policy _ 1 (λ v. record { items = v }) m.items (omega arith)
      (λ l. refl) (All-MessageFits→Trips (cache_item_type-RoundTrips documented policy) m.items h1))

pub mget_cache_response_type-Terminates :
    {runtime : Runtime} → IsDocumented runtime → Terminates (mget_cache_response_type runtime)
unfolding mget_cache_response_type
mget_cache_response_type-Terminates documented policy field_no t m =
    case_ends (field_no == 1) _ _
      (assign_parsed-Moves _ (λ v. record m { items = m.items ++ v ∷ [] })
        (read_nested-Moves documented _ policy _ (cache_item_type-Terminates documented)))
      default_ends
