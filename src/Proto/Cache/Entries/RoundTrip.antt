-- ===== src/Proto/Cache/Entries/RoundTrip.antt =====
-- Lemmas about the round trips and the reading of the messages of Proto/Cache/Entries.antt.
-- Code: sdk/typescript/src/gen/pgapp/v1
use pgapp.Common.{◌==◌, [], refl, arith}
use pgapp.Number.{IsInt64}
use pgapp.Wire.{Runtime, UnknownPolicy}
use pgapp.Wire.Documented.{IsDocumented, AreBytes}
use pgapp.Wire.Loop.{Terminates, case_ends, default_ends, assign-Moves, int64_moves-Advances}
use pgapp.Wire.Fields.{Reads-then}
use pgapp.Wire.Scalars.{string_field, bytes_field, bool_field, int64_field}
use pgapp.Wire.Nested.{RoundTrips, round_trips}
use pgapp.Proto.Cache.Entries.{
  SetCacheRequest, set_cache_request_type, GetCacheRequest, get_cache_request_type,
  GetCacheResponse, get_cache_response_type, DeleteCacheRequest, delete_cache_request_type,
  ExistsCacheRequest, exists_cache_request_type, ExistsCacheResponse, exists_cache_response_type,
}

abbrev pub SetCacheRequestFits : SetCacheRequest → Type 0
SetCacheRequestFits m = (AreBytes m.value) × (IsInt64 m.ttl_seconds)

pub set_cache_request_type-RoundTrips :
    {runtime : Runtime}
    → IsDocumented runtime
    → (policy : UnknownPolicy) (m : SetCacheRequest) → SetCacheRequestFits m
    → RoundTrips runtime (set_cache_request_type runtime) policy m
unfolding set_cache_request_type
set_cache_request_type-RoundTrips documented policy m (h1, h2) = round_trips documented _ policy m (
    Reads-then
      (string_field documented _ policy 1
        (λ v. record { namespace = v; key = ""; value = []; ttl_seconds = "0" }) m.namespace
        (omega arith) refl)
      (Reads-then
        (string_field documented _ policy 2
          (λ v. record { namespace = m.namespace; key = v; value = []; ttl_seconds = "0" }) m.key
          (omega arith) refl)
        (Reads-then
          (bytes_field documented _ policy 3
            (λ v. record { namespace = m.namespace; key = m.key; value = v; ttl_seconds = "0" })
            m.value (omega arith) refl h1)
          (int64_field documented _ policy 4
            (λ v. record { namespace = m.namespace; key = m.key; value = m.value; ttl_seconds = v })
            m.ttl_seconds (omega arith) refl h2))))

pub set_cache_request_type-Terminates :
    {runtime : Runtime} → IsDocumented runtime → Terminates (set_cache_request_type runtime)
unfolding set_cache_request_type
set_cache_request_type-Terminates documented policy field_no t m =
    case_ends (field_no == 1) _ _
      (assign-Moves _ (λ v. record m { namespace = v }) documented.string_moves)
      (case_ends (field_no == 2) _ _
        (assign-Moves _ (λ v. record m { key = v }) documented.string_moves)
        (case_ends (field_no == 3) _ _
          (assign-Moves _ (λ v. record m { value = v }) documented.bytes_moves)
          (case_ends (field_no == 4) _ _
            (assign-Moves _ (λ v. record m { ttl_seconds = v }) (int64_moves-Advances documented))
            default_ends)))

abbrev pub GetCacheRequestFits : GetCacheRequest → Type 0
GetCacheRequestFits _ = Unit

pub get_cache_request_type-RoundTrips :
    {runtime : Runtime}
    → IsDocumented runtime
    → (policy : UnknownPolicy) (m : GetCacheRequest) → GetCacheRequestFits m
    → RoundTrips runtime (get_cache_request_type runtime) policy m
unfolding get_cache_request_type
get_cache_request_type-RoundTrips documented policy m _ = round_trips documented _ policy m (
    Reads-then
      (string_field documented _ policy 1 (λ v. record { namespace = v; key = "" }) m.namespace
        (omega arith) refl)
      (string_field documented _ policy 2 (λ v. record { namespace = m.namespace; key = v }) m.key
        (omega arith) refl))

pub get_cache_request_type-Terminates :
    {runtime : Runtime} → IsDocumented runtime → Terminates (get_cache_request_type runtime)
unfolding get_cache_request_type
get_cache_request_type-Terminates documented policy field_no t m =
    case_ends (field_no == 1) _ _
      (assign-Moves _ (λ v. record m { namespace = v }) documented.string_moves)
      (case_ends (field_no == 2) _ _
        (assign-Moves _ (λ v. record m { key = v }) documented.string_moves) default_ends)

abbrev pub GetCacheResponseFits : GetCacheResponse → Type 0
GetCacheResponseFits m = AreBytes m.value

pub get_cache_response_type-RoundTrips :
    {runtime : Runtime}
    → IsDocumented runtime
    → (policy : UnknownPolicy) (m : GetCacheResponse) → GetCacheResponseFits m
    → RoundTrips runtime (get_cache_response_type runtime) policy m
unfolding get_cache_response_type
get_cache_response_type-RoundTrips documented policy m h1 = round_trips documented _ policy m (
    Reads-then
      (bool_field documented _ policy 1 (λ v. record { hit = v; value = [] }) m.hit (omega arith)
        refl)
      (bytes_field documented _ policy 2 (λ v. record { hit = m.hit; value = v }) m.value
        (omega arith) refl h1))

pub get_cache_response_type-Terminates :
    {runtime : Runtime} → IsDocumented runtime → Terminates (get_cache_response_type runtime)
unfolding get_cache_response_type
get_cache_response_type-Terminates documented policy field_no t m =
    case_ends (field_no == 1) _ _ (assign-Moves _ (λ v. record m { hit = v }) documented.bool_moves)
      (case_ends (field_no == 2) _ _
        (assign-Moves _ (λ v. record m { value = v }) documented.bytes_moves) default_ends)

abbrev pub DeleteCacheRequestFits : DeleteCacheRequest → Type 0
DeleteCacheRequestFits _ = Unit

pub delete_cache_request_type-RoundTrips :
    {runtime : Runtime}
    → IsDocumented runtime
    → (policy : UnknownPolicy) (m : DeleteCacheRequest) → DeleteCacheRequestFits m
    → RoundTrips runtime (delete_cache_request_type runtime) policy m
unfolding delete_cache_request_type
delete_cache_request_type-RoundTrips documented policy m _ = round_trips documented _ policy m (
    Reads-then
      (string_field documented _ policy 1 (λ v. record { namespace = v; key = "" }) m.namespace
        (omega arith) refl)
      (string_field documented _ policy 2 (λ v. record { namespace = m.namespace; key = v }) m.key
        (omega arith) refl))

pub delete_cache_request_type-Terminates :
    {runtime : Runtime} → IsDocumented runtime → Terminates (delete_cache_request_type runtime)
unfolding delete_cache_request_type
delete_cache_request_type-Terminates documented policy field_no t m =
    case_ends (field_no == 1) _ _
      (assign-Moves _ (λ v. record m { namespace = v }) documented.string_moves)
      (case_ends (field_no == 2) _ _
        (assign-Moves _ (λ v. record m { key = v }) documented.string_moves) default_ends)

abbrev pub ExistsCacheRequestFits : ExistsCacheRequest → Type 0
ExistsCacheRequestFits _ = Unit

pub exists_cache_request_type-RoundTrips :
    {runtime : Runtime}
    → IsDocumented runtime
    → (policy : UnknownPolicy) (m : ExistsCacheRequest) → ExistsCacheRequestFits m
    → RoundTrips runtime (exists_cache_request_type runtime) policy m
unfolding exists_cache_request_type
exists_cache_request_type-RoundTrips documented policy m _ = round_trips documented _ policy m (
    Reads-then
      (string_field documented _ policy 1 (λ v. record { namespace = v; key = "" }) m.namespace
        (omega arith) refl)
      (string_field documented _ policy 2 (λ v. record { namespace = m.namespace; key = v }) m.key
        (omega arith) refl))

pub exists_cache_request_type-Terminates :
    {runtime : Runtime} → IsDocumented runtime → Terminates (exists_cache_request_type runtime)
unfolding exists_cache_request_type
exists_cache_request_type-Terminates documented policy field_no t m =
    case_ends (field_no == 1) _ _
      (assign-Moves _ (λ v. record m { namespace = v }) documented.string_moves)
      (case_ends (field_no == 2) _ _
        (assign-Moves _ (λ v. record m { key = v }) documented.string_moves) default_ends)

abbrev pub ExistsCacheResponseFits : ExistsCacheResponse → Type 0
ExistsCacheResponseFits _ = Unit

pub exists_cache_response_type-RoundTrips :
    {runtime : Runtime}
    → IsDocumented runtime
    → (policy : UnknownPolicy) (m : ExistsCacheResponse) → ExistsCacheResponseFits m
    → RoundTrips runtime (exists_cache_response_type runtime) policy m
unfolding exists_cache_response_type
exists_cache_response_type-RoundTrips documented policy m _ =
    round_trips documented _ policy m
      (bool_field documented _ policy 1 (λ v. record { exists = v }) m.exists (omega arith) refl)

pub exists_cache_response_type-Terminates :
    {runtime : Runtime} → IsDocumented runtime → Terminates (exists_cache_response_type runtime)
unfolding exists_cache_response_type
exists_cache_response_type-Terminates documented policy field_no t m =
    case_ends (field_no == 1) _ _
      (assign-Moves _ (λ v. record m { exists = v }) documented.bool_moves) default_ends
