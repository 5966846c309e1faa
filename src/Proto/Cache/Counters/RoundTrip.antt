-- ===== src/Proto/Cache/Counters/RoundTrip.antt =====
-- Lemmas about the round trips and the reading of the messages of Proto/Cache/Counters.antt.
-- Code: sdk/typescript/src/gen/pgapp/v1
use pgapp.Common.{◌==◌, refl, arith}
use pgapp.Number.{IsInt64}
use pgapp.Wire.{Runtime, UnknownPolicy}
use pgapp.Wire.Documented.{IsDocumented}
use pgapp.Wire.Loop.{Terminates, case_ends, default_ends, assign-Moves, int64_moves-Advances}
use pgapp.Wire.Fields.{Reads-then}
use pgapp.Wire.Scalars.{string_field, int64_field}
use pgapp.Wire.Nested.{RoundTrips, round_trips}
use pgapp.Proto.Cache.Counters.{
  IncrementRequest, increment_request_type, IncrementResponse, increment_response_type,
  DecrementRequest, decrement_request_type, DecrementResponse, decrement_response_type,
}

abbrev pub IncrementRequestFits : IncrementRequest → Type 0
IncrementRequestFits m = (IsInt64 m.delta) × (IsInt64 m.ttl_seconds)

pub increment_request_type-RoundTrips :
    {runtime : Runtime}
    → IsDocumented runtime
    → (policy : UnknownPolicy) (m : IncrementRequest) → IncrementRequestFits m
    → RoundTrips runtime (increment_request_type runtime) policy m
unfolding increment_request_type
increment_request_type-RoundTrips documented policy m (h1, h2) = round_trips documented _ policy m (
    Reads-then
      (string_field documented _ policy 1
        (λ v. record { namespace = v; key = ""; delta = "0"; ttl_seconds = "0" }) m.namespace
        (omega arith) refl)
      (Reads-then
        (string_field documented _ policy 2
          (λ v. record { namespace = m.namespace; key = v; delta = "0"; ttl_seconds = "0" }) m.key
          (omega arith) refl)
        (Reads-then
          (int64_field documented _ policy 3
            (λ v. record { namespace = m.namespace; key = m.key; delta = v; ttl_seconds = "0" })
            m.delta (omega arith) refl h1)
          (int64_field documented _ policy 4
            (λ v. record { namespace = m.namespace; key = m.key; delta = m.delta; ttl_seconds = v })
            m.ttl_seconds (omega arith) refl h2))))

pub increment_request_type-Terminates :
    {runtime : Runtime} → IsDocumented runtime → Terminates (increment_request_type runtime)
unfolding increment_request_type
increment_request_type-Terminates documented policy field_no t m =
    case_ends (field_no == 1) _ _
      (assign-Moves _ (λ v. record m { namespace = v }) documented.string_moves)
      (case_ends (field_no == 2) _ _
        (assign-Moves _ (λ v. record m { key = v }) documented.string_moves)
        (case_ends (field_no == 3) _ _
          (assign-Moves _ (λ v. record m { delta = v }) (int64_moves-Advances documented))
          (case_ends (field_no == 4) _ _
            (assign-Moves _ (λ v. record m { ttl_seconds = v }) (int64_moves-Advances documented))
            default_ends)))

abbrev pub IncrementResponseFits : IncrementResponse → Type 0
IncrementResponseFits m = IsInt64 m.value

pub increment_response_type-RoundTrips :
    {runtime : Runtime}
    → IsDocumented runtime
    → (policy : UnknownPolicy) (m : IncrementResponse) → IncrementResponseFits m
    → RoundTrips runtime (increment_response_type runtime) policy m
unfolding increment_response_type
increment_response_type-RoundTrips documented policy m h1 =
    round_trips documented _ policy m
      (int64_field documented _ policy 1 (λ v. record { value = v }) m.value (omega arith) refl h1)

pub increment_response_type-Terminates :
    {runtime : Runtime} → IsDocumented runtime → Terminates (increment_response_type runtime)
unfolding increment_response_type
increment_response_type-Terminates documented policy field_no t m =
    case_ends (field_no == 1) _ _
      (assign-Moves _ (λ v. record m { value = v }) (int64_moves-Advances documented)) default_ends

abbrev pub DecrementRequestFits : DecrementRequest → Type 0
DecrementRequestFits m = (IsInt64 m.delta) × (IsInt64 m.ttl_seconds)

pub decrement_request_type-RoundTrips :
    {runtime : Runtime}
    → IsDocumented runtime
    → (policy : UnknownPolicy) (m : DecrementRequest) → DecrementRequestFits m
    → RoundTrips runtime (decrement_request_type runtime) policy m
unfolding decrement_request_type
decrement_request_type-RoundTrips documented policy m (h1, h2) = round_trips documented _ policy m (
    Reads-then
      (string_field documented _ policy 1
        (λ v. record { namespace = v; key = ""; delta = "0"; ttl_seconds = "0" }) m.namespace
        (omega arith) refl)
      (Reads-then
        (string_field documented _ policy 2
          (λ v. record { namespace = m.namespace; key = v; delta = "0"; ttl_seconds = "0" }) m.key
          (omega arith) refl)
        (Reads-then
          (int64_field documented _ policy 3
            (λ v. record { namespace = m.namespace; key = m.key; delta = v; ttl_seconds = "0" })
            m.delta (omega arith) refl h1)
          (int64_field documented _ policy 4
            (λ v. record { namespace = m.namespace; key = m.key; delta = m.delta; ttl_seconds = v })
            m.ttl_seconds (omega arith) refl h2))))

pub decrement_request_type-Terminates :
    {runtime : Runtime} → IsDocumented runtime → Terminates (decrement_request_type runtime)
unfolding decrement_request_type
decrement_request_type-Terminates documented policy field_no t m =
    case_ends (field_no == 1) _ _
      (assign-Moves _ (λ v. record m { namespace = v }) documented.string_moves)
      (case_ends (field_no == 2) _ _
        (assign-Moves _ (λ v. record m { key = v }) documented.string_moves)
        (case_ends (field_no == 3) _ _
          (assign-Moves _ (λ v. record m { delta = v }) (int64_moves-Advances documented))
          (case_ends (field_no == 4) _ _
            (assign-Moves _ (λ v. record m { ttl_seconds = v }) (int64_moves-Advances documented))
            default_ends)))

abbrev pub DecrementResponseFits : DecrementResponse → Type 0
DecrementResponseFits m = IsInt64 m.value

pub decrement_response_type-RoundTrips :
    {runtime : Runtime}
    → IsDocumented runtime
    → (policy : UnknownPolicy) (m : DecrementResponse) → DecrementResponseFits m
    → RoundTrips runtime (decrement_response_type runtime) policy m
unfolding decrement_response_type
decrement_response_type-RoundTrips documented policy m h1 =
    round_trips documented _ policy m
      (int64_field documented _ policy 1 (λ v. record { value = v }) m.value (omega arith) refl h1)

pub decrement_response_type-Terminates :
    {runtime : Runtime} → IsDocumented runtime → Terminates (decrement_response_type runtime)
unfolding decrement_response_type
decrement_response_type-Terminates documented policy field_no t m =
    case_ends (field_no == 1) _ _
      (assign-Moves _ (λ v. record m { value = v }) (int64_moves-Advances documented)) default_ends
