-- ===== src/Proto/Cache/Atomics/RoundTrip.antt =====
-- Lemmas about the round trips and the reading of the messages of Proto/Cache/Atomics.antt.
-- Code: sdk/typescript/src/gen/pgapp/v1
use pgapp.Common.{◌==◌, [], refl, arith}
use pgapp.Number.{IsInt64}
use pgapp.Wire.{Runtime, UnknownPolicy}
use pgapp.Wire.Documented.{IsDocumented, AreBytes}
use pgapp.Wire.Loop.{Terminates, case_ends, default_ends, assign-Moves, int64_moves-Advances}
use pgapp.Wire.Fields.{Reads-then}
use pgapp.Wire.Scalars.{string_field, bytes_field, bool_field, int64_field}
use pgapp.Wire.Nested.{RoundTrips, round_trips}
use pgapp.Proto.Cache.Atomics.{
  SetNxRequest, set_nx_request_type, SetNxResponse, set_nx_response_type, GetSetRequest,
  get_set_request_type, GetSetResponse, get_set_response_type, AppendRequest, append_request_type,
  AppendResponse, append_response_type, PrependRequest, prepend_request_type, PrependResponse,
  prepend_response_type,
}

abbrev pub SetNxRequestFits : SetNxRequest → Type 0
SetNxRequestFits m = (AreBytes m.value) × (IsInt64 m.ttl_seconds)

pub set_nx_request_type-RoundTrips :
    {runtime : Runtime}
    → IsDocumented runtime
    → (policy : UnknownPolicy) (m : SetNxRequest) → SetNxRequestFits m
    → RoundTrips runtime (set_nx_request_type runtime) policy m
unfolding set_nx_request_type
set_nx_request_type-RoundTrips documented policy m (h1, h2) = round_trips documented _ policy m (
    Reads-then
      (string_field documented _ policy 1
        (λ v. record { namespace = v; key = ""; value = []; ttl_seconds = "0" }) m.namespace
        (omega arith) refl)
      (Reads-then
        (string_field documented _ policy 2
          (λ v. record { namespace = m.namespace; key = v; value = []; ttl_seconds = "0" }) m.key
          (omega arith) refl)
        (Reads-then
          (bytes_field documented _ policy 3
            (λ v. record { namespace = m.namespace; key = m.key; value = v; ttl_seconds = "0" })
            m.value (omega arith) refl h1)
          (int64_field documented _ policy 4
            (λ v. record { namespace = m.namespace; key = m.key; value = m.value; ttl_seconds = v })
            m.ttl_seconds (omega arith) refl h2))))

pub set_nx_request_type-Terminates :
    {runtime : Runtime} → IsDocumented runtime → Terminates (set_nx_request_type runtime)
unfolding set_nx_request_type
set_nx_request_type-Terminates documented policy field_no t m =
    case_ends (field_no == 1) _ _
      (assign-Moves _ (λ v. record m { namespace = v }) documented.string_moves)
      (case_ends (field_no == 2) _ _
        (assign-Moves _ (λ v. record m { key = v }) documented.string_moves)
        (case_ends (field_no == 3) _ _
          (assign-Moves _ (λ v. record m { value = v }) documented.bytes_moves)
          (case_ends (field_no == 4) _ _
            (assign-Moves _ (λ v. record m { ttl_seconds = v }) (int64_moves-Advances documented))
            default_ends)))

abbrev pub SetNxResponseFits : SetNxResponse → Type 0
SetNxResponseFits _ = Unit

pub set_nx_response_type-RoundTrips :
    {runtime : Runtime}
    → IsDocumented runtime
    → (policy : UnknownPolicy) (m : SetNxResponse) → SetNxResponseFits m
    → RoundTrips runtime (set_nx_response_type runtime) policy m
unfolding set_nx_response_type
set_nx_response_type-RoundTrips documented policy m _ =
    round_trips documented _ policy m
      (bool_field documented _ policy 1 (λ v. record { created = v }) m.created (omega arith) refl)

pub set_nx_response_type-Terminates :
    {runtime : Runtime} → IsDocumented runtime → Terminates (set_nx_response_type runtime)
unfolding set_nx_response_type
set_nx_response_type-Terminates documented policy field_no t m =
    case_ends (field_no == 1) _ _
      (assign-Moves _ (λ v. record m { created = v }) documented.bool_moves) default_ends

abbrev pub GetSetRequestFits : GetSetRequest → Type 0
GetSetRequestFits m = (AreBytes m.value) × (IsInt64 m.ttl_seconds)

pub get_set_request_type-RoundTrips :
    {runtime : Runtime}
    → IsDocumented runtime
    → (policy : UnknownPolicy) (m : GetSetRequest) → GetSetRequestFits m
    → RoundTrips runtime (get_set_request_type runtime) policy m
unfolding get_set_request_type
get_set_request_type-RoundTrips documented policy m (h1, h2) = round_trips documented _ policy m (
    Reads-then
      (string_field documented _ policy 1
        (λ v. record { namespace = v; key = ""; value = []; ttl_seconds = "0" }) m.namespace
        (omega arith) refl)
      (Reads-then
        (string_field documented _ policy 2
          (λ v. record { namespace = m.namespace; key = v; value = []; ttl_seconds = "0" }) m.key
          (omega arith) refl)
        (Reads-then
          (bytes_field documented _ policy 3
            (λ v. record { namespace = m.namespace; key = m.key; value = v; ttl_seconds = "0" })
            m.value (omega arith) refl h1)
          (int64_field documented _ policy 4
            (λ v. record { namespace = m.namespace; key = m.key; value = m.value; ttl_seconds = v })
            m.ttl_seconds (omega arith) refl h2))))

pub get_set_request_type-Terminates :
    {runtime : Runtime} → IsDocumented runtime → Terminates (get_set_request_type runtime)
unfolding get_set_request_type
get_set_request_type-Terminates documented policy field_no t m =
    case_ends (field_no == 1) _ _
      (assign-Moves _ (λ v. record m { namespace = v }) documented.string_moves)
      (case_ends (field_no == 2) _ _
        (assign-Moves _ (λ v. record m { key = v }) documented.string_moves)
        (case_ends (field_no == 3) _ _
          (assign-Moves _ (λ v. record m { value = v }) documented.bytes_moves)
          (case_ends (field_no == 4) _ _
            (assign-Moves _ (λ v. record m { ttl_seconds = v }) (int64_moves-Advances documented))
            default_ends)))

abbrev pub GetSetResponseFits : GetSetResponse → Type 0
GetSetResponseFits m = AreBytes m.old_value

pub get_set_response_type-RoundTrips :
    {runtime : Runtime}
    → IsDocumented runtime
    → (policy : UnknownPolicy) (m : GetSetResponse) → GetSetResponseFits m
    → RoundTrips runtime (get_set_response_type runtime) policy m
unfolding get_set_response_type
get_set_response_type-RoundTrips documented policy m h1 = round_trips documented _ policy m (
    Reads-then
      (bool_field documented _ policy 1 (λ v. record { hit = v; old_value = [] }) m.hit
        (omega arith) refl)
      (bytes_field documented _ policy 2 (λ v. record { hit = m.hit; old_value = v }) m.old_value
        (omega arith) refl h1))

pub get_set_response_type-Terminates :
    {runtime : Runtime} → IsDocumented runtime → Terminates (get_set_response_type runtime)
unfolding get_set_response_type
get_set_response_type-Terminates documented policy field_no t m =
    case_ends (field_no == 1) _ _ (assign-Moves _ (λ v. record m { hit = v }) documented.bool_moves)
      (case_ends (field_no == 2) _ _
        (assign-Moves _ (λ v. record m { old_value = v }) documented.bytes_moves) default_ends)

abbrev pub AppendRequestFits : AppendRequest → Type 0
AppendRequestFits m = (AreBytes m.value) × (IsInt64 m.ttl_seconds)

pub append_request_type-RoundTrips :
    {runtime : Runtime}
    → IsDocumented runtime
    → (policy : UnknownPolicy) (m : AppendRequest) → AppendRequestFits m
    → RoundTrips runtime (append_request_type runtime) policy m
unfolding append_request_type
append_request_type-RoundTrips documented policy m (h1, h2) = round_trips documented _ policy m (
    Reads-then
      (string_field documented _ policy 1
        (λ v. record { namespace = v; key = ""; value = []; ttl_seconds = "0" }) m.namespace
        (omega arith) refl)
      (Reads-then
        (string_field documented _ policy 2
          (λ v. record { namespace = m.namespace; key = v; value = []; ttl_seconds = "0" }) m.key
          (omega arith) refl)
        (Reads-then
          (bytes_field documented _ policy 3
            (λ v. record { namespace = m.namespace; key = m.key; value = v; ttl_seconds = "0" })
            m.value (omega arith) refl h1)
          (int64_field documented _ policy 4
            (λ v. record { namespace = m.namespace; key = m.key; value = m.value; ttl_seconds = v })
            m.ttl_seconds (omega arith) refl h2))))

pub append_request_type-Terminates :
    {runtime : Runtime} → IsDocumented runtime → Terminates (append_request_type runtime)
unfolding append_request_type
append_request_type-Terminates documented policy field_no t m =
    case_ends (field_no == 1) _ _
      (assign-Moves _ (λ v. record m { namespace = v }) documented.string_moves)
      (case_ends (field_no == 2) _ _
        (assign-Moves _ (λ v. record m { key = v }) documented.string_moves)
        (case_ends (field_no == 3) _ _
          (assign-Moves _ (λ v. record m { value = v }) documented.bytes_moves)
          (case_ends (field_no == 4) _ _
            (assign-Moves _ (λ v. record m { ttl_seconds = v }) (int64_moves-Advances documented))
            default_ends)))

abbrev pub AppendResponseFits : AppendResponse → Type 0
AppendResponseFits m = IsInt64 m.length

pub append_response_type-RoundTrips :
    {runtime : Runtime}
    → IsDocumented runtime
    → (policy : UnknownPolicy) (m : AppendResponse) → AppendResponseFits m
    → RoundTrips runtime (append_response_type runtime) policy m
unfolding append_response_type
append_response_type-RoundTrips documented policy m h1 =
    round_trips documented _ policy m (
      int64_field documented _ policy 1 (λ v. record { length = v }) m.length (omega arith) refl h1)

pub append_response_type-Terminates :
    {runtime : Runtime} → IsDocumented runtime → Terminates (append_response_type runtime)
unfolding append_response_type
append_response_type-Terminates documented policy field_no t m =
    case_ends (field_no == 1) _ _
      (assign-Moves _ (λ v. record m { length = v }) (int64_moves-Advances documented)) default_ends

abbrev pub PrependRequestFits : PrependRequest → Type 0
PrependRequestFits m = (AreBytes m.value) × (IsInt64 m.ttl_seconds)

pub prepend_request_type-RoundTrips :
    {runtime : Runtime}
    → IsDocumented runtime
    → (policy : UnknownPolicy) (m : PrependRequest) → PrependRequestFits m
    → RoundTrips runtime (prepend_request_type runtime) policy m
unfolding prepend_request_type
prepend_request_type-RoundTrips documented policy m (h1, h2) = round_trips documented _ policy m (
    Reads-then
      (string_field documented _ policy 1
        (λ v. record { namespace = v; key = ""; value = []; ttl_seconds = "0" }) m.namespace
        (omega arith) refl)
      (Reads-then
        (string_field documented _ policy 2
          (λ v. record { namespace = m.namespace; key = v; value = []; ttl_seconds = "0" }) m.key
          (omega arith) refl)
        (Reads-then
          (bytes_field documented _ policy 3
            (λ v. record { namespace = m.namespace; key = m.key; value = v; ttl_seconds = "0" })
            m.value (omega arith) refl h1)
          (int64_field documented _ policy 4
            (λ v. record { namespace = m.namespace; key = m.key; value = m.value; ttl_seconds = v })
            m.ttl_seconds (omega arith) refl h2))))

pub prepend_request_type-Terminates :
    {runtime : Runtime} → IsDocumented runtime → Terminates (prepend_request_type runtime)
unfolding prepend_request_type
prepend_request_type-Terminates documented policy field_no t m =
    case_ends (field_no == 1) _ _
      (assign-Moves _ (λ v. record m { namespace = v }) documented.string_moves)
      (case_ends (field_no == 2) _ _
        (assign-Moves _ (λ v. record m { key = v }) documented.string_moves)
        (case_ends (field_no == 3) _ _
          (assign-Moves _ (λ v. record m { value = v }) documented.bytes_moves)
          (case_ends (field_no == 4) _ _
            (assign-Moves _ (λ v. record m { ttl_seconds = v }) (int64_moves-Advances documented))
            default_ends)))

abbrev pub PrependResponseFits : PrependResponse → Type 0
PrependResponseFits m = IsInt64 m.length

pub prepend_response_type-RoundTrips :
    {runtime : Runtime}
    → IsDocumented runtime
    → (policy : UnknownPolicy) (m : PrependResponse) → PrependResponseFits m
    → RoundTrips runtime (prepend_response_type runtime) policy m
unfolding prepend_response_type
prepend_response_type-RoundTrips documented policy m h1 =
    round_trips documented _ policy m (
      int64_field documented _ policy 1 (λ v. record { length = v }) m.length (omega arith) refl h1)

pub prepend_response_type-Terminates :
    {runtime : Runtime} → IsDocumented runtime → Terminates (prepend_response_type runtime)
unfolding prepend_response_type
prepend_response_type-Terminates documented policy field_no t m =
    case_ends (field_no == 1) _ _
      (assign-Moves _ (λ v. record m { length = v }) (int64_moves-Advances documented)) default_ends
