-- ===== src/Proto/Common/RoundTrip.antt =====
-- Lemmas about the round trips and the reading of the messages of Proto/Common.antt.
-- Code: sdk/typescript/src/gen/pgapp/v1
use pgapp.Common.{◌==◌, refl, arith, pos}
use pgapp.Wire.{Runtime, UnknownPolicy}
use pgapp.Wire.Documented.{IsDocumented, FitsInt32}
use pgapp.Wire.Loop.{Terminates, case_ends, default_ends, assign-Moves}
use pgapp.Wire.Fields.{Reads-then, Reads-nothing}
use pgapp.Wire.Scalars.{string_field, bool_field, int32_field}
use pgapp.Wire.Nested.{RoundTrips, round_trips}
use pgapp.Proto.Common.{
  Empty, empty_type, empty, OperationResult, operation_result_type, ServiceCapability,
  service_capability_type,
}

abbrev pub EmptyFits : Empty → Type 0
EmptyFits _ = Unit

pub empty_type-RoundTrips :
    {runtime : Runtime}
    → IsDocumented runtime
    → (policy : UnknownPolicy) (m : Empty) → EmptyFits m
    → RoundTrips runtime (empty_type runtime) policy m
unfolding empty_type
empty_type-RoundTrips documented policy empty _ =
    round_trips documented _ policy empty (Reads-nothing _)

pub empty_type-Terminates :
    {runtime : Runtime} → IsDocumented runtime → Terminates (empty_type runtime)
unfolding empty_type
empty_type-Terminates documented policy field_no t m = default_ends

abbrev pub OperationResultFits : OperationResult → Type 0
OperationResultFits _ = Unit

pub operation_result_type-RoundTrips :
    {runtime : Runtime}
    → IsDocumented runtime
    → (policy : UnknownPolicy) (m : OperationResult) → OperationResultFits m
    → RoundTrips runtime (operation_result_type runtime) policy m
unfolding operation_result_type
operation_result_type-RoundTrips documented policy m _ =
    round_trips documented _ policy m
      (bool_field documented _ policy 1 (λ v. record { success = v }) m.success (omega arith) refl)

pub operation_result_type-Terminates :
    {runtime : Runtime} → IsDocumented runtime → Terminates (operation_result_type runtime)
unfolding operation_result_type
operation_result_type-Terminates documented policy field_no t m =
    case_ends (field_no == 1) _ _
      (assign-Moves _ (λ v. record m { success = v }) documented.bool_moves) default_ends

abbrev pub ServiceCapabilityFits : ServiceCapability → Type 0
ServiceCapabilityFits m = FitsInt32 m.state

pub service_capability_type-RoundTrips :
    {runtime : Runtime}
    → IsDocumented runtime
    → (policy : UnknownPolicy) (m : ServiceCapability) → ServiceCapabilityFits m
    → RoundTrips runtime (service_capability_type runtime) policy m
unfolding service_capability_type
service_capability_type-RoundTrips documented policy m h1 = round_trips documented _ policy m (
    Reads-then
      (string_field documented _ policy 1 (λ v. record { name = v; state = pos 0; message = "" })
        m.name (omega arith) refl)
      (Reads-then
        (int32_field documented _ policy 2 (λ v. record { name = m.name; state = v; message = "" })
          m.state (omega arith) refl h1)
        (string_field documented _ policy 3
          (λ v. record { name = m.name; state = m.state; message = v }) m.message (omega arith)
          refl)))

pub service_capability_type-Terminates :
    {runtime : Runtime} → IsDocumented runtime → Terminates (service_capability_type runtime)
unfolding service_capability_type
service_capability_type-Terminates documented policy field_no t m =
    case_ends (field_no == 1) _ _
      (assign-Moves _ (λ v. record m { name = v }) documented.string_moves)
      (case_ends (field_no == 2) _ _
        (assign-Moves _ (λ v. record m { state = v }) documented.int32_moves)
        (case_ends (field_no == 3) _ _
          (assign-Moves _ (λ v. record m { message = v }) documented.string_moves) default_ends))
