-- ===== src/Proto/Mq/Leases/RoundTrip.antt =====
-- Lemmas about the round trips and the reading of the messages of Proto/Mq/Leases.antt.
-- Code: sdk/typescript/src/gen/pgapp/v1
use pgapp.Common.{◌==◌, refl, arith}
use pgapp.Number.{IsInt64}
use pgapp.Wire.{Runtime, UnknownPolicy}
use pgapp.Wire.Documented.{IsDocumented}
use pgapp.Wire.Loop.{Terminates, case_ends, default_ends, assign-Moves, int64_moves-Advances}
use pgapp.Wire.Fields.{Reads-then}
use pgapp.Wire.Scalars.{string_field, int64_field}
use pgapp.Wire.Nested.{RoundTrips, round_trips}
use pgapp.Proto.Mq.Leases.{
  AckMessageRequest, ack_message_request_type, ArchiveMessageRequest, archive_message_request_type,
  SetVisibilityTimeoutRequest, set_visibility_timeout_request_type,
}

abbrev pub AckMessageRequestFits : AckMessageRequest → Type 0
AckMessageRequestFits m = IsInt64 m.message_id

pub ack_message_request_type-RoundTrips :
    {runtime : Runtime}
    → IsDocumented runtime
    → (policy : UnknownPolicy) (m : AckMessageRequest) → AckMessageRequestFits m
    → RoundTrips runtime (ack_message_request_type runtime) policy m
unfolding ack_message_request_type
ack_message_request_type-RoundTrips documented policy m h1 = round_trips documented _ policy m (
    Reads-then
      (string_field documented _ policy 1
        (λ v. record { queue_name = v; message_id = "0"; ack_token = "" }) m.queue_name
        (omega arith) refl)
      (Reads-then
        (int64_field documented _ policy 2
          (λ v. record { queue_name = m.queue_name; message_id = v; ack_token = "" }) m.message_id
          (omega arith) refl h1)
        (string_field documented _ policy 3
          (λ v. record { queue_name = m.queue_name; message_id = m.message_id; ack_token = v })
          m.ack_token (omega arith) refl)))

pub ack_message_request_type-Terminates :
    {runtime : Runtime} → IsDocumented runtime → Terminates (ack_message_request_type runtime)
unfolding ack_message_request_type
ack_message_request_type-Terminates documented policy field_no t m =
    case_ends (field_no == 1) _ _
      (assign-Moves _ (λ v. record m { queue_name = v }) documented.string_moves)
      (case_ends (field_no == 2) _ _
        (assign-Moves _ (λ v. record m { message_id = v }) (int64_moves-Advances documented))
        (case_ends (field_no == 3) _ _
          (assign-Moves _ (λ v. record m { ack_token = v }) documented.string_moves) default_ends))

abbrev pub ArchiveMessageRequestFits : ArchiveMessageRequest → Type 0
ArchiveMessageRequestFits m = IsInt64 m.message_id

pub archive_message_request_type-RoundTrips :
    {runtime : Runtime}
    → IsDocumented runtime
    → (policy : UnknownPolicy) (m : ArchiveMessageRequest) → ArchiveMessageRequestFits m
    → RoundTrips runtime (archive_message_request_type runtime) policy m
unfolding archive_message_request_type
archive_message_request_type-RoundTrips documented policy m h1 = round_trips documented _ policy m (
    Reads-then
      (string_field documented _ policy 1
        (λ v. record { queue_name = v; message_id = "0"; ack_token = "" }) m.queue_name
        (omega arith) refl)
      (Reads-then
        (int64_field documented _ policy 2
          (λ v. record { queue_name = m.queue_name; message_id = v; ack_token = "" }) m.message_id
          (omega arith) refl h1)
        (string_field documented _ policy 3
          (λ v. record { queue_name = m.queue_name; message_id = m.message_id; ack_token = v })
          m.ack_token (omega arith) refl)))

pub archive_message_request_type-Terminates :
    {runtime : Runtime} → IsDocumented runtime → Terminates (archive_message_request_type runtime)
unfolding archive_message_request_type
archive_message_request_type-Terminates documented policy field_no t m =
    case_ends (field_no == 1) _ _
      (assign-Moves _ (λ v. record m { queue_name = v }) documented.string_moves)
      (case_ends (field_no == 2) _ _
        (assign-Moves _ (λ v. record m { message_id = v }) (int64_moves-Advances documented))
        (case_ends (field_no == 3) _ _
          (assign-Moves _ (λ v. record m { ack_token = v }) documented.string_moves) default_ends))

abbrev pub SetVisibilityTimeoutRequestFits : SetVisibilityTimeoutRequest → Type 0
SetVisibilityTimeoutRequestFits m = (IsInt64 m.message_id) × (IsInt64 m.visibility_timeout_seconds)

pub set_visibility_timeout_request_type-RoundTrips :
    {runtime : Runtime}
    → IsDocumented runtime
    → (policy : UnknownPolicy) (m : SetVisibilityTimeoutRequest) → SetVisibilityTimeoutRequestFits m
    → RoundTrips runtime (set_visibility_timeout_request_type runtime) policy m
unfolding set_visibility_timeout_request_type
set_visibility_timeout_request_type-RoundTrips documented policy m (h1, h2) =
    round_trips documented _ policy m (
      Reads-then
        (string_field documented _ policy 1
          (λ v. record {
            queue_name = v;
            message_id = "0";
            visibility_timeout_seconds = "0";
            ack_token = "";
          })
          m.queue_name (omega arith) refl)
        (Reads-then
          (int64_field documented _ policy 2
            (λ v. record {
              queue_name = m.queue_name;
              message_id = v;
              visibility_timeout_seconds = "0";
              ack_token = "";
            })
            m.message_id (omega arith) refl h1)
          (Reads-then
            (int64_field documented _ policy 3
              (λ v. record {
                queue_name = m.queue_name;
                message_id = m.message_id;
                visibility_timeout_seconds = v;
                ack_token = "";
              })
              m.visibility_timeout_seconds (omega arith) refl h2)
            (string_field documented _ policy 4
              (λ v. record {
                queue_name = m.queue_name;
                message_id = m.message_id;
                visibility_timeout_seconds = m.visibility_timeout_seconds;
                ack_token = v;
              })
              m.ack_token (omega arith) refl))))

pub set_visibility_timeout_request_type-Terminates :
    {runtime : Runtime}
    → IsDocumented runtime
    → Terminates (set_visibility_timeout_request_type runtime)
unfolding set_visibility_timeout_request_type
set_visibility_timeout_request_type-Terminates documented policy field_no t m =
    case_ends (field_no == 1) _ _
      (assign-Moves _ (λ v. record m { queue_name = v }) documented.string_moves)
      (case_ends (field_no == 2) _ _
        (assign-Moves _ (λ v. record m { message_id = v }) (int64_moves-Advances documented))
        (case_ends (field_no == 3) _ _
          (assign-Moves _ (λ v. record m { visibility_timeout_seconds = v })
            (int64_moves-Advances documented))
          (case_ends (field_no == 4) _ _
            (assign-Moves _ (λ v. record m { ack_token = v }) documented.string_moves)
            default_ends)))
