-- ===== src/Proto/Mq/Sends/RoundTrip.antt =====
-- Lemmas about the round trips and the reading of the messages of Proto/Mq/Sends.antt.
-- Code: sdk/typescript/src/gen/pgapp/v1
use pgapp.Common.{◌==◌, ◌++◌, ◌∷◌, [], refl, arith, All}
use pgapp.Number.{IsInt64}
use pgapp.Wire.{Runtime, UnknownPolicy, is_length_delimited}
use pgapp.Wire.Documented.{IsDocumented}
use pgapp.Wire.Loop.{
  Terminates, either_ends, case_ends, default_ends, assign-Moves, int64_moves-Advances,
}
use pgapp.Wire.Fields.{Reads-then}
use pgapp.Wire.Scalars.{string_field, int64_field}
use pgapp.Wire.Nested.{RoundTrips, round_trips, strings_field, assign_parsed-Moves}
use pgapp.Wire.Packed.{PackedFits, packed_field, read_packed_int64-Moves}
use pgapp.Proto.Mq.Sends.{
  SendMessageRequest, send_message_request_type, SendMessageResponse, send_message_response_type,
  SendBatchRequest, send_batch_request_type, SendBatchResponse, send_batch_response_type,
}

abbrev pub SendMessageRequestFits : SendMessageRequest → Type 0
SendMessageRequestFits m = IsInt64 m.delay_seconds

pub send_message_request_type-RoundTrips :
    {runtime : Runtime}
    → IsDocumented runtime
    → (policy : UnknownPolicy) (m : SendMessageRequest) → SendMessageRequestFits m
    → RoundTrips runtime (send_message_request_type runtime) policy m
unfolding send_message_request_type
send_message_request_type-RoundTrips documented policy m h1 = round_trips documented _ policy m (
    Reads-then
      (string_field documented _ policy 1
        (λ v. record { queue_name = v; json_payload = ""; delay_seconds = "0" }) m.queue_name
        (omega arith) refl)
      (Reads-then
        (string_field documented _ policy 2
          (λ v. record { queue_name = m.queue_name; json_payload = v; delay_seconds = "0" })
          m.json_payload (omega arith) refl)
        (int64_field documented _ policy 3
          (λ v. record {
            queue_name = m.queue_name;
            json_payload = m.json_payload;
            delay_seconds = v;
          })
          m.delay_seconds (omega arith) refl h1)))

pub send_message_request_type-Terminates :
    {runtime : Runtime} → IsDocumented runtime → Terminates (send_message_request_type runtime)
unfolding send_message_request_type
send_message_request_type-Terminates documented policy field_no t m =
    case_ends (field_no == 1) _ _
      (assign-Moves _ (λ v. record m { queue_name = v }) documented.string_moves)
      (case_ends (field_no == 2) _ _
        (assign-Moves _ (λ v. record m { json_payload = v }) documented.string_moves)
        (case_ends (field_no == 3) _ _
          (assign-Moves _ (λ v. record m { delay_seconds = v }) (int64_moves-Advances documented))
          default_ends))

abbrev pub SendMessageResponseFits : SendMessageResponse → Type 0
SendMessageResponseFits m = IsInt64 m.message_id

pub send_message_response_type-RoundTrips :
    {runtime : Runtime}
    → IsDocumented runtime
    → (policy : UnknownPolicy) (m : SendMessageResponse) → SendMessageResponseFits m
    → RoundTrips runtime (send_message_response_type runtime) policy m
unfolding send_message_response_type
send_message_response_type-RoundTrips documented policy m h1 = round_trips documented _ policy m (
    int64_field documented _ policy 1 (λ v. record { message_id = v }) m.message_id (omega arith)
      refl h1)

pub send_message_response_type-Terminates :
    {runtime : Runtime} → IsDocumented runtime → Terminates (send_message_response_type runtime)
unfolding send_message_response_type
send_message_response_type-Terminates documented policy field_no t m =
    case_ends (field_no == 1) _ _
      (assign-Moves _ (λ v. record m { message_id = v }) (int64_moves-Advances documented))
      default_ends

abbrev pub SendBatchRequestFits : SendBatchRequest → Type 0
SendBatchRequestFits m = IsInt64 m.delay_seconds

pub send_batch_request_type-RoundTrips :
    {runtime : Runtime}
    → IsDocumented runtime
    → (policy : UnknownPolicy) (m : SendBatchRequest) → SendBatchRequestFits m
    → RoundTrips runtime (send_batch_request_type runtime) policy m
unfolding send_batch_request_type
send_batch_request_type-RoundTrips documented policy m h1 = round_trips documented _ policy m (
    Reads-then
      (string_field documented _ policy 1
        (λ v. record { queue_name = v; json_payloads = []; delay_seconds = "0" }) m.queue_name
        (omega arith) refl)
      (Reads-then
        (strings_field documented _ policy 2
          (λ v. record { queue_name = m.queue_name; json_payloads = v; delay_seconds = "0" })
          m.json_payloads (omega arith) (λ l. refl))
        (int64_field documented _ policy 3
          (λ v. record {
            queue_name = m.queue_name;
            json_payloads = m.json_payloads;
            delay_seconds = v;
          })
          m.delay_seconds (omega arith) refl h1)))

pub send_batch_request_type-Terminates :
    {runtime : Runtime} → IsDocumented runtime → Terminates (send_batch_request_type runtime)
unfolding send_batch_request_type
send_batch_request_type-Terminates documented policy field_no t m =
    case_ends (field_no == 1) _ _
      (assign-Moves _ (λ v. record m { queue_name = v }) documented.string_moves)
      (case_ends (field_no == 2) _ _
        (assign-Moves _ (λ v. record m { json_payloads = m.json_payloads ++ v ∷ [] })
          documented.string_moves)
        (case_ends (field_no == 3) _ _
          (assign-Moves _ (λ v. record m { delay_seconds = v }) (int64_moves-Advances documented))
          default_ends))

abbrev pub SendBatchResponseFits : Runtime → SendBatchResponse → Type 0
SendBatchResponseFits runtime m = (All IsInt64 m.message_ids) × (PackedFits runtime m.message_ids)

pub send_batch_response_type-RoundTrips :
    {runtime : Runtime}
    → IsDocumented runtime
    → (policy : UnknownPolicy) (m : SendBatchResponse) → SendBatchResponseFits runtime m
    → RoundTrips runtime (send_batch_response_type runtime) policy m
unfolding send_batch_response_type
send_batch_response_type-RoundTrips documented policy m (h1, h2) =
    round_trips documented _ policy m (
      packed_field documented _ policy 1 (λ v. record { message_ids = v }) m.message_ids
        (omega arith) refl h1 h2)

pub send_batch_response_type-Terminates :
    {runtime : Runtime} → IsDocumented runtime → Terminates (send_batch_response_type runtime)
unfolding send_batch_response_type
send_batch_response_type-Terminates documented policy field_no t m =
    either_ends (field_no == 1) _ _
      (either_ends (is_length_delimited t) _ _
        (record {
          ends =
              assign_parsed-Moves _ (λ v. record m { message_ids = v })
                (read_packed_int64-Moves documented _);
        })
        (record {
          ends =
              assign-Moves _ (λ v. record m { message_ids = m.message_ids ++ v ∷ [] })
                (int64_moves-Advances documented);
        }))
      default_ends
