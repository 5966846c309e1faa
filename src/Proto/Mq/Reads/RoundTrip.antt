-- ===== src/Proto/Mq/Reads/RoundTrip.antt =====
-- Lemmas about the round trips and the reading of the messages of Proto/Mq/Reads.antt.
-- Code: sdk/typescript/src/gen/pgapp/v1
use pgapp.Common.{◌==◌, ◌++◌, ◌∷◌, [], refl, arith, All, pos}
use pgapp.Number.{IsInt64}
use pgapp.Wire.{Runtime, UnknownPolicy}
use pgapp.Wire.Documented.{IsDocumented, FitsInt32}
use pgapp.Wire.Loop.{Terminates, case_ends, default_ends, assign-Moves, int64_moves-Advances}
use pgapp.Wire.Fields.{Reads-then}
use pgapp.Wire.Scalars.{string_field, int32_field, int64_field}
use pgapp.Wire.Nested.{
  RoundTrips, round_trips, MessageFits, All-MessageFits→Trips, repeated_field, assign_parsed-Moves,
  read_nested-Moves,
}
use pgapp.Proto.Mq.Reads.{
  ReadMessagesRequest, read_messages_request_type, ReadWithPollRequest, read_with_poll_request_type,
  StreamReadRequest, stream_read_request_type, QueueMessage, queue_message_type,
  ReadMessagesResponse, read_messages_response_type,
}

abbrev pub ReadMessagesRequestFits : ReadMessagesRequest → Type 0
ReadMessagesRequestFits m = (FitsInt32 m.quantity) × (IsInt64 m.visibility_timeout_seconds)

pub read_messages_request_type-RoundTrips :
    {runtime : Runtime}
    → IsDocumented runtime
    → (policy : UnknownPolicy) (m : ReadMessagesRequest) → ReadMessagesRequestFits m
    → RoundTrips runtime (read_messages_request_type runtime) policy m
unfolding read_messages_request_type
read_messages_request_type-RoundTrips documented policy m (h1, h2) =
    round_trips documented _ policy m (
      Reads-then
        (string_field documented _ policy 1
          (λ v. record { queue_name = v; quantity = pos 0; visibility_timeout_seconds = "0" })
          m.queue_name (omega arith) refl)
        (Reads-then
          (int32_field documented _ policy 2
            (λ v. record {
              queue_name = m.queue_name;
              quantity = v;
              visibility_timeout_seconds = "0";
            })
            m.quantity (omega arith) refl h1)
          (int64_field documented _ policy 3
            (λ v. record {
              queue_name = m.queue_name;
              quantity = m.quantity;
              visibility_timeout_seconds = v;
            })
            m.visibility_timeout_seconds (omega arith) refl h2)))

pub read_messages_request_type-Terminates :
    {runtime : Runtime} → IsDocumented runtime → Terminates (read_messages_request_type runtime)
unfolding read_messages_request_type
read_messages_request_type-Terminates documented policy field_no t m =
    case_ends (field_no == 1) _ _
      (assign-Moves _ (λ v. record m { queue_name = v }) documented.string_moves)
      (case_ends (field_no == 2) _ _
        (assign-Moves _ (λ v. record m { quantity = v }) documented.int32_moves)
        (case_ends (field_no == 3) _ _
          (assign-Moves _ (λ v. record m { visibility_timeout_seconds = v })
            (int64_moves-Advances documented))
          default_ends))

abbrev pub ReadWithPollRequestFits : ReadWithPollRequest → Type 0
ReadWithPollRequestFits m =
    (FitsInt32 m.quantity)
    × (IsInt64 m.visibility_timeout_seconds)
    × (IsInt64 m.max_poll_seconds)
    × (IsInt64 m.poll_interval_millis)

pub read_with_poll_request_type-RoundTrips :
    {runtime : Runtime}
    → IsDocumented runtime
    → (policy : UnknownPolicy) (m : ReadWithPollRequest) → ReadWithPollRequestFits m
    → RoundTrips runtime (read_with_poll_request_type runtime) policy m
unfolding read_with_poll_request_type
read_with_poll_request_type-RoundTrips documented policy m (h1, h2, h3, h4) =
    round_trips documented _ policy m (
      Reads-then
        (string_field documented _ policy 1
          (λ v. record {
            queue_name = v;
            quantity = pos 0;
            visibility_timeout_seconds = "0";
            max_poll_seconds = "0";
            poll_interval_millis = "0";
          })
          m.queue_name (omega arith) refl)
        (Reads-then
          (int32_field documented _ policy 2
            (λ v. record {
              queue_name = m.queue_name;
              quantity = v;
              visibility_timeout_seconds = "0";
              max_poll_seconds = "0";
              poll_interval_millis = "0";
            })
            m.quantity (omega arith) refl h1)
          (Reads-then
            (int64_field documented _ policy 3
              (λ v. record {
                queue_name = m.queue_name;
                quantity = m.quantity;
                visibility_timeout_seconds = v;
                max_poll_seconds = "0";
                poll_interval_millis = "0";
              })
              m.visibility_timeout_seconds (omega arith) refl h2)
            (Reads-then
              (int64_field documented _ policy 4
                (λ v. record {
                  queue_name = m.queue_name;
                  quantity = m.quantity;
                  visibility_timeout_seconds = m.visibility_timeout_seconds;
                  max_poll_seconds = v;
                  poll_interval_millis = "0";
                })
                m.max_poll_seconds (omega arith) refl h3)
              (int64_field documented _ policy 5
                (λ v. record {
                  queue_name = m.queue_name;
                  quantity = m.quantity;
                  visibility_timeout_seconds = m.visibility_timeout_seconds;
                  max_poll_seconds = m.max_poll_seconds;
                  poll_interval_millis = v;
                })
                m.poll_interval_millis (omega arith) refl h4)))))

pub read_with_poll_request_type-Terminates :
    {runtime : Runtime} → IsDocumented runtime → Terminates (read_with_poll_request_type runtime)
unfolding read_with_poll_request_type
read_with_poll_request_type-Terminates documented policy field_no t m =
    case_ends (field_no == 1) _ _
      (assign-Moves _ (λ v. record m { queue_name = v }) documented.string_moves)
      (case_ends (field_no == 2) _ _
        (assign-Moves _ (λ v. record m { quantity = v }) documented.int32_moves)
        (case_ends (field_no == 3) _ _
          (assign-Moves _ (λ v. record m { visibility_timeout_seconds = v })
            (int64_moves-Advances documented))
          (case_ends (field_no == 4) _ _
            (assign-Moves _ (λ v. record m { max_poll_seconds = v })
              (int64_moves-Advances documented))
            (case_ends (field_no == 5) _ _
              (assign-Moves _ (λ v. record m { poll_interval_millis = v })
                (int64_moves-Advances documented))
              default_ends))))

abbrev pub StreamReadRequestFits : StreamReadRequest → Type 0
StreamReadRequestFits m = (FitsInt32 m.quantity) × (IsInt64 m.visibility_timeout_seconds)

pub stream_read_request_type-RoundTrips :
    {runtime : Runtime}
    → IsDocumented runtime
    → (policy : UnknownPolicy) (m : StreamReadRequest) → StreamReadRequestFits m
    → RoundTrips runtime (stream_read_request_type runtime) policy m
unfolding stream_read_request_type
stream_read_request_type-RoundTrips documented policy m (h1, h2) =
    round_trips documented _ policy m (
      Reads-then
        (string_field documented _ policy 1
          (λ v. record { queue_name = v; quantity = pos 0; visibility_timeout_seconds = "0" })
          m.queue_name (omega arith) refl)
        (Reads-then
          (int32_field documented _ policy 2
            (λ v. record {
              queue_name = m.queue_name;
              quantity = v;
              visibility_timeout_seconds = "0";
            })
            m.quantity (omega arith) refl h1)
          (int64_field documented _ policy 3
            (λ v. record {
              queue_name = m.queue_name;
              quantity = m.quantity;
              visibility_timeout_seconds = v;
            })
            m.visibility_timeout_seconds (omega arith) refl h2)))

pub stream_read_request_type-Terminates :
    {runtime : Runtime} → IsDocumented runtime → Terminates (stream_read_request_type runtime)
unfolding stream_read_request_type
stream_read_request_type-Terminates documented policy field_no t m =
    case_ends (field_no == 1) _ _
      (assign-Moves _ (λ v. record m { queue_name = v }) documented.string_moves)
      (case_ends (field_no == 2) _ _
        (assign-Moves _ (λ v. record m { quantity = v }) documented.int32_moves)
        (case_ends (field_no == 3) _ _
          (assign-Moves _ (λ v. record m { visibility_timeout_seconds = v })
            (int64_moves-Advances documented))
          default_ends))

abbrev pub QueueMessageFits : QueueMessage → Type 0
QueueMessageFits m = (IsInt64 m.message_id) × (FitsInt32 m.read_count)

pub queue_message_type-RoundTrips :
    {runtime : Runtime}
    → IsDocumented runtime
    → (policy : UnknownPolicy) (m : QueueMessage) → QueueMessageFits m
    → RoundTrips runtime (queue_message_type runtime) policy m
unfolding queue_message_type
queue_message_type-RoundTrips documented policy m (h1, h2) = round_trips documented _ policy m (
    Reads-then
      (int64_field documented _ policy 1
        (λ v. record {
          message_id = v;
          read_count = pos 0;
          enqueued_at = "";
          visibility_timeout_at = "";
          json_payload = "";
          ack_token = "";
        })
        m.message_id (omega arith) refl h1)
      (Reads-then
        (int32_field documented _ policy 2
          (λ v. record {
            message_id = m.message_id;
            read_count = v;
            enqueued_at = "";
            visibility_timeout_at = "";
            json_payload = "";
            ack_token = "";
          })
          m.read_count (omega arith) refl h2)
        (Reads-then
          (string_field documented _ policy 3
            (λ v. record {
              message_id = m.message_id;
              read_count = m.read_count;
              enqueued_at = v;
              visibility_timeout_at = "";
              json_payload = "";
              ack_token = "";
            })
            m.enqueued_at (omega arith) refl)
          (Reads-then
            (string_field documented _ policy 4
              (λ v. record {
                message_id = m.message_id;
                read_count = m.read_count;
                enqueued_at = m.enqueued_at;
                visibility_timeout_at = v;
                json_payload = "";
                ack_token = "";
              })
              m.visibility_timeout_at (omega arith) refl)
            (Reads-then
              (string_field documented _ policy 5
                (λ v. record {
                  message_id = m.message_id;
                  read_count = m.read_count;
                  enqueued_at = m.enqueued_at;
                  visibility_timeout_at = m.visibility_timeout_at;
                  json_payload = v;
                  ack_token = "";
                })
                m.json_payload (omega arith) refl)
              (string_field documented _ policy 6
                (λ v. record {
                  message_id = m.message_id;
                  read_count = m.read_count;
                  enqueued_at = m.enqueued_at;
                  visibility_timeout_at = m.visibility_timeout_at;
                  json_payload = m.json_payload;
                  ack_token = v;
                })
                m.ack_token (omega arith) refl))))))

pub queue_message_type-Terminates :
    {runtime : Runtime} → IsDocumented runtime → Terminates (queue_message_type runtime)
unfolding queue_message_type
queue_message_type-Terminates documented policy field_no t m =
    case_ends (field_no == 1) _ _
      (assign-Moves _ (λ v. record m { message_id = v }) (int64_moves-Advances documented))
      (case_ends (field_no == 2) _ _
        (assign-Moves _ (λ v. record m { read_count = v }) documented.int32_moves)
        (case_ends (field_no == 3) _ _
          (assign-Moves _ (λ v. record m { enqueued_at = v }) documented.string_moves)
          (case_ends (field_no == 4) _ _
            (assign-Moves _ (λ v. record m { visibility_timeout_at = v }) documented.string_moves)
            (case_ends (field_no == 5) _ _
              (assign-Moves _ (λ v. record m { json_payload = v }) documented.string_moves)
              (case_ends (field_no == 6) _ _
                (assign-Moves _ (λ v. record m { ack_token = v }) documented.string_moves)
                default_ends)))))

abbrev pub ReadMessagesResponseFits : ReadMessagesResponse → Type 0
ReadMessagesResponseFits m = All (MessageFits QueueMessageFits) m.messages

pub read_messages_response_type-RoundTrips :
    {runtime : Runtime}
    → IsDocumented runtime
    → (policy : UnknownPolicy) (m : ReadMessagesResponse) → ReadMessagesResponseFits m
    → RoundTrips runtime (read_messages_response_type runtime) policy m
unfolding read_messages_response_type
read_messages_response_type-RoundTrips documented policy m h1 = round_trips documented _ policy m (
    repeated_field documented _ policy _ 1 (λ v. record { messages = v }) m.messages (omega arith)
      (λ l. refl)
      (All-MessageFits→Trips (queue_message_type-RoundTrips documented policy) m.messages h1))

pub read_messages_response_type-Terminates :
    {runtime : Runtime} → IsDocumented runtime → Terminates (read_messages_response_type runtime)
unfolding read_messages_response_type
read_messages_response_type-Terminates documented policy field_no t m =
    case_ends (field_no == 1) _ _
      (assign_parsed-Moves _ (λ v. record m { messages = m.messages ++ v ∷ [] })
        (read_nested-Moves documented _ policy _ (queue_message_type-Terminates documented)))
      default_ends
