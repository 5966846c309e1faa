-- ===== src/Proto/Mq/DeadLetters/RoundTrip.antt =====
-- Lemmas about the round trips and the reading of the messages of Proto/Mq/DeadLetters.antt.
-- Code: sdk/typescript/src/gen/pgapp/v1
use pgapp.Common.{◌==◌, ◌++◌, ◌∷◌, [], refl, arith, All, pos}
use pgapp.Number.{IsInt64}
use pgapp.Wire.{Runtime, UnknownPolicy}
use pgapp.Wire.Documented.{IsDocumented, FitsInt32}
use pgapp.Wire.Loop.{Terminates, case_ends, default_ends, assign-Moves, int64_moves-Advances}
use pgapp.Wire.Fields.{Reads-then}
use pgapp.Wire.Scalars.{string_field, int32_field, int64_field}
use pgapp.Wire.Nested.{
  RoundTrips, round_trips, MessageFits, All-MessageFits→Trips, repeated_field, assign_parsed-Moves,
  read_nested-Moves,
}
use pgapp.Proto.Mq.DeadLetters.{
  DlqMessage, dlq_message_type, ListDlqMessagesRequest, list_dlq_messages_request_type,
  ListDlqMessagesResponse, list_dlq_messages_response_type, GetDlqMessageRequest,
  get_dlq_message_request_type, ReprocessDlqMessageRequest, reprocess_dlq_message_request_type,
  PurgeDlqRequest, purge_dlq_request_type,
}

abbrev pub DlqMessageFits : DlqMessage → Type 0
DlqMessageFits m = (IsInt64 m.id) × (IsInt64 m.original_message_id) × (FitsInt32 m.read_count)

pub dlq_message_type-RoundTrips :
    {runtime : Runtime}
    → IsDocumented runtime
    → (policy : UnknownPolicy) (m : DlqMessage) → DlqMessageFits m
    → RoundTrips runtime (dlq_message_type runtime) policy m
unfolding dlq_message_type
dlq_message_type-RoundTrips documented policy m (h1, h2, h3) = round_trips documented _ policy m (
    Reads-then
      (int64_field documented _ policy 1
        (λ v. record {
          id = v;
          original_message_id = "0";
          read_count = pos 0;
          enqueued_at = "";
          dead_lettered_at = "";
          json_payload = "";
          reason = "";
        })
        m.id (omega arith) refl h1)
      (Reads-then
        (int64_field documented _ policy 2
          (λ v. record {
            id = m.id;
            original_message_id = v;
            read_count = pos 0;
            enqueued_at = "";
            dead_lettered_at = "";
            json_payload = "";
            reason = "";
          })
          m.original_message_id (omega arith) refl h2)
        (Reads-then
          (int32_field documented _ policy 3
            (λ v. record {
              id = m.id;
              original_message_id = m.original_message_id;
              read_count = v;
              enqueued_at = "";
              dead_lettered_at = "";
              json_payload = "";
              reason = "";
            })
            m.read_count (omega arith) refl h3)
          (Reads-then
            (string_field documented _ policy 4
              (λ v. record {
                id = m.id;
                original_message_id = m.original_message_id;
                read_count = m.read_count;
                enqueued_at = v;
                dead_lettered_at = "";
                json_payload = "";
                reason = "";
              })
              m.enqueued_at (omega arith) refl)
            (Reads-then
              (string_field documented _ policy 5
                (λ v. record {
                  id = m.id;
                  original_message_id = m.original_message_id;
                  read_count = m.read_count;
                  enqueued_at = m.enqueued_at;
                  dead_lettered_at = v;
                  json_payload = "";
                  reason = "";
                })
                m.dead_lettered_at (omega arith) refl)
              (Reads-then
                (string_field documented _ policy 6
                  (λ v. record {
                    id = m.id;
                    original_message_id = m.original_message_id;
                    read_count = m.read_count;
                    enqueued_at = m.enqueued_at;
                    dead_lettered_at = m.dead_lettered_at;
                    json_payload = v;
                    reason = "";
                  })
                  m.json_payload (omega arith) refl)
                (string_field documented _ policy 7
                  (λ v. record {
                    id = m.id;
                    original_message_id = m.original_message_id;
                    read_count = m.read_count;
                    enqueued_at = m.enqueued_at;
                    dead_lettered_at = m.dead_lettered_at;
                    json_payload = m.json_payload;
                    reason = v;
                  })
                  m.reason (omega arith) refl)))))))

pub dlq_message_type-Terminates :
    {runtime : Runtime} → IsDocumented runtime → Terminates (dlq_message_type runtime)
unfolding dlq_message_type
dlq_message_type-Terminates documented policy field_no t m =
    case_ends (field_no == 1) _ _
      (assign-Moves _ (λ v. record m { id = v }) (int64_moves-Advances documented))
      (case_ends (field_no == 2) _ _
        (assign-Moves _ (λ v. record m { original_message_id = v })
          (int64_moves-Advances documented))
        (case_ends (field_no == 3) _ _
          (assign-Moves _ (λ v. record m { read_count = v }) documented.int32_moves)
          (case_ends (field_no == 4) _ _
            (assign-Moves _ (λ v. record m { enqueued_at = v }) documented.string_moves)
            (case_ends (field_no == 5) _ _
              (assign-Moves _ (λ v. record m { dead_lettered_at = v }) documented.string_moves)
              (case_ends (field_no == 6) _ _
                (assign-Moves _ (λ v. record m { json_payload = v }) documented.string_moves)
                (case_ends (field_no == 7) _ _
                  (assign-Moves _ (λ v. record m { reason = v }) documented.string_moves)
                  default_ends))))))

abbrev pub ListDlqMessagesRequestFits : ListDlqMessagesRequest → Type 0
ListDlqMessagesRequestFits m = (FitsInt32 m.limit) × (IsInt64 m.offset)

pub list_dlq_messages_request_type-RoundTrips :
    {runtime : Runtime}
    → IsDocumented runtime
    → (policy : UnknownPolicy) (m : ListDlqMessagesRequest) → ListDlqMessagesRequestFits m
    → RoundTrips runtime (list_dlq_messages_request_type runtime) policy m
unfolding list_dlq_messages_request_type
list_dlq_messages_request_type-RoundTrips documented policy m (h1, h2) =
    round_trips documented _ policy m (
      Reads-then
        (string_field documented _ policy 1
          (λ v. record { queue_name = v; limit = pos 0; offset = "0" }) m.queue_name (omega arith)
          refl)
        (Reads-then
          (int32_field documented _ policy 2
            (λ v. record { queue_name = m.queue_name; limit = v; offset = "0" }) m.limit
            (omega arith) refl h1)
          (int64_field documented _ policy 3
            (λ v. record { queue_name = m.queue_name; limit = m.limit; offset = v }) m.offset
            (omega arith) refl h2)))

pub list_dlq_messages_request_type-Terminates :
    {runtime : Runtime} → IsDocumented runtime → Terminates (list_dlq_messages_request_type runtime)
unfolding list_dlq_messages_request_type
list_dlq_messages_request_type-Terminates documented policy field_no t m =
    case_ends (field_no == 1) _ _
      (assign-Moves _ (λ v. record m { queue_name = v }) documented.string_moves)
      (case_ends (field_no == 2) _ _
        (assign-Moves _ (λ v. record m { limit = v }) documented.int32_moves)
        (case_ends (field_no == 3) _ _
          (assign-Moves _ (λ v. record m { offset = v }) (int64_moves-Advances documented))
          default_ends))

abbrev pub ListDlqMessagesResponseFits : ListDlqMessagesResponse → Type 0
ListDlqMessagesResponseFits m =
    (All (MessageFits DlqMessageFits) m.messages) × (IsInt64 m.next_offset)

pub list_dlq_messages_response_type-RoundTrips :
    {runtime : Runtime}
    → IsDocumented runtime
    → (policy : UnknownPolicy) (m : ListDlqMessagesResponse) → ListDlqMessagesResponseFits m
    → RoundTrips runtime (list_dlq_messages_response_type runtime) policy m
unfolding list_dlq_messages_response_type
list_dlq_messages_response_type-RoundTrips documented policy m (h1, h2) =
    round_trips documented _ policy m (
      Reads-then
        (repeated_field documented _ policy _ 1 (λ v. record { messages = v; next_offset = "0" })
          m.messages (omega arith) (λ l. refl)
          (All-MessageFits→Trips (dlq_message_type-RoundTrips documented policy) m.messages h1))
        (int64_field documented _ policy 2 (λ v. record { messages = m.messages; next_offset = v })
          m.next_offset (omega arith) refl h2))

pub list_dlq_messages_response_type-Terminates :
    {runtime : Runtime}
    → IsDocumented runtime
    → Terminates (list_dlq_messages_response_type runtime)
unfolding list_dlq_messages_response_type
list_dlq_messages_response_type-Terminates documented policy field_no t m =
    case_ends (field_no == 1) _ _
      (assign_parsed-Moves _ (λ v. record m { messages = m.messages ++ v ∷ [] })
        (read_nested-Moves documented _ policy _ (dlq_message_type-Terminates documented)))
      (case_ends (field_no == 2) _ _
        (assign-Moves _ (λ v. record m { next_offset = v }) (int64_moves-Advances documented))
        default_ends)

abbrev pub GetDlqMessageRequestFits : GetDlqMessageRequest → Type 0
GetDlqMessageRequestFits m = IsInt64 m.original_message_id

pub get_dlq_message_request_type-RoundTrips :
    {runtime : Runtime}
    → IsDocumented runtime
    → (policy : UnknownPolicy) (m : GetDlqMessageRequest) → GetDlqMessageRequestFits m
    → RoundTrips runtime (get_dlq_message_request_type runtime) policy m
unfolding get_dlq_message_request_type
get_dlq_message_request_type-RoundTrips documented policy m h1 = round_trips documented _ policy m (
    Reads-then
      (string_field documented _ policy 1
        (λ v. record { queue_name = v; original_message_id = "0" }) m.queue_name (omega arith) refl)
      (int64_field documented _ policy 2
        (λ v. record { queue_name = m.queue_name; original_message_id = v }) m.original_message_id
        (omega arith) refl h1))

pub get_dlq_message_request_type-Terminates :
    {runtime : Runtime} → IsDocumented runtime → Terminates (get_dlq_message_request_type runtime)
unfolding get_dlq_message_request_type
get_dlq_message_request_type-Terminates documented policy field_no t m =
    case_ends (field_no == 1) _ _
      (assign-Moves _ (λ v. record m { queue_name = v }) documented.string_moves)
      (case_ends (field_no == 2) _ _
        (assign-Moves _ (λ v. record m { original_message_id = v })
          (int64_moves-Advances documented))
        default_ends)

abbrev pub ReprocessDlqMessageRequestFits : ReprocessDlqMessageRequest → Type 0
ReprocessDlqMessageRequestFits m = IsInt64 m.original_message_id

pub reprocess_dlq_message_request_type-RoundTrips :
    {runtime : Runtime}
    → IsDocumented runtime
    → (policy : UnknownPolicy) (m : ReprocessDlqMessageRequest) → ReprocessDlqMessageRequestFits m
    → RoundTrips runtime (reprocess_dlq_message_request_type runtime) policy m
unfolding reprocess_dlq_message_request_type
reprocess_dlq_message_request_type-RoundTrips documented policy m h1 =
    round_trips documented _ policy m (
      Reads-then
        (string_field documented _ policy 1
          (λ v. record { queue_name = v; original_message_id = "0" }) m.queue_name (omega arith)
          refl)
        (int64_field documented _ policy 2
          (λ v. record { queue_name = m.queue_name; original_message_id = v }) m.original_message_id
          (omega arith) refl h1))

pub reprocess_dlq_message_request_type-Terminates :
    {runtime : Runtime}
    → IsDocumented runtime
    → Terminates (reprocess_dlq_message_request_type runtime)
unfolding reprocess_dlq_message_request_type
reprocess_dlq_message_request_type-Terminates documented policy field_no t m =
    case_ends (field_no == 1) _ _
      (assign-Moves _ (λ v. record m { queue_name = v }) documented.string_moves)
      (case_ends (field_no == 2) _ _
        (assign-Moves _ (λ v. record m { original_message_id = v })
          (int64_moves-Advances documented))
        default_ends)

abbrev pub PurgeDlqRequestFits : PurgeDlqRequest → Type 0
PurgeDlqRequestFits _ = Unit

pub purge_dlq_request_type-RoundTrips :
    {runtime : Runtime}
    → IsDocumented runtime
    → (policy : UnknownPolicy) (m : PurgeDlqRequest) → PurgeDlqRequestFits m
    → RoundTrips runtime (purge_dlq_request_type runtime) policy m
unfolding purge_dlq_request_type
purge_dlq_request_type-RoundTrips documented policy m _ = round_trips documented _ policy m (
    string_field documented _ policy 1 (λ v. record { queue_name = v }) m.queue_name (omega arith)
      refl)

pub purge_dlq_request_type-Terminates :
    {runtime : Runtime} → IsDocumented runtime → Terminates (purge_dlq_request_type runtime)
unfolding purge_dlq_request_type
purge_dlq_request_type-Terminates documented policy field_no t m =
    case_ends (field_no == 1) _ _
      (assign-Moves _ (λ v. record m { queue_name = v }) documented.string_moves) default_ends
