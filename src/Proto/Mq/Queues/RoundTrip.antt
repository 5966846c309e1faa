-- ===== src/Proto/Mq/Queues/RoundTrip.antt =====
-- Lemmas about the round trips and the reading of the messages of Proto/Mq/Queues.antt.
-- Code: sdk/typescript/src/gen/pgapp/v1
use pgapp.Common.{◌==◌, refl, arith, pos}
use pgapp.Number.{IsInt64}
use pgapp.Wire.{Runtime, UnknownPolicy}
use pgapp.Wire.Documented.{IsDocumented, FitsInt32}
use pgapp.Wire.Loop.{Terminates, case_ends, default_ends, assign-Moves, int64_moves-Advances}
use pgapp.Wire.Fields.{Reads-then}
use pgapp.Wire.Scalars.{string_field, int32_field, int64_field}
use pgapp.Wire.Nested.{RoundTrips, round_trips}
use pgapp.Proto.Mq.Queues.{
  CreateQueueRequest, create_queue_request_type, PurgeQueueRequest, purge_queue_request_type,
  DropQueueRequest, drop_queue_request_type, QueueMetricsRequest, queue_metrics_request_type,
  QueueMetricsResponse, queue_metrics_response_type,
}

abbrev pub CreateQueueRequestFits : CreateQueueRequest → Type 0
CreateQueueRequestFits m = FitsInt32 m.storage_mode

pub create_queue_request_type-RoundTrips :
    {runtime : Runtime}
    → IsDocumented runtime
    → (policy : UnknownPolicy) (m : CreateQueueRequest) → CreateQueueRequestFits m
    → RoundTrips runtime (create_queue_request_type runtime) policy m
unfolding create_queue_request_type
create_queue_request_type-RoundTrips documented policy m h1 = round_trips documented _ policy m (
    Reads-then
      (string_field documented _ policy 1 (λ v. record { queue_name = v; storage_mode = pos 0 })
        m.queue_name (omega arith) refl)
      (int32_field documented _ policy 2
        (λ v. record { queue_name = m.queue_name; storage_mode = v }) m.storage_mode (omega arith)
        refl h1))

pub create_queue_request_type-Terminates :
    {runtime : Runtime} → IsDocumented runtime → Terminates (create_queue_request_type runtime)
unfolding create_queue_request_type
create_queue_request_type-Terminates documented policy field_no t m =
    case_ends (field_no == 1) _ _
      (assign-Moves _ (λ v. record m { queue_name = v }) documented.string_moves)
      (case_ends (field_no == 2) _ _
        (assign-Moves _ (λ v. record m { storage_mode = v }) documented.int32_moves) default_ends)

abbrev pub PurgeQueueRequestFits : PurgeQueueRequest → Type 0
PurgeQueueRequestFits _ = Unit

pub purge_queue_request_type-RoundTrips :
    {runtime : Runtime}
    → IsDocumented runtime
    → (policy : UnknownPolicy) (m : PurgeQueueRequest) → PurgeQueueRequestFits m
    → RoundTrips runtime (purge_queue_request_type runtime) policy m
unfolding purge_queue_request_type
purge_queue_request_type-RoundTrips documented policy m _ = round_trips documented _ policy m (
    string_field documented _ policy 1 (λ v. record { queue_name = v }) m.queue_name (omega arith)
      refl)

pub purge_queue_request_type-Terminates :
    {runtime : Runtime} → IsDocumented runtime → Terminates (purge_queue_request_type runtime)
unfolding purge_queue_request_type
purge_queue_request_type-Terminates documented policy field_no t m =
    case_ends (field_no == 1) _ _
      (assign-Moves _ (λ v. record m { queue_name = v }) documented.string_moves) default_ends

abbrev pub DropQueueRequestFits : DropQueueRequest → Type 0
DropQueueRequestFits _ = Unit

pub drop_queue_request_type-RoundTrips :
    {runtime : Runtime}
    → IsDocumented runtime
    → (policy : UnknownPolicy) (m : DropQueueRequest) → DropQueueRequestFits m
    → RoundTrips runtime (drop_queue_request_type runtime) policy m
unfolding drop_queue_request_type
drop_queue_request_type-RoundTrips documented policy m _ = round_trips documented _ policy m (
    string_field documented _ policy 1 (λ v. record { queue_name = v }) m.queue_name (omega arith)
      refl)

pub drop_queue_request_type-Terminates :
    {runtime : Runtime} → IsDocumented runtime → Terminates (drop_queue_request_type runtime)
unfolding drop_queue_request_type
drop_queue_request_type-Terminates documented policy field_no t m =
    case_ends (field_no == 1) _ _
      (assign-Moves _ (λ v. record m { queue_name = v }) documented.string_moves) default_ends

abbrev pub QueueMetricsRequestFits : QueueMetricsRequest → Type 0
QueueMetricsRequestFits _ = Unit

pub queue_metrics_request_type-RoundTrips :
    {runtime : Runtime}
    → IsDocumented runtime
    → (policy : UnknownPolicy) (m : QueueMetricsRequest) → QueueMetricsRequestFits m
    → RoundTrips runtime (queue_metrics_request_type runtime) policy m
unfolding queue_metrics_request_type
queue_metrics_request_type-RoundTrips documented policy m _ = round_trips documented _ policy m (
    string_field documented _ policy 1 (λ v. record { queue_name = v }) m.queue_name (omega arith)
      refl)

pub queue_metrics_request_type-Terminates :
    {runtime : Runtime} → IsDocumented runtime → Terminates (queue_metrics_request_type runtime)
unfolding queue_metrics_request_type
queue_metrics_request_type-Terminates documented policy field_no t m =
    case_ends (field_no == 1) _ _
      (assign-Moves _ (λ v. record m { queue_name = v }) documented.string_moves) default_ends

abbrev pub QueueMetricsResponseFits : QueueMetricsResponse → Type 0
QueueMetricsResponseFits m =
    (IsInt64 m.visible_message_count)
    × (IsInt64 m.in_flight_message_count)
    × (IsInt64 m.oldest_visible_message_age_seconds)
    × (IsInt64 m.archived_message_count)
    × (IsInt64 m.dlq_message_count)

pub queue_metrics_response_type-RoundTrips :
    {runtime : Runtime}
    → IsDocumented runtime
    → (policy : UnknownPolicy) (m : QueueMetricsResponse) → QueueMetricsResponseFits m
    → RoundTrips runtime (queue_metrics_response_type runtime) policy m
unfolding queue_metrics_response_type
queue_metrics_response_type-RoundTrips documented policy m (h1, h2, h3, h4, h5) =
    round_trips documented _ policy m (
      Reads-then
        (int64_field documented _ policy 1
          (λ v. record {
            visible_message_count = v;
            in_flight_message_count = "0";
            oldest_visible_message_age_seconds = "0";
            archived_message_count = "0";
            dlq_message_count = "0";
          })
          m.visible_message_count (omega arith) refl h1)
        (Reads-then
          (int64_field documented _ policy 2
            (λ v. record {
              visible_message_count = m.visible_message_count;
              in_flight_message_count = v;
              oldest_visible_message_age_seconds = "0";
              archived_message_count = "0";
              dlq_message_count = "0";
            })
            m.in_flight_message_count (omega arith) refl h2)
          (Reads-then
            (int64_field documented _ policy 3
              (λ v. record {
                visible_message_count = m.visible_message_count;
                in_flight_message_count = m.in_flight_message_count;
                oldest_visible_message_age_seconds = v;
                archived_message_count = "0";
                dlq_message_count = "0";
              })
              m.oldest_visible_message_age_seconds (omega arith) refl h3)
            (Reads-then
              (int64_field documented _ policy 4
                (λ v. record {
                  visible_message_count = m.visible_message_count;
                  in_flight_message_count = m.in_flight_message_count;
                  oldest_visible_message_age_seconds = m.oldest_visible_message_age_seconds;
                  archived_message_count = v;
                  dlq_message_count = "0";
                })
                m.archived_message_count (omega arith) refl h4)
              (int64_field documented _ policy 5
                (λ v. record {
                  visible_message_count = m.visible_message_count;
                  in_flight_message_count = m.in_flight_message_count;
                  oldest_visible_message_age_seconds = m.oldest_visible_message_age_seconds;
                  archived_message_count = m.archived_message_count;
                  dlq_message_count = v;
                })
                m.dlq_message_count (omega arith) refl h5)))))

pub queue_metrics_response_type-Terminates :
    {runtime : Runtime} → IsDocumented runtime → Terminates (queue_metrics_response_type runtime)
unfolding queue_metrics_response_type
queue_metrics_response_type-Terminates documented policy field_no t m =
    case_ends (field_no == 1) _ _
      (assign-Moves _ (λ v. record m { visible_message_count = v })
        (int64_moves-Advances documented))
      (case_ends (field_no == 2) _ _
        (assign-Moves _ (λ v. record m { in_flight_message_count = v })
          (int64_moves-Advances documented))
        (case_ends (field_no == 3) _ _
          (assign-Moves _ (λ v. record m { oldest_visible_message_age_seconds = v })
            (int64_moves-Advances documented))
          (case_ends (field_no == 4) _ _
            (assign-Moves _ (λ v. record m { archived_message_count = v })
              (int64_moves-Advances documented))
            (case_ends (field_no == 5) _ _
              (assign-Moves _ (λ v. record m { dlq_message_count = v })
                (int64_moves-Advances documented))
              default_ends))))
