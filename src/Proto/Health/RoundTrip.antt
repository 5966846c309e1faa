-- ===== src/Proto/Health/RoundTrip.antt =====
-- Lemmas about the round trips and the reading of the messages of Proto/Health.antt.
-- Code: sdk/typescript/src/gen/pgapp/v1
use pgapp.Common.{◌==◌, ◌++◌, ◌∷◌, [], refl, arith, none, some, All}
use pgapp.Number.{IsUint64}
use pgapp.Wire.{Runtime, UnknownPolicy}
use pgapp.Wire.Documented.{IsDocumented, FitsUint32}
use pgapp.Wire.Loop.{Terminates, case_ends, default_ends, assign-Moves}
use pgapp.Wire.Fields.{Reads-then, Reads-nothing}
use pgapp.Wire.Scalars.{string_field, bool_field, uint32_field, uint64_field}
use pgapp.Wire.Nested.{
  RoundTrips, round_trips, OptionFits, MessageFits, OptionFits→OptionTrips, All-MessageFits→Trips,
  optional_field, repeated_field, assign_parsed-Moves, read_nested-Moves,
}
use pgapp.Proto.Health.{
  HealthRequest, health_request_type, health_request, HealthResponse, health_response_type,
  ReadinessRequest, readiness_request_type, readiness_request, ReadinessResponse,
  readiness_response_type, RuntimeMetricsRequest, runtime_metrics_request_type,
  runtime_metrics_request, MethodMetric, method_metric_type, PgPoolMetrics, pg_pool_metrics_type,
  RuntimeMetricsResponse, runtime_metrics_response_type,
}
use pgapp.Proto.Common.RoundTrip.{
  ServiceCapabilityFits, service_capability_type-RoundTrips, service_capability_type-Terminates,
}

abbrev pub HealthRequestFits : HealthRequest → Type 0
HealthRequestFits _ = Unit

pub health_request_type-RoundTrips :
    {runtime : Runtime}
    → IsDocumented runtime
    → (policy : UnknownPolicy) (m : HealthRequest) → HealthRequestFits m
    → RoundTrips runtime (health_request_type runtime) policy m
unfolding health_request_type
health_request_type-RoundTrips documented policy health_request _ =
    round_trips documented _ policy health_request (Reads-nothing _)

pub health_request_type-Terminates :
    {runtime : Runtime} → IsDocumented runtime → Terminates (health_request_type runtime)
unfolding health_request_type
health_request_type-Terminates documented policy field_no t m = default_ends

abbrev pub HealthResponseFits : HealthResponse → Type 0
HealthResponseFits _ = Unit

pub health_response_type-RoundTrips :
    {runtime : Runtime}
    → IsDocumented runtime
    → (policy : UnknownPolicy) (m : HealthResponse) → HealthResponseFits m
    → RoundTrips runtime (health_response_type runtime) policy m
unfolding health_response_type
health_response_type-RoundTrips documented policy m _ =
    round_trips documented _ policy m
      (bool_field documented _ policy 1 (λ v. record { live = v }) m.live (omega arith) refl)

pub health_response_type-Terminates :
    {runtime : Runtime} → IsDocumented runtime → Terminates (health_response_type runtime)
unfolding health_response_type
health_response_type-Terminates documented policy field_no t m =
    case_ends (field_no == 1) _ _
      (assign-Moves _ (λ v. record m { live = v }) documented.bool_moves) default_ends

abbrev pub ReadinessRequestFits : ReadinessRequest → Type 0
ReadinessRequestFits _ = Unit

pub readiness_request_type-RoundTrips :
    {runtime : Runtime}
    → IsDocumented runtime
    → (policy : UnknownPolicy) (m : ReadinessRequest) → ReadinessRequestFits m
    → RoundTrips runtime (readiness_request_type runtime) policy m
unfolding readiness_request_type
readiness_request_type-RoundTrips documented policy readiness_request _ =
    round_trips documented _ policy readiness_request (Reads-nothing _)

pub readiness_request_type-Terminates :
    {runtime : Runtime} → IsDocumented runtime → Terminates (readiness_request_type runtime)
unfolding readiness_request_type
readiness_request_type-Terminates documented policy field_no t m = default_ends

abbrev pub ReadinessResponseFits : ReadinessResponse → Type 0
ReadinessResponseFits m = All (MessageFits ServiceCapabilityFits) m.capabilities

pub readiness_response_type-RoundTrips :
    {runtime : Runtime}
    → IsDocumented runtime
    → (policy : UnknownPolicy) (m : ReadinessResponse) → ReadinessResponseFits m
    → RoundTrips runtime (readiness_response_type runtime) policy m
unfolding readiness_response_type
readiness_response_type-RoundTrips documented policy m h1 = round_trips documented _ policy m (
    Reads-then
      (bool_field documented _ policy 1 (λ v. record { ready = v; capabilities = [] }) m.ready
        (omega arith) refl)
      (repeated_field documented _ policy _ 2 (λ v. record { ready = m.ready; capabilities = v })
        m.capabilities (omega arith) (λ l. refl)
        (All-MessageFits→Trips (service_capability_type-RoundTrips documented policy) m.capabilities
          h1)))

pub readiness_response_type-Terminates :
    {runtime : Runtime} → IsDocumented runtime → Terminates (readiness_response_type runtime)
unfolding readiness_response_type
readiness_response_type-Terminates documented policy field_no t m =
    case_ends (field_no == 1) _ _
      (assign-Moves _ (λ v. record m { ready = v }) documented.bool_moves)
      (case_ends (field_no == 2) _ _
        (assign_parsed-Moves _ (λ v. record m { capabilities = m.capabilities ++ v ∷ [] })
          (read_nested-Moves documented _ policy _ (service_capability_type-Terminates documented)))
        default_ends)

abbrev pub RuntimeMetricsRequestFits : RuntimeMetricsRequest → Type 0
RuntimeMetricsRequestFits _ = Unit

pub runtime_metrics_request_type-RoundTrips :
    {runtime : Runtime}
    → IsDocumented runtime
    → (policy : UnknownPolicy) (m : RuntimeMetricsRequest) → RuntimeMetricsRequestFits m
    → RoundTrips runtime (runtime_metrics_request_type runtime) policy m
unfolding runtime_metrics_request_type
runtime_metrics_request_type-RoundTrips documented policy runtime_metrics_request _ =
    round_trips documented _ policy runtime_metrics_request (Reads-nothing _)

pub runtime_metrics_request_type-Terminates :
    {runtime : Runtime} → IsDocumented runtime → Terminates (runtime_metrics_request_type runtime)
unfolding runtime_metrics_request_type
runtime_metrics_request_type-Terminates documented policy field_no t m = default_ends

abbrev pub MethodMetricFits : MethodMetric → Type 0
MethodMetricFits m = (IsUint64 m.count) × (IsUint64 m.errors) × (IsUint64 m.total_latency_millis)

pub method_metric_type-RoundTrips :
    {runtime : Runtime}
    → IsDocumented runtime
    → (policy : UnknownPolicy) (m : MethodMetric) → MethodMetricFits m
    → RoundTrips runtime (method_metric_type runtime) policy m
unfolding method_metric_type
method_metric_type-RoundTrips documented policy m (h1, h2, h3) = round_trips documented _ policy m (
    Reads-then
      (string_field documented _ policy 1
        (λ v. record {
          service = v;
          method = "";
          status = "";
          count = "0";
          errors = "0";
          total_latency_millis = "0";
        })
        m.service (omega arith) refl)
      (Reads-then
        (string_field documented _ policy 2
          (λ v. record {
            service = m.service;
            method = v;
            status = "";
            count = "0";
            errors = "0";
            total_latency_millis = "0";
          })
          m.method (omega arith) refl)
        (Reads-then
          (string_field documented _ policy 3
            (λ v. record {
              service = m.service;
              method = m.method;
              status = v;
              count = "0";
              errors = "0";
              total_latency_millis = "0";
            })
            m.status (omega arith) refl)
          (Reads-then
            (uint64_field documented _ policy 4
              (λ v. record {
                service = m.service;
                method = m.method;
                status = m.status;
                count = v;
                errors = "0";
                total_latency_millis = "0";
              })
              m.count (omega arith) refl h1)
            (Reads-then
              (uint64_field documented _ policy 5
                (λ v. record {
                  service = m.service;
                  method = m.method;
                  status = m.status;
                  count = m.count;
                  errors = v;
                  total_latency_millis = "0";
                })
                m.errors (omega arith) refl h2)
              (uint64_field documented _ policy 6
                (λ v. record {
                  service = m.service;
                  method = m.method;
                  status = m.status;
                  count = m.count;
                  errors = m.errors;
                  total_latency_millis = v;
                })
                m.total_latency_millis (omega arith) refl h3))))))

pub method_metric_type-Terminates :
    {runtime : Runtime} → IsDocumented runtime → Terminates (method_metric_type runtime)
unfolding method_metric_type
method_metric_type-Terminates documented policy field_no t m =
    case_ends (field_no == 1) _ _
      (assign-Moves _ (λ v. record m { service = v }) documented.string_moves)
      (case_ends (field_no == 2) _ _
        (assign-Moves _ (λ v. record m { method = v }) documented.string_moves)
        (case_ends (field_no == 3) _ _
          (assign-Moves _ (λ v. record m { status = v }) documented.string_moves)
          (case_ends (field_no == 4) _ _
            (assign-Moves _ (λ v. record m { count = v }) documented.uint64_moves)
            (case_ends (field_no == 5) _ _
              (assign-Moves _ (λ v. record m { errors = v }) documented.uint64_moves)
              (case_ends (field_no == 6) _ _
                (assign-Moves _ (λ v. record m { total_latency_millis = v })
                  documented.uint64_moves)
                default_ends)))))

abbrev pub PgPoolMetricsFits : PgPoolMetrics → Type 0
PgPoolMetricsFits m = (FitsUint32 m.size) × (FitsUint32 m.idle)

pub pg_pool_metrics_type-RoundTrips :
    {runtime : Runtime}
    → IsDocumented runtime
    → (policy : UnknownPolicy) (m : PgPoolMetrics) → PgPoolMetricsFits m
    → RoundTrips runtime (pg_pool_metrics_type runtime) policy m
unfolding pg_pool_metrics_type
pg_pool_metrics_type-RoundTrips documented policy m (h1, h2) = round_trips documented _ policy m (
    Reads-then
      (uint32_field documented _ policy 1 (λ v. record { size = v; idle = 0 }) m.size (omega arith)
        refl h1)
      (uint32_field documented _ policy 2 (λ v. record { size = m.size; idle = v }) m.idle
        (omega arith) refl h2))

pub pg_pool_metrics_type-Terminates :
    {runtime : Runtime} → IsDocumented runtime → Terminates (pg_pool_metrics_type runtime)
unfolding pg_pool_metrics_type
pg_pool_metrics_type-Terminates documented policy field_no t m =
    case_ends (field_no == 1) _ _
      (assign-Moves _ (λ v. record m { size = v }) documented.uint32_moves)
      (case_ends (field_no == 2) _ _
        (assign-Moves _ (λ v. record m { idle = v }) documented.uint32_moves) default_ends)

abbrev pub RuntimeMetricsResponseFits : RuntimeMetricsResponse → Type 0
RuntimeMetricsResponseFits m =
    (All (MessageFits MethodMetricFits) m.methods) × (OptionFits PgPoolMetricsFits m.pg_pool)

pub runtime_metrics_response_type-RoundTrips :
    {runtime : Runtime}
    → IsDocumented runtime
    → (policy : UnknownPolicy) (m : RuntimeMetricsResponse) → RuntimeMetricsResponseFits m
    → RoundTrips runtime (runtime_metrics_response_type runtime) policy m
unfolding runtime_metrics_response_type
runtime_metrics_response_type-RoundTrips documented policy m (h1, h2) =
    round_trips documented _ policy m (
      Reads-then
        (repeated_field documented _ policy _ 1 (λ v. record { methods = v; pg_pool = none })
          m.methods (omega arith) (λ l. refl)
          (All-MessageFits→Trips (method_metric_type-RoundTrips documented policy) m.methods h1))
        (optional_field documented _ policy _ 2 (λ v. record { methods = m.methods; pg_pool = v })
          m.pg_pool (omega arith) refl
          (OptionFits→OptionTrips (pg_pool_metrics_type-RoundTrips documented policy) m.pg_pool
            h2)))

pub runtime_metrics_response_type-Terminates :
    {runtime : Runtime} → IsDocumented runtime → Terminates (runtime_metrics_response_type runtime)
unfolding runtime_metrics_response_type
runtime_metrics_response_type-Terminates documented policy field_no t m =
    case_ends (field_no == 1) _ _
      (assign_parsed-Moves _ (λ v. record m { methods = m.methods ++ v ∷ [] })
        (read_nested-Moves documented _ policy _ (method_metric_type-Terminates documented)))
      (case_ends (field_no == 2) _ _
        (assign_parsed-Moves _ (λ v. record m { pg_pool = some v })
          (read_nested-Moves documented _ policy _ (pg_pool_metrics_type-Terminates documented)))
        default_ends)
