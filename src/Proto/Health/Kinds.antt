-- ===== src/Proto/Health/Kinds.antt =====
-- Every message of health.proto and common.proto, by its kind.
-- Code: sdk/typescript/src/gen/pgapp/v1/health.ts, sdk/typescript/src/gen/pgapp/v1/common.ts
use pgapp.Common.{ℕ, ◌+◌, ◌≡◌, true, Option, none, ◌++◌, length}
use pgapp.Common.Result.{ok}
use pgapp.Wire.{
  Bytes, Runtime, Reader, Message, MessageType, UnknownPolicy, done, plain, internal_binary_read,
  internal_binary_write,
}
use pgapp.Wire.Documented.{IsDocumented, at}
use pgapp.Wire.Loop.{EndsFrom, Terminates, internal_binary_read-Moves}
use pgapp.Proto.Common.{
  Empty, empty_type, OperationResult, operation_result_type, ServiceCapability,
  service_capability_type,
}
use pgapp.Proto.Common.RoundTrip.{
  EmptyFits, empty_type-RoundTrips, empty_type-Terminates, OperationResultFits,
  operation_result_type-RoundTrips, operation_result_type-Terminates, ServiceCapabilityFits,
  service_capability_type-RoundTrips, service_capability_type-Terminates,
}
use pgapp.Proto.Health.{
  HealthRequest, health_request_type, HealthResponse, health_response_type, ReadinessRequest,
  readiness_request_type, ReadinessResponse, readiness_response_type, RuntimeMetricsRequest,
  runtime_metrics_request_type, MethodMetric, method_metric_type, PgPoolMetrics,
  pg_pool_metrics_type, RuntimeMetricsResponse, runtime_metrics_response_type,
}
use pgapp.Proto.Health.RoundTrip.{
  HealthRequestFits, health_request_type-RoundTrips, health_request_type-Terminates,
  HealthResponseFits, health_response_type-RoundTrips, health_response_type-Terminates,
  ReadinessRequestFits, readiness_request_type-RoundTrips, readiness_request_type-Terminates,
  ReadinessResponseFits, readiness_response_type-RoundTrips, readiness_response_type-Terminates,
  RuntimeMetricsRequestFits, runtime_metrics_request_type-RoundTrips,
  runtime_metrics_request_type-Terminates, MethodMetricFits, method_metric_type-RoundTrips,
  method_metric_type-Terminates, PgPoolMetricsFits, pg_pool_metrics_type-RoundTrips,
  pg_pool_metrics_type-Terminates, RuntimeMetricsResponseFits,
  runtime_metrics_response_type-RoundTrips, runtime_metrics_response_type-Terminates,
}

pub data HealthKind : Type 0 where
  empty operation_result service_capability health_request health_response readiness_request
        readiness_response runtime_metrics_request method_metric pg_pool_metrics
        runtime_metrics_response :
      HealthKind

-- The interface of each kind.
abbrev pub HealthBody : HealthKind → Type 0
HealthBody empty = Empty
HealthBody operation_result = OperationResult
HealthBody service_capability = ServiceCapability
HealthBody health_request = HealthRequest
HealthBody health_response = HealthResponse
HealthBody readiness_request = ReadinessRequest
HealthBody readiness_response = ReadinessResponse
HealthBody runtime_metrics_request = RuntimeMetricsRequest
HealthBody method_metric = MethodMetric
HealthBody pg_pool_metrics = PgPoolMetrics
HealthBody runtime_metrics_response = RuntimeMetricsResponse

-- The class of each kind.
abbrev pub health_type : Runtime → (kind : HealthKind) → MessageType (HealthBody kind)
health_type runtime empty = empty_type runtime
health_type runtime operation_result = operation_result_type runtime
health_type runtime service_capability = service_capability_type runtime
health_type runtime health_request = health_request_type runtime
health_type runtime health_response = health_response_type runtime
health_type runtime readiness_request = readiness_request_type runtime
health_type runtime readiness_response = readiness_response_type runtime
health_type runtime runtime_metrics_request = runtime_metrics_request_type runtime
health_type runtime method_metric = method_metric_type runtime
health_type runtime pg_pool_metrics = pg_pool_metrics_type runtime
health_type runtime runtime_metrics_response = runtime_metrics_response_type runtime

-- The integer fields hold integers of their width in canonical decimal form, byte fields hold
-- bytes, and nested objects hold no unknown field.
abbrev pub HealthFits : Runtime → (kind : HealthKind) → HealthBody kind → Type 0
HealthFits runtime empty m = EmptyFits m
HealthFits runtime operation_result m = OperationResultFits m
HealthFits runtime service_capability m = ServiceCapabilityFits m
HealthFits runtime health_request m = HealthRequestFits m
HealthFits runtime health_response m = HealthResponseFits m
HealthFits runtime readiness_request m = ReadinessRequestFits m
HealthFits runtime readiness_response m = ReadinessResponseFits m
HealthFits runtime runtime_metrics_request m = RuntimeMetricsRequestFits m
HealthFits runtime method_metric m = MethodMetricFits m
HealthFits runtime pg_pool_metrics m = PgPoolMetricsFits m
HealthFits runtime runtime_metrics_response m = RuntimeMetricsResponseFits m

-- For every message class of health.ts and common.ts and every object whose 32-bit integers are of
-- their width and whose 64-bit integers are canonical decimal texts of theirs, in nested objects
-- too, and which holds no unknown field at any level: if `internalBinaryWrite` returns bytes,
-- `internalBinaryRead` given their number, at any position and whatever follows, returns the same
-- object with the reader just behind them, whichever policy for unknown fields is set.
pub health_round_trip :
    (runtime : Runtime)
    → IsDocumented runtime
    → (policy : UnknownPolicy) (kind : HealthKind) (m : HealthBody kind) → HealthFits runtime kind m
    → (w : Bytes) → internal_binary_write runtime (health_type runtime kind) true (plain m) ≡ ok w
    → (p : ℕ) (rest : Bytes)
    → internal_binary_read runtime
        (health_type runtime kind)
        policy
        (length w)
        none
        (at p (w ++ rest))
      ≡ done (plain m, at (p + length w) rest)
health_round_trip runtime documented policy empty m fits w e p rest =
    (empty_type-RoundTrips documented policy m fits).trips w e p rest
health_round_trip runtime documented policy operation_result m fits w e p rest =
    (operation_result_type-RoundTrips documented policy m fits).trips w e p rest
health_round_trip runtime documented policy service_capability m fits w e p rest =
    (service_capability_type-RoundTrips documented policy m fits).trips w e p rest
health_round_trip runtime documented policy health_request m fits w e p rest =
    (health_request_type-RoundTrips documented policy m fits).trips w e p rest
health_round_trip runtime documented policy health_response m fits w e p rest =
    (health_response_type-RoundTrips documented policy m fits).trips w e p rest
health_round_trip runtime documented policy readiness_request m fits w e p rest =
    (readiness_request_type-RoundTrips documented policy m fits).trips w e p rest
health_round_trip runtime documented policy readiness_response m fits w e p rest =
    (readiness_response_type-RoundTrips documented policy m fits).trips w e p rest
health_round_trip runtime documented policy runtime_metrics_request m fits w e p rest =
    (runtime_metrics_request_type-RoundTrips documented policy m fits).trips w e p rest
health_round_trip runtime documented policy method_metric m fits w e p rest =
    (method_metric_type-RoundTrips documented policy m fits).trips w e p rest
health_round_trip runtime documented policy pg_pool_metrics m fits w e p rest =
    (pg_pool_metrics_type-RoundTrips documented policy m fits).trips w e p rest
health_round_trip runtime documented policy runtime_metrics_response m fits w e p rest =
    (runtime_metrics_response_type-RoundTrips documented policy m fits).trips w e p rest

health_type-Terminates :
    (runtime : Runtime)
    → IsDocumented runtime
    → (kind : HealthKind) → Terminates (health_type runtime kind)
health_type-Terminates runtime documented empty = empty_type-Terminates documented
health_type-Terminates runtime documented operation_result =
    operation_result_type-Terminates documented
health_type-Terminates runtime documented service_capability =
    service_capability_type-Terminates documented
health_type-Terminates runtime documented health_request = health_request_type-Terminates documented
health_type-Terminates runtime documented health_response =
    health_response_type-Terminates documented
health_type-Terminates runtime documented readiness_request =
    readiness_request_type-Terminates documented
health_type-Terminates runtime documented readiness_response =
    readiness_response_type-Terminates documented
health_type-Terminates runtime documented runtime_metrics_request =
    runtime_metrics_request_type-Terminates documented
health_type-Terminates runtime documented method_metric = method_metric_type-Terminates documented
health_type-Terminates runtime documented pg_pool_metrics =
    pg_pool_metrics_type-Terminates documented
health_type-Terminates runtime documented runtime_metrics_response =
    runtime_metrics_response_type-Terminates documented

-- For every message class of the file, any bytes, any length and any object to read into:
-- `internalBinaryRead` returns or throws, so its loop never runs out of the model's fuel, and where it
-- returns the reader has not moved back.
pub health_read_ends :
    (runtime : Runtime)
    → IsDocumented runtime
    → (policy : UnknownPolicy) (kind : HealthKind) (size : ℕ)
      (target : Option (Message (HealthBody kind))) (r : Reader)
    → EndsFrom r.pos (internal_binary_read runtime (health_type runtime kind) policy size target r)
health_read_ends runtime documented policy kind size target r =
    (internal_binary_read-Moves documented (health_type runtime kind)
        (health_type-Terminates runtime documented kind) policy size target).moves
      r
