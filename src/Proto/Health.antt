-- ===== src/Proto/Health.antt =====
-- The messages of health.proto.
-- Code: sdk/typescript/src/gen/pgapp/v1/health.ts
pub mod Kinds
pub mod RoundTrip
use text.Mathlib.Text.{◌==◌ as str_eq}
use pgapp.Common.{
  if◌then◌else◌, ℕ, ◌==◌, ◌++◌, String, Bool, false, not, Option, none, some, List, [], ◌∷◌,
}
use pgapp.Common.Result.{ok}
use pgapp.Wire.{
  Runtime, MessageType, Message, assign, assign_parsed, write_if, write_each, ◌then_write◌, varint,
  length_delimited, write_optional, write_nested, read_nested,
}
use pgapp.Proto.Common.{ServiceCapability, service_capability_type}

-- An interface with no field.
pub data HealthRequest : Type 0 where
  health_request : HealthRequest

unfoldable pub health_request_type : Runtime → MessageType HealthRequest
health_request_type runtime = record {
  type_name = "pgapp.v1.HealthRequest";
  create = health_request;
  read_field = λ _ _ _ _. none;
  write_fields = λ _ _. ok [];
}

pub record HealthResponse : Type 0 where
  pub live : Bool

unfoldable pub health_response_type : Runtime → MessageType HealthResponse
health_response_type runtime = record {
  type_name = "pgapp.v1.HealthResponse";
  create = record { live = false };
  read_field = λ _ field_no _ message.
      if field_no == 1
      then some (assign runtime.reader.bool (λ v. record message { live = v }))
      else none;
  write_fields = λ _ message.
      write_if message.live
        (runtime.writer.tag 1 varint then_write runtime.writer.bool message.live);
}

-- An interface with no field.
pub data ReadinessRequest : Type 0 where
  readiness_request : ReadinessRequest

unfoldable pub readiness_request_type : Runtime → MessageType ReadinessRequest
readiness_request_type runtime = record {
  type_name = "pgapp.v1.ReadinessRequest";
  create = readiness_request;
  read_field = λ _ _ _ _. none;
  write_fields = λ _ _. ok [];
}

pub record ReadinessResponse : Type 0 where
  pub ready : Bool
  pub capabilities : List (Message ServiceCapability)

unfoldable pub readiness_response_type : Runtime → MessageType ReadinessResponse
readiness_response_type runtime = record {
  type_name = "pgapp.v1.ReadinessResponse";
  create = record { ready = false; capabilities = [] };
  read_field = λ policy field_no _ message.
      if field_no == 1
      then some (assign runtime.reader.bool (λ v. record message { ready = v }))
      else if field_no == 2
      then some (
          assign_parsed (read_nested runtime (service_capability_type runtime) policy none)
            (λ v. record message { capabilities = message.capabilities ++ v ∷ [] }))
      else none;
  write_fields = λ unknown_too message.
      write_if message.ready
        (runtime.writer.tag 1 varint then_write runtime.writer.bool message.ready)
      then_write write_each (write_nested runtime (service_capability_type runtime) unknown_too 2)
          message.capabilities;
}

-- An interface with no field.
pub data RuntimeMetricsRequest : Type 0 where
  runtime_metrics_request : RuntimeMetricsRequest

unfoldable pub runtime_metrics_request_type : Runtime → MessageType RuntimeMetricsRequest
runtime_metrics_request_type runtime = record {
  type_name = "pgapp.v1.RuntimeMetricsRequest";
  create = runtime_metrics_request;
  read_field = λ _ _ _ _. none;
  write_fields = λ _ _. ok [];
}

pub record MethodMetric : Type 0 where
  pub service : String
  pub method : String
  pub status : String
  pub count : String
  pub errors : String
  pub total_latency_millis : String

unfoldable pub method_metric_type : Runtime → MessageType MethodMetric
method_metric_type runtime = record {
  type_name = "pgapp.v1.MethodMetric";
  create = record {
    service = "";
    method = "";
    status = "";
    count = "0";
    errors = "0";
    total_latency_millis = "0";
  };
  read_field = λ _ field_no _ message.
      if field_no == 1
      then some (assign runtime.reader.string (λ v. record message { service = v }))
      else if field_no == 2
      then some (assign runtime.reader.string (λ v. record message { method = v }))
      else if field_no == 3
      then some (assign runtime.reader.string (λ v. record message { status = v }))
      else if field_no == 4
      then some (assign runtime.reader.uint64 (λ v. record message { count = v }))
      else if field_no == 5
      then some (assign runtime.reader.uint64 (λ v. record message { errors = v }))
      else if field_no == 6
      then some (assign runtime.reader.uint64 (λ v. record message { total_latency_millis = v }))
      else none;
  write_fields = λ _ message.
      write_if (not (str_eq message.service ""))
        (runtime.writer.tag 1 length_delimited then_write runtime.writer.string message.service)
      then_write write_if (not (str_eq message.method ""))
          (runtime.writer.tag 2 length_delimited then_write runtime.writer.string message.method)
      then_write write_if (not (str_eq message.status ""))
          (runtime.writer.tag 3 length_delimited then_write runtime.writer.string message.status)
      then_write write_if (not (str_eq message.count "0"))
          (runtime.writer.tag 4 varint then_write runtime.writer.uint64 message.count)
      then_write write_if (not (str_eq message.errors "0"))
          (runtime.writer.tag 5 varint then_write runtime.writer.uint64 message.errors)
      then_write write_if (not (str_eq message.total_latency_millis "0")) (
          runtime.writer.tag 6 varint
          then_write runtime.writer.uint64 message.total_latency_millis);
}

pub record PgPoolMetrics : Type 0 where
  pub size : ℕ
  pub idle : ℕ

unfoldable pub pg_pool_metrics_type : Runtime → MessageType PgPoolMetrics
pg_pool_metrics_type runtime = record {
  type_name = "pgapp.v1.PgPoolMetrics";
  create = record { size = 0; idle = 0 };
  read_field = λ _ field_no _ message.
      if field_no == 1
      then some (assign runtime.reader.uint32 (λ v. record message { size = v }))
      else if field_no == 2
      then some (assign runtime.reader.uint32 (λ v. record message { idle = v }))
      else none;
  write_fields = λ _ message.
      write_if (not (message.size == 0))
        (runtime.writer.tag 1 varint then_write runtime.writer.uint32 message.size)
      then_write write_if (not (message.idle == 0))
          (runtime.writer.tag 2 varint then_write runtime.writer.uint32 message.idle);
}

pub record RuntimeMetricsResponse : Type 0 where
  pub methods : List (Message MethodMetric)
  pub pg_pool : Option (Message PgPoolMetrics)

unfoldable pub runtime_metrics_response_type : Runtime → MessageType RuntimeMetricsResponse
runtime_metrics_response_type runtime = record {
  type_name = "pgapp.v1.RuntimeMetricsResponse";
  create = record { methods = []; pg_pool = none };
  read_field = λ policy field_no _ message.
      if field_no == 1
      then some (
          assign_parsed (read_nested runtime (method_metric_type runtime) policy none)
            (λ v. record message { methods = message.methods ++ v ∷ [] }))
      else if field_no == 2
      then some (
          assign_parsed (read_nested runtime (pg_pool_metrics_type runtime) policy message.pg_pool)
            (λ v. record message { pg_pool = some v }))
      else none;
  write_fields = λ unknown_too message.
      write_each (write_nested runtime (method_metric_type runtime) unknown_too 1) message.methods
      then_write write_optional runtime (pg_pool_metrics_type runtime) unknown_too 2
          message.pg_pool;
}
