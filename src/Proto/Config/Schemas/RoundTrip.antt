-- ===== src/Proto/Config/Schemas/RoundTrip.antt =====
-- Lemmas about the round trips and the reading of the messages of Proto/Config/Schemas.antt.
-- Code: sdk/typescript/src/gen/pgapp/v1
use pgapp.Common.{◌==◌, refl, arith, false, some}
use pgapp.Wire.{Runtime, UnknownPolicy}
use pgapp.Wire.Documented.{IsDocumented}
use pgapp.Wire.Loop.{Terminates, case_ends, default_ends, assign-Moves}
use pgapp.Wire.Fields.{Reads-then}
use pgapp.Wire.Scalars.{string_field, bool_field}
use pgapp.Wire.Nested.{
  RoundTrips, round_trips, OptionFits, OptionFits→OptionTrips, optional_field, assign_parsed-Moves,
  read_nested-Moves,
}
use pgapp.Proto.Config.Schemas.{
  SetConfigSchemaRequest, set_config_schema_request_type, GetConfigSchemaRequest,
  get_config_schema_request_type, ConfigSchemaResponse, config_schema_response_type,
}
use pgapp.Proto.Config.Scopes.RoundTrip.{
  ConfigScopeFits, config_scope_type-RoundTrips, config_scope_type-Terminates,
}

abbrev pub SetConfigSchemaRequestFits : SetConfigSchemaRequest → Type 0
SetConfigSchemaRequestFits m = OptionFits ConfigScopeFits m.scope

pub set_config_schema_request_type-RoundTrips :
    {runtime : Runtime}
    → IsDocumented runtime
    → (policy : UnknownPolicy) (m : SetConfigSchemaRequest) → SetConfigSchemaRequestFits m
    → RoundTrips runtime (set_config_schema_request_type runtime) policy m
unfolding set_config_schema_request_type
set_config_schema_request_type-RoundTrips documented policy m h1 =
    round_trips documented _ policy m (
      Reads-then
        (optional_field documented _ policy _ 1 (λ v. record { scope = v; json_schema = "" })
          m.scope (omega arith) refl
          (OptionFits→OptionTrips (config_scope_type-RoundTrips documented policy) m.scope h1))
        (string_field documented _ policy 2 (λ v. record { scope = m.scope; json_schema = v })
          m.json_schema (omega arith) refl))

pub set_config_schema_request_type-Terminates :
    {runtime : Runtime} → IsDocumented runtime → Terminates (set_config_schema_request_type runtime)
unfolding set_config_schema_request_type
set_config_schema_request_type-Terminates documented policy field_no t m =
    case_ends (field_no == 1) _ _
      (assign_parsed-Moves _ (λ v. record m { scope = some v })
        (read_nested-Moves documented _ policy _ (config_scope_type-Terminates documented)))
      (case_ends (field_no == 2) _ _
        (assign-Moves _ (λ v. record m { json_schema = v }) documented.string_moves) default_ends)

abbrev pub GetConfigSchemaRequestFits : GetConfigSchemaRequest → Type 0
GetConfigSchemaRequestFits m = OptionFits ConfigScopeFits m.scope

pub get_config_schema_request_type-RoundTrips :
    {runtime : Runtime}
    → IsDocumented runtime
    → (policy : UnknownPolicy) (m : GetConfigSchemaRequest) → GetConfigSchemaRequestFits m
    → RoundTrips runtime (get_config_schema_request_type runtime) policy m
unfolding get_config_schema_request_type
get_config_schema_request_type-RoundTrips documented policy m h1 =
    round_trips documented _ policy m (
      optional_field documented _ policy _ 1 (λ v. record { scope = v }) m.scope (omega arith) refl
        (OptionFits→OptionTrips (config_scope_type-RoundTrips documented policy) m.scope h1))

pub get_config_schema_request_type-Terminates :
    {runtime : Runtime} → IsDocumented runtime → Terminates (get_config_schema_request_type runtime)
unfolding get_config_schema_request_type
get_config_schema_request_type-Terminates documented policy field_no t m =
    case_ends (field_no == 1) _ _
      (assign_parsed-Moves _ (λ v. record m { scope = some v })
        (read_nested-Moves documented _ policy _ (config_scope_type-Terminates documented)))
      default_ends

abbrev pub ConfigSchemaResponseFits : ConfigSchemaResponse → Type 0
ConfigSchemaResponseFits m = OptionFits ConfigScopeFits m.scope

pub config_schema_response_type-RoundTrips :
    {runtime : Runtime}
    → IsDocumented runtime
    → (policy : UnknownPolicy) (m : ConfigSchemaResponse) → ConfigSchemaResponseFits m
    → RoundTrips runtime (config_schema_response_type runtime) policy m
unfolding config_schema_response_type
config_schema_response_type-RoundTrips documented policy m h1 = round_trips documented _ policy m (
    Reads-then
      (optional_field documented _ policy _ 1
        (λ v. record { scope = v; has_schema = false; json_schema = "" }) m.scope (omega arith) refl
        (OptionFits→OptionTrips (config_scope_type-RoundTrips documented policy) m.scope h1))
      (Reads-then
        (bool_field documented _ policy 2
          (λ v. record { scope = m.scope; has_schema = v; json_schema = "" }) m.has_schema
          (omega arith) refl)
        (string_field documented _ policy 3
          (λ v. record { scope = m.scope; has_schema = m.has_schema; json_schema = v })
          m.json_schema (omega arith) refl)))

pub config_schema_response_type-Terminates :
    {runtime : Runtime} → IsDocumented runtime → Terminates (config_schema_response_type runtime)
unfolding config_schema_response_type
config_schema_response_type-Terminates documented policy field_no t m =
    case_ends (field_no == 1) _ _
      (assign_parsed-Moves _ (λ v. record m { scope = some v })
        (read_nested-Moves documented _ policy _ (config_scope_type-Terminates documented)))
      (case_ends (field_no == 2) _ _
        (assign-Moves _ (λ v. record m { has_schema = v }) documented.bool_moves)
        (case_ends (field_no == 3) _ _
          (assign-Moves _ (λ v. record m { json_schema = v }) documented.string_moves)
          default_ends))
