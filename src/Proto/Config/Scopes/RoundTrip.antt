-- ===== src/Proto/Config/Scopes/RoundTrip.antt =====
-- Lemmas about the round trips and the reading of the messages of Proto/Config/Scopes.antt.
-- Code: sdk/typescript/src/gen/pgapp/v1
use pgapp.Common.{◌==◌, ◌++◌, ◌∷◌, [], refl, arith, some, All}
use pgapp.Number.{IsInt64}
use pgapp.Wire.{Runtime, UnknownPolicy}
use pgapp.Wire.Documented.{IsDocumented, FitsInt32}
use pgapp.Wire.Loop.{Terminates, case_ends, default_ends, assign-Moves, int64_moves-Advances}
use pgapp.Wire.Fields.{Reads-then}
use pgapp.Wire.Scalars.{string_field, int32_field, int64_field}
use pgapp.Wire.Nested.{
  RoundTrips, round_trips, OptionFits, MessageFits, OptionFits→OptionTrips, All-MessageFits→Trips,
  optional_field, repeated_field, assign_parsed-Moves, read_nested-Moves,
}
use pgapp.Proto.Config.Scopes.{
  ConfigScope, config_scope_type, ListConfigScopesRequest, list_config_scopes_request_type,
  ConfigScopeSummary, config_scope_summary_type, ListConfigScopesResponse,
  list_config_scopes_response_type,
}

abbrev pub ConfigScopeFits : ConfigScope → Type 0
ConfigScopeFits _ = Unit

pub config_scope_type-RoundTrips :
    {runtime : Runtime}
    → IsDocumented runtime
    → (policy : UnknownPolicy) (m : ConfigScope) → ConfigScopeFits m
    → RoundTrips runtime (config_scope_type runtime) policy m
unfolding config_scope_type
config_scope_type-RoundTrips documented policy m _ = round_trips documented _ policy m (
    Reads-then
      (string_field documented _ policy 1
        (λ v. record { app_id = v; environment = ""; cluster = ""; namespace = "" }) m.app_id
        (omega arith) refl)
      (Reads-then
        (string_field documented _ policy 2
          (λ v. record { app_id = m.app_id; environment = v; cluster = ""; namespace = "" })
          m.environment (omega arith) refl)
        (Reads-then
          (string_field documented _ policy 3
            (λ v. record {
              app_id = m.app_id;
              environment = m.environment;
              cluster = v;
              namespace = "";
            })
            m.cluster (omega arith) refl)
          (string_field documented _ policy 4
            (λ v. record {
              app_id = m.app_id;
              environment = m.environment;
              cluster = m.cluster;
              namespace = v;
            })
            m.namespace (omega arith) refl))))

pub config_scope_type-Terminates :
    {runtime : Runtime} → IsDocumented runtime → Terminates (config_scope_type runtime)
unfolding config_scope_type
config_scope_type-Terminates documented policy field_no t m =
    case_ends (field_no == 1) _ _
      (assign-Moves _ (λ v. record m { app_id = v }) documented.string_moves)
      (case_ends (field_no == 2) _ _
        (assign-Moves _ (λ v. record m { environment = v }) documented.string_moves)
        (case_ends (field_no == 3) _ _
          (assign-Moves _ (λ v. record m { cluster = v }) documented.string_moves)
          (case_ends (field_no == 4) _ _
            (assign-Moves _ (λ v. record m { namespace = v }) documented.string_moves)
            default_ends)))

abbrev pub ListConfigScopesRequestFits : ListConfigScopesRequest → Type 0
ListConfigScopesRequestFits m = (FitsInt32 m.limit) × (IsInt64 m.offset)

pub list_config_scopes_request_type-RoundTrips :
    {runtime : Runtime}
    → IsDocumented runtime
    → (policy : UnknownPolicy) (m : ListConfigScopesRequest) → ListConfigScopesRequestFits m
    → RoundTrips runtime (list_config_scopes_request_type runtime) policy m
unfolding list_config_scopes_request_type
list_config_scopes_request_type-RoundTrips documented policy m (h1, h2) =
    round_trips documented _ policy m (
      Reads-then
        (int32_field documented _ policy 1 (λ v. record { limit = v; offset = "0" }) m.limit
          (omega arith) refl h1)
        (int64_field documented _ policy 2 (λ v. record { limit = m.limit; offset = v }) m.offset
          (omega arith) refl h2))

pub list_config_scopes_request_type-Terminates :
    {runtime : Runtime}
    → IsDocumented runtime
    → Terminates (list_config_scopes_request_type runtime)
unfolding list_config_scopes_request_type
list_config_scopes_request_type-Terminates documented policy field_no t m =
    case_ends (field_no == 1) _ _
      (assign-Moves _ (λ v. record m { limit = v }) documented.int32_moves)
      (case_ends (field_no == 2) _ _
        (assign-Moves _ (λ v. record m { offset = v }) (int64_moves-Advances documented))
        default_ends)

abbrev pub ConfigScopeSummaryFits : ConfigScopeSummary → Type 0
ConfigScopeSummaryFits m = (OptionFits ConfigScopeFits m.scope) × (IsInt64 m.current_revision)

pub config_scope_summary_type-RoundTrips :
    {runtime : Runtime}
    → IsDocumented runtime
    → (policy : UnknownPolicy) (m : ConfigScopeSummary) → ConfigScopeSummaryFits m
    → RoundTrips runtime (config_scope_summary_type runtime) policy m
unfolding config_scope_summary_type
config_scope_summary_type-RoundTrips documented policy m (h1, h2) =
    round_trips documented _ policy m (
      Reads-then
        (optional_field documented _ policy _ 1
          (λ v. record { scope = v; current_revision = "0"; created_at = ""; updated_at = "" })
          m.scope (omega arith) refl
          (OptionFits→OptionTrips (config_scope_type-RoundTrips documented policy) m.scope h1))
        (Reads-then
          (int64_field documented _ policy 2
            (λ v. record {
              scope = m.scope;
              current_revision = v;
              created_at = "";
              updated_at = "";
            })
            m.current_revision (omega arith) refl h2)
          (Reads-then
            (string_field documented _ policy 3
              (λ v. record {
                scope = m.scope;
                current_revision = m.current_revision;
                created_at = v;
                updated_at = "";
              })
              m.created_at (omega arith) refl)
            (string_field documented _ policy 4
              (λ v. record {
                scope = m.scope;
                current_revision = m.current_revision;
                created_at = m.created_at;
                updated_at = v;
              })
              m.updated_at (omega arith) refl))))

pub config_scope_summary_type-Terminates :
    {runtime : Runtime} → IsDocumented runtime → Terminates (config_scope_summary_type runtime)
unfolding config_scope_summary_type
config_scope_summary_type-Terminates documented policy field_no t m =
    case_ends (field_no == 1) _ _
      (assign_parsed-Moves _ (λ v. record m { scope = some v })
        (read_nested-Moves documented _ policy _ (config_scope_type-Terminates documented)))
      (case_ends (field_no == 2) _ _
        (assign-Moves _ (λ v. record m { current_revision = v }) (int64_moves-Advances documented))
        (case_ends (field_no == 3) _ _
          (assign-Moves _ (λ v. record m { created_at = v }) documented.string_moves)
          (case_ends (field_no == 4) _ _
            (assign-Moves _ (λ v. record m { updated_at = v }) documented.string_moves)
            default_ends)))

abbrev pub ListConfigScopesResponseFits : ListConfigScopesResponse → Type 0
ListConfigScopesResponseFits m =
    (All (MessageFits ConfigScopeSummaryFits) m.scopes) × (IsInt64 m.next_offset)

pub list_config_scopes_response_type-RoundTrips :
    {runtime : Runtime}
    → IsDocumented runtime
    → (policy : UnknownPolicy) (m : ListConfigScopesResponse) → ListConfigScopesResponseFits m
    → RoundTrips runtime (list_config_scopes_response_type runtime) policy m
unfolding list_config_scopes_response_type
list_config_scopes_response_type-RoundTrips documented policy m (h1, h2) =
    round_trips documented _ policy m (
      Reads-then
        (repeated_field documented _ policy _ 1 (λ v. record { scopes = v; next_offset = "0" })
          m.scopes (omega arith) (λ l. refl)
          (All-MessageFits→Trips (config_scope_summary_type-RoundTrips documented policy) m.scopes
            h1))
        (int64_field documented _ policy 2 (λ v. record { scopes = m.scopes; next_offset = v })
          m.next_offset (omega arith) refl h2))

pub list_config_scopes_response_type-Terminates :
    {runtime : Runtime}
    → IsDocumented runtime
    → Terminates (list_config_scopes_response_type runtime)
unfolding list_config_scopes_response_type
list_config_scopes_response_type-Terminates documented policy field_no t m =
    case_ends (field_no == 1) _ _
      (assign_parsed-Moves _ (λ v. record m { scopes = m.scopes ++ v ∷ [] })
        (read_nested-Moves documented _ policy _ (config_scope_summary_type-Terminates documented)))
      (case_ends (field_no == 2) _ _
        (assign-Moves _ (λ v. record m { next_offset = v }) (int64_moves-Advances documented))
        default_ends)
