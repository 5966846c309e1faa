-- ===== src/Proto/Config/Watches/RoundTrip.antt =====
-- Lemmas about the round trips and the reading of the messages of Proto/Config/Watches.antt.
-- Code: sdk/typescript/src/gen/pgapp/v1
use pgapp.Common.{◌==◌, refl, arith, none, some}
use pgapp.Number.{IsInt64}
use pgapp.Wire.{Runtime, UnknownPolicy}
use pgapp.Wire.Documented.{IsDocumented}
use pgapp.Wire.Loop.{Terminates, case_ends, default_ends, assign-Moves, int64_moves-Advances}
use pgapp.Wire.Fields.{Reads-then}
use pgapp.Wire.Scalars.{bool_field, int64_field}
use pgapp.Wire.Nested.{
  RoundTrips, round_trips, OptionFits, OptionFits→OptionTrips, optional_field, assign_parsed-Moves,
  read_nested-Moves,
}
use pgapp.Proto.Config.Watches.{
  WatchConfigRequest, watch_config_request_type, WatchConfigResponse, watch_config_response_type,
}
use pgapp.Proto.Config.Scopes.RoundTrip.{
  ConfigScopeFits, config_scope_type-RoundTrips, config_scope_type-Terminates,
}
use pgapp.Proto.Config.Releases.RoundTrip.{
  ConfigReleaseFits, config_release_type-RoundTrips, config_release_type-Terminates,
}

abbrev pub WatchConfigRequestFits : WatchConfigRequest → Type 0
WatchConfigRequestFits m =
    (OptionFits ConfigScopeFits m.scope) × (IsInt64 m.known_revision) × (IsInt64 m.timeout_seconds)

pub watch_config_request_type-RoundTrips :
    {runtime : Runtime}
    → IsDocumented runtime
    → (policy : UnknownPolicy) (m : WatchConfigRequest) → WatchConfigRequestFits m
    → RoundTrips runtime (watch_config_request_type runtime) policy m
unfolding watch_config_request_type
watch_config_request_type-RoundTrips documented policy m (h1, h2, h3) =
    round_trips documented _ policy m (
      Reads-then
        (optional_field documented _ policy _ 1
          (λ v. record { scope = v; known_revision = "0"; timeout_seconds = "0" }) m.scope
          (omega arith) refl
          (OptionFits→OptionTrips (config_scope_type-RoundTrips documented policy) m.scope h1))
        (Reads-then
          (int64_field documented _ policy 2
            (λ v. record { scope = m.scope; known_revision = v; timeout_seconds = "0" })
            m.known_revision (omega arith) refl h2)
          (int64_field documented _ policy 3
            (λ v. record {
              scope = m.scope;
              known_revision = m.known_revision;
              timeout_seconds = v;
            })
            m.timeout_seconds (omega arith) refl h3)))

pub watch_config_request_type-Terminates :
    {runtime : Runtime} → IsDocumented runtime → Terminates (watch_config_request_type runtime)
unfolding watch_config_request_type
watch_config_request_type-Terminates documented policy field_no t m =
    case_ends (field_no == 1) _ _
      (assign_parsed-Moves _ (λ v. record m { scope = some v })
        (read_nested-Moves documented _ policy _ (config_scope_type-Terminates documented)))
      (case_ends (field_no == 2) _ _
        (assign-Moves _ (λ v. record m { known_revision = v }) (int64_moves-Advances documented))
        (case_ends (field_no == 3) _ _
          (assign-Moves _ (λ v. record m { timeout_seconds = v }) (int64_moves-Advances documented))
          default_ends))

abbrev pub WatchConfigResponseFits : WatchConfigResponse → Type 0
WatchConfigResponseFits m = (IsInt64 m.latest_revision) × (OptionFits ConfigReleaseFits m.release)

pub watch_config_response_type-RoundTrips :
    {runtime : Runtime}
    → IsDocumented runtime
    → (policy : UnknownPolicy) (m : WatchConfigResponse) → WatchConfigResponseFits m
    → RoundTrips runtime (watch_config_response_type runtime) policy m
unfolding watch_config_response_type
watch_config_response_type-RoundTrips documented policy m (h1, h2) =
    round_trips documented _ policy m (
      Reads-then
        (bool_field documented _ policy 1
          (λ v. record { changed = v; latest_revision = "0"; release = none }) m.changed
          (omega arith) refl)
        (Reads-then
          (int64_field documented _ policy 2
            (λ v. record { changed = m.changed; latest_revision = v; release = none })
            m.latest_revision (omega arith) refl h1)
          (optional_field documented _ policy _ 3
            (λ v. record { changed = m.changed; latest_revision = m.latest_revision; release = v })
            m.release (omega arith) refl
            (OptionFits→OptionTrips (config_release_type-RoundTrips documented policy) m.release
              h2))))

pub watch_config_response_type-Terminates :
    {runtime : Runtime} → IsDocumented runtime → Terminates (watch_config_response_type runtime)
unfolding watch_config_response_type
watch_config_response_type-Terminates documented policy field_no t m =
    case_ends (field_no == 1) _ _
      (assign-Moves _ (λ v. record m { changed = v }) documented.bool_moves)
      (case_ends (field_no == 2) _ _
        (assign-Moves _ (λ v. record m { latest_revision = v }) (int64_moves-Advances documented))
        (case_ends (field_no == 3) _ _
          (assign_parsed-Moves _ (λ v. record m { release = some v })
            (read_nested-Moves documented _ policy _ (config_release_type-Terminates documented)))
          default_ends))
