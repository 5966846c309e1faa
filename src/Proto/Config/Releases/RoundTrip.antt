-- ===== src/Proto/Config/Releases/RoundTrip.antt =====
-- Lemmas about the round trips and the reading of the messages of Proto/Config/Releases.antt.
-- Code: sdk/typescript/src/gen/pgapp/v1
use pgapp.Common.{◌==◌, ◌++◌, ◌∷◌, [], refl, arith, some, All, pos}
use pgapp.Number.{IsInt64}
use pgapp.Wire.{Runtime, UnknownPolicy}
use pgapp.Wire.Documented.{IsDocumented, FitsInt32}
use pgapp.Wire.Loop.{Terminates, case_ends, default_ends, assign-Moves, int64_moves-Advances}
use pgapp.Wire.Fields.{Reads-then}
use pgapp.Wire.Scalars.{string_field, int32_field, int64_field}
use pgapp.Wire.Nested.{
  RoundTrips, round_trips, OptionFits, MessageFits, OptionFits→OptionTrips, All-MessageFits→Trips,
  optional_field, repeated_field, assign_parsed-Moves, read_nested-Moves,
}
use pgapp.Proto.Config.Releases.{
  ConfigRelease, config_release_type, PublishConfigRequest, publish_config_request_type,
  GetConfigReleaseRequest, get_config_release_request_type, ListConfigReleasesRequest,
  list_config_releases_request_type, ListConfigReleasesResponse, list_config_releases_response_type,
}
use pgapp.Proto.Config.Scopes.RoundTrip.{
  ConfigScopeFits, config_scope_type-RoundTrips, config_scope_type-Terminates,
}

abbrev pub ConfigReleaseFits : ConfigRelease → Type 0
ConfigReleaseFits m = (OptionFits ConfigScopeFits m.scope) × (IsInt64 m.revision)

pub config_release_type-RoundTrips :
    {runtime : Runtime}
    → IsDocumented runtime
    → (policy : UnknownPolicy) (m : ConfigRelease) → ConfigReleaseFits m
    → RoundTrips runtime (config_release_type runtime) policy m
unfolding config_release_type
config_release_type-RoundTrips documented policy m (h1, h2) = round_trips documented _ policy m (
    Reads-then
      (optional_field documented _ policy _ 1
        (λ v. record {
          scope = v;
          revision = "0";
          checksum = "";
          snapshot_json = "";
          message = "";
          published_by = "";
          published_at = "";
        })
        m.scope (omega arith) refl
        (OptionFits→OptionTrips (config_scope_type-RoundTrips documented policy) m.scope h1))
      (Reads-then
        (int64_field documented _ policy 2
          (λ v. record {
            scope = m.scope;
            revision = v;
            checksum = "";
            snapshot_json = "";
            message = "";
            published_by = "";
            published_at = "";
          })
          m.revision (omega arith) refl h2)
        (Reads-then
          (string_field documented _ policy 3
            (λ v. record {
              scope = m.scope;
              revision = m.revision;
              checksum = v;
              snapshot_json = "";
              message = "";
              published_by = "";
              published_at = "";
            })
            m.checksum (omega arith) refl)
          (Reads-then
            (string_field documented _ policy 4
              (λ v. record {
                scope = m.scope;
                revision = m.revision;
                checksum = m.checksum;
                snapshot_json = v;
                message = "";
                published_by = "";
                published_at = "";
              })
              m.snapshot_json (omega arith) refl)
            (Reads-then
              (string_field documented _ policy 5
                (λ v. record {
                  scope = m.scope;
                  revision = m.revision;
                  checksum = m.checksum;
                  snapshot_json = m.snapshot_json;
                  message = v;
                  published_by = "";
                  published_at = "";
                })
                m.message (omega arith) refl)
              (Reads-then
                (string_field documented _ policy 6
                  (λ v. record {
                    scope = m.scope;
                    revision = m.revision;
                    checksum = m.checksum;
                    snapshot_json = m.snapshot_json;
                    message = m.message;
                    published_by = v;
                    published_at = "";
                  })
                  m.published_by (omega arith) refl)
                (string_field documented _ policy 7
                  (λ v. record {
                    scope = m.scope;
                    revision = m.revision;
                    checksum = m.checksum;
                    snapshot_json = m.snapshot_json;
                    message = m.message;
                    published_by = m.published_by;
                    published_at = v;
                  })
                  m.published_at (omega arith) refl)))))))

pub config_release_type-Terminates :
    {runtime : Runtime} → IsDocumented runtime → Terminates (config_release_type runtime)
unfolding config_release_type
config_release_type-Terminates documented policy field_no t m =
    case_ends (field_no == 1) _ _
      (assign_parsed-Moves _ (λ v. record m { scope = some v })
        (read_nested-Moves documented _ policy _ (config_scope_type-Terminates documented)))
      (case_ends (field_no == 2) _ _
        (assign-Moves _ (λ v. record m { revision = v }) (int64_moves-Advances documented))
        (case_ends (field_no == 3) _ _
          (assign-Moves _ (λ v. record m { checksum = v }) documented.string_moves)
          (case_ends (field_no == 4) _ _
            (assign-Moves _ (λ v. record m { snapshot_json = v }) documented.string_moves)
            (case_ends (field_no == 5) _ _
              (assign-Moves _ (λ v. record m { message = v }) documented.string_moves)
              (case_ends (field_no == 6) _ _
                (assign-Moves _ (λ v. record m { published_by = v }) documented.string_moves)
                (case_ends (field_no == 7) _ _
                  (assign-Moves _ (λ v. record m { published_at = v }) documented.string_moves)
                  default_ends))))))

abbrev pub PublishConfigRequestFits : PublishConfigRequest → Type 0
PublishConfigRequestFits m = OptionFits ConfigScopeFits m.scope

pub publish_config_request_type-RoundTrips :
    {runtime : Runtime}
    → IsDocumented runtime
    → (policy : UnknownPolicy) (m : PublishConfigRequest) → PublishConfigRequestFits m
    → RoundTrips runtime (publish_config_request_type runtime) policy m
unfolding publish_config_request_type
publish_config_request_type-RoundTrips documented policy m h1 = round_trips documented _ policy m (
    Reads-then
      (optional_field documented _ policy _ 1
        (λ v. record { scope = v; message = ""; published_by = "" }) m.scope (omega arith) refl
        (OptionFits→OptionTrips (config_scope_type-RoundTrips documented policy) m.scope h1))
      (Reads-then
        (string_field documented _ policy 2
          (λ v. record { scope = m.scope; message = v; published_by = "" }) m.message (omega arith)
          refl)
        (string_field documented _ policy 3
          (λ v. record { scope = m.scope; message = m.message; published_by = v }) m.published_by
          (omega arith) refl)))

pub publish_config_request_type-Terminates :
    {runtime : Runtime} → IsDocumented runtime → Terminates (publish_config_request_type runtime)
unfolding publish_config_request_type
publish_config_request_type-Terminates documented policy field_no t m =
    case_ends (field_no == 1) _ _
      (assign_parsed-Moves _ (λ v. record m { scope = some v })
        (read_nested-Moves documented _ policy _ (config_scope_type-Terminates documented)))
      (case_ends (field_no == 2) _ _
        (assign-Moves _ (λ v. record m { message = v }) documented.string_moves)
        (case_ends (field_no == 3) _ _
          (assign-Moves _ (λ v. record m { published_by = v }) documented.string_moves)
          default_ends))

abbrev pub GetConfigReleaseRequestFits : GetConfigReleaseRequest → Type 0
GetConfigReleaseRequestFits m = (OptionFits ConfigScopeFits m.scope) × (IsInt64 m.revision)

pub get_config_release_request_type-RoundTrips :
    {runtime : Runtime}
    → IsDocumented runtime
    → (policy : UnknownPolicy) (m : GetConfigReleaseRequest) → GetConfigReleaseRequestFits m
    → RoundTrips runtime (get_config_release_request_type runtime) policy m
unfolding get_config_release_request_type
get_config_release_request_type-RoundTrips documented policy m (h1, h2) =
    round_trips documented _ policy m (
      Reads-then
        (optional_field documented _ policy _ 1 (λ v. record { scope = v; revision = "0" }) m.scope
          (omega arith) refl
          (OptionFits→OptionTrips (config_scope_type-RoundTrips documented policy) m.scope h1))
        (int64_field documented _ policy 2 (λ v. record { scope = m.scope; revision = v })
          m.revision (omega arith) refl h2))

pub get_config_release_request_type-Terminates :
    {runtime : Runtime}
    → IsDocumented runtime
    → Terminates (get_config_release_request_type runtime)
unfolding get_config_release_request_type
get_config_release_request_type-Terminates documented policy field_no t m =
    case_ends (field_no == 1) _ _
      (assign_parsed-Moves _ (λ v. record m { scope = some v })
        (read_nested-Moves documented _ policy _ (config_scope_type-Terminates documented)))
      (case_ends (field_no == 2) _ _
        (assign-Moves _ (λ v. record m { revision = v }) (int64_moves-Advances documented))
        default_ends)

abbrev pub ListConfigReleasesRequestFits : ListConfigReleasesRequest → Type 0
ListConfigReleasesRequestFits m =
    (OptionFits ConfigScopeFits m.scope) × (FitsInt32 m.limit) × (IsInt64 m.offset)

pub list_config_releases_request_type-RoundTrips :
    {runtime : Runtime}
    → IsDocumented runtime
    → (policy : UnknownPolicy) (m : ListConfigReleasesRequest) → ListConfigReleasesRequestFits m
    → RoundTrips runtime (list_config_releases_request_type runtime) policy m
unfolding list_config_releases_request_type
list_config_releases_request_type-RoundTrips documented policy m (h1, h2, h3) =
    round_trips documented _ policy m (
      Reads-then
        (optional_field documented _ policy _ 1
          (λ v. record { scope = v; limit = pos 0; offset = "0" }) m.scope (omega arith) refl
          (OptionFits→OptionTrips (config_scope_type-RoundTrips documented policy) m.scope h1))
        (Reads-then
          (int32_field documented _ policy 2
            (λ v. record { scope = m.scope; limit = v; offset = "0" }) m.limit (omega arith) refl
            h2)
          (int64_field documented _ policy 3
            (λ v. record { scope = m.scope; limit = m.limit; offset = v }) m.offset (omega arith)
            refl h3)))

pub list_config_releases_request_type-Terminates :
    {runtime : Runtime}
    → IsDocumented runtime
    → Terminates (list_config_releases_request_type runtime)
unfolding list_config_releases_request_type
list_config_releases_request_type-Terminates documented policy field_no t m =
    case_ends (field_no == 1) _ _
      (assign_parsed-Moves _ (λ v. record m { scope = some v })
        (read_nested-Moves documented _ policy _ (config_scope_type-Terminates documented)))
      (case_ends (field_no == 2) _ _
        (assign-Moves _ (λ v. record m { limit = v }) documented.int32_moves)
        (case_ends (field_no == 3) _ _
          (assign-Moves _ (λ v. record m { offset = v }) (int64_moves-Advances documented))
          default_ends))

abbrev pub ListConfigReleasesResponseFits : ListConfigReleasesResponse → Type 0
ListConfigReleasesResponseFits m =
    (All (MessageFits ConfigReleaseFits) m.releases) × (IsInt64 m.next_offset)

pub list_config_releases_response_type-RoundTrips :
    {runtime : Runtime}
    → IsDocumented runtime
    → (policy : UnknownPolicy) (m : ListConfigReleasesResponse) → ListConfigReleasesResponseFits m
    → RoundTrips runtime (list_config_releases_response_type runtime) policy m
unfolding list_config_releases_response_type
list_config_releases_response_type-RoundTrips documented policy m (h1, h2) =
    round_trips documented _ policy m (
      Reads-then
        (repeated_field documented _ policy _ 1 (λ v. record { releases = v; next_offset = "0" })
          m.releases (omega arith) (λ l. refl)
          (All-MessageFits→Trips (config_release_type-RoundTrips documented policy) m.releases h1))
        (int64_field documented _ policy 2 (λ v. record { releases = m.releases; next_offset = v })
          m.next_offset (omega arith) refl h2))

pub list_config_releases_response_type-Terminates :
    {runtime : Runtime}
    → IsDocumented runtime
    → Terminates (list_config_releases_response_type runtime)
unfolding list_config_releases_response_type
list_config_releases_response_type-Terminates documented policy field_no t m =
    case_ends (field_no == 1) _ _
      (assign_parsed-Moves _ (λ v. record m { releases = m.releases ++ v ∷ [] })
        (read_nested-Moves documented _ policy _ (config_release_type-Terminates documented)))
      (case_ends (field_no == 2) _ _
        (assign-Moves _ (λ v. record m { next_offset = v }) (int64_moves-Advances documented))
        default_ends)
