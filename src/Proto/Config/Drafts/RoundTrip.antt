-- ===== src/Proto/Config/Drafts/RoundTrip.antt =====
-- Lemmas about the round trips and the reading of the messages of Proto/Config/Drafts.antt.
-- Code: sdk/typescript/src/gen/pgapp/v1
use pgapp.Common.{◌==◌, ◌++◌, ◌∷◌, [], refl, arith, false, some, All}
use pgapp.Wire.{Runtime, UnknownPolicy}
use pgapp.Wire.Documented.{IsDocumented}
use pgapp.Wire.Loop.{Terminates, case_ends, default_ends, assign-Moves}
use pgapp.Wire.Fields.{Reads-then}
use pgapp.Wire.Scalars.{string_field, bool_field}
use pgapp.Wire.Nested.{
  RoundTrips, round_trips, OptionFits, MessageFits, OptionFits→OptionTrips, All-MessageFits→Trips,
  optional_field, repeated_field, assign_parsed-Moves, read_nested-Moves,
}
use pgapp.Proto.Config.Drafts.{
  ConfigItem, config_item_type, UpsertConfigItemRequest, upsert_config_item_request_type,
  DeleteConfigItemRequest, delete_config_item_request_type, GetConfigDraftRequest,
  get_config_draft_request_type, ConfigDraftResponse, config_draft_response_type,
}
use pgapp.Proto.Config.Scopes.RoundTrip.{
  ConfigScopeFits, config_scope_type-RoundTrips, config_scope_type-Terminates,
}

abbrev pub ConfigItemFits : ConfigItem → Type 0
ConfigItemFits _ = Unit

pub config_item_type-RoundTrips :
    {runtime : Runtime}
    → IsDocumented runtime
    → (policy : UnknownPolicy) (m : ConfigItem) → ConfigItemFits m
    → RoundTrips runtime (config_item_type runtime) policy m
unfolding config_item_type
config_item_type-RoundTrips documented policy m _ = round_trips documented _ policy m (
    Reads-then
      (string_field documented _ policy 1
        (λ v. record { key = v; json_value = ""; deleted = false; updated_at = "" }) m.key
        (omega arith) refl)
      (Reads-then
        (string_field documented _ policy 2
          (λ v. record { key = m.key; json_value = v; deleted = false; updated_at = "" })
          m.json_value (omega arith) refl)
        (Reads-then
          (bool_field documented _ policy 3
            (λ v. record { key = m.key; json_value = m.json_value; deleted = v; updated_at = "" })
            m.deleted (omega arith) refl)
          (string_field documented _ policy 4
            (λ v. record {
              key = m.key;
              json_value = m.json_value;
              deleted = m.deleted;
              updated_at = v;
            })
            m.updated_at (omega arith) refl))))

pub config_item_type-Terminates :
    {runtime : Runtime} → IsDocumented runtime → Terminates (config_item_type runtime)
unfolding config_item_type
config_item_type-Terminates documented policy field_no t m =
    case_ends (field_no == 1) _ _
      (assign-Moves _ (λ v. record m { key = v }) documented.string_moves)
      (case_ends (field_no == 2) _ _
        (assign-Moves _ (λ v. record m { json_value = v }) documented.string_moves)
        (case_ends (field_no == 3) _ _
          (assign-Moves _ (λ v. record m { deleted = v }) documented.bool_moves)
          (case_ends (field_no == 4) _ _
            (assign-Moves _ (λ v. record m { updated_at = v }) documented.string_moves)
            default_ends)))

abbrev pub UpsertConfigItemRequestFits : UpsertConfigItemRequest → Type 0
UpsertConfigItemRequestFits m = OptionFits ConfigScopeFits m.scope

pub upsert_config_item_request_type-RoundTrips :
    {runtime : Runtime}
    → IsDocumented runtime
    → (policy : UnknownPolicy) (m : UpsertConfigItemRequest) → UpsertConfigItemRequestFits m
    → RoundTrips runtime (upsert_config_item_request_type runtime) policy m
unfolding upsert_config_item_request_type
upsert_config_item_request_type-RoundTrips documented policy m h1 =
    round_trips documented _ policy m (
      Reads-then
        (optional_field documented _ policy _ 1
          (λ v. record { scope = v; key = ""; json_value = "" }) m.scope (omega arith) refl
          (OptionFits→OptionTrips (config_scope_type-RoundTrips documented policy) m.scope h1))
        (Reads-then
          (string_field documented _ policy 2
            (λ v. record { scope = m.scope; key = v; json_value = "" }) m.key (omega arith) refl)
          (string_field documented _ policy 3
            (λ v. record { scope = m.scope; key = m.key; json_value = v }) m.json_value
            (omega arith) refl)))

pub upsert_config_item_request_type-Terminates :
    {runtime : Runtime}
    → IsDocumented runtime
    → Terminates (upsert_config_item_request_type runtime)
unfolding upsert_config_item_request_type
upsert_config_item_request_type-Terminates documented policy field_no t m =
    case_ends (field_no == 1) _ _
      (assign_parsed-Moves _ (λ v. record m { scope = some v })
        (read_nested-Moves documented _ policy _ (config_scope_type-Terminates documented)))
      (case_ends (field_no == 2) _ _
        (assign-Moves _ (λ v. record m { key = v }) documented.string_moves)
        (case_ends (field_no == 3) _ _
          (assign-Moves _ (λ v. record m { json_value = v }) documented.string_moves) default_ends))

abbrev pub DeleteConfigItemRequestFits : DeleteConfigItemRequest → Type 0
DeleteConfigItemRequestFits m = OptionFits ConfigScopeFits m.scope

pub delete_config_item_request_type-RoundTrips :
    {runtime : Runtime}
    → IsDocumented runtime
    → (policy : UnknownPolicy) (m : DeleteConfigItemRequest) → DeleteConfigItemRequestFits m
    → RoundTrips runtime (delete_config_item_request_type runtime) policy m
unfolding delete_config_item_request_type
delete_config_item_request_type-RoundTrips documented policy m h1 =
    round_trips documented _ policy m (
      Reads-then
        (optional_field documented _ policy _ 1 (λ v. record { scope = v; key = "" }) m.scope
          (omega arith) refl
          (OptionFits→OptionTrips (config_scope_type-RoundTrips documented policy) m.scope h1))
        (string_field documented _ policy 2 (λ v. record { scope = m.scope; key = v }) m.key
          (omega arith) refl))

pub delete_config_item_request_type-Terminates :
    {runtime : Runtime}
    → IsDocumented runtime
    → Terminates (delete_config_item_request_type runtime)
unfolding delete_config_item_request_type
delete_config_item_request_type-Terminates documented policy field_no t m =
    case_ends (field_no == 1) _ _
      (assign_parsed-Moves _ (λ v. record m { scope = some v })
        (read_nested-Moves documented _ policy _ (config_scope_type-Terminates documented)))
      (case_ends (field_no == 2) _ _
        (assign-Moves _ (λ v. record m { key = v }) documented.string_moves) default_ends)

abbrev pub GetConfigDraftRequestFits : GetConfigDraftRequest → Type 0
GetConfigDraftRequestFits m = OptionFits ConfigScopeFits m.scope

pub get_config_draft_request_type-RoundTrips :
    {runtime : Runtime}
    → IsDocumented runtime
    → (policy : UnknownPolicy) (m : GetConfigDraftRequest) → GetConfigDraftRequestFits m
    → RoundTrips runtime (get_config_draft_request_type runtime) policy m
unfolding get_config_draft_request_type
get_config_draft_request_type-RoundTrips documented policy m h1 =
    round_trips documented _ policy m (
      optional_field documented _ policy _ 1 (λ v. record { scope = v }) m.scope (omega arith) refl
        (OptionFits→OptionTrips (config_scope_type-RoundTrips documented policy) m.scope h1))

pub get_config_draft_request_type-Terminates :
    {runtime : Runtime} → IsDocumented runtime → Terminates (get_config_draft_request_type runtime)
unfolding get_config_draft_request_type
get_config_draft_request_type-Terminates documented policy field_no t m =
    case_ends (field_no == 1) _ _
      (assign_parsed-Moves _ (λ v. record m { scope = some v })
        (read_nested-Moves documented _ policy _ (config_scope_type-Terminates documented)))
      default_ends

abbrev pub ConfigDraftResponseFits : ConfigDraftResponse → Type 0
ConfigDraftResponseFits m =
    (OptionFits ConfigScopeFits m.scope) × (All (MessageFits ConfigItemFits) m.items)

pub config_draft_response_type-RoundTrips :
    {runtime : Runtime}
    → IsDocumented runtime
    → (policy : UnknownPolicy) (m : ConfigDraftResponse) → ConfigDraftResponseFits m
    → RoundTrips runtime (config_draft_response_type runtime) policy m
unfolding config_draft_response_type
config_draft_response_type-RoundTrips documented policy m (h1, h2) =
    round_trips documented _ policy m (
      Reads-then
        (optional_field documented _ policy _ 1 (λ v. record { scope = v; items = [] }) m.scope
          (omega arith) refl
          (OptionFits→OptionTrips (config_scope_type-RoundTrips documented policy) m.scope h1))
        (repeated_field documented _ policy _ 2 (λ v. record { scope = m.scope; items = v }) m.items
          (omega arith) (λ l. refl)
          (All-MessageFits→Trips (config_item_type-RoundTrips documented policy) m.items h2)))

pub config_draft_response_type-Terminates :
    {runtime : Runtime} → IsDocumented runtime → Terminates (config_draft_response_type runtime)
unfolding config_draft_response_type
config_draft_response_type-Terminates documented policy field_no t m =
    case_ends (field_no == 1) _ _
      (assign_parsed-Moves _ (λ v. record m { scope = some v })
        (read_nested-Moves documented _ policy _ (config_scope_type-Terminates documented)))
      (case_ends (field_no == 2) _ _
        (assign_parsed-Moves _ (λ v. record m { items = m.items ++ v ∷ [] })
          (read_nested-Moves documented _ policy _ (config_item_type-Terminates documented)))
        default_ends)
