-- ===== src/Proto/Config/Kinds.antt =====
-- Every message of config.proto, by its kind.
-- Code: sdk/typescript/src/gen/pgapp/v1/config.ts
use pgapp.Common.{ℕ, ◌+◌, ◌≡◌, true, Option, none, ◌++◌, length}
use pgapp.Common.Result.{ok}
use pgapp.Wire.{
  Bytes, Runtime, Reader, Message, MessageType, UnknownPolicy, done, plain, internal_binary_read,
  internal_binary_write,
}
use pgapp.Wire.Documented.{IsDocumented, at}
use pgapp.Wire.Loop.{EndsFrom, Terminates, internal_binary_read-Moves}
use pgapp.Proto.Config.Scopes.{
  ConfigScope, config_scope_type, ListConfigScopesRequest, list_config_scopes_request_type,
  ConfigScopeSummary, config_scope_summary_type, ListConfigScopesResponse,
  list_config_scopes_response_type,
}
use pgapp.Proto.Config.Scopes.RoundTrip.{
  ConfigScopeFits, config_scope_type-RoundTrips, config_scope_type-Terminates,
  ListConfigScopesRequestFits, list_config_scopes_request_type-RoundTrips,
  list_config_scopes_request_type-Terminates, ConfigScopeSummaryFits,
  config_scope_summary_type-RoundTrips, config_scope_summary_type-Terminates,
  ListConfigScopesResponseFits, list_config_scopes_response_type-RoundTrips,
  list_config_scopes_response_type-Terminates,
}
use pgapp.Proto.Config.Drafts.{
  ConfigItem, config_item_type, UpsertConfigItemRequest, upsert_config_item_request_type,
  DeleteConfigItemRequest, delete_config_item_request_type, GetConfigDraftRequest,
  get_config_draft_request_type, ConfigDraftResponse, config_draft_response_type,
}
use pgapp.Proto.Config.Drafts.RoundTrip.{
  ConfigItemFits, config_item_type-RoundTrips, config_item_type-Terminates,
  UpsertConfigItemRequestFits, upsert_config_item_request_type-RoundTrips,
  upsert_config_item_request_type-Terminates, DeleteConfigItemRequestFits,
  delete_config_item_request_type-RoundTrips, delete_config_item_request_type-Terminates,
  GetConfigDraftRequestFits, get_config_draft_request_type-RoundTrips,
  get_config_draft_request_type-Terminates, ConfigDraftResponseFits,
  config_draft_response_type-RoundTrips, config_draft_response_type-Terminates,
}
use pgapp.Proto.Config.Releases.{
  ConfigRelease, config_release_type, PublishConfigRequest, publish_config_request_type,
  GetConfigReleaseRequest, get_config_release_request_type, ListConfigReleasesRequest,
  list_config_releases_request_type, ListConfigReleasesResponse, list_config_releases_response_type,
}
use pgapp.Proto.Config.Releases.RoundTrip.{
  ConfigReleaseFits, config_release_type-RoundTrips, config_release_type-Terminates,
  PublishConfigRequestFits, publish_config_request_type-RoundTrips,
  publish_config_request_type-Terminates, GetConfigReleaseRequestFits,
  get_config_release_request_type-RoundTrips, get_config_release_request_type-Terminates,
  ListConfigReleasesRequestFits, list_config_releases_request_type-RoundTrips,
  list_config_releases_request_type-Terminates, ListConfigReleasesResponseFits,
  list_config_releases_response_type-RoundTrips, list_config_releases_response_type-Terminates,
}
use pgapp.Proto.Config.Watches.{
  WatchConfigRequest, watch_config_request_type, WatchConfigResponse, watch_config_response_type,
}
use pgapp.Proto.Config.Watches.RoundTrip.{
  WatchConfigRequestFits, watch_config_request_type-RoundTrips,
  watch_config_request_type-Terminates, WatchConfigResponseFits,
  watch_config_response_type-RoundTrips, watch_config_response_type-Terminates,
}
use pgapp.Proto.Config.Schemas.{
  SetConfigSchemaRequest, set_config_schema_request_type, GetConfigSchemaRequest,
  get_config_schema_request_type, ConfigSchemaResponse, config_schema_response_type,
}
use pgapp.Proto.Config.Schemas.RoundTrip.{
  SetConfigSchemaRequestFits, set_config_schema_request_type-RoundTrips,
  set_config_schema_request_type-Terminates, GetConfigSchemaRequestFits,
  get_config_schema_request_type-RoundTrips, get_config_schema_request_type-Terminates,
  ConfigSchemaResponseFits, config_schema_response_type-RoundTrips,
  config_schema_response_type-Terminates,
}

pub data ConfigKind : Type 0 where
  config_scope config_item config_release list_config_scopes_request config_scope_summary
        list_config_scopes_response upsert_config_item_request delete_config_item_request
        get_config_draft_request config_draft_response publish_config_request
        get_config_release_request list_config_releases_request list_config_releases_response
        watch_config_request watch_config_response set_config_schema_request
        get_config_schema_request config_schema_response :
      ConfigKind

-- The interface of each kind.
abbrev pub ConfigBody : ConfigKind → Type 0
ConfigBody config_scope = ConfigScope
ConfigBody config_item = ConfigItem
ConfigBody config_release = ConfigRelease
ConfigBody list_config_scopes_request = ListConfigScopesRequest
ConfigBody config_scope_summary = ConfigScopeSummary
ConfigBody list_config_scopes_response = ListConfigScopesResponse
ConfigBody upsert_config_item_request = UpsertConfigItemRequest
ConfigBody delete_config_item_request = DeleteConfigItemRequest
ConfigBody get_config_draft_request = GetConfigDraftRequest
ConfigBody config_draft_response = ConfigDraftResponse
ConfigBody publish_config_request = PublishConfigRequest
ConfigBody get_config_release_request = GetConfigReleaseRequest
ConfigBody list_config_releases_request = ListConfigReleasesRequest
ConfigBody list_config_releases_response = ListConfigReleasesResponse
ConfigBody watch_config_request = WatchConfigRequest
ConfigBody watch_config_response = WatchConfigResponse
ConfigBody set_config_schema_request = SetConfigSchemaRequest
ConfigBody get_config_schema_request = GetConfigSchemaRequest
ConfigBody config_schema_response = ConfigSchemaResponse

-- The class of each kind.
abbrev pub config_type : Runtime → (kind : ConfigKind) → MessageType (ConfigBody kind)
config_type runtime config_scope = config_scope_type runtime
config_type runtime config_item = config_item_type runtime
config_type runtime config_release = config_release_type runtime
config_type runtime list_config_scopes_request = list_config_scopes_request_type runtime
config_type runtime config_scope_summary = config_scope_summary_type runtime
config_type runtime list_config_scopes_response = list_config_scopes_response_type runtime
config_type runtime upsert_config_item_request = upsert_config_item_request_type runtime
config_type runtime delete_config_item_request = delete_config_item_request_type runtime
config_type runtime get_config_draft_request = get_config_draft_request_type runtime
config_type runtime config_draft_response = config_draft_response_type runtime
config_type runtime publish_config_request = publish_config_request_type runtime
config_type runtime get_config_release_request = get_config_release_request_type runtime
config_type runtime list_config_releases_request = list_config_releases_request_type runtime
config_type runtime list_config_releases_response = list_config_releases_response_type runtime
config_type runtime watch_config_request = watch_config_request_type runtime
config_type runtime watch_config_response = watch_config_response_type runtime
config_type runtime set_config_schema_request = set_config_schema_request_type runtime
config_type runtime get_config_schema_request = get_config_schema_request_type runtime
config_type runtime config_schema_response = config_schema_response_type runtime

-- The integer fields hold integers of their width in canonical decimal form, byte fields hold
-- bytes, and nested objects hold no unknown field.
abbrev pub ConfigFits : Runtime → (kind : ConfigKind) → ConfigBody kind → Type 0
ConfigFits runtime config_scope m = ConfigScopeFits m
ConfigFits runtime config_item m = ConfigItemFits m
ConfigFits runtime config_release m = ConfigReleaseFits m
ConfigFits runtime list_config_scopes_request m = ListConfigScopesRequestFits m
ConfigFits runtime config_scope_summary m = ConfigScopeSummaryFits m
ConfigFits runtime list_config_scopes_response m = ListConfigScopesResponseFits m
ConfigFits runtime upsert_config_item_request m = UpsertConfigItemRequestFits m
ConfigFits runtime delete_config_item_request m = DeleteConfigItemRequestFits m
ConfigFits runtime get_config_draft_request m = GetConfigDraftRequestFits m
ConfigFits runtime config_draft_response m = ConfigDraftResponseFits m
ConfigFits runtime publish_config_request m = PublishConfigRequestFits m
ConfigFits runtime get_config_release_request m = GetConfigReleaseRequestFits m
ConfigFits runtime list_config_releases_request m = ListConfigReleasesRequestFits m
ConfigFits runtime list_config_releases_response m = ListConfigReleasesResponseFits m
ConfigFits runtime watch_config_request m = WatchConfigRequestFits m
ConfigFits runtime watch_config_response m = WatchConfigResponseFits m
ConfigFits runtime set_config_schema_request m = SetConfigSchemaRequestFits m
ConfigFits runtime get_config_schema_request m = GetConfigSchemaRequestFits m
ConfigFits runtime config_schema_response m = ConfigSchemaResponseFits m

-- For every message class of config.ts and every object whose 32-bit integers are of their width
-- and whose 64-bit integers are canonical decimal texts of theirs, in nested objects too, and which
-- holds no unknown field at any level: if `internalBinaryWrite` returns bytes, `internalBinaryRead`
-- given their number, at any position and whatever follows, returns the same object with the reader
-- just behind them, whichever policy for unknown fields is set.
pub config_round_trip :
    (runtime : Runtime)
    → IsDocumented runtime
    → (policy : UnknownPolicy) (kind : ConfigKind) (m : ConfigBody kind) → ConfigFits runtime kind m
    → (w : Bytes) → internal_binary_write runtime (config_type runtime kind) true (plain m) ≡ ok w
    → (p : ℕ) (rest : Bytes)
    → internal_binary_read runtime
        (config_type runtime kind)
        policy
        (length w)
        none
        (at p (w ++ rest))
      ≡ done (plain m, at (p + length w) rest)
config_round_trip runtime documented policy config_scope m fits w e p rest =
    (config_scope_type-RoundTrips documented policy m fits).trips w e p rest
config_round_trip runtime documented policy config_item m fits w e p rest =
    (config_item_type-RoundTrips documented policy m fits).trips w e p rest
config_round_trip runtime documented policy config_release m fits w e p rest =
    (config_release_type-RoundTrips documented policy m fits).trips w e p rest
config_round_trip runtime documented policy list_config_scopes_request m fits w e p rest =
    (list_config_scopes_request_type-RoundTrips documented policy m fits).trips w e p rest
config_round_trip runtime documented policy config_scope_summary m fits w e p rest =
    (config_scope_summary_type-RoundTrips documented policy m fits).trips w e p rest
config_round_trip runtime documented policy list_config_scopes_response m fits w e p rest =
    (list_config_scopes_response_type-RoundTrips documented policy m fits).trips w e p rest
config_round_trip runtime documented policy upsert_config_item_request m fits w e p rest =
    (upsert_config_item_request_type-RoundTrips documented policy m fits).trips w e p rest
config_round_trip runtime documented policy delete_config_item_request m fits w e p rest =
    (delete_config_item_request_type-RoundTrips documented policy m fits).trips w e p rest
config_round_trip runtime documented policy get_config_draft_request m fits w e p rest =
    (get_config_draft_request_type-RoundTrips documented policy m fits).trips w e p rest
config_round_trip runtime documented policy config_draft_response m fits w e p rest =
    (config_draft_response_type-RoundTrips documented policy m fits).trips w e p rest
config_round_trip runtime documented policy publish_config_request m fits w e p rest =
    (publish_config_request_type-RoundTrips documented policy m fits).trips w e p rest
config_round_trip runtime documented policy get_config_release_request m fits w e p rest =
    (get_config_release_request_type-RoundTrips documented policy m fits).trips w e p rest
config_round_trip runtime documented policy list_config_releases_request m fits w e p rest =
    (list_config_releases_request_type-RoundTrips documented policy m fits).trips w e p rest
config_round_trip runtime documented policy list_config_releases_response m fits w e p rest =
    (list_config_releases_response_type-RoundTrips documented policy m fits).trips w e p rest
config_round_trip runtime documented policy watch_config_request m fits w e p rest =
    (watch_config_request_type-RoundTrips documented policy m fits).trips w e p rest
config_round_trip runtime documented policy watch_config_response m fits w e p rest =
    (watch_config_response_type-RoundTrips documented policy m fits).trips w e p rest
config_round_trip runtime documented policy set_config_schema_request m fits w e p rest =
    (set_config_schema_request_type-RoundTrips documented policy m fits).trips w e p rest
config_round_trip runtime documented policy get_config_schema_request m fits w e p rest =
    (get_config_schema_request_type-RoundTrips documented policy m fits).trips w e p rest
config_round_trip runtime documented policy config_schema_response m fits w e p rest =
    (config_schema_response_type-RoundTrips documented policy m fits).trips w e p rest

config_type-Terminates :
    (runtime : Runtime)
    → IsDocumented runtime
    → (kind : ConfigKind) → Terminates (config_type runtime kind)
config_type-Terminates runtime documented config_scope = config_scope_type-Terminates documented
config_type-Terminates runtime documented config_item = config_item_type-Terminates documented
config_type-Terminates runtime documented config_release = config_release_type-Terminates documented
config_type-Terminates runtime documented list_config_scopes_request =
    list_config_scopes_request_type-Terminates documented
config_type-Terminates runtime documented config_scope_summary =
    config_scope_summary_type-Terminates documented
config_type-Terminates runtime documented list_config_scopes_response =
    list_config_scopes_response_type-Terminates documented
config_type-Terminates runtime documented upsert_config_item_request =
    upsert_config_item_request_type-Terminates documented
config_type-Terminates runtime documented delete_config_item_request =
    delete_config_item_request_type-Terminates documented
config_type-Terminates runtime documented get_config_draft_request =
    get_config_draft_request_type-Terminates documented
config_type-Terminates runtime documented config_draft_response =
    config_draft_response_type-Terminates documented
config_type-Terminates runtime documented publish_config_request =
    publish_config_request_type-Terminates documented
config_type-Terminates runtime documented get_config_release_request =
    get_config_release_request_type-Terminates documented
config_type-Terminates runtime documented list_config_releases_request =
    list_config_releases_request_type-Terminates documented
config_type-Terminates runtime documented list_config_releases_response =
    list_config_releases_response_type-Terminates documented
config_type-Terminates runtime documented watch_config_request =
    watch_config_request_type-Terminates documented
config_type-Terminates runtime documented watch_config_response =
    watch_config_response_type-Terminates documented
config_type-Terminates runtime documented set_config_schema_request =
    set_config_schema_request_type-Terminates documented
config_type-Terminates runtime documented get_config_schema_request =
    get_config_schema_request_type-Terminates documented
config_type-Terminates runtime documented config_schema_response =
    config_schema_response_type-Terminates documented

-- For every message class of the file, any bytes, any length and any object to read into:
-- `internalBinaryRead` returns or throws, so its loop never runs out of the model's fuel, and where it
-- returns the reader has not moved back.
pub config_read_ends :
    (runtime : Runtime)
    → IsDocumented runtime
    → (policy : UnknownPolicy) (kind : ConfigKind) (size : ℕ)
      (target : Option (Message (ConfigBody kind))) (r : Reader)
    → EndsFrom r.pos (internal_binary_read runtime (config_type runtime kind) policy size target r)
config_read_ends runtime documented policy kind size target r =
    (internal_binary_read-Moves documented (config_type runtime kind)
        (config_type-Terminates runtime documented kind) policy size target).moves
      r
