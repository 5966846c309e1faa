-- ===== src/Sdk/Config.antt =====
-- `ConfigClient` and `releaseSnapshot`.
-- Code: sdk/typescript/src/index.ts. JSON values and `JSON.parse`, which may throw, are parameters.
pub mod Laws
use text.Mathlib.Text.{◌==◌ as str_eq}
use pgapp.Common.{String, Bool, true, false, Option, none, some, ℤ, pos, if◌then◌else◌}
use pgapp.Common.Result.{Thrown, Result, ok, throw, ◌>>=◌}
use pgapp.Number.{to_string, number}
use pgapp.Wire.{Message, plain}
use pgapp.Sdk.Client.{PgAppClient, Unary, rpc_options, wrap}
use pgapp.Proto.Config.Scopes.{ConfigScope}
use pgapp.Proto.Config.Releases.{ConfigRelease, GetConfigReleaseRequest}
use pgapp.Proto.Config.Watches.{WatchConfigRequest, WatchConfigResponse}

-- The two calls of `ConfigServiceClient` that the library makes.
pub record ConfigServiceClient : Type 0 where
  pub get_release : Unary GetConfigReleaseRequest ConfigRelease
  pub watch : Unary WatchConfigRequest WatchConfigResponse

unfoldable pub scope : String → String → String → String → Message ConfigScope
scope app_id environment cluster namespace = plain (record {
  app_id = app_id;
  environment = environment;
  cluster = cluster;
  namespace = namespace;
})

pub record ConfigReleaseSnapshot (Json : Type 0) : Type 0 where
  pub scope : Option (Message ConfigScope)
  pub revision : Option ℤ
  pub checksum : String
  pub snapshot : Json
  pub message : String
  pub published_by : String
  pub published_at : String

pub record ConfigWatchResult (Json : Type 0) : Type 0 where
  pub changed : Bool
  pub latest_revision : Option ℤ
  pub release : Option (ConfigReleaseSnapshot Json)

-- The messages that `getRelease` and `watch` send.
unfoldable pub get_release_request : Message ConfigScope → ℤ → GetConfigReleaseRequest
get_release_request scope revision = record { scope = some scope; revision = to_string revision }

unfoldable pub watch_request : Message ConfigScope → ℤ → ℤ → WatchConfigRequest
watch_request scope known_revision timeout_seconds = record {
  scope = some scope;
  known_revision = to_string known_revision;
  timeout_seconds = to_string timeout_seconds;
}

-- `release.snapshotJson || "{}"`
unfoldable pub snapshot_text : String → String
snapshot_text s = if str_eq s "" then "{}" else s

module _ {Json : Type 0} (parse : String → Result Json) where
  unfoldable pub release_snapshot : ConfigRelease → Result (ConfigReleaseSnapshot Json)
  unfolding snapshot_text
  release_snapshot release = do
    snapshot ← parse (snapshot_text release.snapshot_json)
    ok (record {
      scope = release.scope;
      revision = number release.revision;
      checksum = release.checksum;
      snapshot = snapshot;
      message = release.message;
      published_by = release.published_by;
      published_at = release.published_at;
    })

  abbrev pub optional_snapshot :
      Option (Message ConfigRelease) → Result (Option (ConfigReleaseSnapshot Json))
  optional_snapshot none = ok none
  optional_snapshot (some release) = do snapshot ← release_snapshot release.body; ok (some snapshot)

  module _ (inner : ConfigServiceClient) (client : PgAppClient) where
    unfoldable pub get_release : Message ConfigScope → ℤ → Result (ConfigReleaseSnapshot Json)
    unfolding release_snapshot get_release_request wrap
    get_release scope revision = wrap (do
      response ← inner.get_release (plain (get_release_request scope revision)) (rpc_options client)
      release_snapshot response.body)

    unfoldable pub get_latest_release : Message ConfigScope → Result (ConfigReleaseSnapshot Json)
    unfolding get_release
    get_latest_release scope = get_release scope (pos 0)

    unfoldable pub watch : Message ConfigScope → ℤ → ℤ → Result (ConfigWatchResult Json)
    unfolding release_snapshot watch_request wrap
    watch scope known_revision timeout_seconds = wrap (do
      response ←
          inner.watch (plain (watch_request scope known_revision timeout_seconds))
            (rpc_options client)
      release ← optional_snapshot response.body.release
      ok (record {
        changed = response.body.changed;
        latest_revision = number response.body.latest_revision;
        release = release;
      }))
