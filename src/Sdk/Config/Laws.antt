-- ===== src/Sdk/Config/Laws.antt =====
-- The calls of `ConfigClient`: their errors, their requests on the wire, and revisions.
-- Code: sdk/typescript/src/index.ts
use mathlib.Core.Option
use pgapp.Common.{
  ℕ, ◌+◌, ◌≡◌, refl, sym, ap, ◌∙◌, String, Bool, true, Option, none, some, ℤ, pos, ◌++◌, length,
  arith,
}
use pgapp.Common.Result.{Thrown, Result, ok, throw, ◌>>=◌}
use pgapp.Number.{integer_text, IsSafe, to_string, number}
use pgapp.Number.Laws.{safe-to_string, safe-IsInt64, number-integer_text}
use pgapp.Wire.{
  Bytes, Runtime, Message, UnknownPolicy, done, plain, internal_binary_read, internal_binary_write,
}
use pgapp.Wire.Documented.{IsDocumented, at}
use pgapp.Sdk.Client.{PgAppClient, from, rpc_options, wrap}
use pgapp.Sdk.Client.Laws.{thrown, thrown-wrap, thrown-bind}
use pgapp.Proto.Config.Scopes.{ConfigScope}
use pgapp.Proto.Config.Releases.{ConfigRelease}
use pgapp.Proto.Config.Watches.{WatchConfigResponse}
use pgapp.Proto.Config.Kinds.{
  ConfigKind, get_config_release_request, watch_config_request, ConfigBody, config_type, ConfigFits,
  config_round_trip,
}
use pgapp.Sdk.Config.{
  ConfigServiceClient, ConfigReleaseSnapshot, ConfigWatchResult, optional_snapshot, scope,
  get_release_request, watch_request, snapshot_text, release_snapshot, get_release,
  get_latest_release, watch,
}

-- A call of the client for the scope of four texts.
pub data ConfigCall : Type 0 where
  call_get_release : (app_id environment cluster namespace : String) → (revision : ℤ) → ConfigCall
  call_get_latest_release : (app_id environment cluster namespace : String) → ConfigCall
  call_watch :
      (app_id environment cluster namespace : String)
      → (known_revision timeout_seconds : ℤ) → ConfigCall

module _ {Json : Type 0} (parse : String → Result Json) where
  abbrev parse_error : ConfigRelease → Option Thrown
  parse_error release = thrown (parse (snapshot_text release.snapshot_json))

  abbrev release_error : Result (Message ConfigRelease) → Option Thrown
  release_error (ok response) = parse_error response.body
  release_error (throw e) = some e

  abbrev optional_error : Option (Message ConfigRelease) → Option Thrown
  optional_error none = none
  optional_error (some release) = parse_error release.body

  abbrev watch_error : Result (Message WatchConfigResponse) → Option Thrown
  watch_error (ok response) = optional_error response.body.release
  watch_error (throw e) = some e

  module _ (inner : ConfigServiceClient) (client : PgAppClient) where
    -- The first error: that of the generated client, or else that of parsing the snapshot.
    abbrev pub first_error : ConfigCall → Option Thrown
    first_error (call_get_release a e c n revision) = release_error (
        inner.get_release (plain (get_release_request (scope a e c n) revision))
          (rpc_options client))
    first_error (call_get_latest_release a e c n) = release_error (
        inner.get_release (plain (get_release_request (scope a e c n) (pos 0)))
          (rpc_options client))
    first_error (call_watch a e c n known_revision timeout_seconds) = watch_error (
        inner.watch (plain (watch_request (scope a e c n) known_revision timeout_seconds))
          (rpc_options client))

    -- What the caller is thrown.
    abbrev pub caller_error : ConfigCall → Option Thrown
    caller_error (call_get_release a e c n revision) =
        thrown (get_release parse inner client (scope a e c n) revision)
    caller_error (call_get_latest_release a e c n) =
        thrown (get_latest_release parse inner client (scope a e c n))
    caller_error (call_watch a e c n known_revision timeout_seconds) =
        thrown (watch parse inner client (scope a e c n) known_revision timeout_seconds)

    get_release-thrown :
        (result : Result (Message ConfigRelease))
        → thrown (wrap (result >>= (λ response. release_snapshot parse response.body)))
          ≡ Option.map from (release_error result)
    unfolding release_snapshot wrap
    get_release-thrown (throw e) = refl
    get_release-thrown (ok response) =
        thrown-wrap (parse (snapshot_text response.body.snapshot_json)) _

    abbrev watched : Message WatchConfigResponse → Result (ConfigWatchResult Json)
    watched response = do
      release ← optional_snapshot parse response.body.release
      ok (record {
        changed = response.body.changed;
        latest_revision = number response.body.latest_revision;
        release = release;
      })

    optional-thrown :
        (release : Option (Message ConfigRelease))
        → thrown (optional_snapshot parse release) ≡ optional_error release
    unfolding release_snapshot
    optional-thrown none = refl
    optional-thrown (some release) =
        thrown-bind (release_snapshot parse release.body) some
        ∙ thrown-bind (parse (snapshot_text release.body.snapshot_json)) _

    watch-thrown :
        (result : Result (Message WatchConfigResponse))
        → thrown (wrap (result >>= watched)) ≡ Option.map from (watch_error result)
    watch-thrown (throw e) = unfold wrap in refl
    watch-thrown (ok response) =
        thrown-wrap (optional_snapshot parse response.body.release) _
        ∙ ap (Option.map from) (optional-thrown response.body.release)

    pub config_error-from :
        (call : ConfigCall) → caller_error call ≡ Option.map from (first_error call)
    unfolding get_release get_latest_release watch
    config_error-from (call_get_release a e c n revision) = get_release-thrown _
    config_error-from (call_get_latest_release a e c n) = get_release-thrown _
    config_error-from (call_watch a e c n known_revision timeout_seconds) = watch-thrown _

-- The message that the call sends.
abbrev pub request_kind : ConfigCall → ConfigKind
request_kind (call_get_release a e c n revision) = get_config_release_request
request_kind (call_get_latest_release a e c n) = get_config_release_request
request_kind (call_watch a e c n known_revision timeout_seconds) = watch_config_request

abbrev pub request_body : (call : ConfigCall) → ConfigBody (request_kind call)
request_body (call_get_release a e c n revision) = get_release_request (scope a e c n) revision
request_body (call_get_latest_release a e c n) = get_release_request (scope a e c n) (pos 0)
request_body (call_watch a e c n known_revision timeout_seconds) =
    watch_request (scope a e c n) known_revision timeout_seconds

-- The numbers are between -2^53 and 2^53.
abbrev pub IsSendable : ConfigCall → Type 0
IsSendable (call_get_release a e c n revision) = IsSafe revision
IsSendable (call_get_latest_release a e c n) = Unit
IsSendable (call_watch a e c n known_revision timeout_seconds) =
    (IsSafe known_revision) × (IsSafe timeout_seconds)

request_body-Fits :
    (runtime : Runtime) (call : ConfigCall)
    → IsSendable call
    → ConfigFits runtime (request_kind call) (request_body call)
unfolding get_release_request watch_request scope
request_body-Fits runtime (call_get_release a e c n revision) h =
    ((refl, tt), safe-IsInt64 revision h)
request_body-Fits runtime (call_get_latest_release a e c n) h =
    ((refl, tt), safe-IsInt64 (pos 0) (omega arith))
request_body-Fits runtime (call_watch a e c n known_revision timeout_seconds) (h, k) =
    ((refl, tt), safe-IsInt64 known_revision h, safe-IsInt64 timeout_seconds k)

-- The arguments of the call, each in its field.
abbrev pub arguments : (call : ConfigCall) → ConfigBody (request_kind call)
arguments (call_get_release a e c n revision) = record {
  scope = some (plain (record { app_id = a; environment = e; cluster = c; namespace = n }));
  revision = to_string revision;
}
arguments (call_get_latest_release a e c n) = record {
  scope = some (plain (record { app_id = a; environment = e; cluster = c; namespace = n }));
  revision = to_string (pos 0);
}
arguments (call_watch a e c n known_revision timeout_seconds) = record {
  scope = some (plain (record { app_id = a; environment = e; cluster = c; namespace = n }));
  known_revision = to_string known_revision;
  timeout_seconds = to_string timeout_seconds;
}

request_body-arguments : (call : ConfigCall) → request_body call ≡ arguments call
unfolding get_release_request watch_request scope
request_body-arguments (call_get_release a e c n revision) = refl
request_body-arguments (call_get_latest_release a e c n) = refl
request_body-arguments (call_watch a e c n known_revision timeout_seconds) = refl

-- A call whose numbers are between -2^53 and 2^53 reaches the server: if the client writes its request as
-- bytes, reading them, at any position and whatever follows, gives a request with each argument in its
-- field, with the reader just behind them.
pub config_request_arrives :
    (runtime : Runtime)
    → IsDocumented runtime
    → (call : ConfigCall) → IsSendable call
    → (policy : UnknownPolicy) (w : Bytes)
    → internal_binary_write runtime
        (config_type runtime (request_kind call))
        true
        (plain (request_body call))
      ≡ ok w
    → (p : ℕ) (rest : Bytes)
    → internal_binary_read runtime
        (config_type runtime (request_kind call))
        policy
        (length w)
        none
        (at p (w ++ rest))
      ≡ done (plain (arguments call), at (p + length w) rest)
config_request_arrives runtime documented call sendable policy w e p rest =
    config_round_trip runtime documented policy (request_kind call) (request_body call)
      (request_body-Fits runtime call sendable) w e p rest
    ∙ ap (λ body. done (plain body, at (p + length w) rest)) (request_body-arguments call)

abbrev latest_of : {Json : Type 0} → Result (ConfigWatchResult Json) → Option ℤ
latest_of (ok seen) = seen.latest_revision
latest_of (throw e) = none

watched-latest :
    {Json : Type 0} (release : Result (Option (ConfigReleaseSnapshot Json))) (changed : Bool)
    (latest : Option ℤ) (seen : ConfigWatchResult Json)
    → wrap (
        release >>= (λ r. ok (record { changed = changed; latest_revision = latest; release = r })))
      ≡ ok seen
    → seen.latest_revision ≡ latest
unfolding wrap
watched-latest (ok release) changed latest seen e = sym (ap latest_of e)
watched-latest (throw t) changed latest seen e = cc

-- A caller that watches a scope and hands the latest revision it was told back as the known revision
-- sends the server its own text for it, if it is the digits of a revision between -2^53 and 2^53.
pub watch-revision :
    {Json : Type 0} (parse : String → Result Json) (inner : ConfigServiceClient)
    (client : PgAppClient) (scope_of : Message ConfigScope) (known timeout : ℤ)
    (response : Message WatchConfigResponse) (revision : ℤ)
    → IsSafe revision
    → response.body.latest_revision ≡ integer_text revision
    → inner.watch (plain (watch_request scope_of known timeout)) (rpc_options client) ≡ ok response
    → (seen : ConfigWatchResult Json) → watch parse inner client scope_of known timeout ≡ ok seen
    → (seen.latest_revision ≡ some revision)
      × ((watch_request scope_of revision timeout).known_revision ≡ response.body.latest_revision)
unfolding watch watch_request
watch-revision parse inner client scope_of known timeout response revision safe shown answer seen
      e =
    (
      watched-latest (optional_snapshot parse response.body.release) response.body.changed
            (number response.body.latest_revision) seen
            (sym (ap (λ r. wrap (r >>= watched parse inner client)) answer) ∙ e)
          ∙ (ap number shown ∙ number-integer_text revision safe),
      safe-to_string revision safe ∙ sym shown,
    )
