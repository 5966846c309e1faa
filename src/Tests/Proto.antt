-- ===== src/Tests/Proto.antt =====
-- Messages of each proto file, written and read with the runtime of Tests/Dictionary.antt.
use pgapp.Common.{◌+◌, ◌≡◌, refl, true, none, some, [], ◌∷◌, ◌++◌, length, pos, arith}
use pgapp.Number.{decimal, to_string}
use pgapp.Number.Laws.{safe-IsInt64}
use pgapp.Wire.{
  Bytes, keep, discard, done, plain, write_optional, write_nested, join_written,
  internal_binary_read, internal_binary_write,
}
use pgapp.Wire.Documented.{at}
use pgapp.Wire.Loop.{EndsFrom}
use pgapp.Proto.Cache.Entries.{SetCacheRequest, set_cache_request_type}
use pgapp.Proto.Cache.Kinds.{cache_type, set_cache_request, cache_round_trip, cache_read_ends}
use pgapp.Proto.Mq.Reads.{ReadMessagesRequest, read_messages_request_type}
use pgapp.Proto.Mq.Kinds.{mq_type, read_messages_request, mq_round_trip, mq_read_ends}
use pgapp.Proto.Config.Scopes.{config_scope_type}
use pgapp.Proto.Config.Releases.{GetConfigReleaseRequest, get_config_release_request_type}
use pgapp.Proto.Config.Kinds.{
  config_type, get_config_release_request, config_round_trip, config_read_ends,
}
use pgapp.Proto.Health.{HealthResponse, health_response_type}
use pgapp.Proto.Health.Kinds.{health_type, health_response, health_round_trip, health_read_ends}
use pgapp.Tests.Dictionary.{runtime, runtime-IsDocumented}

abbrev set_k1 : SetCacheRequest
set_k1 = record { namespace = "users"; key = "k1"; value = 7 ∷ 8 ∷ []; ttl_seconds = "60" }

abbrev pub set_k1_bytes : Bytes
set_k1_bytes = 1 ∷ 2 ∷ 7 ∷ 2 ∷ 2 ∷ 8 ∷ 3 ∷ 2 ∷ 2 ∷ 7 ∷ 8 ∷ 4 ∷ 0 ∷ 5 ∷ []

cache_round_trip_example :
    internal_binary_read runtime
      (cache_type runtime set_cache_request)
      keep
      (length set_k1_bytes)
      none
      (at 3 (set_k1_bytes ++ (9 ∷ [])))
    ≡ done (plain set_k1, at (3 + length set_k1_bytes) (9 ∷ []))
unfolding set_cache_request_type internal_binary_write to_string decimal
cache_round_trip_example =
    cache_round_trip runtime runtime-IsDocumented keep set_cache_request set_k1
      ((omega arith, (omega arith, tt)), safe-IsInt64 (pos 60) (omega arith)) set_k1_bytes refl 3
      (9 ∷ [])

cache_read_ends_example : EndsFrom 3 (
    internal_binary_read runtime
      (cache_type runtime set_cache_request)
      discard
      4
      none
      (at 3 set_k1_bytes))
cache_read_ends_example =
    cache_read_ends runtime runtime-IsDocumented discard set_cache_request 4 none
      (at 3 set_k1_bytes)

abbrev read_five : ReadMessagesRequest
read_five = record { queue_name = "orders"; quantity = pos 5; visibility_timeout_seconds = "30" }

abbrev pub read_five_bytes : Bytes
read_five_bytes = 1 ∷ 2 ∷ 6 ∷ 2 ∷ 0 ∷ 5 ∷ 3 ∷ 0 ∷ 4 ∷ []

mq_round_trip_example :
    internal_binary_read runtime
      (mq_type runtime read_messages_request)
      keep
      (length read_five_bytes)
      none
      (at 3 (read_five_bytes ++ (9 ∷ [])))
    ≡ done (plain read_five, at (3 + length read_five_bytes) (9 ∷ []))
unfolding read_messages_request_type internal_binary_write to_string decimal
mq_round_trip_example =
    mq_round_trip runtime runtime-IsDocumented keep read_messages_request read_five
      ((omega arith, omega arith), safe-IsInt64 (pos 30) (omega arith)) read_five_bytes refl 3
      (9 ∷ [])

mq_read_ends_example : EndsFrom 3 (
    internal_binary_read runtime
      (mq_type runtime read_messages_request)
      discard
      4
      none
      (at 3 read_five_bytes))
mq_read_ends_example =
    mq_read_ends runtime runtime-IsDocumented discard read_messages_request 4 none
      (at 3 read_five_bytes)

abbrev get_fifth : GetConfigReleaseRequest
get_fifth = record {
  scope = some (
      plain
        (record { app_id = "app"; environment = "dev"; cluster = "main"; namespace = "users" }));
  revision = "5";
}

abbrev pub get_fifth_bytes : Bytes
get_fifth_bytes = 1 ∷ 2 ∷ 12 ∷ 1 ∷ 2 ∷ 13 ∷ 2 ∷ 2 ∷ 12 ∷ 3 ∷ 2 ∷ 14 ∷ 4 ∷ 2 ∷ 7 ∷ 2 ∷ 0 ∷ 3 ∷ []

config_round_trip_example :
    internal_binary_read runtime
      (config_type runtime get_config_release_request)
      keep
      (length get_fifth_bytes)
      none
      (at 3 (get_fifth_bytes ++ (9 ∷ [])))
    ≡ done (plain get_fifth, at (3 + length get_fifth_bytes) (9 ∷ []))
unfolding get_config_release_request_type config_scope_type internal_binary_write write_optional
    write_nested join_written to_string decimal
config_round_trip_example =
    config_round_trip runtime runtime-IsDocumented keep get_config_release_request get_fifth
      ((refl, tt), safe-IsInt64 (pos 5) (omega arith)) get_fifth_bytes refl 3 (9 ∷ [])

config_read_ends_example : EndsFrom 3 (
    internal_binary_read runtime
      (config_type runtime get_config_release_request)
      discard
      4
      none
      (at 3 get_fifth_bytes))
config_read_ends_example =
    config_read_ends runtime runtime-IsDocumented discard get_config_release_request 4 none
      (at 3 get_fifth_bytes)

abbrev alive : HealthResponse
alive = record { live = true }

abbrev alive_bytes : Bytes
alive_bytes = 1 ∷ 0 ∷ 1 ∷ []

health_round_trip_example :
    internal_binary_read runtime
      (health_type runtime health_response)
      keep
      (length alive_bytes)
      none
      (at 3 (alive_bytes ++ (9 ∷ [])))
    ≡ done (plain alive, at (3 + length alive_bytes) (9 ∷ []))
unfolding health_response_type internal_binary_write to_string decimal
health_round_trip_example =
    health_round_trip runtime runtime-IsDocumented keep health_response alive tt alive_bytes refl 3
      (9 ∷ [])

health_read_ends_example : EndsFrom 3 (
    internal_binary_read runtime
      (health_type runtime health_response)
      discard
      4
      none
      (at 3 alive_bytes))
health_read_ends_example =
    health_read_ends runtime runtime-IsDocumented discard health_response 4 none (at 3 alive_bytes)
