-- ===== src/Tests/Sdk.antt =====
-- Calls of the library with concrete services.
use pgapp.Common.{
  ℕ, ◌+◌, ◌≡◌, ◌≢◌, refl, String, true, none, some, [], ◌∷◌, ◌++◌, length, pos, arith,
}
use mathlib.Core.Option
use pgapp.Common.Result.{status, Thrown, error, Result, ok, throw}
use pgapp.Number.{decimal, integer_text, to_string, number}
use pgapp.Wire.{
  Message, keep, done, plain, write_optional, write_nested, join_written, internal_binary_read,
  internal_binary_write,
}
use pgapp.Wire.Documented.{AreBytes, at}
use pgapp.Proto.Cache.Entries.{set_cache_request_type}
use pgapp.Proto.Cache.Kinds.{cache_type, set_cache_request}
use pgapp.Proto.Mq.Reads.{read_messages_request_type, ReadMessagesRequest, QueueMessage}
use pgapp.Proto.Mq.Kinds.{mq_type, read_messages_request}
use pgapp.Proto.Config.Scopes.{ConfigScope, config_scope_type}
use pgapp.Proto.Config.Releases.{get_config_release_request_type}
use pgapp.Proto.Config.Watches.{WatchConfigResponse}
use pgapp.Proto.Config.Kinds.{config_type, get_config_release_request}
use pgapp.Sdk.Client.{PgAppClient, Unary, from, wrap}
use pgapp.Sdk.Bytes.{bytes, text, encode_bytes}
use pgapp.Sdk.Bytes.Utf8.{decode, decode-encode_bytes}
use pgapp.Sdk.Cache.{CacheServiceClient, set_request}
use pgapp.Sdk.Cache.Calls.{
  CacheCall, call_set, call_get, caller_error as cache_caller_error,
  service_error as cache_service_error, cache_error-from,
}
use pgapp.Sdk.Cache.Requests.{arguments as cache_arguments, cache_request_arrives}
use pgapp.Sdk.Mq.{
  MqServiceClient, StreamEvents, batch, finished, failed, read_request, send_json, ack_request,
}
use pgapp.Sdk.Mq.Calls.{
  MqCall, call_read, caller_error as mq_caller_error, first_error as mq_first_error, mq_error-from,
}
use pgapp.Sdk.Mq.Requests.{arguments as mq_arguments, mq_request_arrives}
use pgapp.Sdk.Mq.Stream.{StreamReadOptions, stream_read, received, error_of, stream_read-delivers}
use pgapp.Sdk.Mq.Ids.{send_json-ack, send_json-lost}
use pgapp.Sdk.Config.{
  ConfigServiceClient, ConfigWatchResult, scope, get_release_request, watch_request, watch,
}
use pgapp.Sdk.Config.Laws.{
  ConfigCall, call_get_release, caller_error as config_caller_error, first_error,
  arguments as config_arguments, config_error-from, config_request_arrives, watch-revision,
}
use pgapp.Tests.Dictionary.{runtime, runtime-IsDocumented}
use pgapp.Tests.Proto.{set_k1_bytes, read_five_bytes, get_fifth_bytes}

abbrev unavailable : Thrown
unavailable = error "RpcError" "connection refused" (some (status 14))

abbrev refuse : {A B : Type 0} → Unary A B
refuse request options = throw unavailable

abbrev client : PgAppClient
client = record { endpoint = "127.0.0.1:50051"; timeout_ms = some 5000; credentials = none }

abbrev cache_down : CacheServiceClient
cache_down = record {
  set = refuse;
  get = refuse;
  m_get = refuse;
  delete = refuse;
  exists = refuse;
  invalidate_namespace = refuse;
  stats = refuse;
  increment = refuse;
  decrement = refuse;
  set_nx = refuse;
  get_set = refuse;
  append = refuse;
  prepend = refuse;
}

cache_error-from_example :
    cache_caller_error cache_down client (call_get "users" "k1")
    ≡ Option.map from (cache_service_error cache_down client (call_get "users" "k1"))
cache_error-from_example = cache_error-from cache_down client (call_get "users" "k1")

abbrev set_call : CacheCall
set_call = call_set "users" "k1" (bytes (7 ∷ 8 ∷ [])) (pos 60)

cache_request_arrives_example :
    internal_binary_read runtime
      (cache_type runtime set_cache_request)
      keep
      (length set_k1_bytes)
      none
      (at 3 (set_k1_bytes ++ (9 ∷ [])))
    ≡ done (plain (cache_arguments set_call), at (3 + length set_k1_bytes) (9 ∷ []))
unfolding set_cache_request_type set_request internal_binary_write to_string decimal encode_bytes
cache_request_arrives_example =
    cache_request_arrives runtime runtime-IsDocumented set_call
      ((omega arith, (omega arith, tt)), omega arith) keep set_k1_bytes refl 3 (9 ∷ [])

-- The service answers `send` with the given id and gives the given stream.
abbrev mq_with : String → StreamEvents → MqServiceClient
mq_with id events = record {
  create_queue = refuse;
  purge_queue = refuse;
  drop_queue = refuse;
  send = λ _ _. ok (plain (record { message_id = id }));
  send_batch = refuse;
  read = refuse;
  read_with_poll = refuse;
  ack = refuse;
  archive = refuse;
  set_visibility_timeout = refuse;
  metrics = refuse;
  list_dlq_messages = refuse;
  get_dlq_message = refuse;
  reprocess_dlq_message = refuse;
  purge_dlq = refuse;
  stream_read = λ _ _. events;
}

abbrev message : String → Message QueueMessage
message id = plain (record {
  message_id = id;
  read_count = pos 1;
  enqueued_at = "0";
  visibility_timeout_at = "30";
  json_payload = "{}";
  ack_token = "tok";
})

-- Two batches, and then the connection is lost.
abbrev lost_stream : StreamEvents
lost_stream =
    batch (plain (record { messages = message "1" ∷ message "5" ∷ [] }))
      (batch (plain (record { messages = message "30" ∷ [] })) (failed unavailable))

abbrev no_options : StreamReadOptions
no_options = record { quantity = none; visibility_timeout_seconds = none }

stream_read-delivers_example :
    (received (stream_read (mq_with "1" lost_stream) client "orders" no_options)
      ≡ message "1" ∷ message "5" ∷ message "30" ∷ [])
    × (error_of (stream_read (mq_with "1" lost_stream) client "orders" no_options)
        ≡ some (from unavailable))
stream_read-delivers_example =
    stream_read-delivers (mq_with "1" lost_stream) client "orders" no_options lost_stream refl

-- A payload is its own text.
abbrev same_text : String → Result String
same_text s = ok s

mq_error-from_example :
    mq_caller_error same_text (mq_with "1" finished) client (call_read "orders" (pos 5) (pos 30))
    ≡ Option.map from (
        mq_first_error same_text
          (mq_with "1" finished)
          client
          (call_read "orders" (pos 5) (pos 30)))
mq_error-from_example =
    mq_error-from same_text (mq_with "1" finished) client (call_read "orders" (pos 5) (pos 30))

abbrev read_call : MqCall String
read_call = call_read "orders" (pos 5) (pos 30)

abbrev read_five : ReadMessagesRequest
read_five = record { queue_name = "orders"; quantity = pos 5; visibility_timeout_seconds = "30" }

mq_request_arrives_example :
    (mq_arguments same_text read_call ≡ ok read_five)
    × (internal_binary_read runtime
          (mq_type runtime read_messages_request)
          keep
          (length read_five_bytes)
          none
          (at 3 (read_five_bytes ++ (9 ∷ [])))
        ≡ done (plain read_five, at (3 + length read_five_bytes) (9 ∷ [])))
unfolding read_messages_request_type read_request internal_binary_write to_string decimal
mq_request_arrives_example =
    mq_request_arrives runtime runtime-IsDocumented same_text read_call
      ((omega arith, omega arith), omega arith) read_five refl keep read_five_bytes refl 3 (9 ∷ [])

send_json-ack_example :
    (send_json same_text (mq_with "60" finished) client "orders" "{}" (pos 0) ≡ ok (some (pos 60)))
    × ((ack_request "orders" (pos 60) "tok").message_id ≡ "60")
unfolding integer_text decimal
send_json-ack_example =
    send_json-ack same_text (mq_with "60" finished) client "orders" "{}" "{}" (pos 0) "tok"
      (plain (record { message_id = "60" })) (pos 60) (omega arith) refl refl refl

send_json-lost_example :
    (seen : ℕ) × (send_json same_text
        (mq_with (integer_text (pos 9007199254740993)) finished)
        client
        "orders"
        "{}"
        (pos 0)
      ≡ ok (some (pos seen)))
    × ((ack_request "orders" (pos seen) "tok").message_id ≢ integer_text (pos 9007199254740993))
send_json-lost_example =
    send_json-lost same_text (mq_with (integer_text (pos 9007199254740993)) finished) client
      "orders" "{}" "{}" (pos 0) "tok"
      (plain (record { message_id = integer_text (pos 9007199254740993) })) 9007199254740993
      (omega arith) (omega arith) refl refl refl refl

abbrev watched : Message WatchConfigResponse
watched = plain (record { changed = true; latest_revision = "5"; release = none })

abbrev config_up : ConfigServiceClient
config_up = record { get_release = refuse; watch = λ _ _. ok watched }

abbrev parse : String → Result String
parse s = throw (error "SyntaxError" s none)

abbrev app_scope : Message ConfigScope
app_scope =
    plain (record { app_id = "app"; environment = "dev"; cluster = "main"; namespace = "users" })

abbrev seen : ConfigWatchResult String
seen = record { changed = true; latest_revision = some (pos 5); release = none }

watch-revision_example :
    (seen.latest_revision ≡ some (pos 5))
    × ((watch_request app_scope (pos 5) (pos 30)).known_revision ≡ "5")
unfolding integer_text to_string decimal watch wrap number
watch-revision_example =
    watch-revision parse config_up client app_scope (pos 0) (pos 30) watched (pos 5) (omega arith)
      refl refl seen refl

config_error-from_example :
    config_caller_error parse config_up client (call_get_release "app" "dev" "main" "users" (pos 5))
    ≡ Option.map from
        (first_error parse config_up client (call_get_release "app" "dev" "main" "users" (pos 5)))
config_error-from_example =
    config_error-from parse config_up client (call_get_release "app" "dev" "main" "users" (pos 5))

abbrev get_call : ConfigCall
get_call = call_get_release "app" "dev" "main" "users" (pos 5)

config_request_arrives_example :
    internal_binary_read runtime
      (config_type runtime get_config_release_request)
      keep
      (length get_fifth_bytes)
      none
      (at 3 (get_fifth_bytes ++ (9 ∷ [])))
    ≡ done (plain (config_arguments get_call), at (3 + length get_fifth_bytes) (9 ∷ []))
unfolding get_config_release_request_type config_scope_type get_release_request scope
    internal_binary_write write_optional write_nested join_written to_string decimal
config_request_arrives_example =
    config_request_arrives runtime runtime-IsDocumented get_call (omega arith) keep get_fifth_bytes
      refl 3 (9 ∷ [])

decode-encode_bytes_example :
    AreBytes (encode_bytes (text "é5")) × (decode (encode_bytes (text "é5")) ≡ some (233 ∷ 53 ∷ []))
decode-encode_bytes_example = decode-encode_bytes "é5"
