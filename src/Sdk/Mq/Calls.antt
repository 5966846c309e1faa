-- ===== src/Sdk/Mq/Calls.antt =====
-- The unary calls of `MQClient` and what they throw.
-- Code: sdk/typescript/src/index.ts
use mathlib.Core.Option
use pgapp.Common.{refl, some, ◌≡◌, String, Option, List, ℤ}
use pgapp.Common.Result.{Thrown, Result, ok, throw, ◌>>=◌}
use pgapp.Wire.{plain}
use pgapp.Sdk.Client.{PgAppClient, from, rpc_options, wrap}
use pgapp.Sdk.Client.Laws.{thrown, thrown-wrap}
use pgapp.Sdk.Mq.{
  MqServiceClient, create_queue, purge_queue, drop_queue, read, read_with_poll, ack, archive,
  set_visibility_timeout, metrics, list_dlq_messages, get_dlq_message, reprocess_dlq_message,
  purge_dlq, send_json, send_batch_json, create_queue_request, purge_queue_request,
  drop_queue_request, read_request, read_with_poll_request, ack_request, archive_request,
  set_visibility_timeout_request, metrics_request, list_dlq_messages_request,
  get_dlq_message_request, reprocess_dlq_message_request, purge_dlq_request, send_json_request,
  send_batch_json_request, stringify_each,
}

-- A call of the client, with its arguments.
pub data MqCall (Json : Type 0) : Type 0 where
  call_create_queue : String → ℤ → MqCall Json
  call_purge_queue : String → MqCall Json
  call_drop_queue : String → MqCall Json
  call_read : String → ℤ → ℤ → MqCall Json
  call_read_with_poll : String → ℤ → ℤ → ℤ → ℤ → MqCall Json
  call_ack : String → ℤ → String → MqCall Json
  call_archive : String → ℤ → String → MqCall Json
  call_set_visibility_timeout : String → ℤ → String → ℤ → MqCall Json
  call_metrics : String → MqCall Json
  call_list_dlq_messages : String → ℤ → ℤ → MqCall Json
  call_get_dlq_message : String → ℤ → MqCall Json
  call_reprocess_dlq_message : String → ℤ → MqCall Json
  call_purge_dlq : String → MqCall Json
  call_send_json : String → Json → ℤ → MqCall Json
  call_send_batch_json : String → List Json → ℤ → MqCall Json

-- What the caller is thrown.
abbrev pub caller_error :
    {Json : Type 0}
    → (Json → Result String)
    → MqServiceClient
    → PgAppClient
    → MqCall Json
    → Option Thrown
caller_error stringify inner client (call_create_queue queue_name storage_mode) =
    thrown (create_queue inner client queue_name storage_mode)
caller_error stringify inner client (call_purge_queue queue_name) =
    thrown (purge_queue inner client queue_name)
caller_error stringify inner client (call_drop_queue queue_name) =
    thrown (drop_queue inner client queue_name)
caller_error stringify inner client (call_read queue_name quantity visibility_timeout_seconds) =
    thrown (read inner client queue_name quantity visibility_timeout_seconds)
caller_error stringify inner client
      (call_read_with_poll queue_name quantity visibility_timeout_seconds max_poll_seconds
        poll_interval_millis) =
    thrown (
      read_with_poll inner client queue_name quantity visibility_timeout_seconds max_poll_seconds
        poll_interval_millis)
caller_error stringify inner client (call_ack queue_name message_id ack_token) =
    thrown (ack inner client queue_name message_id ack_token)
caller_error stringify inner client (call_archive queue_name message_id ack_token) =
    thrown (archive inner client queue_name message_id ack_token)
caller_error stringify inner client
      (call_set_visibility_timeout queue_name message_id ack_token visibility_timeout_seconds) =
    thrown (
      set_visibility_timeout inner client queue_name message_id ack_token
        visibility_timeout_seconds)
caller_error stringify inner client (call_metrics queue_name) =
    thrown (metrics inner client queue_name)
caller_error stringify inner client (call_list_dlq_messages queue_name limit offset) =
    thrown (list_dlq_messages inner client queue_name limit offset)
caller_error stringify inner client (call_get_dlq_message queue_name original_message_id) =
    thrown (get_dlq_message inner client queue_name original_message_id)
caller_error stringify inner client (call_reprocess_dlq_message queue_name original_message_id) =
    thrown (reprocess_dlq_message inner client queue_name original_message_id)
caller_error stringify inner client (call_purge_dlq queue_name) =
    thrown (purge_dlq inner client queue_name)
caller_error stringify inner client (call_send_json queue_name payload delay_seconds) =
    thrown (send_json stringify inner client queue_name payload delay_seconds)
caller_error stringify inner client (call_send_batch_json queue_name payloads delay_seconds) =
    thrown (send_batch_json stringify inner client queue_name payloads delay_seconds)

abbrev later_error : {A : Type 0} → Result A → (A → Option Thrown) → Option Thrown
later_error (ok a) error = error a
later_error (throw e) error = some e

-- The first error: that of `JSON.stringify` on a payload, or else that of the generated client for the
-- request that stands for the call.
abbrev pub first_error :
    {Json : Type 0}
    → (Json → Result String)
    → MqServiceClient
    → PgAppClient
    → MqCall Json
    → Option Thrown
first_error stringify inner client (call_create_queue queue_name storage_mode) =
    thrown (
      inner.create_queue (plain (create_queue_request queue_name storage_mode))
        (rpc_options client))
first_error stringify inner client (call_purge_queue queue_name) =
    thrown (inner.purge_queue (plain (purge_queue_request queue_name)) (rpc_options client))
first_error stringify inner client (call_drop_queue queue_name) =
    thrown (inner.drop_queue (plain (drop_queue_request queue_name)) (rpc_options client))
first_error stringify inner client (call_read queue_name quantity visibility_timeout_seconds) =
    thrown (
      inner.read (plain (read_request queue_name quantity visibility_timeout_seconds))
        (rpc_options client))
first_error stringify inner client
      (call_read_with_poll queue_name quantity visibility_timeout_seconds max_poll_seconds
        poll_interval_millis) =
    thrown (
      inner.read_with_poll
        (plain (
          read_with_poll_request queue_name quantity visibility_timeout_seconds max_poll_seconds
            poll_interval_millis))
        (rpc_options client))
first_error stringify inner client (call_ack queue_name message_id ack_token) =
    thrown (inner.ack (plain (ack_request queue_name message_id ack_token)) (rpc_options client))
first_error stringify inner client (call_archive queue_name message_id ack_token) =
    thrown
      (inner.archive (plain (archive_request queue_name message_id ack_token)) (rpc_options client))
first_error stringify inner client
      (call_set_visibility_timeout queue_name message_id ack_token visibility_timeout_seconds) =
    thrown (
      inner.set_visibility_timeout
        (plain (
          set_visibility_timeout_request queue_name message_id ack_token
            visibility_timeout_seconds))
        (rpc_options client))
first_error stringify inner client (call_metrics queue_name) =
    thrown (inner.metrics (plain (metrics_request queue_name)) (rpc_options client))
first_error stringify inner client (call_list_dlq_messages queue_name limit offset) = thrown (
    inner.list_dlq_messages (plain (list_dlq_messages_request queue_name limit offset))
      (rpc_options client))
first_error stringify inner client (call_get_dlq_message queue_name original_message_id) = thrown (
    inner.get_dlq_message (plain (get_dlq_message_request queue_name original_message_id))
      (rpc_options client))
first_error stringify inner client (call_reprocess_dlq_message queue_name original_message_id) =
    thrown (
      inner.reprocess_dlq_message
        (plain (reprocess_dlq_message_request queue_name original_message_id)) (rpc_options client))
first_error stringify inner client (call_purge_dlq queue_name) =
    thrown (inner.purge_dlq (plain (purge_dlq_request queue_name)) (rpc_options client))
first_error stringify inner client (call_send_json queue_name payload delay_seconds) =
    later_error (stringify payload) (λ json_payload. thrown (
      inner.send (plain (send_json_request queue_name json_payload delay_seconds))
        (rpc_options client)))
first_error stringify inner client (call_send_batch_json queue_name payloads delay_seconds) =
    later_error (stringify_each stringify payloads) (λ json_payloads. thrown (
      inner.send_batch (plain (send_batch_json_request queue_name json_payloads delay_seconds))
        (rpc_options client)))

stringified-thrown :
    {A B C : Type 0} (text : Result A) (f : A → Result B) (g : B → C)
    → thrown (wrap (text >>= (λ t. f t >>= (λ b. ok (g b)))))
      ≡ Option.map from (later_error text (λ t. thrown (f t)))
stringified-thrown (ok t) f g = thrown-wrap (f t) g
stringified-thrown (throw e) f g = unfold wrap in refl

pub mq_error-from :
    {Json : Type 0}
    → (stringify : Json → Result String) (inner : MqServiceClient) (client : PgAppClient)
      (call : MqCall Json)
    → caller_error stringify inner client call
      ≡ Option.map from (first_error stringify inner client call)
unfolding create_queue purge_queue drop_queue read read_with_poll ack archive set_visibility_timeout
    metrics list_dlq_messages get_dlq_message reprocess_dlq_message purge_dlq send_json
    send_batch_json
mq_error-from stringify inner client (call_create_queue queue_name storage_mode) =
    thrown-wrap
      (inner.create_queue (plain (create_queue_request queue_name storage_mode))
        (rpc_options client))
      _
mq_error-from stringify inner client (call_purge_queue queue_name) =
    thrown-wrap (inner.purge_queue (plain (purge_queue_request queue_name)) (rpc_options client)) _
mq_error-from stringify inner client (call_drop_queue queue_name) =
    thrown-wrap (inner.drop_queue (plain (drop_queue_request queue_name)) (rpc_options client)) _
mq_error-from stringify inner client (call_read queue_name quantity visibility_timeout_seconds) =
    thrown-wrap
      (inner.read (plain (read_request queue_name quantity visibility_timeout_seconds))
        (rpc_options client))
      _
mq_error-from stringify inner client
      (call_read_with_poll queue_name quantity visibility_timeout_seconds max_poll_seconds
        poll_interval_millis) =
    thrown-wrap
      (inner.read_with_poll
        (plain (
          read_with_poll_request queue_name quantity visibility_timeout_seconds max_poll_seconds
            poll_interval_millis))
        (rpc_options client))
      _
mq_error-from stringify inner client (call_ack queue_name message_id ack_token) =
    thrown-wrap
      (inner.ack (plain (ack_request queue_name message_id ack_token)) (rpc_options client)) _
mq_error-from stringify inner client (call_archive queue_name message_id ack_token) =
    thrown-wrap
      (inner.archive (plain (archive_request queue_name message_id ack_token)) (rpc_options client))
      _
mq_error-from stringify inner client
      (call_set_visibility_timeout queue_name message_id ack_token visibility_timeout_seconds) =
    thrown-wrap
      (inner.set_visibility_timeout
        (plain (
          set_visibility_timeout_request queue_name message_id ack_token
            visibility_timeout_seconds))
        (rpc_options client))
      _
mq_error-from stringify inner client (call_metrics queue_name) =
    thrown-wrap (inner.metrics (plain (metrics_request queue_name)) (rpc_options client)) _
mq_error-from stringify inner client (call_list_dlq_messages queue_name limit offset) =
    thrown-wrap
      (inner.list_dlq_messages (plain (list_dlq_messages_request queue_name limit offset))
        (rpc_options client))
      _
mq_error-from stringify inner client (call_get_dlq_message queue_name original_message_id) =
    thrown-wrap
      (inner.get_dlq_message (plain (get_dlq_message_request queue_name original_message_id))
        (rpc_options client))
      _
mq_error-from stringify inner client (call_reprocess_dlq_message queue_name original_message_id) =
    thrown-wrap
      (inner.reprocess_dlq_message
        (plain (reprocess_dlq_message_request queue_name original_message_id)) (rpc_options client))
      _
mq_error-from stringify inner client (call_purge_dlq queue_name) =
    thrown-wrap (inner.purge_dlq (plain (purge_dlq_request queue_name)) (rpc_options client)) _
mq_error-from stringify inner client (call_send_json queue_name payload delay_seconds) =
    stringified-thrown (stringify payload)
      (λ text.
        inner.send (plain (send_json_request queue_name text delay_seconds)) (rpc_options client))
      _
mq_error-from stringify inner client (call_send_batch_json queue_name payloads delay_seconds) =
    stringified-thrown (stringify_each stringify payloads)
      (λ texts.
        inner.send_batch (plain (send_batch_json_request queue_name texts delay_seconds))
          (rpc_options client))
      _
