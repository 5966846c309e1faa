-- ===== src/Sdk/Mq.antt =====
-- `MQClient`.
-- Code: sdk/typescript/src/index.ts. The generated `MQServiceClient` is a record of calls; JSON values
-- and `JSON.stringify`, which may throw, are parameters.
pub mod Calls
pub mod Requests
pub mod Stream
pub mod Ids
use pgapp.Common.{
  [], ◌∷◌, ℕ, String, Bool, true, false, Option, none, some, List, map, ℤ, pos, if◌then◌else◌,
}
use pgapp.Common.Result.{Thrown, Result, ok, ◌>>=◌}
use pgapp.Number.{to_string, number}
use pgapp.Wire.{Bytes, Message, plain}
use pgapp.Sdk.Client.{PgAppClient, RpcOptions, Unary, rpc_options, from, wrap}
use pgapp.Proto.Mq.Queues.{
  CreateQueueRequest, DropQueueRequest, PurgeQueueRequest, QueueMetricsRequest,
  QueueMetricsResponse,
}
use pgapp.Proto.Common.{OperationResult}
use pgapp.Proto.Mq.Sends.{
  SendBatchRequest, SendBatchResponse, SendMessageRequest, SendMessageResponse,
}
use pgapp.Proto.Mq.Reads.{
  QueueMessage, ReadMessagesRequest, ReadMessagesResponse, ReadWithPollRequest, StreamReadRequest,
}
use pgapp.Proto.Mq.Leases.{AckMessageRequest, ArchiveMessageRequest, SetVisibilityTimeoutRequest}
use pgapp.Proto.Mq.DeadLetters.{
  DlqMessage, GetDlqMessageRequest, ListDlqMessagesRequest, ListDlqMessagesResponse,
  PurgeDlqRequest, ReprocessDlqMessageRequest,
}

-- What the response stream of `streamRead` brings: messages, and then its end or an error.
pub data StreamEvents : Type 0 where
  batch : Message ReadMessagesResponse → StreamEvents → StreamEvents
  finished : StreamEvents
  failed : Thrown → StreamEvents

-- `MQServiceClient`.
pub record MqServiceClient : Type 0 where
  pub create_queue : Unary CreateQueueRequest OperationResult
  pub purge_queue : Unary PurgeQueueRequest OperationResult
  pub drop_queue : Unary DropQueueRequest OperationResult
  pub send : Unary SendMessageRequest SendMessageResponse
  pub send_batch : Unary SendBatchRequest SendBatchResponse
  pub read : Unary ReadMessagesRequest ReadMessagesResponse
  pub read_with_poll : Unary ReadWithPollRequest ReadMessagesResponse
  pub ack : Unary AckMessageRequest OperationResult
  pub archive : Unary ArchiveMessageRequest OperationResult
  pub set_visibility_timeout : Unary SetVisibilityTimeoutRequest OperationResult
  pub metrics : Unary QueueMetricsRequest QueueMetricsResponse
  pub list_dlq_messages : Unary ListDlqMessagesRequest ListDlqMessagesResponse
  pub get_dlq_message : Unary GetDlqMessageRequest DlqMessage
  pub reprocess_dlq_message : Unary ReprocessDlqMessageRequest OperationResult
  pub purge_dlq : Unary PurgeDlqRequest OperationResult
  pub stream_read : Message StreamReadRequest → RpcOptions → StreamEvents

-- `QueueStorageMode.DURABLE`, the default of `createQueue`.
abbrev pub durable : ℤ
durable = pos 1

-- The message that `create_queue` sends.
unfoldable pub create_queue_request : String → ℤ → CreateQueueRequest
create_queue_request queue_name storage_mode = record {
  queue_name = queue_name;
  storage_mode = storage_mode;
}

-- The message that `purge_queue` sends.
unfoldable pub purge_queue_request : String → PurgeQueueRequest
purge_queue_request queue_name = record { queue_name = queue_name }

-- The message that `drop_queue` sends.
unfoldable pub drop_queue_request : String → DropQueueRequest
drop_queue_request queue_name = record { queue_name = queue_name }

-- The message that `read` sends.
unfoldable pub read_request : String → ℤ → ℤ → ReadMessagesRequest
read_request queue_name quantity visibility_timeout_seconds = record {
  queue_name = queue_name;
  quantity = quantity;
  visibility_timeout_seconds = to_string visibility_timeout_seconds;
}

-- The message that `read_with_poll` sends.
unfoldable pub read_with_poll_request : String → ℤ → ℤ → ℤ → ℤ → ReadWithPollRequest
read_with_poll_request queue_name quantity visibility_timeout_seconds max_poll_seconds
      poll_interval_millis =
    record {
      queue_name = queue_name;
      quantity = quantity;
      visibility_timeout_seconds = to_string visibility_timeout_seconds;
      max_poll_seconds = to_string max_poll_seconds;
      poll_interval_millis = to_string poll_interval_millis;
    }

-- The message that `ack` sends.
unfoldable pub ack_request : String → ℤ → String → AckMessageRequest
ack_request queue_name message_id ack_token = record {
  queue_name = queue_name;
  message_id = to_string message_id;
  ack_token = ack_token;
}

-- The message that `archive` sends.
unfoldable pub archive_request : String → ℤ → String → ArchiveMessageRequest
archive_request queue_name message_id ack_token = record {
  queue_name = queue_name;
  message_id = to_string message_id;
  ack_token = ack_token;
}

-- The message that `set_visibility_timeout` sends.
unfoldable pub set_visibility_timeout_request :
    String → ℤ → String → ℤ → SetVisibilityTimeoutRequest
set_visibility_timeout_request queue_name message_id ack_token visibility_timeout_seconds = record {
  queue_name = queue_name;
  message_id = to_string message_id;
  visibility_timeout_seconds = to_string visibility_timeout_seconds;
  ack_token = ack_token;
}

-- The message that `metrics` sends.
unfoldable pub metrics_request : String → QueueMetricsRequest
metrics_request queue_name = record { queue_name = queue_name }

-- The message that `list_dlq_messages` sends.
unfoldable pub list_dlq_messages_request : String → ℤ → ℤ → ListDlqMessagesRequest
list_dlq_messages_request queue_name limit offset = record {
  queue_name = queue_name;
  limit = limit;
  offset = to_string offset;
}

-- The message that `get_dlq_message` sends.
unfoldable pub get_dlq_message_request : String → ℤ → GetDlqMessageRequest
get_dlq_message_request queue_name original_message_id = record {
  queue_name = queue_name;
  original_message_id = to_string original_message_id;
}

-- The message that `reprocess_dlq_message` sends.
unfoldable pub reprocess_dlq_message_request : String → ℤ → ReprocessDlqMessageRequest
reprocess_dlq_message_request queue_name original_message_id = record {
  queue_name = queue_name;
  original_message_id = to_string original_message_id;
}

-- The message that `purge_dlq` sends.
unfoldable pub purge_dlq_request : String → PurgeDlqRequest
purge_dlq_request queue_name = record { queue_name = queue_name }

-- The message that `send_json` sends, for the text of the payload.
unfoldable pub send_json_request : String → String → ℤ → SendMessageRequest
send_json_request queue_name json_payload delay_seconds = record {
  queue_name = queue_name;
  json_payload = json_payload;
  delay_seconds = to_string delay_seconds;
}

-- The message that `send_batch_json` sends, for the texts of the payloads.
unfoldable pub send_batch_json_request : String → List String → ℤ → SendBatchRequest
send_batch_json_request queue_name json_payloads delay_seconds = record {
  queue_name = queue_name;
  json_payloads = json_payloads;
  delay_seconds = to_string delay_seconds;
}

-- `payloads.map((payload) => JSON.stringify(payload))`
unfoldable pub stringify_each :
    {Json : Type 0} → (Json → Result String) → List Json → Result (List String)
stringify_each stringify [] = ok []
stringify_each stringify (payload ∷ payloads) = do
  text ← stringify payload
  texts ← stringify_each stringify payloads
  ok (text ∷ texts)

module _ (inner : MqServiceClient) (client : PgAppClient) where
  unfoldable pub create_queue : String → ℤ → Result (Bool)
  unfolding create_queue_request wrap
  create_queue queue_name storage_mode = wrap (do
    response ←
        inner.create_queue (plain (create_queue_request queue_name storage_mode))
          (rpc_options client)
    ok (response.body.success))

  unfoldable pub purge_queue : String → Result (Bool)
  unfolding purge_queue_request wrap
  purge_queue queue_name = wrap (do
    response ← inner.purge_queue (plain (purge_queue_request queue_name)) (rpc_options client)
    ok (response.body.success))

  unfoldable pub drop_queue : String → Result (Bool)
  unfolding drop_queue_request wrap
  drop_queue queue_name = wrap (do
    response ← inner.drop_queue (plain (drop_queue_request queue_name)) (rpc_options client)
    ok (response.body.success))

  unfoldable pub read : String → ℤ → ℤ → Result (List (Message QueueMessage))
  unfolding read_request wrap
  read queue_name quantity visibility_timeout_seconds = wrap (do
    response ←
        inner.read (plain (read_request queue_name quantity visibility_timeout_seconds))
          (rpc_options client)
    ok (response.body.messages))

  unfoldable pub read_with_poll : String → ℤ → ℤ → ℤ → ℤ → Result (List (Message QueueMessage))
  unfolding read_with_poll_request wrap
  read_with_poll queue_name quantity visibility_timeout_seconds max_poll_seconds
        poll_interval_millis =
      wrap (do
        response ←
            inner.read_with_poll
              (plain (
                read_with_poll_request queue_name quantity visibility_timeout_seconds
                  max_poll_seconds poll_interval_millis))
              (rpc_options client)
        ok (response.body.messages))

  unfoldable pub ack : String → ℤ → String → Result (Bool)
  unfolding ack_request wrap
  ack queue_name message_id ack_token = wrap (do
    response ← inner.ack (plain (ack_request queue_name message_id ack_token)) (rpc_options client)
    ok (response.body.success))

  unfoldable pub archive : String → ℤ → String → Result (Bool)
  unfolding archive_request wrap
  archive queue_name message_id ack_token = wrap (do
    response ←
        inner.archive (plain (archive_request queue_name message_id ack_token)) (rpc_options client)
    ok (response.body.success))

  unfoldable pub set_visibility_timeout : String → ℤ → String → ℤ → Result (Bool)
  unfolding set_visibility_timeout_request wrap
  set_visibility_timeout queue_name message_id ack_token visibility_timeout_seconds = wrap (do
    response ←
        inner.set_visibility_timeout
          (plain (
            set_visibility_timeout_request queue_name message_id ack_token
              visibility_timeout_seconds))
          (rpc_options client)
    ok (response.body.success))

  unfoldable pub metrics : String → Result (Message QueueMetricsResponse)
  unfolding metrics_request wrap
  metrics queue_name = wrap (do
    response ← inner.metrics (plain (metrics_request queue_name)) (rpc_options client)
    ok (response))

  unfoldable pub list_dlq_messages : String → ℤ → ℤ → Result (List (Message DlqMessage))
  unfolding list_dlq_messages_request wrap
  list_dlq_messages queue_name limit offset = wrap (do
    response ←
        inner.list_dlq_messages (plain (list_dlq_messages_request queue_name limit offset))
          (rpc_options client)
    ok (response.body.messages))

  unfoldable pub get_dlq_message : String → ℤ → Result (Message DlqMessage)
  unfolding get_dlq_message_request wrap
  get_dlq_message queue_name original_message_id = wrap (do
    response ←
        inner.get_dlq_message (plain (get_dlq_message_request queue_name original_message_id))
          (rpc_options client)
    ok (response))

  unfoldable pub reprocess_dlq_message : String → ℤ → Result (Bool)
  unfolding reprocess_dlq_message_request wrap
  reprocess_dlq_message queue_name original_message_id = wrap (do
    response ←
        inner.reprocess_dlq_message
          (plain (reprocess_dlq_message_request queue_name original_message_id))
          (rpc_options client)
    ok (response.body.success))

  unfoldable pub purge_dlq : String → Result (Bool)
  unfolding purge_dlq_request wrap
  purge_dlq queue_name = wrap (do
    response ← inner.purge_dlq (plain (purge_dlq_request queue_name)) (rpc_options client)
    ok (response.body.success))

module _ {Json : Type 0} (stringify : Json → Result String) (inner : MqServiceClient)
    (client : PgAppClient) where
  unfoldable pub send_json : String → Json → ℤ → Result (Option ℤ)
  unfolding send_json_request wrap
  send_json queue_name payload delay_seconds = wrap (do
    json_payload ← stringify payload
    response ←
        inner.send (plain (send_json_request queue_name json_payload delay_seconds))
          (rpc_options client)
    ok (number response.body.message_id))

  unfoldable pub send_batch_json : String → List Json → ℤ → Result (List (Option ℤ))
  unfolding send_batch_json_request stringify_each wrap
  send_batch_json queue_name payloads delay_seconds = wrap (do
    json_payloads ← stringify_each stringify payloads
    response ←
        inner.send_batch (plain (send_batch_json_request queue_name json_payloads delay_seconds))
          (rpc_options client)
    ok (map number response.body.message_ids))
