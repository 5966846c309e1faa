-- ===== src/Proto/Mq/Kinds.antt =====
-- Every message of mq.proto, by its kind.
-- Code: sdk/typescript/src/gen/pgapp/v1/mq.ts
use pgapp.Common.{ℕ, ◌+◌, ◌≡◌, true, Option, none, ◌++◌, length}
use pgapp.Common.Result.{ok}
use pgapp.Wire.{
  Bytes, Runtime, Reader, Message, MessageType, UnknownPolicy, done, plain, internal_binary_read,
  internal_binary_write,
}
use pgapp.Wire.Documented.{IsDocumented, at}
use pgapp.Wire.Loop.{EndsFrom, Terminates, internal_binary_read-Moves}
use pgapp.Proto.Mq.Queues.{
  CreateQueueRequest, create_queue_request_type, PurgeQueueRequest, purge_queue_request_type,
  DropQueueRequest, drop_queue_request_type, QueueMetricsRequest, queue_metrics_request_type,
  QueueMetricsResponse, queue_metrics_response_type,
}
use pgapp.Proto.Mq.Queues.RoundTrip.{
  CreateQueueRequestFits, create_queue_request_type-RoundTrips,
  create_queue_request_type-Terminates, PurgeQueueRequestFits, purge_queue_request_type-RoundTrips,
  purge_queue_request_type-Terminates, DropQueueRequestFits, drop_queue_request_type-RoundTrips,
  drop_queue_request_type-Terminates, QueueMetricsRequestFits,
  queue_metrics_request_type-RoundTrips, queue_metrics_request_type-Terminates,
  QueueMetricsResponseFits, queue_metrics_response_type-RoundTrips,
  queue_metrics_response_type-Terminates,
}
use pgapp.Proto.Mq.Sends.{
  SendMessageRequest, send_message_request_type, SendMessageResponse, send_message_response_type,
  SendBatchRequest, send_batch_request_type, SendBatchResponse, send_batch_response_type,
}
use pgapp.Proto.Mq.Sends.RoundTrip.{
  SendMessageRequestFits, send_message_request_type-RoundTrips,
  send_message_request_type-Terminates, SendMessageResponseFits,
  send_message_response_type-RoundTrips, send_message_response_type-Terminates,
  SendBatchRequestFits, send_batch_request_type-RoundTrips, send_batch_request_type-Terminates,
  SendBatchResponseFits, send_batch_response_type-RoundTrips, send_batch_response_type-Terminates,
}
use pgapp.Proto.Mq.Reads.{
  ReadMessagesRequest, read_messages_request_type, ReadWithPollRequest, read_with_poll_request_type,
  StreamReadRequest, stream_read_request_type, QueueMessage, queue_message_type,
  ReadMessagesResponse, read_messages_response_type,
}
use pgapp.Proto.Mq.Reads.RoundTrip.{
  ReadMessagesRequestFits, read_messages_request_type-RoundTrips,
  read_messages_request_type-Terminates, ReadWithPollRequestFits,
  read_with_poll_request_type-RoundTrips, read_with_poll_request_type-Terminates,
  StreamReadRequestFits, stream_read_request_type-RoundTrips, stream_read_request_type-Terminates,
  QueueMessageFits, queue_message_type-RoundTrips, queue_message_type-Terminates,
  ReadMessagesResponseFits, read_messages_response_type-RoundTrips,
  read_messages_response_type-Terminates,
}
use pgapp.Proto.Mq.Leases.{
  AckMessageRequest, ack_message_request_type, ArchiveMessageRequest, archive_message_request_type,
  SetVisibilityTimeoutRequest, set_visibility_timeout_request_type,
}
use pgapp.Proto.Mq.Leases.RoundTrip.{
  AckMessageRequestFits, ack_message_request_type-RoundTrips, ack_message_request_type-Terminates,
  ArchiveMessageRequestFits, archive_message_request_type-RoundTrips,
  archive_message_request_type-Terminates, SetVisibilityTimeoutRequestFits,
  set_visibility_timeout_request_type-RoundTrips, set_visibility_timeout_request_type-Terminates,
}
use pgapp.Proto.Mq.DeadLetters.{
  DlqMessage, dlq_message_type, ListDlqMessagesRequest, list_dlq_messages_request_type,
  ListDlqMessagesResponse, list_dlq_messages_response_type, GetDlqMessageRequest,
  get_dlq_message_request_type, ReprocessDlqMessageRequest, reprocess_dlq_message_request_type,
  PurgeDlqRequest, purge_dlq_request_type,
}
use pgapp.Proto.Mq.DeadLetters.RoundTrip.{
  DlqMessageFits, dlq_message_type-RoundTrips, dlq_message_type-Terminates,
  ListDlqMessagesRequestFits, list_dlq_messages_request_type-RoundTrips,
  list_dlq_messages_request_type-Terminates, ListDlqMessagesResponseFits,
  list_dlq_messages_response_type-RoundTrips, list_dlq_messages_response_type-Terminates,
  GetDlqMessageRequestFits, get_dlq_message_request_type-RoundTrips,
  get_dlq_message_request_type-Terminates, ReprocessDlqMessageRequestFits,
  reprocess_dlq_message_request_type-RoundTrips, reprocess_dlq_message_request_type-Terminates,
  PurgeDlqRequestFits, purge_dlq_request_type-RoundTrips, purge_dlq_request_type-Terminates,
}

pub data MqKind : Type 0 where
  create_queue_request purge_queue_request drop_queue_request send_message_request
        send_message_response send_batch_request send_batch_response read_messages_request
        read_with_poll_request stream_read_request queue_message read_messages_response
        ack_message_request archive_message_request set_visibility_timeout_request
        queue_metrics_request queue_metrics_response dlq_message list_dlq_messages_request
        list_dlq_messages_response get_dlq_message_request reprocess_dlq_message_request
        purge_dlq_request :
      MqKind

-- The interface of each kind.
abbrev pub MqBody : MqKind → Type 0
MqBody create_queue_request = CreateQueueRequest
MqBody purge_queue_request = PurgeQueueRequest
MqBody drop_queue_request = DropQueueRequest
MqBody send_message_request = SendMessageRequest
MqBody send_message_response = SendMessageResponse
MqBody send_batch_request = SendBatchRequest
MqBody send_batch_response = SendBatchResponse
MqBody read_messages_request = ReadMessagesRequest
MqBody read_with_poll_request = ReadWithPollRequest
MqBody stream_read_request = StreamReadRequest
MqBody queue_message = QueueMessage
MqBody read_messages_response = ReadMessagesResponse
MqBody ack_message_request = AckMessageRequest
MqBody archive_message_request = ArchiveMessageRequest
MqBody set_visibility_timeout_request = SetVisibilityTimeoutRequest
MqBody queue_metrics_request = QueueMetricsRequest
MqBody queue_metrics_response = QueueMetricsResponse
MqBody dlq_message = DlqMessage
MqBody list_dlq_messages_request = ListDlqMessagesRequest
MqBody list_dlq_messages_response = ListDlqMessagesResponse
MqBody get_dlq_message_request = GetDlqMessageRequest
MqBody reprocess_dlq_message_request = ReprocessDlqMessageRequest
MqBody purge_dlq_request = PurgeDlqRequest

-- The class of each kind.
abbrev pub mq_type : Runtime → (kind : MqKind) → MessageType (MqBody kind)
mq_type runtime create_queue_request = create_queue_request_type runtime
mq_type runtime purge_queue_request = purge_queue_request_type runtime
mq_type runtime drop_queue_request = drop_queue_request_type runtime
mq_type runtime send_message_request = send_message_request_type runtime
mq_type runtime send_message_response = send_message_response_type runtime
mq_type runtime send_batch_request = send_batch_request_type runtime
mq_type runtime send_batch_response = send_batch_response_type runtime
mq_type runtime read_messages_request = read_messages_request_type runtime
mq_type runtime read_with_poll_request = read_with_poll_request_type runtime
mq_type runtime stream_read_request = stream_read_request_type runtime
mq_type runtime queue_message = queue_message_type runtime
mq_type runtime read_messages_response = read_messages_response_type runtime
mq_type runtime ack_message_request = ack_message_request_type runtime
mq_type runtime archive_message_request = archive_message_request_type runtime
mq_type runtime set_visibility_timeout_request = set_visibility_timeout_request_type runtime
mq_type runtime queue_metrics_request = queue_metrics_request_type runtime
mq_type runtime queue_metrics_response = queue_metrics_response_type runtime
mq_type runtime dlq_message = dlq_message_type runtime
mq_type runtime list_dlq_messages_request = list_dlq_messages_request_type runtime
mq_type runtime list_dlq_messages_response = list_dlq_messages_response_type runtime
mq_type runtime get_dlq_message_request = get_dlq_message_request_type runtime
mq_type runtime reprocess_dlq_message_request = reprocess_dlq_message_request_type runtime
mq_type runtime purge_dlq_request = purge_dlq_request_type runtime

-- The integer fields hold integers of their width in canonical decimal form, byte fields hold
-- bytes, and nested objects hold no unknown field.
abbrev pub MqFits : Runtime → (kind : MqKind) → MqBody kind → Type 0
MqFits runtime create_queue_request m = CreateQueueRequestFits m
MqFits runtime purge_queue_request m = PurgeQueueRequestFits m
MqFits runtime drop_queue_request m = DropQueueRequestFits m
MqFits runtime send_message_request m = SendMessageRequestFits m
MqFits runtime send_message_response m = SendMessageResponseFits m
MqFits runtime send_batch_request m = SendBatchRequestFits m
MqFits runtime send_batch_response m = SendBatchResponseFits runtime m
MqFits runtime read_messages_request m = ReadMessagesRequestFits m
MqFits runtime read_with_poll_request m = ReadWithPollRequestFits m
MqFits runtime stream_read_request m = StreamReadRequestFits m
MqFits runtime queue_message m = QueueMessageFits m
MqFits runtime read_messages_response m = ReadMessagesResponseFits m
MqFits runtime ack_message_request m = AckMessageRequestFits m
MqFits runtime archive_message_request m = ArchiveMessageRequestFits m
MqFits runtime set_visibility_timeout_request m = SetVisibilityTimeoutRequestFits m
MqFits runtime queue_metrics_request m = QueueMetricsRequestFits m
MqFits runtime queue_metrics_response m = QueueMetricsResponseFits m
MqFits runtime dlq_message m = DlqMessageFits m
MqFits runtime list_dlq_messages_request m = ListDlqMessagesRequestFits m
MqFits runtime list_dlq_messages_response m = ListDlqMessagesResponseFits m
MqFits runtime get_dlq_message_request m = GetDlqMessageRequestFits m
MqFits runtime reprocess_dlq_message_request m = ReprocessDlqMessageRequestFits m
MqFits runtime purge_dlq_request m = PurgeDlqRequestFits m

-- For every message class of mq.ts and every object whose 32-bit integers are of their width, whose
-- 64-bit integers are canonical decimal texts of theirs, and whose packed ids take less than 2^31
-- bytes, in nested objects too, and which holds no unknown field at any level: if
-- `internalBinaryWrite` returns bytes, `internalBinaryRead` given their number, at any position and
-- whatever follows, returns the same object with the reader just behind them, whichever policy for
-- unknown fields is set.
pub mq_round_trip :
    (runtime : Runtime)
    → IsDocumented runtime
    → (policy : UnknownPolicy) (kind : MqKind) (m : MqBody kind) → MqFits runtime kind m
    → (w : Bytes) → internal_binary_write runtime (mq_type runtime kind) true (plain m) ≡ ok w
    → (p : ℕ) (rest : Bytes)
    → internal_binary_read runtime (mq_type runtime kind) policy (length w) none (at p (w ++ rest))
      ≡ done (plain m, at (p + length w) rest)
mq_round_trip runtime documented policy create_queue_request m fits w e p rest =
    (create_queue_request_type-RoundTrips documented policy m fits).trips w e p rest
mq_round_trip runtime documented policy purge_queue_request m fits w e p rest =
    (purge_queue_request_type-RoundTrips documented policy m fits).trips w e p rest
mq_round_trip runtime documented policy drop_queue_request m fits w e p rest =
    (drop_queue_request_type-RoundTrips documented policy m fits).trips w e p rest
mq_round_trip runtime documented policy send_message_request m fits w e p rest =
    (send_message_request_type-RoundTrips documented policy m fits).trips w e p rest
mq_round_trip runtime documented policy send_message_response m fits w e p rest =
    (send_message_response_type-RoundTrips documented policy m fits).trips w e p rest
mq_round_trip runtime documented policy send_batch_request m fits w e p rest =
    (send_batch_request_type-RoundTrips documented policy m fits).trips w e p rest
mq_round_trip runtime documented policy send_batch_response m fits w e p rest =
    (send_batch_response_type-RoundTrips documented policy m fits).trips w e p rest
mq_round_trip runtime documented policy read_messages_request m fits w e p rest =
    (read_messages_request_type-RoundTrips documented policy m fits).trips w e p rest
mq_round_trip runtime documented policy read_with_poll_request m fits w e p rest =
    (read_with_poll_request_type-RoundTrips documented policy m fits).trips w e p rest
mq_round_trip runtime documented policy stream_read_request m fits w e p rest =
    (stream_read_request_type-RoundTrips documented policy m fits).trips w e p rest
mq_round_trip runtime documented policy queue_message m fits w e p rest =
    (queue_message_type-RoundTrips documented policy m fits).trips w e p rest
mq_round_trip runtime documented policy read_messages_response m fits w e p rest =
    (read_messages_response_type-RoundTrips documented policy m fits).trips w e p rest
mq_round_trip runtime documented policy ack_message_request m fits w e p rest =
    (ack_message_request_type-RoundTrips documented policy m fits).trips w e p rest
mq_round_trip runtime documented policy archive_message_request m fits w e p rest =
    (archive_message_request_type-RoundTrips documented policy m fits).trips w e p rest
mq_round_trip runtime documented policy set_visibility_timeout_request m fits w e p rest =
    (set_visibility_timeout_request_type-RoundTrips documented policy m fits).trips w e p rest
mq_round_trip runtime documented policy queue_metrics_request m fits w e p rest =
    (queue_metrics_request_type-RoundTrips documented policy m fits).trips w e p rest
mq_round_trip runtime documented policy queue_metrics_response m fits w e p rest =
    (queue_metrics_response_type-RoundTrips documented policy m fits).trips w e p rest
mq_round_trip runtime documented policy dlq_message m fits w e p rest =
    (dlq_message_type-RoundTrips documented policy m fits).trips w e p rest
mq_round_trip runtime documented policy list_dlq_messages_request m fits w e p rest =
    (list_dlq_messages_request_type-RoundTrips documented policy m fits).trips w e p rest
mq_round_trip runtime documented policy list_dlq_messages_response m fits w e p rest =
    (list_dlq_messages_response_type-RoundTrips documented policy m fits).trips w e p rest
mq_round_trip runtime documented policy get_dlq_message_request m fits w e p rest =
    (get_dlq_message_request_type-RoundTrips documented policy m fits).trips w e p rest
mq_round_trip runtime documented policy reprocess_dlq_message_request m fits w e p rest =
    (reprocess_dlq_message_request_type-RoundTrips documented policy m fits).trips w e p rest
mq_round_trip runtime documented policy purge_dlq_request m fits w e p rest =
    (purge_dlq_request_type-RoundTrips documented policy m fits).trips w e p rest

mq_type-Terminates :
    (runtime : Runtime) → IsDocumented runtime → (kind : MqKind) → Terminates (mq_type runtime kind)
mq_type-Terminates runtime documented create_queue_request =
    create_queue_request_type-Terminates documented
mq_type-Terminates runtime documented purge_queue_request =
    purge_queue_request_type-Terminates documented
mq_type-Terminates runtime documented drop_queue_request =
    drop_queue_request_type-Terminates documented
mq_type-Terminates runtime documented send_message_request =
    send_message_request_type-Terminates documented
mq_type-Terminates runtime documented send_message_response =
    send_message_response_type-Terminates documented
mq_type-Terminates runtime documented send_batch_request =
    send_batch_request_type-Terminates documented
mq_type-Terminates runtime documented send_batch_response =
    send_batch_response_type-Terminates documented
mq_type-Terminates runtime documented read_messages_request =
    read_messages_request_type-Terminates documented
mq_type-Terminates runtime documented read_with_poll_request =
    read_with_poll_request_type-Terminates documented
mq_type-Terminates runtime documented stream_read_request =
    stream_read_request_type-Terminates documented
mq_type-Terminates runtime documented queue_message = queue_message_type-Terminates documented
mq_type-Terminates runtime documented read_messages_response =
    read_messages_response_type-Terminates documented
mq_type-Terminates runtime documented ack_message_request =
    ack_message_request_type-Terminates documented
mq_type-Terminates runtime documented archive_message_request =
    archive_message_request_type-Terminates documented
mq_type-Terminates runtime documented set_visibility_timeout_request =
    set_visibility_timeout_request_type-Terminates documented
mq_type-Terminates runtime documented queue_metrics_request =
    queue_metrics_request_type-Terminates documented
mq_type-Terminates runtime documented queue_metrics_response =
    queue_metrics_response_type-Terminates documented
mq_type-Terminates runtime documented dlq_message = dlq_message_type-Terminates documented
mq_type-Terminates runtime documented list_dlq_messages_request =
    list_dlq_messages_request_type-Terminates documented
mq_type-Terminates runtime documented list_dlq_messages_response =
    list_dlq_messages_response_type-Terminates documented
mq_type-Terminates runtime documented get_dlq_message_request =
    get_dlq_message_request_type-Terminates documented
mq_type-Terminates runtime documented reprocess_dlq_message_request =
    reprocess_dlq_message_request_type-Terminates documented
mq_type-Terminates runtime documented purge_dlq_request =
    purge_dlq_request_type-Terminates documented

-- For every message class of the file, any bytes, any length and any object to read into:
-- `internalBinaryRead` returns or throws, so its loop never runs out of the model's fuel, and where it
-- returns the reader has not moved back.
pub mq_read_ends :
    (runtime : Runtime)
    → IsDocumented runtime
    → (policy : UnknownPolicy) (kind : MqKind) (size : ℕ) (target : Option (Message (MqBody kind)))
      (r : Reader)
    → EndsFrom r.pos (internal_binary_read runtime (mq_type runtime kind) policy size target r)
mq_read_ends runtime documented policy kind size target r =
    (internal_binary_read-Moves documented (mq_type runtime kind)
        (mq_type-Terminates runtime documented kind) policy size target).moves
      r
