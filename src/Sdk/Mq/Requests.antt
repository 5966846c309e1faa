-- ===== src/Sdk/Mq/Requests.antt =====
-- The requests of the unary calls of `MQClient` on the wire.
-- Code: sdk/typescript/src/index.ts
use pgapp.Common.{sym, subst, refl, ◌∙◌, ℕ, ◌+◌, ◌≡◌, String, true, none, ◌++◌, length}
use pgapp.Common.Result.{Result, ok, throw, ◌>>=◌}
use pgapp.Number.{IsSafe, to_string}
use pgapp.Number.Laws.{safe-IsInt64}
use pgapp.Wire.{
  Bytes, Runtime, UnknownPolicy, done, plain, internal_binary_read, internal_binary_write,
}
use pgapp.Wire.Documented.{IsDocumented, FitsInt32, at}
use pgapp.Proto.Mq.Kinds.{
  MqKind, ack_message_request as ack_message_request_kind,
  archive_message_request as archive_message_request_kind,
  create_queue_request as create_queue_request_kind, drop_queue_request as drop_queue_request_kind,
  get_dlq_message_request as get_dlq_message_request_kind,
  list_dlq_messages_request as list_dlq_messages_request_kind,
  purge_dlq_request as purge_dlq_request_kind, purge_queue_request as purge_queue_request_kind,
  queue_metrics_request as queue_metrics_request_kind,
  read_messages_request as read_messages_request_kind,
  read_with_poll_request as read_with_poll_request_kind,
  reprocess_dlq_message_request as reprocess_dlq_message_request_kind,
  send_batch_request as send_batch_request_kind, send_message_request as send_message_request_kind,
  set_visibility_timeout_request as set_visibility_timeout_request_kind, MqBody, mq_type, MqFits,
  mq_round_trip,
}
use pgapp.Sdk.Mq.{
  create_queue_request, purge_queue_request, drop_queue_request, read_request,
  read_with_poll_request, ack_request, archive_request, set_visibility_timeout_request,
  metrics_request, list_dlq_messages_request, get_dlq_message_request,
  reprocess_dlq_message_request, purge_dlq_request, send_json_request, send_batch_json_request,
  stringify_each,
}
use pgapp.Sdk.Mq.Calls.{
  MqCall, call_create_queue, call_purge_queue, call_drop_queue, call_read, call_read_with_poll,
  call_ack, call_archive, call_set_visibility_timeout, call_metrics, call_list_dlq_messages,
  call_get_dlq_message, call_reprocess_dlq_message, call_purge_dlq, call_send_json,
  call_send_batch_json,
}

-- The kind of the message that the call sends.
abbrev pub request_kind : {Json : Type 0} → MqCall Json → MqKind
request_kind (call_create_queue queue_name storage_mode) = create_queue_request_kind
request_kind (call_purge_queue queue_name) = purge_queue_request_kind
request_kind (call_drop_queue queue_name) = drop_queue_request_kind
request_kind (call_read queue_name quantity visibility_timeout_seconds) = read_messages_request_kind
request_kind
      (call_read_with_poll queue_name quantity visibility_timeout_seconds max_poll_seconds
        poll_interval_millis) =
    read_with_poll_request_kind
request_kind (call_ack queue_name message_id ack_token) = ack_message_request_kind
request_kind (call_archive queue_name message_id ack_token) = archive_message_request_kind
request_kind
      (call_set_visibility_timeout queue_name message_id ack_token visibility_timeout_seconds) =
    set_visibility_timeout_request_kind
request_kind (call_metrics queue_name) = queue_metrics_request_kind
request_kind (call_list_dlq_messages queue_name limit offset) = list_dlq_messages_request_kind
request_kind (call_get_dlq_message queue_name original_message_id) = get_dlq_message_request_kind
request_kind (call_reprocess_dlq_message queue_name original_message_id) =
    reprocess_dlq_message_request_kind
request_kind (call_purge_dlq queue_name) = purge_dlq_request_kind
request_kind (call_send_json queue_name payload delay_seconds) = send_message_request_kind
request_kind (call_send_batch_json queue_name payloads delay_seconds) = send_batch_request_kind

-- The message that the call sends, once `JSON.stringify` has made texts of the payloads.
abbrev pub request_body :
    {Json : Type 0}
    → (Json → Result String)
    → (call : MqCall Json) → Result (MqBody (request_kind call))
request_body stringify (call_create_queue queue_name storage_mode) =
    ok (create_queue_request queue_name storage_mode)
request_body stringify (call_purge_queue queue_name) = ok (purge_queue_request queue_name)
request_body stringify (call_drop_queue queue_name) = ok (drop_queue_request queue_name)
request_body stringify (call_read queue_name quantity visibility_timeout_seconds) =
    ok (read_request queue_name quantity visibility_timeout_seconds)
request_body stringify
      (call_read_with_poll queue_name quantity visibility_timeout_seconds max_poll_seconds
        poll_interval_millis) =
    ok (
      read_with_poll_request queue_name quantity visibility_timeout_seconds max_poll_seconds
        poll_interval_millis)
request_body stringify (call_ack queue_name message_id ack_token) =
    ok (ack_request queue_name message_id ack_token)
request_body stringify (call_archive queue_name message_id ack_token) =
    ok (archive_request queue_name message_id ack_token)
request_body stringify
      (call_set_visibility_timeout queue_name message_id ack_token visibility_timeout_seconds) =
    ok (set_visibility_timeout_request queue_name message_id ack_token visibility_timeout_seconds)
request_body stringify (call_metrics queue_name) = ok (metrics_request queue_name)
request_body stringify (call_list_dlq_messages queue_name limit offset) =
    ok (list_dlq_messages_request queue_name limit offset)
request_body stringify (call_get_dlq_message queue_name original_message_id) =
    ok (get_dlq_message_request queue_name original_message_id)
request_body stringify (call_reprocess_dlq_message queue_name original_message_id) =
    ok (reprocess_dlq_message_request queue_name original_message_id)
request_body stringify (call_purge_dlq queue_name) = ok (purge_dlq_request queue_name)
request_body stringify (call_send_json queue_name payload delay_seconds) = do
  text ← stringify payload
  ok (send_json_request queue_name text delay_seconds)
request_body stringify (call_send_batch_json queue_name payloads delay_seconds) = do
  texts ← stringify_each stringify payloads
  ok (send_batch_json_request queue_name texts delay_seconds)

-- A number that goes into a 64-bit field as text is between -2^53 and 2^53, a number of an
-- `int32` field is of 32 bits, and a value holds bytes.
abbrev pub IsSendable : {Json : Type 0} → MqCall Json → Type 0
IsSendable (call_create_queue queue_name storage_mode) = FitsInt32 storage_mode
IsSendable (call_purge_queue queue_name) = Unit
IsSendable (call_drop_queue queue_name) = Unit
IsSendable (call_read queue_name quantity visibility_timeout_seconds) =
    (FitsInt32 quantity) × (IsSafe visibility_timeout_seconds)
IsSendable
      (call_read_with_poll queue_name quantity visibility_timeout_seconds max_poll_seconds
        poll_interval_millis) =
    (FitsInt32 quantity)
    × (IsSafe visibility_timeout_seconds)
    × (IsSafe max_poll_seconds)
    × (IsSafe poll_interval_millis)
IsSendable (call_ack queue_name message_id ack_token) = IsSafe message_id
IsSendable (call_archive queue_name message_id ack_token) = IsSafe message_id
IsSendable
      (call_set_visibility_timeout queue_name message_id ack_token visibility_timeout_seconds) =
    (IsSafe message_id) × (IsSafe visibility_timeout_seconds)
IsSendable (call_metrics queue_name) = Unit
IsSendable (call_list_dlq_messages queue_name limit offset) = (FitsInt32 limit) × (IsSafe offset)
IsSendable (call_get_dlq_message queue_name original_message_id) = IsSafe original_message_id
IsSendable (call_reprocess_dlq_message queue_name original_message_id) = IsSafe original_message_id
IsSendable (call_purge_dlq queue_name) = Unit
IsSendable (call_send_json queue_name payload delay_seconds) = IsSafe delay_seconds
IsSendable (call_send_batch_json queue_name payloads delay_seconds) = IsSafe delay_seconds

-- What a call returns, if it returns, meets `P`.
abbrev IfOk {ℓ κ} : {A : Type ℓ} → (A → Type κ) → Result A → Type κ
IfOk P (ok a) = P a
IfOk P (throw e) = Unit

IfOk-bind {ℓ κ} :
    {A : Type ℓ} {B : Type 0} (P : B → Type κ) (r : Result A) (f : A → B)
    → ((a : A) → P (f a))
    → IfOk P (r >>= (λ a. ok (f a)))
IfOk-bind P (ok a) f h = h a
IfOk-bind P (throw e) f h = tt

IfOk-ok {ℓ κ} : {A : Type ℓ} (P : A → Type κ) (r : Result A) (a : A) → r ≡ ok a → IfOk P r → P a
IfOk-ok P r a e h = subst (IfOk P) e h

request_body-Fits :
    {Json : Type 0} (runtime : Runtime) (stringify : Json → Result String) (call : MqCall Json)
    → IsSendable call
    → IfOk (MqFits runtime (request_kind call)) (request_body stringify call)
unfolding create_queue_request purge_queue_request drop_queue_request read_request
    read_with_poll_request ack_request archive_request set_visibility_timeout_request
    metrics_request list_dlq_messages_request get_dlq_message_request reprocess_dlq_message_request
    purge_dlq_request send_json_request send_batch_json_request
request_body-Fits runtime stringify (call_create_queue queue_name storage_mode) h0 = h0
request_body-Fits runtime stringify (call_purge_queue queue_name) h = tt
request_body-Fits runtime stringify (call_drop_queue queue_name) h = tt
request_body-Fits runtime stringify (call_read queue_name quantity visibility_timeout_seconds)
      (h0, h1) =
    (h0, safe-IsInt64 visibility_timeout_seconds h1)
request_body-Fits runtime stringify
      (call_read_with_poll queue_name quantity visibility_timeout_seconds max_poll_seconds
        poll_interval_millis)
      (h0, h1, h2, h3) =
    (
      h0,
      safe-IsInt64 visibility_timeout_seconds h1,
      safe-IsInt64 max_poll_seconds h2,
      safe-IsInt64 poll_interval_millis h3,
    )
request_body-Fits runtime stringify (call_ack queue_name message_id ack_token) h0 =
    safe-IsInt64 message_id h0
request_body-Fits runtime stringify (call_archive queue_name message_id ack_token) h0 =
    safe-IsInt64 message_id h0
request_body-Fits runtime stringify
      (call_set_visibility_timeout queue_name message_id ack_token visibility_timeout_seconds)
      (h0, h1) =
    (safe-IsInt64 message_id h0, safe-IsInt64 visibility_timeout_seconds h1)
request_body-Fits runtime stringify (call_metrics queue_name) h = tt
request_body-Fits runtime stringify (call_list_dlq_messages queue_name limit offset) (h0, h1) =
    (h0, safe-IsInt64 offset h1)
request_body-Fits runtime stringify (call_get_dlq_message queue_name original_message_id) h0 =
    safe-IsInt64 original_message_id h0
request_body-Fits runtime stringify (call_reprocess_dlq_message queue_name original_message_id) h0 =
    safe-IsInt64 original_message_id h0
request_body-Fits runtime stringify (call_purge_dlq queue_name) h = tt
request_body-Fits runtime stringify (call_send_json queue_name payload delay_seconds) h0 =
    IfOk-bind _ (stringify payload) _ (λ _. safe-IsInt64 delay_seconds h0)
request_body-Fits runtime stringify (call_send_batch_json queue_name payloads delay_seconds) h0 =
    IfOk-bind _ (stringify_each stringify payloads) _ (λ _. safe-IsInt64 delay_seconds h0)

-- The arguments of the call, each in its field, a payload by its text.
abbrev pub arguments :
    {Json : Type 0}
    → (Json → Result String)
    → (call : MqCall Json) → Result (MqBody (request_kind call))
arguments stringify (call_create_queue queue_name storage_mode) =
    ok (record { queue_name = queue_name; storage_mode = storage_mode })
arguments stringify (call_purge_queue queue_name) = ok (record { queue_name = queue_name })
arguments stringify (call_drop_queue queue_name) = ok (record { queue_name = queue_name })
arguments stringify (call_read queue_name quantity visibility_timeout_seconds) = ok (record {
  queue_name = queue_name;
  quantity = quantity;
  visibility_timeout_seconds = to_string visibility_timeout_seconds;
})
arguments stringify (call_ack queue_name message_id ack_token) =
    ok
      (record { queue_name = queue_name; message_id = to_string message_id; ack_token = ack_token })
arguments stringify (call_archive queue_name message_id ack_token) =
    ok
      (record { queue_name = queue_name; message_id = to_string message_id; ack_token = ack_token })
arguments stringify (call_metrics queue_name) = ok (record { queue_name = queue_name })
arguments stringify (call_list_dlq_messages queue_name limit offset) =
    ok (record { queue_name = queue_name; limit = limit; offset = to_string offset })
arguments stringify (call_get_dlq_message queue_name original_message_id) =
    ok (record { queue_name = queue_name; original_message_id = to_string original_message_id })
arguments stringify (call_reprocess_dlq_message queue_name original_message_id) =
    ok (record { queue_name = queue_name; original_message_id = to_string original_message_id })
arguments stringify (call_purge_dlq queue_name) = ok (record { queue_name = queue_name })
arguments stringify (call_send_json queue_name payload delay_seconds) = do
  text ← stringify payload
  ok (record {
    queue_name = queue_name;
    json_payload = text;
    delay_seconds = to_string delay_seconds;
  })
arguments stringify (call_send_batch_json queue_name payloads delay_seconds) = do
  texts ← stringify_each stringify payloads
  ok (record {
    queue_name = queue_name;
    json_payloads = texts;
    delay_seconds = to_string delay_seconds;
  })
arguments stringify
      (call_read_with_poll queue_name quantity visibility_timeout_seconds max_poll_seconds
        poll_interval_millis) =
    ok (record {
      queue_name = queue_name;
      quantity = quantity;
      visibility_timeout_seconds = to_string visibility_timeout_seconds;
      max_poll_seconds = to_string max_poll_seconds;
      poll_interval_millis = to_string poll_interval_millis;
    })
arguments stringify
      (call_set_visibility_timeout queue_name message_id ack_token visibility_timeout_seconds) =
    ok (record {
      queue_name = queue_name;
      message_id = to_string message_id;
      visibility_timeout_seconds = to_string visibility_timeout_seconds;
      ack_token = ack_token;
    })

request_body-arguments :
    {Json : Type 0}
    → (stringify : Json → Result String) (call : MqCall Json)
    → request_body stringify call ≡ arguments stringify call
unfolding create_queue_request purge_queue_request drop_queue_request read_request ack_request
    archive_request metrics_request list_dlq_messages_request get_dlq_message_request
    reprocess_dlq_message_request purge_dlq_request send_json_request send_batch_json_request
    read_with_poll_request set_visibility_timeout_request
request_body-arguments stringify (call_create_queue queue_name storage_mode) = refl
request_body-arguments stringify (call_purge_queue queue_name) = refl
request_body-arguments stringify (call_drop_queue queue_name) = refl
request_body-arguments stringify (call_read queue_name quantity visibility_timeout_seconds) = refl
request_body-arguments stringify (call_ack queue_name message_id ack_token) = refl
request_body-arguments stringify (call_archive queue_name message_id ack_token) = refl
request_body-arguments stringify (call_metrics queue_name) = refl
request_body-arguments stringify (call_list_dlq_messages queue_name limit offset) = refl
request_body-arguments stringify (call_get_dlq_message queue_name original_message_id) = refl
request_body-arguments stringify (call_reprocess_dlq_message queue_name original_message_id) = refl
request_body-arguments stringify (call_purge_dlq queue_name) = refl
request_body-arguments stringify (call_send_json queue_name payload delay_seconds) = refl
request_body-arguments stringify (call_send_batch_json queue_name payloads delay_seconds) = refl
request_body-arguments stringify
      (call_read_with_poll queue_name quantity visibility_timeout_seconds max_poll_seconds
        poll_interval_millis) =
    refl
request_body-arguments stringify
      (call_set_visibility_timeout queue_name message_id ack_token visibility_timeout_seconds) =
    refl

pub mq_request_arrives :
    {Json : Type 0}
    → (runtime : Runtime) → IsDocumented runtime
    → (stringify : Json → Result String) (call : MqCall Json) → IsSendable call
    → (body : MqBody (request_kind call)) → request_body stringify call ≡ ok body
    → (policy : UnknownPolicy) (w : Bytes)
    → internal_binary_write runtime (mq_type runtime (request_kind call)) true (plain body) ≡ ok w
    → (p : ℕ) (rest : Bytes)
    → (arguments stringify call ≡ ok body)
      × (internal_binary_read runtime
            (mq_type runtime (request_kind call))
            policy
            (length w)
            none
            (at p (w ++ rest))
          ≡ done (plain body, at (p + length w) rest))
mq_request_arrives runtime documented stringify call sendable body returned policy w e p rest = (
  sym (request_body-arguments stringify call) ∙ returned,
  mq_round_trip runtime documented policy (request_kind call) body
      (IfOk-ok (MqFits runtime (request_kind call)) (request_body stringify call) body returned
        (request_body-Fits runtime stringify call sendable))
      w e p rest,
)
