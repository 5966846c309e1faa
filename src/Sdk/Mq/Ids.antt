-- ===== src/Sdk/Mq/Ids.antt =====
-- Message ids that a caller sends back to the server.
-- Code: sdk/typescript/src/index.ts
use pgapp.Common.{ℕ, ◌≡◌, ◌≢◌, sym, ap, ◌∙◌, ◌^◌, ◌<◌, ◌%◌, String, some, ℤ, pos, arith}
use pgapp.Common.Result.{Result, ok, ◌>>=◌}
use pgapp.Number.{IsSafe, integer_text, to_string, shortest, number}
use pgapp.Number.Laws.{
  number-integer_text, number-odd, decimal-injective, safe-to_string, shortest-even,
}
use pgapp.Wire.{Message, plain}
use pgapp.Sdk.Client.{PgAppClient, rpc_options, wrap}
use pgapp.Proto.Mq.Sends.{SendMessageResponse}
use pgapp.Sdk.Mq.{MqServiceClient, send_json_request, send_json, ack_request}

send_json-number :
    {Json : Type 0} (stringify : Json → Result String) (inner : MqServiceClient)
    (client : PgAppClient) (queue_name : String) (payload : Json) (json_payload : String)
    (delay_seconds : ℤ) (response : Message SendMessageResponse)
    → stringify payload ≡ ok json_payload
    → inner.send
        (plain (send_json_request queue_name json_payload delay_seconds))
        (rpc_options client)
      ≡ ok response
    → send_json stringify inner client queue_name payload delay_seconds
      ≡ ok (number response.body.message_id)
unfolding send_json wrap
send_json-number stringify inner client queue_name payload json_payload delay_seconds response
      written answer =
    ap
      (λ o. wrap (do
        text ← o
        m ←
            inner.send (plain (send_json_request queue_name text delay_seconds))
              (rpc_options client)
        ok (number m.body.message_id)))
      written
    ∙ ap (λ r. wrap (r >>= (λ (m : Message SendMessageResponse). ok (number m.body.message_id))))
        answer

-- If the server answers `sendJson` with the digits of an id between -2^53 and 2^53, the caller gets
-- that id, and acknowledging a message with it sends the server its own text of the id.
pub send_json-ack :
    {Json : Type 0} (stringify : Json → Result String) (inner : MqServiceClient)
    (client : PgAppClient) (queue_name : String) (payload : Json) (json_payload : String)
    (delay_seconds : ℤ) (token : String) (response : Message SendMessageResponse) (id : ℤ)
    → IsSafe id
    → response.body.message_id ≡ integer_text id
    → stringify payload ≡ ok json_payload
    → inner.send
        (plain (send_json_request queue_name json_payload delay_seconds))
        (rpc_options client)
      ≡ ok response
    → (send_json stringify inner client queue_name payload delay_seconds ≡ ok (some id))
      × ((ack_request queue_name id token).message_id ≡ response.body.message_id)
unfolding ack_request
send_json-ack stringify inner client queue_name payload json_payload delay_seconds token response id
      safe shown written answer =
    (
      send_json-number stringify inner client queue_name payload json_payload delay_seconds response
            written answer
          ∙ ap ok (ap number shown ∙ number-integer_text id safe),
      safe-to_string id safe ∙ sym shown,
    )

-- If the server answers `sendJson` with the digits of an odd id between 2^53 and 2^54, the caller gets
-- a number whose text is not that id's, so acknowledging with it names another message.
pub send_json-lost :
    {Json : Type 0} (stringify : Json → Result String) (inner : MqServiceClient)
    (client : PgAppClient) (queue_name : String) (payload : Json) (json_payload : String)
    (delay_seconds : ℤ) (token : String) (response : Message SendMessageResponse) (id : ℕ)
    → 2 ^ 53 < id
    → id < 2 ^ 54
    → id % 2 ≡ 1
    → response.body.message_id ≡ integer_text (pos id)
    → stringify payload ≡ ok json_payload
    → inner.send
        (plain (send_json_request queue_name json_payload delay_seconds))
        (rpc_options client)
      ≡ ok response
    → (seen : ℕ) × (send_json stringify inner client queue_name payload delay_seconds
        ≡ ok (some (pos seen)))
      × ((ack_request queue_name (pos seen) token).message_id ≢ response.body.message_id)
unfolding ack_request to_string integer_text
send_json-lost stringify inner client queue_name payload json_payload delay_seconds token response
      id low high odd shown written answer =
    let found = number-odd id low high odd in
    (
      found.0,
      send_json-number stringify inner client queue_name payload json_payload delay_seconds response
            written answer
          ∙ ap ok (ap number shown ∙ found.1),
      λ same.
          let equal = decimal-injective (shortest found.0) id (same ∙ shown) in
          omega (arith, equal, odd, shortest-even found.0 found.2),
    )
