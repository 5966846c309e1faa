-- ===== src/Sdk/Mq/Stream.antt =====
-- `streamRead`: an asynchronous generator over the response stream.
-- Code: sdk/typescript/src/index.ts
use mathlib.Core.Option
use pgapp.Common.{String, ◌≡◌, refl, ap, ◌∙◌, Option, none, some, List, [], ◌∷◌, ◌++◌, ℤ, pos}
use pgapp.Common.Result.{Thrown}
use pgapp.Number.{to_string}
use pgapp.Wire.{Message, plain}
use pgapp.Proto.Mq.Reads.{StreamReadRequest, QueueMessage}
use pgapp.Sdk.Client.{PgAppClient, rpc_options, from}
use pgapp.Sdk.Mq.{MqServiceClient, StreamEvents, batch, finished, failed}

-- What the consumer of a generator sees.
pub data Yields (A : Type 0) : Type 0 where
  yield : A → Yields A → Yields A
  ended : Yields A
  raised : Thrown → Yields A

-- `for (const message of response.messages) yield message;`
yield_all : {A : Type 0} → List A → Yields A → Yields A
yield_all [] rest = rest
yield_all (a ∷ items) rest = yield a (yield_all items rest)

-- `for await (const response of responses.responses)`
forward : StreamEvents → Yields (Message QueueMessage)
unfolding yield_all
forward (batch response rest) = yield_all response.body.messages (forward rest)
forward finished = ended
forward (failed e) = raised (from e)

pub record StreamReadOptions : Type 0 where
  pub quantity : Option ℤ
  pub visibility_timeout_seconds : Option ℤ

-- `option ?? fallback`
abbrev or_else : Option ℤ → ℤ → ℤ
or_else none fallback = fallback
or_else (some z) fallback = z

pub stream_read_request : String → StreamReadOptions → StreamReadRequest
stream_read_request queue_name options = record {
  queue_name = queue_name;
  quantity = or_else options.quantity (pos 1);
  visibility_timeout_seconds = to_string (or_else options.visibility_timeout_seconds (pos 30));
}

unfoldable pub stream_read :
    MqServiceClient → PgAppClient → String → StreamReadOptions → Yields (Message QueueMessage)
unfolding forward stream_read_request
stream_read inner client queue_name options =
    forward
      (inner.stream_read (plain (stream_read_request queue_name options)) (rpc_options client))

-- What the consumer has received, and how the generator ended.
abbrev pub received : {A : Type 0} → Yields A → List A
received (yield a rest) = a ∷ received rest
received ended = []
received (raised e) = []

abbrev pub error_of : {A : Type 0} → Yields A → Option Thrown
error_of (yield a rest) = error_of rest
error_of ended = none
error_of (raised e) = some e

-- What the stream brought, and how it ended.
abbrev pub brought : StreamEvents → List (Message QueueMessage)
brought (batch response rest) = response.body.messages ++ brought rest
brought finished = []
brought (failed e) = []

abbrev pub stream_error : StreamEvents → Option Thrown
stream_error (batch response rest) = stream_error rest
stream_error finished = none
stream_error (failed e) = some e

yield_all-received :
    {A : Type 0} (items : List A) (rest : Yields A)
    → (received (yield_all items rest) ≡ items ++ received rest)
      × (error_of (yield_all items rest) ≡ error_of rest)
unfolding yield_all
yield_all-received [] rest = (refl, refl)
yield_all-received (a ∷ items) rest =
    (ap (λ l. a ∷ l) (yield_all-received items rest).0, (yield_all-received items rest).1)

forward-received :
    (events : StreamEvents)
    → (received (forward events) ≡ brought events)
      × (error_of (forward events) ≡ Option.map from (stream_error events))
unfolding forward
forward-received (batch response rest) =
    let all = yield_all-received response.body.messages (forward rest) in
    let later = forward-received rest in
    (all.0 ∙ ap (λ l. response.body.messages ++ l) later.0, all.1 ∙ later.1)
forward-received finished = (refl, refl)
forward-received (failed e) = (refl, refl)

-- The consumer of `streamRead` receives the messages that the response stream brings, each once and in
-- their order. The generator ends as the stream ends, and where the stream fails it throws
-- `PGAppError.from` of the stream's error, after the messages that came before.
pub stream_read-delivers :
    (inner : MqServiceClient) (client : PgAppClient) (queue_name : String)
    (options : StreamReadOptions) (events : StreamEvents)
    → inner.stream_read (plain (stream_read_request queue_name options)) (rpc_options client)
      ≡ events
    → (received (stream_read inner client queue_name options) ≡ brought events)
      × (error_of (stream_read inner client queue_name options)
          ≡ Option.map from (stream_error events))
unfolding stream_read
stream_read-delivers inner client queue_name options events e =
    let all = forward-received events in
    (ap (λ es. received (forward es)) e ∙ all.0, ap (λ es. error_of (forward es)) e ∙ all.1)
